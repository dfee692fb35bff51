-- ===== src/Admission/Line.antt =====
-- The queue as a user sees it, a set of active jobs and a line: the scripts implement it.
use boardtrace.Prelude.{
  ltb, ◌==◌, if◌then◌else◌, Bool-cases, is_some, length, any, ℕ, ◌≡◌, refl, inl, inr, Bool, true,
  ◌&&◌, ◌||◌, some, List, [], ◌∷◌, ◌++◌, arith,
}
use boardtrace.Admission.Redis.{mem, srem, Hash, hget, hdel, members, DistinctKeys}
use boardtrace.Admission.Scripts.{Keys, expire_one, sweep, expire_waiting}
use boardtrace.Admission.Calls.{Call, admitting, cancelling, completing, extending, expiring}
use boardtrace.Admission.Order.{without, members-hdel, hdel-absent}

pub record Line : Type 0 where
  pub served : List ℕ
  pub line : List ℕ

-- What is left of the keys when scores, owners and deadlines are forgotten.
abbrev pub view : Keys → Line
view s = record { served = s.running; line = members s.queue }

unfoldable pub without_all : List ℕ → List ℕ → List ℕ
without_all [] xs = xs
without_all (k ∷ ks) xs = without_all ks (without k xs)

-- What happens to a line. `lapse` says which jobs have run out of time.
pub data Event : Type 0 where
  arrive : ℕ → Bool → Event
  leave finish : ℕ → Event
  lapse : List ℕ → Event

module _ (owner : ℕ → ℕ) where
  abbrev pub is_of : ℕ → ℕ → Bool
  is_of job j = owner j == owner job

  unfoldable pub arrival : ℕ → Bool → Line → Line
  arrival job consent l =
      if any (is_of job) l.served || any (is_of job) l.line
      then l
      else if ltb (length l.served) 2
      then record l { served = job ∷ l.served }
      else if consent && ltb (length l.line) 3
      then record l { line = l.line ++ job ∷ [] }
      else l

  unfoldable pub next_in : Line → Line
  next_in l = elim l.line [ [] ↦ l | job ∷ rest ↦ record { served = job ∷ l.served; line = rest } ]

  unfoldable pub happen : Event → Line → Line
  unfolding arrival next_in
  happen (arrive job consent) l = arrival job consent l
  happen (leave job) l = record l { line = without job l.line }
  happen (finish job) l =
      if mem job l.served then next_in (record l { served = srem job l.served }) else l
  happen (lapse jobs) l = record l { line = without_all jobs l.line }

  abbrev pub event : Call → Keys → Event
  event (admitting job consent now) s = arrive job consent
  event (cancelling job) s = leave job
  event (completing job) s = finish job
  event (extending job now) s = lapse []
  event (expiring now) s = lapse (expire_waiting now s).0

pub mem-members : (j : ℕ) (z : Hash) → mem j (members z) ≡ is_some (hget j z)
unfolding mem hget
mem-members j [] = refl
mem-members j ((i, s) ∷ z) = ground (arith, mem-members j z)

pub any-of_mem :
    (p : ℕ → Bool) (j : ℕ) (xs : List ℕ) → mem j xs ≡ true → p j ≡ true → any p xs ≡ true
unfolding mem
any-of_mem p j [] m h = cc
any-of_mem p j (x ∷ xs) m h = ground (arith, any-of_mem p j xs)

pub mem-of_any :
    (p : ℕ → Bool) (xs : List ℕ) → any p xs ≡ true → (j : ℕ) × (mem j xs ≡ true) × (p j ≡ true)
unfolding mem
mem-of_any p [] h = cc
mem-of_any p (x ∷ xs) h = elim (Bool-cases (p x)) [
  | inl here ↦ (x, ground arith, here)
  | inr later ↦ let (j, m, q) = mem-of_any p xs (ground arith) in (j, ground arith, q)
]

pub length-members : (z : Hash) → length (members z) ≡ length z
length-members [] = refl
length-members ((j, s) ∷ z) = ground (arith, length-members z)

-- The first of a queue is in it, and leaves the others.
pub head_apart :
    (j t : ℕ) (z y : Hash)
    → y ≡ (j, t) ∷ z
    → DistinctKeys y
    → (hget j y ≡ some t) × (members (hdel j y) ≡ members z)
unfolding hget hdel
head_apart j t z [] e d = cc
head_apart j t z ((i, u) ∷ y) e d = ground (arith, d.0, hdel-absent i y)

pub sweep_refined :
    (jobs : List ℕ) (now : ℕ) (s : Keys)
    → ((sweep jobs now s).1.running ≡ s.running)
      × (members (sweep jobs now s).1.queue ≡ without_all (sweep jobs now s).0 (members s.queue))
unfolding sweep expire_one without_all
sweep_refined [] now s = (refl, refl)
sweep_refined (job ∷ jobs) now s = ground (
  arith,
  sweep_refined jobs now s,
  sweep_refined jobs now (expire_one job s),
  members-hdel job s.queue,
)
