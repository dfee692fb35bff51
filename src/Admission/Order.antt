-- ===== src/Admission/Order.antt =====
-- First come, first served: the waiting jobs stand in the order of their arrival.
use boardtrace.Prelude.{
  leb, ◌==◌, if◌then◌else◌, Bool-cases, length, ℕ, ◌+◌, ◌≤◌, ◌<◌, ◌≡◌, refl, ap, inl, inr, true,
  none, some, List, [], ◌∷◌, ◌++◌, arith,
}
use boardtrace.Admission.Redis.{
  srem, Hash, hget, hdel, insert_scored, zadd, zrank, members, hget-hdel, hget-insert_scored,
  DistinctKeys, hdel-DistinctKeys,
}
use boardtrace.Admission.Scripts.{
  Keys, activate, enqueue, admit, cancel_waiting, extend_wait, is_overdue, expire_one, sweep,
  expire_waiting, promote, release, complete_active,
}
use boardtrace.Admission.Calls.{Call, admitting, cancelling, completing, extending, expiring, call}

-- The scores rise along the queue, from above `low` up to `top`.
abbrev pub Rising : ℕ → ℕ → Hash → Type 0
Rising low top [] = low ≤ top
Rising low top ((_, s) ∷ z) = (low < s) × Rising s top z

Rising-lower : (a b top : ℕ) (z : Hash) → a ≤ b → Rising b top z → Rising a top z
Rising-lower a b top [] h r = omega arith
Rising-lower a b top ((_, s) ∷ z) h r = (omega arith, r.1)

Rising-le : (low top : ℕ) (z : Hash) → Rising low top z → low ≤ top
Rising-le low top [] r = r
Rising-le low top ((_, s) ∷ z) r = omega (arith, r.0, Rising-le s top z r.1)

hdel-Rising : (k low top : ℕ) (z : Hash) → Rising low top z → Rising low top (hdel k z)
unfolding hdel
hdel-Rising k low top [] r = r
hdel-Rising k low top ((j, s) ∷ z) r =
    ground (arith, hdel-Rising k s top z r.1, Rising-lower low s top (hdel k z))

insert_last :
    (k s low top : ℕ) (z : Hash)
    → Rising low top z
    → top < s
    → Rising low s (insert_scored k s z)
      × (members (insert_scored k s z) ≡ members z ++ k ∷ [])
      × (hget k z ≡ none → zrank k (insert_scored k s z) ≡ some (length z))
unfolding insert_scored zrank hget
insert_last k s low top [] r h = (ground arith, refl, λ _. ground arith)
insert_last k s low top ((j, t) ∷ z) r h =
    let (rising, last, rank) = insert_last k s t top z r.1 h in
    let early : leb t s ≡ true = ground (arith, Rising-le t top z r.1) in
    rw early ((r.0, rising), ap (λ l. j ∷ l) last, λ fresh. ground (arith, rank))

-- A queue without its scores, in the order of arrival.
unfoldable pub without : ℕ → List ℕ → List ℕ
without k [] = []
without k (x ∷ xs) = let rest = without k xs in if x == k then rest else x ∷ rest

pub members-hdel : (k : ℕ) (z : Hash) → members (hdel k z) ≡ without k (members z)
unfolding hdel without
members-hdel k [] = refl
members-hdel k ((j, s) ∷ z) = ground (arith, members-hdel k z)

pub hdel-absent : (k : ℕ) (z : Hash) → hget k z ≡ none → hdel k z ≡ z
unfolding hget hdel
hdel-absent k [] h = refl
hdel-absent k ((j, s) ∷ z) h = ground (arith, hdel-absent k z)

pub distinct_hdel : (k : ℕ) (z : Hash) → hget k z ≡ none → without k (members z) ≡ members z
unfolding hget without
distinct_hdel k [] h = refl
distinct_hdel k ((j, s) ∷ z) h = ground (arith, distinct_hdel k z)

insert-DistinctKeys :
    (k s : ℕ) (z : Hash) → hget k z ≡ none → DistinctKeys z → DistinctKeys (insert_scored k s z)
unfolding insert_scored hget
insert-DistinctKeys k s [] h d = (refl, tt)
insert-DistinctKeys k s ((j, t) ∷ z) h d =
    ground (arith, insert-DistinctKeys k s z, hget-insert_scored j k s z)

-- What every call keeps of the queue.
pub record IsOrdered (s : Keys) : Type 0 where
  pub rising : Rising 0 s.sequence s.queue
  pub distinct : DistinctKeys s.queue

hdel-IsOrdered :
    (k : ℕ) (s s' : Keys)
    → s'.queue ≡ hdel k s.queue
    → s'.sequence ≡ s.sequence
    → IsOrdered s
    → IsOrdered s'
hdel-IsOrdered k s s' q n o = record {
  rising = rw (q, n) (hdel-Rising k 0 s.sequence s.queue o.rising);
  distinct = rw q (hdel-DistinctKeys k s.queue o.distinct);
}

-- A job that joins the queue stands behind all others.
pub zadd_last :
    (k : ℕ) (s : Keys)
    → IsOrdered s
    → hget k s.queue ≡ none
    → (members (zadd k (s.sequence + 1) s.queue) ≡ members s.queue ++ k ∷ [])
      × (zrank k (zadd k (s.sequence + 1) s.queue) ≡ some (length s.queue))
unfolding zadd
zadd_last k s o free =
    let same : hdel k s.queue ≡ s.queue = hdel-absent k s.queue free in
    let (_, last, rank) =
      insert_last k (s.sequence + 1) 0 s.sequence s.queue o.rising (omega arith) in
    rw same (last, rank free)

enqueue-IsOrdered : (job user now : ℕ) (s : Keys) → IsOrdered s → IsOrdered (enqueue job user now s)
unfolding enqueue zadd
enqueue-IsOrdered job user now s o = record {
  rising =
      (insert_last job (s.sequence + 1) 0 s.sequence (hdel job s.queue)
        (hdel-Rising job 0 s.sequence s.queue o.rising) (omega arith)).0;
  distinct =
      insert-DistinctKeys job (s.sequence + 1) (hdel job s.queue)
        (ground (arith, hget-hdel job job s.queue)) (hdel-DistinctKeys job s.queue o.distinct);
}

sweep-IsOrdered :
    (jobs : List ℕ) (now : ℕ) (s : Keys) → IsOrdered s → IsOrdered (sweep jobs now s).1
unfolding sweep expire_one
sweep-IsOrdered [] now s o = o
sweep-IsOrdered (job ∷ jobs) now s o = elim (Bool-cases (is_overdue (hget job s.deadlines) now)) [
  | inr early ↦ rw early (sweep-IsOrdered jobs now s o)
  | inl late ↦
      rw late (sweep-IsOrdered jobs now (expire_one job s) (hdel-IsOrdered job s _ refl refl o))
]

promote-IsOrdered : (job : ℕ) (s : Keys) → IsOrdered s → IsOrdered (promote job s)
unfolding promote
promote-IsOrdered job s o = hdel-IsOrdered job s _ refl refl o

release-IsOrdered :
    (user : ℕ) (s : Keys) (waiting_jobs : List ℕ)
    → members s.queue ≡ waiting_jobs
    → IsOrdered s
    → IsOrdered (release user s).1
unfolding release
release-IsOrdered user s [] e o =
    rw (e, release) (record { rising = o.rising; distinct = o.distinct })
release-IsOrdered user s (next ∷ rest) e o =
    rw (e, release) (promote-IsOrdered next _ (record { rising = o.rising; distinct = o.distinct }))

pub call-IsOrdered :
    (owner : ℕ → ℕ) (c : Call) (s : Keys) → IsOrdered s → IsOrdered (call owner c s)
unfolding call admit cancel_waiting complete_active extend_wait expire_waiting activate
call-IsOrdered owner (admitting job consent now) s o =
    ground (arith, enqueue-IsOrdered job (owner job) now s o)
call-IsOrdered owner (cancelling job) s o =
    ground (
      arith,
      hdel-Rising job 0 s.sequence s.queue o.rising,
      hdel-DistinctKeys job s.queue o.distinct,
    )
call-IsOrdered owner (completing job) s o = ground (
  arith,
  release-IsOrdered (owner job) (record s { running = srem job s.running }) (members s.queue) refl
      (record { rising = o.rising; distinct = o.distinct }),
)
call-IsOrdered owner (extending job now) s o = ground arith
call-IsOrdered owner (expiring now) s o = sweep-IsOrdered (members s.queue) now s o
