-- ===== src/Admission/Deadlines.antt =====
-- How long a job may wait.
use boardtrace.Prelude.{
  if◌then◌else◌, Bool-cases, Option-cases, ℕ, ◌+◌, ◌≤◌, ◌≡◌, refl, inl, inr, true, false, ◌&&◌,
  none, some, List, [], ◌∷◌, arith,
}
use boardtrace.Admission.Line.{mem-members}
use boardtrace.Admission.Redis.{mem, hget, hset, members, hget-hset, hget-hdel}
use boardtrace.Admission.Scripts.{
  Keys, wait_seconds, extend_wait, is_overdue, expire_one, sweep, expire_waiting,
}
use boardtrace.Admission.Invariant.{IsConsistent}

spent_refused :
    (job later : ℕ) (s : Keys) → hget job s.extended ≡ some 1 → extend_wait job later s ≡ (false, s)
unfolding extend_wait
spent_refused job later s e = elim (Option-cases (hget job s.queue)) [
  | inl absent ↦ rw absent refl
  | inr (score, present) ↦ rw (present, e) refl
]

-- An extension that is granted: what the script saw and what it wrote.
granted :
    (job now : ℕ) (s s' : Keys)
    → extend_wait job now s ≡ (true, s')
    → (d : ℕ) × (hget job s.deadlines ≡ some d)
      × (now ≤ d)
      × (s' ≡ record s {
        deadlines = hset job (d + wait_seconds) s.deadlines;
        extended = hset job 1 s.extended;
      })
unfolding extend_wait
granted job now s s' e = elim (Option-cases (hget job s.deadlines)) [
  | inl unset ↦ absurd (ground arith)
  | inr (d, set) ↦ (d, set, ground arith, ground arith)
]

-- A wait is extended once: the second request is refused, at whatever time it comes, and the first
-- has moved the deadline by just one period.
pub extend_wait_once :
    (job now later : ℕ) (s s' : Keys)
    → extend_wait job now s ≡ (true, s')
    → (extend_wait job later s' ≡ (false, s'))
      × (d : ℕ) × (hget job s.deadlines ≡ some d)
      × (now ≤ d)
      × (hget job s'.deadlines ≡ some (d + wait_seconds))
extend_wait_once job now later s s' e =
    let (d, set, early, written) = granted job now s s' e in
    (
      spent_refused job later s' (rw written (ground (arith, hget-hset job job 1 s.extended))),
      d,
      set,
      early,
      ground (arith, written, hget-hset job job (d + wait_seconds) s.deadlines),
    )

sweep_exact :
    (now j : ℕ) (jobs : List ℕ) (s : Keys)
    → let (expired, s') = sweep jobs now s in
      let due = mem j jobs && is_overdue (hget j s.deadlines) now in
      (hget j s'.queue ≡ (if due then none else hget j s.queue)) × (mem j expired ≡ due)
unfolding sweep expire_one mem is_overdue
sweep_exact now j [] s = (refl, refl)
sweep_exact now j (job ∷ jobs) s = elim (Bool-cases (is_overdue (hget job s.deadlines) now)) [
  | inr early ↦ rw early (ground (arith, sweep_exact now j jobs s))
  | inl late ↦ rw late (
      ground (
        arith,
        sweep_exact now j jobs (expire_one job s),
        hget-hdel j job s.queue,
        hget-hdel j job s.deadlines,
      ))
]

module _ (owner : ℕ → ℕ) where
  -- In a consistent state a sweep drops exactly the jobs whose deadline has come, and tells their
  -- names.
  pub expire_waiting_exact :
      (now j : ℕ) (s : Keys)
      → IsConsistent owner s
      → let (expired, s') = expire_waiting now s in
        (hget j s'.queue ≡ (if is_overdue (hget j s.deadlines) now then none else hget j s.queue))
        × (mem j expired ≡ is_overdue (hget j s.deadlines) now)
  unfolding expire_waiting is_overdue
  expire_waiting_exact now j s v =
      let (left, told) = sweep_exact now j (members s.queue) s in
      let same : mem j (members s.queue) && is_overdue (hget j s.deadlines) now
          ≡ is_overdue (hget j s.deadlines) now =
        ground (arith, mem-members j s.queue, v.deadlines_match j) in
      ground (arith, left, told, same)
