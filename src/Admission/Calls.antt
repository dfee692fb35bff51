-- ===== src/Admission/Calls.antt =====
-- Sequences of calls of the admission scripts, as Redis runs them one after the other.
use boardtrace.Prelude.{
  is_some, ℕ, ◌+◌, ◌≡◌, ◌⊎◌, inl, inr, Bool, true, none, some, List, [], ◌∷◌, arith,
}
use boardtrace.Admission.Redis.{mem, hget, mem-sadd, hget-hset, zrank-zadd}
use boardtrace.Admission.Scripts.{
  active, waiting, Keys, wait_seconds, activate, enqueue, admit, state, cancel_waiting, extend_wait,
  expire_waiting, complete_active, empty,
}
use boardtrace.Admission.Invariant.{IsConsistent, empty-IsConsistent}
use boardtrace.Admission.Enter.{admit-IsConsistent}
use boardtrace.Admission.Leave.{
  cancel_waiting-IsConsistent, extend_wait-IsConsistent, expire_waiting-IsConsistent,
}
use boardtrace.Admission.Complete.{complete_active-IsConsistent}

-- A call for a job; the user that it names is the job's owner.
pub data Call : Type 0 where
  admitting : ℕ → Bool → ℕ → Call
  cancelling completing : ℕ → Call
  extending : ℕ → ℕ → Call
  expiring : ℕ → Call

module _ (owner : ℕ → ℕ) where
  unfoldable pub call : Call → Keys → Keys
  call (admitting job consent now) s = (admit job (owner job) consent now s).1
  call (cancelling job) s = (cancel_waiting job (owner job) s).1
  call (completing job) s = (complete_active job (owner job) s).1
  call (extending job now) s = (extend_wait job now s).1
  call (expiring now) s = (expire_waiting now s).1

  unfoldable pub calls : List Call → Keys → Keys
  calls [] s = s
  calls (c ∷ cs) s = calls cs (call c s)

  pub call-IsConsistent :
      (c : Call) (s : Keys) → IsConsistent owner s → IsConsistent owner (call c s)
  unfolding call
  call-IsConsistent (admitting job consent now) s v = admit-IsConsistent owner job now consent s v
  call-IsConsistent (cancelling job) s v = cancel_waiting-IsConsistent owner job s v
  call-IsConsistent (completing job) s v = complete_active-IsConsistent owner job s v
  call-IsConsistent (extending job now) s v = extend_wait-IsConsistent owner job now s v
  call-IsConsistent (expiring now) s v = expire_waiting-IsConsistent owner now s v

  calls-IsConsistent_from :
      (cs : List Call) (s : Keys) → IsConsistent owner s → IsConsistent owner (calls cs s)
  unfolding calls
  calls-IsConsistent_from [] s v = v
  calls-IsConsistent_from (c ∷ cs) s v =
      calls-IsConsistent_from cs (call c s) (call-IsConsistent c s v)

  -- Every state that calls reach from the empty one is consistent.
  pub calls-IsConsistent : (cs : List Call) → IsConsistent owner (calls cs empty)
  calls-IsConsistent cs = calls-IsConsistent_from cs empty (empty-IsConsistent owner)

  abbrev pub IsAdmitted : ℕ → Keys → Type 0
  IsAdmitted job s = (mem job s.running ≡ true) ⊎ (is_some (hget job s.queue) ≡ true)

  holder :
      (job : ℕ) (s : Keys)
      → IsConsistent owner s
      → IsAdmitted job s
      → hget (owner job) s.users ≡ some job
  holder job s v (inl a) = v.running_owned job a
  holder job s v (inr w) = v.queue_owned job w

  -- Whatever calls were made, a user has one job in the system at most, and a job is active or
  -- waiting but not both.
  pub one_job_per_user :
      (cs : List Call) (i j : ℕ)
      → IsAdmitted i (calls cs empty)
      → IsAdmitted j (calls cs empty)
      → owner i ≡ owner j
      → (i ≡ j) × ((mem i (calls cs empty).running ≡ true) → hget j (calls cs empty).queue ≡ none)
  one_job_per_user cs i j a b e =
      let v = calls-IsConsistent cs in
      let same : i ≡ j =
        ground (arith, holder i (calls cs empty) v a, holder j (calls cs empty) v b) in
      (same, λ m. ground (arith, v.apart i m))

  admitted_free :
      (job now : ℕ) (consent : Bool) (s : Keys)
      → ((admit job (owner job) consent now s).0.outcome ≡ active)
        ⊎ ((admit job (owner job) consent now s).0.outcome ≡ waiting)
      → hget (owner job) s.users ≡ none
  unfolding admit
  admitted_free job now consent s o = ground arith

  -- An admission that is granted holds: asked for the job's state at once, the queue gives the
  -- same answer, with the same place and the same deadline.
  pub admit-state :
      (job now : ℕ) (consent : Bool) (cs : List Call)
      → let (d, s) = admit job (owner job) consent now (calls cs empty) in
        (d.outcome ≡ active) ⊎ (d.outcome ≡ waiting) → state job s ≡ some d
  unfolding admit state enqueue activate
  admit-state job now consent cs o =
      let s = calls cs empty in
      let v = calls-IsConsistent cs in
      let free = admitted_free job now consent s o in
      ground (
        arith,
        free,
        v.running_owned job,
        mem-sadd job job s.running,
        zrank-zadd job (s.sequence + 1) s.queue,
        hget-hset job job (now + wait_seconds) s.deadlines,
      )
