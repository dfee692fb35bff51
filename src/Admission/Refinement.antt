-- ===== src/Admission/Refinement.antt =====
-- The scripts implement the queue as a user sees it.
use boardtrace.Admission.Calls.{
  Call, admitting, cancelling, completing, extending, expiring, call, calls, call-IsConsistent,
}
use boardtrace.Admission.Invariant.{IsConsistent, empty-IsConsistent}
use boardtrace.Admission.Order.{
  without, members-hdel, distinct_hdel, IsOrdered, zadd_last, call-IsOrdered,
}
use boardtrace.Admission.Redis.{mem, sadd, srem, Hash, hget, members, mem-srem}
use boardtrace.Admission.Scripts.{
  Keys, activate, enqueue, admit, cancel_waiting, extend_wait, expire_waiting, promote, release,
  complete_active, empty,
}
use boardtrace.Prelude.{
  if◌then◌else◌, Bool-cases, Option-cases, is_some, any, ℕ, ◌≡◌, refl, ap, ◌∙◌, inl, inr, Bool,
  ◌||◌, List, [], ◌∷◌, arith,
}
use boardtrace.Admission.Line.{
  Line, view, without_all, Event, is_of, arrival, next_in, happen, event, mem-members, any-of_mem,
  mem-of_any, length-members, head_apart, sweep_refined,
}

module _ (owner : ℕ → ℕ) (s : Keys) (v : IsConsistent owner s) (o : IsOrdered s) where
  busy-any :
      (job : ℕ)
      → is_some (hget (owner job) s.users)
        ≡ (any (is_of owner job) s.running || any (is_of owner job) (members s.queue))
  busy-any job =
      let u = owner job in
      elim (Bool-cases (any (is_of owner job) s.running)) [
        | inl r ↦
            let (j, m, q) = mem-of_any (is_of owner job) s.running r in
            ground (arith, v.running_owned j m)
        | inr r ↦ elim (Bool-cases (any (is_of owner job) (members s.queue))) [
          | inl w ↦
              let (j, m, q) = mem-of_any (is_of owner job) (members s.queue) w in
              ground (arith, v.queue_owned j, mem-members j s.queue)
          | inr w ↦ elim (Option-cases (hget u s.users)) [
            | inl gone ↦ rw (r, w, gone) refl
            | inr (j, held) ↦
                let (own, found) = v.users_placed u j held in
                elim found [
                  | inl m ↦ ground (arith, any-of_mem (is_of owner job) j s.running m)
                  | inr m ↦ ground (
                    arith,
                    any-of_mem (is_of owner job) j (members s.queue),
                    mem-members j s.queue,
                  )
                ]
          ]
        ]
      ]

  arrival_refined :
      (job now : ℕ) (consent : Bool)
      → view (admit job (owner job) consent now s).1 ≡ arrival owner job consent (view s)
  unfolding admit arrival enqueue activate sadd
  arrival_refined job now consent = ground (
    arith,
    busy-any job,
    v.running_owned job,
    v.queue_owned job,
    length-members s.queue,
    zadd_last job s o,
  )

  head_refined :
      (job : ℕ) (z : Hash)
      → s.queue ≡ z
      → view (release (owner job) (record s { running = srem job s.running })).1
        ≡ next_in owner (record (view s) { served = srem job s.running })
  unfolding next_in release promote sadd
  head_refined job [] e = ground arith
  head_refined job ((next, t) ∷ z) e =
      let (waits, left) = head_apart next t z s.queue e o.distinct in
      rw (e, release)
        (ground (arith, waits, left, ap members e, v.apart next, mem-srem next job s.running))

  next_refined :
      (job : ℕ)
      → view (release (owner job) (record s { running = srem job s.running })).1
        ≡ next_in owner (record (view s) { served = srem job s.running })
  unfolding next_in release promote sadd
  next_refined job = head_refined job s.queue refl

  leave_refined :
      (job : ℕ)
      → view (cancel_waiting job (owner job) s).1
        ≡ record (view s) { line = without job (members s.queue) }
  unfolding cancel_waiting
  leave_refined job =
      ground (arith, v.queue_owned job, distinct_hdel job s.queue, members-hdel job s.queue)

  finish_refined :
      (job : ℕ)
      → view (complete_active job (owner job) s).1 ≡ (
          if mem job s.running
          then next_in owner (record (view s) { served = srem job s.running })
          else view s)
  unfolding complete_active
  finish_refined job = ground (arith, v.running_owned job, next_refined job)

module _ (owner : ℕ → ℕ) where
  -- What a call does to the keys is what its event does to the line.
  call_refined :
      (c : Call) (s : Keys)
      → IsConsistent owner s
      → IsOrdered s
      → view (call owner c s) ≡ happen owner (event owner c s) (view s)
  unfolding call happen extend_wait without_all expire_waiting
  call_refined (admitting job consent now) s v o = arrival_refined owner s v o job now consent
  call_refined (cancelling job) s v o = leave_refined owner s v o job
  call_refined (completing job) s v o = finish_refined owner s v o job
  call_refined (extending job now) s v o = ground arith
  call_refined (expiring now) s v o = ground (arith, sweep_refined (members s.queue) now s)

  -- The events of a sequence of calls, in the same order.
  pub events : List Call → Keys → List Event
  events [] s = []
  events (c ∷ cs) s = event owner c s ∷ events cs (call owner c s)

  pub happen_all : List Event → Line → Line
  happen_all [] l = l
  happen_all (e ∷ es) l = happen_all es (happen owner e l)

  calls_refined_from :
      (cs : List Call) (s : Keys)
      → IsConsistent owner s
      → IsOrdered s
      → view (calls owner cs s) ≡ happen_all (events cs s) (view s)
  unfolding calls events happen_all
  calls_refined_from [] s v o = refl
  calls_refined_from (c ∷ cs) s v o =
      calls_refined_from cs (call owner c s) (call-IsConsistent owner c s v)
        (call-IsOrdered owner c s o)
      ∙ ap (happen_all (events cs (call owner c s))) (call_refined c s v o)

  -- From the empty state, any calls of the scripts leave in the six keys the active jobs and the
  -- waiting line that their events leave in the queue as a user sees it.
  pub calls_refined :
      (cs : List Call) → view (calls owner cs empty) ≡ happen_all (events cs empty) (view empty)
  unfolding empty
  calls_refined cs =
      calls_refined_from cs empty (empty-IsConsistent owner)
        (record { rising = omega arith; distinct = tt })
