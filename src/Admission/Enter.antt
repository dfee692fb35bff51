-- ===== src/Admission/Enter.antt =====
-- `_ADMIT` keeps the admission state consistent.
use boardtrace.Prelude.{
  ltb, leb, Bool-cases, Option-cases, length, ℕ, ◌+◌, ◌≤◌, ◌<◌, ◌≡◌, inl, inr, Bool, false, none,
  arith,
}
use boardtrace.Admission.Redis.{
  mem, hget, mem-sadd, hget-hset, hget-zadd, sadd-Distinct, length-sadd, hset-DistinctKeys,
  length-zadd,
}
use boardtrace.Admission.Scripts.{
  Keys, max_active, max_waiting, wait_seconds, activate, enqueue, admit,
}
use boardtrace.Admission.Invariant.{IsConsistent}

module _ (owner : ℕ → ℕ) where
  module _ (job now : ℕ) (s : Keys) (v : IsConsistent owner s)
      (free : hget (owner job) s.users ≡ none) where
    free_running : mem job s.running ≡ false
    free_running = ground (arith, v.running_owned job)

    free_queue : hget job s.queue ≡ none
    free_queue = ground (arith, v.queue_owned job)

    activate-IsConsistent :
        length s.running < max_active → IsConsistent owner (activate job (owner job) s)
    unfolding activate
    activate-IsConsistent room = record {
      running_fits = omega (arith, length-sadd job s.running free_running);
      queue_fits = v.queue_fits;
      running_distinct = sadd-Distinct job s.running v.running_distinct;
      users_distinct = hset-DistinctKeys (owner job) job s.users v.users_distinct;
      running_owned = λ j h. ground (
        arith,
        mem-sadd j job s.running,
        hget-hset (owner j) (owner job) job s.users,
        v.running_owned j,
      );
      queue_owned = λ j h.
          ground (arith, hget-hset (owner j) (owner job) job s.users, v.queue_owned j, free_queue);
      users_placed = λ u j h. ground (
        arith,
        mem-sadd j job s.running,
        hget-hset u (owner job) job s.users,
        v.users_placed u j,
      );
      apart = λ j h. ground (arith, mem-sadd j job s.running, v.apart j, free_queue);
      deadlines_match = v.deadlines_match;
      extended_match = v.extended_match;
      busy = λ h. ground (arith, v.busy h);
    }

    enqueue-IsConsistent :
        length s.running ≡ max_active
        → length s.queue < max_waiting
        → IsConsistent owner (enqueue job (owner job) now s)
    unfolding enqueue
    enqueue-IsConsistent full room = record {
      running_fits = v.running_fits;
      queue_fits = omega (arith, length-zadd job (s.sequence + 1) s.queue);
      running_distinct = v.running_distinct;
      users_distinct = hset-DistinctKeys (owner job) job s.users v.users_distinct;
      running_owned = λ j h.
          ground
            (arith, hget-hset (owner j) (owner job) job s.users, v.running_owned j, free_running);
      queue_owned = λ j h. ground (
        arith,
        hget-zadd j job (s.sequence + 1) s.queue,
        hget-hset (owner j) (owner job) job s.users,
        v.queue_owned j,
      );
      users_placed = λ u j h. ground (
        arith,
        hget-zadd j job (s.sequence + 1) s.queue,
        hget-hset u (owner job) job s.users,
        v.users_placed u j,
      );
      apart =
          λ j h. ground (arith, hget-zadd j job (s.sequence + 1) s.queue, v.apart j, free_running);
      deadlines_match = λ j. ground (
        arith,
        hget-zadd j job (s.sequence + 1) s.queue,
        hget-hset j job (now + wait_seconds) s.deadlines,
        v.deadlines_match j,
      );
      extended_match = λ j. ground (
        arith,
        hget-zadd j job (s.sequence + 1) s.queue,
        hget-hset j job 0 s.extended,
        v.extended_match j,
      );
      busy = λ h. full;
    }

  full_length : {n : ℕ} → ltb n max_active ≡ false → max_active ≤ n
  full_length h = ground arith

  -- No script call leads out of the consistent states: admission of a job for its owner.
  pub admit-IsConsistent :
      (job now : ℕ) (consent : Bool) (s : Keys)
      → IsConsistent owner s
      → IsConsistent owner (admit job (owner job) consent now s).1
  unfolding admit
  admit-IsConsistent job now consent s v = elim (Option-cases (hget (owner job) s.users)) [
    | inr (j, e) ↦ rw e v
    | inl free ↦ elim (Bool-cases (ltb (length s.running) max_active)) [
      | inl room ↦ rw (free, room) (activate-IsConsistent job now s v free (ground arith))
      | inr full ↦
          rw (free, full)
            (elim (Bool-cases consent) [
              | inr refused ↦ rw refused v
              | inl agreed ↦ elim (Bool-cases (leb max_waiting (length s.queue))) [
                | inl crowded ↦ rw (agreed, crowded) v
                | inr room ↦
                    rw (agreed, room)
                      (enqueue-IsConsistent job now s v free
                        (omega (arith, v.running_fits, full_length full)) (ground arith))
              ]
            ])
    ]
  ]
