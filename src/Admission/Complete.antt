-- ===== src/Admission/Complete.antt =====
-- `_COMPLETE` keeps the admission state consistent.
use boardtrace.Prelude.{
  ◌==◌, Bool-cases, is_some, length, ℕ, ◌<◌, ◌≡◌, refl, inl, inr, true, false, List, [], ◌∷◌, arith,
}
use boardtrace.Admission.Redis.{
  mem, sadd, srem, hget, hdel, members, mem-srem, mem-sadd, hget-hdel, srem-Distinct, sadd-Distinct,
  length-srem, length-sadd, hdel-DistinctKeys, length-hdel, members-nil, members-cons,
}
use boardtrace.Admission.Scripts.{Keys, promote, release, complete_active}
use boardtrace.Admission.Invariant.{IsConsistent}

module _ (owner : ℕ → ℕ) where
  same_job : (n : ℕ) → (n == n) ≡ true
  same_job n = ground arith

  drained-IsConsistent :
      (job : ℕ) (s : Keys)
      → IsConsistent owner s
      → mem job s.running ≡ true
      → s.queue ≡ []
      → IsConsistent owner
          (record s { running = srem job s.running; users = hdel (owner job) s.users })
  drained-IsConsistent job s v own none_waits = record {
    running_fits = omega (arith, length-srem job s.running v.running_distinct own, v.running_fits);
    queue_fits = v.queue_fits;
    running_distinct = srem-Distinct job s.running v.running_distinct;
    users_distinct = hdel-DistinctKeys (owner job) s.users v.users_distinct;
    running_owned = λ j h. ground (
      arith,
      mem-srem j job s.running,
      hget-hdel (owner j) (owner job) s.users,
      v.running_owned j,
      v.running_owned job own,
    );
    queue_owned = λ j h. ground (
      arith,
      hget-hdel (owner j) (owner job) s.users,
      v.queue_owned j h,
      v.running_owned job own,
      v.apart job own,
    );
    users_placed = λ w j h.
        ground
          (arith, hget-hdel w (owner job) s.users, mem-srem j job s.running, v.users_placed w j);
    apart = λ j h. ground (arith, mem-srem j job s.running, v.apart j);
    deadlines_match = v.deadlines_match;
    extended_match = v.extended_match;
    busy = λ h. ground (arith, none_waits);
  }

  promoted-IsConsistent :
      (job next : ℕ) (s : Keys)
      → IsConsistent owner s
      → mem job s.running ≡ true
      → is_some (hget next s.queue) ≡ true
      → 0 < length s.queue
      → IsConsistent owner (
          promote next
            (record s { running = srem job s.running; users = hdel (owner job) s.users }))
  unfolding promote
  promoted-IsConsistent job next s v own waits some_wait = record {
    running_fits = ground (arith, sizes);
    queue_fits = omega (arith, length-hdel next s.queue, v.queue_fits);
    running_distinct =
        sadd-Distinct next (srem job s.running) (srem-Distinct job s.running v.running_distinct);
    users_distinct = hdel-DistinctKeys (owner job) s.users v.users_distinct;
    running_owned = λ j h. ground (
      arith,
      mem-sadd j next (srem job s.running),
      mem-srem j job s.running,
      hget-hdel (owner j) (owner job) s.users,
      v.running_owned j,
      v.running_owned job own,
      v.queue_owned next waits,
      v.apart job own,
    );
    queue_owned = λ j h. ground (
      arith,
      hget-hdel j next s.queue,
      hget-hdel (owner j) (owner job) s.users,
      v.queue_owned j,
      v.running_owned job own,
      v.apart job own,
    );
    users_placed = λ w j h. ground (
      arith,
      hget-hdel w (owner job) s.users,
      mem-sadd j next (srem job s.running),
      mem-srem j job s.running,
      hget-hdel j next s.queue,
      v.users_placed w j,
    );
    apart = λ j h. ground (
      arith,
      mem-sadd j next (srem job s.running),
      mem-srem j job s.running,
      hget-hdel j next s.queue,
      v.apart j,
    );
    deadlines_match = λ j.
        ground (arith, hget-hdel j next s.queue, hget-hdel j next s.deadlines, v.deadlines_match j);
    extended_match = λ j.
        ground (arith, hget-hdel j next s.queue, hget-hdel j next s.extended, v.extended_match j);
    busy = λ h. ground (arith, sizes, v.busy some_wait);
  }
    where
      next_idle : mem next (srem job s.running) ≡ false
      next_idle = ground (arith, mem-srem next job s.running, v.apart next)

      sizes : length (sadd next (srem job s.running)) ≡ length s.running
      sizes = omega (
        arith,
        length-sadd next (srem job s.running) next_idle,
        length-srem job s.running v.running_distinct own,
      )

  release-IsConsistent :
      (job : ℕ) (s : Keys)
      → IsConsistent owner s
      → mem job s.running ≡ true
      → (waiting_jobs : List ℕ) → members s.queue ≡ waiting_jobs
      → IsConsistent owner (release (owner job) (record s { running = srem job s.running })).1
  unfolding release
  release-IsConsistent job s v own [] e =
      rw (e, release) (drained-IsConsistent job s v own (members-nil s.queue e))
  release-IsConsistent job s v own (next ∷ rest) e =
      let (waits, some_wait) = members-cons next rest s.queue e in
      rw (e, release) (promoted-IsConsistent job next s v own waits some_wait)

  -- The completion of a job, with the promotion of the next.
  pub complete_active-IsConsistent :
      (job : ℕ) (s : Keys)
      → IsConsistent owner s
      → IsConsistent owner (complete_active job (owner job) s).1
  unfolding complete_active
  complete_active-IsConsistent job s v = elim (Bool-cases (mem job s.running)) [
    | inr other ↦ rw other v
    | inl own ↦
        rw (own, v.running_owned job own)
          (rw (same_job job) (release-IsConsistent job s v own (members s.queue) refl))
  ]
