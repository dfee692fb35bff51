-- ===== src/Admission/Leave.antt =====
-- `_CANCEL`, `_EXTEND` and `_SWEEP` keep the admission state consistent.
use boardtrace.Prelude.{
  ltb, Bool-cases, Option-cases, is_some, ℕ, ◌+◌, ◌≡◌, inl, inr, true, some, List, [], ◌∷◌, arith,
}
use boardtrace.Admission.Redis.{
  hget, hset, hdel, members, key_of, hget-hset, hget-hdel, hdel-DistinctKeys, length-hdel,
  hget-key_of, key_of-some,
}
use boardtrace.Admission.Scripts.{
  Keys, wait_seconds, is_value, cancel_waiting, extend_wait, drop_user, is_overdue, expire_one,
  sweep, expire_waiting,
}
use boardtrace.Admission.Invariant.{IsConsistent}

module _ (owner : ℕ → ℕ) where
  -- A job leaves the queue, and its owner is free again.
  leave-IsConsistent :
      (job u : ℕ) (s : Keys)
      → IsConsistent owner s
      → hget u s.users ≡ some job
      → is_some (hget job s.queue) ≡ true
      → IsConsistent owner (record s {
        queue = hdel job s.queue;
        users = hdel u s.users;
        deadlines = hdel job s.deadlines;
        extended = hdel job s.extended;
      })
  leave-IsConsistent job u s v e q = record {
    running_fits = v.running_fits;
    queue_fits = omega (arith, length-hdel job s.queue, v.queue_fits);
    running_distinct = v.running_distinct;
    users_distinct = hdel-DistinctKeys u s.users v.users_distinct;
    running_owned =
        λ j h. ground (arith, hget-hdel (owner j) u s.users, v.running_owned j h, v.apart j h);
    queue_owned = λ j h.
        ground (arith, hget-hdel j job s.queue, hget-hdel (owner j) u s.users, v.queue_owned j);
    users_placed = λ w j h. ground (
      arith,
      hget-hdel w u s.users,
      hget-hdel j job s.queue,
      v.users_placed w j,
      v.users_placed u job e,
    );
    apart = λ j h. ground (arith, hget-hdel j job s.queue, v.apart j);
    deadlines_match = λ j.
        ground (arith, hget-hdel j job s.queue, hget-hdel j job s.deadlines, v.deadlines_match j);
    extended_match = λ j.
        ground (arith, hget-hdel j job s.queue, hget-hdel j job s.extended, v.extended_match j);
    busy = λ h. v.busy (omega (arith, length-hdel job s.queue));
  }

  -- A cancellation by the owner.
  pub cancel_waiting-IsConsistent :
      (job : ℕ) (s : Keys)
      → IsConsistent owner s
      → IsConsistent owner (cancel_waiting job (owner job) s).1
  unfolding cancel_waiting
  cancel_waiting-IsConsistent job s v =
      elim (Bool-cases (is_value job (hget (owner job) s.users))) [
        | inr other ↦ rw other v
        | inl own ↦ elim (Option-cases (hget job s.queue)) [
          | inl absent ↦ rw (own, absent) v
          | inr (score, present) ↦
              rw (own, present)
                (leave-IsConsistent job (owner job) s v (ground arith) (ground arith))
        ]
      ]

  extended-IsConsistent :
      (job d : ℕ) (s : Keys)
      → IsConsistent owner s
      → is_some (hget job s.queue) ≡ true
      → IsConsistent owner
          (record s { deadlines = hset job d s.deadlines; extended = hset job 1 s.extended })
  extended-IsConsistent job d s v q = record {
    running_fits = v.running_fits;
    queue_fits = v.queue_fits;
    running_distinct = v.running_distinct;
    users_distinct = v.users_distinct;
    running_owned = v.running_owned;
    queue_owned = v.queue_owned;
    users_placed = v.users_placed;
    apart = v.apart;
    deadlines_match = λ j. ground (arith, hget-hset j job d s.deadlines, v.deadlines_match j);
    extended_match = λ j. ground (arith, hget-hset j job 1 s.extended, v.extended_match j);
    busy = v.busy;
  }

  -- An extension of the wait.
  pub extend_wait-IsConsistent :
      (job now : ℕ) (s : Keys) → IsConsistent owner s → IsConsistent owner (extend_wait job now s).1
  unfolding extend_wait
  extend_wait-IsConsistent job now s v = elim (Option-cases (hget job s.queue)) [
    | inl absent ↦ rw absent v
    | inr (score, present) ↦ elim (Bool-cases (is_value 0 (hget job s.extended))) [
      | inr spent ↦ rw (present, spent) v
      | inl fresh ↦ elim (Option-cases (hget job s.deadlines)) [
        | inl unset ↦ rw (present, fresh, unset) v
        | inr (d, set) ↦ elim (Bool-cases (ltb d now)) [
          | inl late ↦ rw (present, fresh, set, late) v
          | inr early ↦
              rw (present, fresh, set, early)
                (extended-IsConsistent job (d + wait_seconds) s v (rw present))
        ]
      ]
    ]
  ]

  overdue_waits :
      (job now : ℕ) (s : Keys)
      → IsConsistent owner s
      → is_overdue (hget job s.deadlines) now ≡ true
      → is_some (hget job s.queue) ≡ true
  unfolding is_overdue
  overdue_waits job now s v h = ground (arith, v.deadlines_match job)

  drop_user_of :
      (job : ℕ) (s : Keys)
      → IsConsistent owner s
      → is_some (hget job s.queue) ≡ true
      → drop_user job s.users ≡ hdel (owner job) s.users
  unfolding drop_user
  drop_user_of job s v q = elim (Option-cases (key_of job s.users)) [
    | inl lost ↦ absurd (key_of-some job (owner job) s.users (v.queue_owned job q) lost)
    | inr (u, found) ↦
        ground (arith, v.users_placed u job (hget-key_of job u s.users v.users_distinct found))
  ]

  expire_one-IsConsistent :
      (job : ℕ) (s : Keys)
      → IsConsistent owner s
      → is_some (hget job s.queue) ≡ true
      → IsConsistent owner (expire_one job s)
  unfolding expire_one
  expire_one-IsConsistent job s v q =
      rw (drop_user_of job s v q) (leave-IsConsistent job (owner job) s v (v.queue_owned job q) q)

  sweep-IsConsistent :
      (jobs : List ℕ) (now : ℕ) (s : Keys)
      → IsConsistent owner s
      → IsConsistent owner (sweep jobs now s).1
  unfolding sweep
  sweep-IsConsistent [] now s v = v
  sweep-IsConsistent (job ∷ jobs) now s v =
      elim (Bool-cases (is_overdue (hget job s.deadlines) now)) [
        | inr early ↦ rw early (sweep-IsConsistent jobs now s v)
        | inl late ↦ rw late (
            sweep-IsConsistent jobs now (expire_one job s)
              (expire_one-IsConsistent job s v (overdue_waits job now s v late)))
      ]

  -- The expiry of all that have waited too long.
  pub expire_waiting-IsConsistent :
      (now : ℕ) (s : Keys) → IsConsistent owner s → IsConsistent owner (expire_waiting now s).1
  unfolding expire_waiting
  expire_waiting-IsConsistent now s v = sweep-IsConsistent (members s.queue) now s v
