-- ===== src/Admission/Invariant.antt =====
-- What every script keeps of the admission state. Whose job a job is never changes, and a script
-- is called for a job with its owner's name, as the endpoints and the worker do.
use boardtrace.Prelude.{is_some, length, ℕ, ◌≤◌, ◌<◌, ◌≡◌, refl, ◌⊎◌, true, none, some, arith}
use boardtrace.Admission.Redis.{mem, hget, Distinct, DistinctKeys}
use boardtrace.Admission.Scripts.{Keys, max_active, max_waiting, empty}

module _ (owner : ℕ → ℕ) where
  pub record IsConsistent (s : Keys) : Type 0 where
    pub running_fits : length s.running ≤ max_active
    pub queue_fits : length s.queue ≤ max_waiting
    pub running_distinct : Distinct s.running
    pub users_distinct : DistinctKeys s.users
    pub running_owned : (j : ℕ) → mem j s.running ≡ true → hget (owner j) s.users ≡ some j
    pub queue_owned : (j : ℕ) → is_some (hget j s.queue) ≡ true → hget (owner j) s.users ≡ some j
    pub users_placed :
        (u j : ℕ)
        → hget u s.users ≡ some j
        → (owner j ≡ u) × ((mem j s.running ≡ true) ⊎ (is_some (hget j s.queue) ≡ true))
    pub apart : (j : ℕ) → mem j s.running ≡ true → hget j s.queue ≡ none
    pub deadlines_match : (j : ℕ) → is_some (hget j s.deadlines) ≡ is_some (hget j s.queue)
    pub extended_match : (j : ℕ) → is_some (hget j s.extended) ≡ is_some (hget j s.queue)
    pub busy : 0 < length s.queue → length s.running ≡ max_active

  pub empty-IsConsistent : IsConsistent empty
  unfolding empty mem hget
  empty-IsConsistent = record {
    running_fits = omega arith;
    queue_fits = omega arith;
    running_distinct = tt;
    users_distinct = tt;
    running_owned = λ j h. cc;
    queue_owned = λ j h. cc;
    users_placed = λ u j h. cc;
    apart = λ j h. cc;
    deadlines_match = λ j. refl;
    extended_match = λ j. refl;
    busy = λ h. omega arith;
  }
