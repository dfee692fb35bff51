-- ===== src/Results/Authority.antt =====
-- Who completes an analysis, and what a completion is: `persist_and_complete_owned_generation` of
-- services/analysis_results.py under apps/api/src/boardtrace_api.
use boardtrace.Prelude.{
  ◌==◌, Bool-cases, Option-cases, is_some, filter, find, count, find-true, Result, ok, err,
  Result-cases, All-everything, find-narrow, ℕ, ◌≡◌, refl, sym, ap, ◌∙◌, ◌⊎◌, inl, inr, Bool, true,
  false, not, none, some, List, [], ◌∷◌, arith,
}
use boardtrace.Jobs.Row.{AnalysisJob, text_is}
use boardtrace.Jobs.Table.{get_by_id}
use boardtrace.Results.Rows.{
  Game, GameChild, AnalysisRun, Database, Uuid5, analysis_run_id, get_game, get_run,
}
use boardtrace.Results.Transactions.{Staged, execute}
use boardtrace.Results.Replace.{StoreError, OwnedGeneration, owns_generation, arguments_checked}
use boardtrace.Results.Complete.{
  published, published_before, is_authoritative, get_idempotent_available_generation, may_publish,
  anonymous, complete_owned_generation, persist_and_complete, persist_and_complete_owned_generation,
}
use boardtrace.Results.Replaced.{replaced-get_run}
use boardtrace.Results.Published.{Publication, complete_owned_generation-Publication}
use boardtrace.FullGame.Replay.{may_run}
use boardtrace.Jobs.Status.{running, succeeded}
use boardtrace.Jobs.Operations.{expired}

-- A transaction answers with what its operation wrote, when nothing raises, or leaves the
-- database as it was.
pub execute_cases :
    {E A : Type 0} (before_commit commit : Result E Unit) (operation : Staged E A) (d : Database)
    → ((a : A) × (e : Database) × (operation d ≡ ok (a, e))
        × (before_commit ≡ ok tt)
        × (commit ≡ ok tt)
        × (execute before_commit commit operation d ≡ (ok a, e)))
      ⊎ ((x : E) × (execute before_commit commit operation d ≡ (err x, d)))
unfolding execute
execute_cases (err x) commit operation d = elim (Result-cases (operation d)) [
  | inr (y, bad) ↦ inr (y, rw bad refl)
  | inl (_, good) ↦ inr (x, rw good refl)
]
execute_cases (ok u) (err x) operation d = elim (Result-cases (operation d)) [
  | inr (y, bad) ↦ inr (y, rw bad refl)
  | inl (_, good) ↦ inr (x, rw good refl)
]
execute_cases (ok u) (ok v) operation d = elim (Result-cases (operation d)) [
  | inr (y, bad) ↦ inr (y, rw bad refl)
  | inl ((a, e), good) ↦ inl (a, e, good, refl, refl, rw good refl)
]

-- None of the rows that are kept passes the test of those that are deleted.
pub count-filter-not :
    {A : Type 0} (p : A → Bool) (xs : List A) → count p (filter (λ x. not (p x)) xs) ≡ 0
count-filter-not p [] = refl
count-filter-not p (x ∷ xs) = elim (Bool-cases (p x)) [
  | inl hit ↦ ground (arith, count-filter-not p xs)
  | inr miss ↦ ground (arith, count-filter-not p xs)
]

none_left :
    (before : List GameChild) (k n : ℕ)
    → k ≡ n
    → (after : List GameChild) → after ≡ filter (λ (c : GameChild). not (c.game_id == n)) before
    → count (λ (c : GameChild). c.game_id == k) after ≡ 0
none_left before k n same after is =
    rw (is, sym same) (count-filter-not (λ (c : GameChild). c.game_id == k) before)

module _ (uuid5 : Uuid5) where
  found-is_authoritative :
      (g : OwnedGeneration) (d : Database) {run : AnalysisRun} {e : Database}
      → Publication uuid5 g d run e
      → (row : AnalysisJob) → (get_by_id g.job_id e.jobs ≡ some row)
      → find (is_authoritative uuid5 row g.lease_generation) e.runs ≡ some run
  unfolding may_publish is_authoritative get_run get_by_id
  found-is_authoritative g d {run} {e} p row found =
      let (there, named, _, _, _, _) = replaced-get_run uuid5 p.replaced in
      let same : p.row ≡ row = ground (arith, p.completed) in
      let hit = find-true (λ (j : AnalysisJob). j.id == g.job_id) e.jobs found in
      find-narrow (λ (r : AnalysisRun). r.id == analysis_run_id uuid5 g.job_id g.lease_generation)
        (is_authoritative uuid5 row g.lease_generation) e.runs {a = run}
        (All-everything _ e.runs (λ r h. ground arith)) (ap (get_run _) p.runs_kept ∙ there)
        (ground (arith, p.permitted, p.succeeded_row))

  -- What a completion leaves is what a repeated call looks for.
  Publication-available :
      (g : OwnedGeneration) (d : Database) {run : AnalysisRun} {e : Database}
      → Publication uuid5 g d run e
      → get_idempotent_available_generation uuid5 g.job_id g.lease_generation e ≡ some run
  unfolding may_publish published_before anonymous get_idempotent_available_generation
  Publication-available g d {run} {e} p =
      let seen : published_before p.row (anonymous (published g.finished_at p.game))
            g.lease_generation e.jobs
          ≡ true =
        ground (arith, p.permitted, p.succeeded_row, p.late_jobs) in
      rw
        (
          get_idempotent_available_generation,
          p.completed,
          p.released,
          seen,
          found-is_authoritative g d p p.row p.completed,
        )
        refl

  persist_and_complete-available :
      (g : OwnedGeneration) (d : Database) {run : AnalysisRun} {e : Database}
      → persist_and_complete uuid5 g d ≡ ok (run, e)
      → get_idempotent_available_generation uuid5 g.job_id g.lease_generation e ≡ some run
  unfolding persist_and_complete
  persist_and_complete-available g d {run} {e} h =
      elim (Option-cases
        (get_idempotent_available_generation uuid5 g.job_id g.lease_generation d)) [
          | inl absent ↦
              Publication-available g d
                (complete_owned_generation-Publication uuid5 g d (ground arith))
          | inr (existing, there) ↦
              let kept : d ≡ e = ground arith in
              let same : existing ≡ run = ground arith in rw (sym kept, sym same) there
        ]

  -- How a call ends.
  pub completion_cases :
      (before_commit commit : Result StoreError Unit) (g : OwnedGeneration) (d : Database)
      → ((run : AnalysisRun) × (e : Database) × (persist_and_complete uuid5 g d ≡ ok (run, e))
          × (before_commit ≡ ok tt)
          × (commit ≡ ok tt)
          × (persist_and_complete_owned_generation uuid5 before_commit commit g d ≡ (ok run, e)))
        ⊎ ((x : StoreError) × (persist_and_complete_owned_generation uuid5 before_commit commit g d
              ≡ (err x, d)))
  unfolding persist_and_complete_owned_generation
  completion_cases before_commit commit g d = elim (Result-cases (arguments_checked g)) [
    | inr (x, bad) ↦ inr (x, rw (persist_and_complete_owned_generation, bad) refl)
    | inl (_, good) ↦ elim (execute_cases before_commit commit (persist_and_complete uuid5 g) d) [
      | inr (x, is) ↦ inr (x, rw (persist_and_complete_owned_generation, good, is) refl)
      | inl (run, e, staged, b, c, is) ↦
          inl (run, e, staged, b, c, rw (persist_and_complete_owned_generation, good, is) refl)
    ]
  ]

  -- A call that answers with a run has staged it.
  completion_staged :
      (before_commit commit : Result StoreError Unit) (g : OwnedGeneration) (d : Database)
      {run : AnalysisRun} {e : Database}
      → persist_and_complete_owned_generation uuid5 before_commit commit g d ≡ (ok run, e)
      → persist_and_complete uuid5 g d ≡ ok (run, e)
  completion_staged before_commit commit g d {run} {e} h =
      elim (completion_cases before_commit commit g d) [
        | inr (x, is) ↦ absurd (ground arith)
        | inl (run1, e1, staged, _, _, is) ↦
            let same : run1 ≡ run = ground arith in
            let same_e : e1 ≡ e = ground arith in rw (sym same, sym same_e) staged
      ]

  -- Whatever the hook before the commit and the commit do: either a call answers with a run, both
  -- have succeeded, and the run is the published run of the generation, its job succeeded and its
  -- game available; or the call raises and the database is as it was.
  pub completed_or_unchanged :
      (before_commit commit : Result StoreError Unit) (g : OwnedGeneration) (d : Database)
      → let (answer, e) = persist_and_complete_owned_generation uuid5 before_commit commit g d in
        ((run : AnalysisRun) × (answer ≡ ok run)
          × (before_commit ≡ ok tt)
          × (commit ≡ ok tt)
          × (get_idempotent_available_generation uuid5 g.job_id g.lease_generation e ≡ some run))
        ⊎ ((x : StoreError) × (answer ≡ err x) × (e ≡ d))
  completed_or_unchanged before_commit commit g d =
      elim (completion_cases before_commit commit g d) [
        | inr (x, is) ↦ inr (x, ap (λ a. a.0) is, ap (λ a. a.1) is)
        | inl (run, e, staged, b, c, is) ↦
            inl (run, ap (λ a. a.0) is, b, c, rw is (persist_and_complete-available g d staged))
      ]

  pub completed-Publication :
      (before_commit commit : Result StoreError Unit) (g : OwnedGeneration) (d : Database)
      {run : AnalysisRun} {e : Database}
      → persist_and_complete_owned_generation uuid5 before_commit commit g d ≡ (ok run, e)
      → get_idempotent_available_generation uuid5 g.job_id g.lease_generation d ≡ none
      → Publication uuid5 g d run e
  unfolding persist_and_complete
  completed-Publication before_commit commit g d {run} {e} h absent =
      let staged = completion_staged before_commit commit g d h in
      let whole : complete_owned_generation uuid5 g d ≡ ok (run, e) = ground arith in
      complete_owned_generation-Publication uuid5 g d whole

  -- A call that completes a generation, which was not published before, comes from the worker that
  -- holds a live lease on the running job under this generation, for a game that is finished and
  -- verified; it leaves the job succeeded, and the game available since the given instant, without
  -- its moves, its position and its frames.
  pub completed_by_owner :
      (before_commit commit : Result StoreError Unit) (g : OwnedGeneration) (d : Database)
      {run : AnalysisRun} {e : Database}
      → persist_and_complete_owned_generation uuid5 before_commit commit g d ≡ (ok run, e)
      → get_idempotent_available_generation uuid5 g.job_id g.lease_generation d ≡ none
      → (job done : AnalysisJob) × (game shown : Game) × (get_by_id g.job_id d.jobs ≡ some job)
        × (get_game job.game_id d.games ≡ some game)
        × (job.status ≡ running)
        × (text_is job.worker_id g.worker_id ≡ true)
        × (job.lease_generation ≡ g.lease_generation)
        × (expired job.lease_expires_at g.finished_at ≡ false)
        × (may_run game.status ≡ true)
        × (is_some game.completion_verified_at ≡ true)
        × (get_by_id g.job_id e.jobs ≡ some done)
        × (done.status ≡ succeeded)
        × (get_game job.game_id e.games ≡ some shown)
        × (shown ≡ anonymous (published g.finished_at game))
        × (count (λ (c : GameChild). c.game_id == job.game_id) e.frames ≡ 0)
        × (count (λ (c : GameChild). c.game_id == job.game_id) e.detected ≡ 0)
  unfolding owns_generation may_publish
  completed_by_owner before_commit commit g d {run} {e} h absent =
      let p = completed-Publication before_commit commit g d h absent in
      let r = p.replaced in
      (
        r.job,
        p.row,
        p.game,
        anonymous (published g.finished_at p.game),
        r.job_found,
        ap (λ k. get_game k d.games) (sym p.row_game) ∙ p.game_found,
        ground (arith, r.owned),
        ground (arith, r.owned),
        ground (arith, r.owned),
        ground (arith, r.owned),
        ground (arith, p.permitted),
        ground (arith, p.permitted),
        p.completed,
        p.succeeded_row,
        ap (λ k. get_game k e.games) (sym p.row_game) ∙ p.released,
        refl,
        none_left d.frames r.job.game_id p.row.game_id (sym p.row_game) e.frames p.frames_gone,
        none_left d.detected r.job.game_id p.row.game_id (sym p.row_game) e.detected
            p.detected_gone,
      )

  -- Once a call has answered with a run, every further call for the job and its generation, by
  -- whichever worker and with whatever result it passes the checks of the arguments with, answers with the same run
  -- and changes nothing.
  pub completed_again :
      (before_commit commit : Result StoreError Unit) (g again : OwnedGeneration) (d : Database)
      {run : AnalysisRun} {e : Database}
      → persist_and_complete_owned_generation uuid5 before_commit commit g d ≡ (ok run, e)
      → again.job_id ≡ g.job_id
      → again.lease_generation ≡ g.lease_generation
      → arguments_checked again ≡ ok tt
      → persist_and_complete_owned_generation uuid5 (ok tt) (ok tt) again e ≡ (ok run, e)
  unfolding persist_and_complete persist_and_complete_owned_generation execute
  completed_again before_commit commit g again d {run} {e} h j l c =
      let available =
        persist_and_complete-available g d (completion_staged before_commit commit g d h) in
      let there : get_idempotent_available_generation uuid5 again.job_id again.lease_generation e
          ≡ some run =
        cc in
      let same : persist_and_complete uuid5 again e ≡ ok (run, e) =
        rw (persist_and_complete, there) refl in
      rw (persist_and_complete_owned_generation, c, execute, same) refl
