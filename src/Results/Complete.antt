-- ===== src/Results/Complete.antt =====
-- The atomic completion of an analysis: `get_idempotent_available_generation` and
-- `make_owned_generation_available` of repositories/analysis_results.py, `delete_for_job` of
-- services/analysis_cleanup.py and `persist_and_complete_owned_generation` of
-- services/analysis_results.py, under apps/api/src/boardtrace_api.
use boardtrace.Prelude.{
  ltb, leb, ◌==◌, if◌then◌else◌, is_some, is_none, length, filter, find, count, Result, ok, err,
  ◌>>=◌, ◌>>◌, raise_if, or_raise, map_err, Text, codes, ℕ, Bool, true, false, not, ◌&&◌, ◌||◌,
  Option, none, some, List, [], ◌∷◌,
}
use boardtrace.FullGame.Replay.{analysis_available, may_run}
use boardtrace.Jobs.Status.{succeeded, status_eq}
use boardtrace.Jobs.Row.{AnalysisJob}
use boardtrace.Jobs.Operations.{complete_job}
use boardtrace.Jobs.Table.{get_by_id, put_job}
use boardtrace.Results.Rows.{
  Game, GameChild, AnalysisRun, Database, Uuid5, analysis_run_id, game_status_eq, is_complete_run,
  get_game, put_game, position_of_run, move_of_run,
}
use boardtrace.Results.Transactions.{Staged, execute}
use boardtrace.Results.Replace.{
  StoreError, run_authority, completion_lost, transition_error, OwnedGeneration, arguments_checked,
  replace_owned_generation,
}

-- The two columns that publish a game.
abbrev pub published : ℕ → Game → Game
published available_at game = record game {
  status = analysis_available;
  analysis_available_at = some available_at;
}

-- Does the first job come before the second in ORDER BY analysis_version DESC, created_at DESC,
-- id DESC?
abbrev newer : AnalysisJob → AnalysisJob → Bool
newer a b =
    ltb b.analysis_version a.analysis_version
    || (a.analysis_version == b.analysis_version
        && (ltb b.created_at a.created_at || (a.created_at == b.created_at && leb b.id a.id)))

abbrev newest : AnalysisJob → Option AnalysisJob → AnalysisJob
newest job none = job
newest job (some other) = if newer job other then job else other

-- The first of the jobs of a game in that order.
unfoldable pub current_job : ℕ → List AnalysisJob → Option AnalysisJob
current_job game_id [] = none
current_job game_id (j ∷ js) =
    let rest = current_job game_id js in if j.game_id == game_id then some (newest j rest) else rest

-- `current_job_id == job.id`
unfoldable pub is_current : AnalysisJob → ℕ → List AnalysisJob → Bool
is_current job game_id jobs = elim (current_job game_id jobs) [
  | none ↦ false
  | some current ↦ current.id == job.id
]

-- The job and the game of a generation that was published before.
unfoldable pub published_before : AnalysisJob → Game → ℕ → List AnalysisJob → Bool
published_before job game lease_generation jobs =
    status_eq job.status succeeded
    && job.lease_generation == lease_generation
    && game_status_eq game.status analysis_available
    && is_some game.analysis_available_at
    && is_current job game.id jobs

module _ (uuid5 : Uuid5) where
  -- The WHERE clause of the run.
  unfoldable pub is_authoritative : AnalysisJob → ℕ → AnalysisRun → Bool
  is_authoritative job lease_generation r =
      r.id == analysis_run_id uuid5 job.id lease_generation
      && r.analysis_job_id == job.id
      && r.game_id == job.game_id
      && r.lease_generation == lease_generation
      && r.analysis_version == job.analysis_version
      && is_complete_run r.status

  unfoldable pub get_idempotent_available_generation : ℕ → ℕ → Database → Option AnalysisRun
  get_idempotent_available_generation job_id lease_generation d = elim (get_by_id job_id d.jobs) [
    | none ↦ none
    | some job ↦ elim (get_game job.game_id d.games) [
      | none ↦ none
      | some game ↦
          if published_before job game lease_generation d.jobs
          then find (is_authoritative job lease_generation) d.runs
          else none
    ]
  ]

  abbrev has_moves : Option (List Text) → ℕ → Bool
  has_moves none n = false
  has_moves (some moves) n = length moves == n

  -- The test of `make_owned_generation_available`, on the rows that it reads.
  unfoldable pub may_publish : AnalysisRun → ℕ → ℕ → AnalysisJob → Game → Database → Bool
  may_publish run job_id lease_generation job game d =
      status_eq job.status succeeded
      && job.id == run.analysis_job_id
      && job.game_id == run.game_id
      && job.lease_generation == lease_generation
      && run.id == analysis_run_id uuid5 job_id lease_generation
      && run.lease_generation == lease_generation
      && run.analysis_version == job.analysis_version
      && is_complete_run run.status
      && is_none run.failure_code
      && is_none run.failure_error_type
      && count (position_of_run run.id) d.positions == run.evaluated_positions
      && count (move_of_run run.id) d.moves == run.completed_moves
      && run.total_positions == run.evaluated_positions
      && run.total_moves == run.completed_moves
      && is_current job game.id d.jobs
      && may_run game.status
      && is_some game.completion_verified_at
      && is_some game.ingestion_payload_hash
      && has_moves game.normalized_moves run.completed_moves

  unfoldable pub make_owned_generation_available : AnalysisRun → ℕ → ℕ → ℕ → Staged StoreError Unit
  make_owned_generation_available run job_id lease_generation available_at d = do
    job ← or_raise (get_by_id job_id d.jobs) run_authority
    game ← or_raise (get_game job.game_id d.games) run_authority
    raise_if (not (may_publish run job_id lease_generation job game d)) run_authority
    ok (tt, record d { games = put_game (published available_at game) d.games })

-- The game without what was submitted.
unfoldable pub anonymous : Game → Game
anonymous game = record game {
  platform = codes "deleted";
  source_game_id = none;
  initial_fen = none;
  normalized_moves = none;
  ingestion_key = none;
  ingestion_payload_hash = none;
}

unfoldable pub delete_for_job : ℕ → Database → Bool × Database
delete_for_job job_id d = elim (get_by_id job_id d.jobs) [
  | none ↦ (false, d)
  | some job ↦ elim (get_game job.game_id d.games) [
    | none ↦ (false, d)
    | some game ↦ (
      true,
      record d {
        detected = filter (λ (c : GameChild). not (c.game_id == job.game_id)) d.detected;
        frames = filter (λ (c : GameChild). not (c.game_id == job.game_id)) d.frames;
        games = put_game (anonymous game) d.games;
      },
    )
  ]
]

-- `complete_job` on the table; a job that is not there, or is refused, is no completion.
unfoldable pub complete_in : ℕ → Text → ℕ → ℕ → Staged StoreError Unit
unfolding complete_job
complete_in job_id worker_id now lease_generation d = do
  job ← or_raise (get_by_id job_id d.jobs) completion_lost
  completed ← map_err transition_error (complete_job worker_id now (some lease_generation) job)
  row ← or_raise completed completion_lost
  ok (tt, record d { jobs = put_job row d.jobs })

module _ (uuid5 : Uuid5) where
  -- The path of `persist_and_complete` that writes.
  unfoldable pub complete_owned_generation : OwnedGeneration → Staged StoreError AnalysisRun
  complete_owned_generation g d = do
    (run, replaced) ← replace_owned_generation uuid5 g d
    (_, completed) ← complete_in g.job_id g.worker_id g.finished_at g.lease_generation replaced
    (_, available) ←
        make_owned_generation_available uuid5 run g.job_id g.lease_generation g.finished_at
          completed
    ok (run, (delete_for_job g.job_id available).1)

  unfoldable pub persist_and_complete : OwnedGeneration → Staged StoreError AnalysisRun
  persist_and_complete g d =
      elim (get_idempotent_available_generation uuid5 g.job_id g.lease_generation d) [
        | some existing ↦ ok (existing, d)
        | none ↦ complete_owned_generation g d
      ]

  unfoldable pub persist_and_complete_owned_generation :
      Result StoreError Unit
      → Result StoreError Unit
      → OwnedGeneration
      → Database
      → Result StoreError AnalysisRun × Database
  persist_and_complete_owned_generation before_commit commit g d = elim (arguments_checked g) [
    | err e ↦ (err e, d)
    | ok _ ↦ execute before_commit commit (persist_and_complete g) d
  ]
