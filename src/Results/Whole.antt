-- ===== src/Results/Whole.antt =====
-- From the analysis of a game to the stored result that the readers see: `analyse` of
-- analysis/full_game.py, `persist_and_complete_owned_generation` and `read_generation` of
-- services/analysis_results.py, under apps/api/src/boardtrace_api.
use boardtrace.Prelude.{
  Option-cases, All, Result, ok, ℕ, ◌≡◌, refl, sym, ap, ◌∙◌, inl, inr, true, none, some, map, arith,
}
use boardtrace.FullGame.Evaluation.{
  PositionEvaluation, MoveEvaluation, complete, FullGameAnalysisResult,
}
use boardtrace.FullGame.Replay.{CompletedGameAnalysisInput, FullGameAnalysisBudget, Chess}
use boardtrace.FullGame.Contract.{sorted_by}
use boardtrace.FullGame.Analyzer.{Engine, analyse}
use boardtrace.FullGame.Linked.{LinkedTo}
use boardtrace.FullGame.Complete.{analyse-linked}
use boardtrace.Results.Config.{EngineConfigurationSnapshot, configuration_accepted, as_json}
use boardtrace.Results.Rows.{AnalysisRun, Database, Uuid5}
use boardtrace.Results.Replace.{StoreError, OwnedGeneration, bounded}
use boardtrace.Results.Complete.{
  get_idempotent_available_generation, persist_and_complete, persist_and_complete_owned_generation,
}
use boardtrace.Results.Read.{get_generation_records, final_ply, persisted_analysis, read_generation}
use boardtrace.Results.Published.{complete_owned_generation-Publication}
use boardtrace.Results.Authority.{completion_cases, completed-Publication}
use boardtrace.Results.Keyed.{IsKeyed, Replacement-IsKeyed}
use boardtrace.Results.Unique.{IsUnique, Replacement-IsUnique}
use boardtrace.Results.Records.{without_fen, move_without_fens, UuidInjective}
use boardtrace.Results.RoundTrip.{stored_result, replaced-read_generation}

-- The result of an analysis as the store gives it back: without FENs, with the names of the engine
-- cut to 100 characters, the last ply taken from the positions, and the game from the run.
abbrev pub given_back : FullGameAnalysisResult → ℕ → FullGameAnalysisResult
given_back r game_id = record {
  game_id = game_id;
  status = complete;
  position_evaluations = map without_fen r.position_evaluations;
  move_evaluations = map move_without_fens r.move_evaluations;
  checkpoint = record r.checkpoint {
    last_evaluated_ply = final_ply (map without_fen r.position_evaluations);
  };
  engine_name = bounded r.engine_name 100;
  engine_version = bounded r.engine_version 100;
  failure = none;
}

-- The keys stay unique in a database that has the same tables of results.
kept-IsUnique :
    (e m : Database)
    → e.runs ≡ m.runs
    → e.positions ≡ m.positions
    → e.moves ≡ m.moves
    → IsUnique m
    → IsUnique e
kept-IsUnique e m r p v u = record {
  runs_unique = rw r u.runs_unique;
  positions_unique = rw p u.positions_unique;
  moves_unique = rw v u.moves_unique;
}

module _ (uuid5 : Uuid5) where
  -- The keys hold in a database that has the same tables of results.
  kept-IsKeyed :
      (e m : Database)
      → e.runs ≡ m.runs
      → e.positions ≡ m.positions
      → e.moves ≡ m.moves
      → IsKeyed uuid5 m
      → IsKeyed uuid5 e
  kept-IsKeyed e m r p v k = record {
    runs_keyed = rw r k.runs_keyed;
    positions_owned = rw (r, p) k.positions_owned;
    moves_owned = rw (r, v) k.moves_owned;
  }

  -- A read looks at the tables of results only.
  read_generation-kept :
      (job_id generation : ℕ) (e m : Database)
      → e.runs ≡ m.runs
      → e.positions ≡ m.positions
      → e.moves ≡ m.moves
      → read_generation job_id generation e ≡ read_generation job_id generation m
  unfolding read_generation get_generation_records
  read_generation-kept job_id generation e m r p v = rw (r, p, v) refl

  staged-IsKeyed :
      (g : OwnedGeneration) (d e : Database) {run : AnalysisRun}
      → persist_and_complete uuid5 g d ≡ ok (run, e)
      → IsKeyed uuid5 d
      → IsKeyed uuid5 e
  unfolding persist_and_complete
  staged-IsKeyed g d e {run} h k =
      elim (Option-cases
        (get_idempotent_available_generation uuid5 g.job_id g.lease_generation d)) [
          | inr (existing, there) ↦ let same : d ≡ e = ground arith in rw (sym same) k
          | inl absent ↦
              let p =
                complete_owned_generation-Publication uuid5 g d {run = run} {e = e}
                  (ground arith) in
              kept-IsKeyed e p.middle p.runs_kept p.positions_kept p.moves_kept
                (Replacement-IsKeyed uuid5 p.replaced k)
        ]

  staged-IsUnique :
      (g : OwnedGeneration) (d e : Database) {run : AnalysisRun}
      → persist_and_complete uuid5 g d ≡ ok (run, e)
      → IsKeyed uuid5 d
      → IsUnique d
      → IsUnique e
  unfolding persist_and_complete
  staged-IsUnique g d e {run} h k u =
      elim (Option-cases
        (get_idempotent_available_generation uuid5 g.job_id g.lease_generation d)) [
          | inr (existing, there) ↦ let same : d ≡ e = ground arith in rw (sym same) u
          | inl absent ↦
              let p =
                complete_owned_generation-Publication uuid5 g d {run = run} {e = e}
                  (ground arith) in
              kept-IsUnique e p.middle p.runs_kept p.positions_kept p.moves_kept
                (Replacement-IsUnique uuid5 p.replaced k u)
        ]

  -- Completing a generation keeps the keys of the tables of results: a run has the identifier that is
  -- computed from its job and its generation, every record belongs to a run that is there, no two
  -- runs have one identifier, and no two positions and no two moves have one run and one ply.
  pub complete-IsKeyed :
      (before_commit commit : Result StoreError Unit) (g : OwnedGeneration) (d : Database)
      → IsKeyed uuid5 d
      → IsUnique d
      → IsKeyed uuid5 (persist_and_complete_owned_generation uuid5 before_commit commit g d).1
        × IsUnique (persist_and_complete_owned_generation uuid5 before_commit commit g d).1
  complete-IsKeyed before_commit commit g d k u =
      elim (completion_cases uuid5 before_commit commit g d) [
        | inr (x, is) ↦ rw is (k, u)
        | inl (run, e, staged, _, _, is) ↦
            rw is (staged-IsKeyed g d e staged k, staged-IsUnique g d e staged k u)
      ]

  -- Once the worker has completed a job with what its analysis returned, a read of the generation
  -- answers the row of the run, the configuration it ran with, and that result in the form of
  -- `given_back`: every evaluation in its order but without the FENs, the counts of the checkpoint,
  -- while its last ply is that of the last position stored, the names of the engine are cut to 100
  -- characters, and the game is that of the run. The identifiers have to be distinct, the tables
  -- keyed, and the generation not yet published.
  pub analysed_and_read :
      UuidInjective uuid5
      → (chess : Chess) (engine : Engine) (game : CompletedGameAnalysisInput)
        (budget : FullGameAnalysisBudget) (before_commit commit : Result StoreError Unit)
        (g : OwnedGeneration) (d : Database) (c : EngineConfigurationSnapshot) {run : AnalysisRun}
        {e : Database}
      → analyse chess engine game budget ≡ ok g.result
      → g.configuration_snapshot ≡ as_json c
      → configuration_accepted c ≡ true
      → IsKeyed uuid5 d
      → get_idempotent_available_generation uuid5 g.job_id g.lease_generation d ≡ none
      → persist_and_complete_owned_generation uuid5 before_commit commit g d ≡ (ok run, e)
      → read_generation g.job_id g.lease_generation e
        ≡ ok (some (persisted_analysis run c (given_back g.result run.game_id)))
  analysed_and_read inj chess engine game budget before_commit commit g d c {run} {e} a is acc k
        absent h =
      let p = completed-Publication uuid5 before_commit commit g d h absent in
      let (_, sorted, sorted_moves, linked) = analyse-linked chess engine game budget a in
      let l : All (LinkedTo (sorted_by PositionEvaluation.ply g.result.position_evaluations))
          (sorted_by MoveEvaluation.ply g.result.move_evaluations) =
        rw (sorted, sorted_moves) linked in
      let read = replaced-read_generation uuid5 inj g d c p.replaced k is acc l in
      let same : stored_result g run ≡ given_back g.result run.game_id =
        rw (sorted, sorted_moves) refl in
      read_generation-kept g.job_id g.lease_generation e p.middle p.runs_kept p.positions_kept
        p.moves_kept
      ∙ read
      ∙ ap (λ r. ok (some (persisted_analysis run c r))) same
