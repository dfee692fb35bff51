-- ===== src/Results/RoundTrip.antt =====
-- A result that is stored is read back.
use boardtrace.Prelude.{
  ◌==◌, Option-cases, length, filter, find, All, length-map, ok, All-imp, All-map, find-All,
  filter-append, filter-all, find-narrow, ◌≡◌, refl, sym, ap, ◌∙◌, inl, inr, true, none, some, ◌++◌,
  map, arith,
}
use boardtrace.FullGame.Evaluation.{
  PositionEvaluation, MoveEvaluation, complete, FullGameAnalysisResult,
}
use boardtrace.FullGame.Contract.{sorted_by, validate_result, sorted_by-contiguous}
use boardtrace.FullGame.Linked.{LinkedTo}
use boardtrace.Results.Rows.{
  AnalysisRun, AnalysisPositionEvaluation, AnalysisMoveEvaluation, Database, run_namespace, Uuid5,
  analysis_run_id, get_run, position_of_run, move_of_run,
}
use boardtrace.Results.Replace.{
  OwnedGeneration, bounded, failure_code_of, failure_error_type_of, filled, new_run, position_row,
  move_row, written_run, cleared, inserted,
}
use boardtrace.Results.Read.{
  of_generation, get_generation_records, final_ply, persisted_result, persisted_analysis,
  read_records, read_generation,
}
use boardtrace.Results.Replaced.{Replacement, replaced-get_run}
use boardtrace.Results.Keyed.{Keyed, IsKeyed, Replacement-IsKeyed}
use boardtrace.Results.Unique.{validate_result-ok, nothing_left}
use boardtrace.Results.Records.{
  without_fen, move_without_fens, UuidInjective, read_positions-rows, keyed_positions,
  contiguous-rows, row_of, move_rows-linked, contiguous-move_rows, read_moves-rows,
}
use boardtrace.Results.Config.{
  EngineConfigurationSnapshot, configuration_accepted, as_json, from_json, from_json-as_json,
}

-- The result as it is read back: in order of the plys, without the FENs, with names of engines
-- that fit their columns.
abbrev pub stored_result : OwnedGeneration → AnalysisRun → FullGameAnalysisResult
stored_result g run =
    let positions =
      map without_fen (sorted_by PositionEvaluation.ply g.result.position_evaluations) in
    record {
      game_id = run.game_id;
      status = complete;
      position_evaluations = positions;
      move_evaluations =
          map move_without_fens (sorted_by MoveEvaluation.ply g.result.move_evaluations);
      checkpoint = record g.result.checkpoint { last_evaluated_ply = final_ply positions };
      engine_name = bounded g.result.engine_name 100;
      engine_version = bounded g.result.engine_version 100;
      failure = none;
    }

module _ (uuid5 : Uuid5) (inj : UuidInjective uuid5) where
  -- The run is found by its job and its generation.
  found_by_generation :
      {g : OwnedGeneration} {d : Database} {run : AnalysisRun} {e : Database}
      → Replacement uuid5 g d run e
      → IsKeyed uuid5 d
      → find (of_generation g.job_id g.lease_generation) e.runs ≡ some run
  unfolding get_run analysis_run_id
  found_by_generation {g} {d} {run} {e} r k =
      let run_id = analysis_run_id uuid5 g.job_id g.lease_generation in
      let (there, same, _, _, _, _) = replaced-get_run uuid5 r in
      let after = Replacement-IsKeyed uuid5 r k in
      let own =
        find-All (Keyed uuid5) (λ (x : AnalysisRun). x.id == run_id) e.runs after.runs_keyed
          there in
      let (job, generation) =
        inj run_namespace run.analysis_job_id run.lease_generation g.job_id g.lease_generation
          (sym own ∙ same) in
      find-narrow (λ (x : AnalysisRun). x.id == run_id) (of_generation g.job_id g.lease_generation)
        e.runs (All-imp (Keyed uuid5) _ e.runs (λ x key is. ground arith) after.runs_keyed) there
        (ground arith)

  -- The rows that are read.
  records_found :
      {g : OwnedGeneration} {d : Database} {run : AnalysisRun} {e : Database}
      → (r : Replacement uuid5 g d run e) → IsKeyed uuid5 d
      → All
          (LinkedTo (sorted_by PositionEvaluation.ply g.result.position_evaluations))
          (sorted_by MoveEvaluation.ply g.result.move_evaluations)
      → get_generation_records g.job_id g.lease_generation e
        ≡ some (
          run,
          map
              (position_row uuid5 run.id)
              (sorted_by PositionEvaluation.ply g.result.position_evaluations),
          map (row_of uuid5 run.id) (sorted_by MoveEvaluation.ply g.result.move_evaluations),
        )
  unfolding get_generation_records inserted position_row move_row
  records_found {g} {d} {run} {e} r k l =
      let ps = sorted_by PositionEvaluation.ply g.result.position_evaluations in
      let ms = sorted_by MoveEvaluation.ply g.result.move_evaluations in
      let (_, same, _, _, _, _) = replaced-get_run uuid5 r in
      let (c, cm, _, _, _) = validate_result-ok g.result r.valid in
      let run_id = analysis_run_id uuid5 g.job_id g.lease_generation in
      let room = cleared run (get_run run_id d.runs) d in
      let here : (run_id == run.id) ≡ true = ground arith in
      let (np, nm) = nothing_left uuid5 r k in
      let made : r.rows ≡ map (row_of uuid5 run.id) ms =
        let all_made = sym r.rows_made ∙ move_rows-linked uuid5 run_id ps ms l in
        rw same (ground arith) in
      let positions : filter (position_of_run run.id) e.positions
          ≡ map (position_row uuid5 run.id) ps =
        ap (filter (position_of_run run.id)) (ap Database.positions r.left)
        ∙ filter-append (position_of_run run.id) room.positions (map (position_row uuid5 run_id) ps)
        ∙ ap
            (λ before.
              before ++ filter (position_of_run run.id) (map (position_row uuid5 run_id) ps))
            np
        ∙ filter-all (position_of_run run.id) (map (position_row uuid5 run_id) ps)
            (All-map _ (position_row uuid5 run_id) ps (λ q. here))
        ∙ ap (λ n. map (position_row uuid5 n) ps) (sym same) in
      let moves : filter (move_of_run run.id) e.moves ≡ map (row_of uuid5 run.id) ms =
        ap (filter (move_of_run run.id)) (ap Database.moves r.left)
        ∙ filter-append (move_of_run run.id) room.moves r.rows
        ∙ ap (λ before. before ++ filter (move_of_run run.id) r.rows) nm
        ∙ ap (filter (move_of_run run.id)) made
        ∙ filter-all (move_of_run run.id) (map (row_of uuid5 run.id) ms)
            (All-map _ (row_of uuid5 run.id) ms (λ q. ground arith)) in
      rw
        (
          get_generation_records,
          found_by_generation r k,
          positions,
          moves,
          sorted_by-contiguous AnalysisPositionEvaluation.ply 0 _
              (contiguous-rows uuid5 run.id 0 ps c),
          sorted_by-contiguous AnalysisMoveEvaluation.ply 1 _
              (contiguous-move_rows uuid5 run.id 1 ms cm),
        )
        refl

  -- The columns of the run that is written.
  run_written :
      {g : OwnedGeneration} {d : Database} {run : AnalysisRun} {e : Database}
      → Replacement uuid5 g d run e
      → (old : AnalysisRun) × (run ≡ filled g old)
  unfolding written_run new_run
  run_written {g} {d} {run} {e} r =
      elim (Option-cases (get_run (analysis_run_id uuid5 g.job_id g.lease_generation) d.runs)) [
        | inl absent ↦ (_, r.written ∙ ap (written_run _ g r.job) absent)
        | inr (old, found) ↦ (old, r.written ∙ ap (written_run _ g r.job) found)
      ]

  -- The records of a run, read.
  read_records-stored :
      (g : OwnedGeneration) (old : AnalysisRun) (c : EngineConfigurationSnapshot)
      → let ps = sorted_by PositionEvaluation.ply g.result.position_evaluations in
        let ms = sorted_by MoveEvaluation.ply g.result.move_evaluations in
        let run = filled g old in
        validate_result g.result ≡ ok tt
        → g.configuration_snapshot ≡ as_json c
        → configuration_accepted c ≡ true
        → All (LinkedTo ps) ms
        → read_records run (map (position_row uuid5 run.id) ps) (map (row_of uuid5 run.id) ms)
          ≡ ok (persisted_analysis run c (stored_result g run))
  unfolding read_records filled persisted_result failure_code_of failure_error_type_of
  read_records-stored g old c valid is accepted l =
      let ps = sorted_by PositionEvaluation.ply g.result.position_evaluations in
      let ms = sorted_by MoveEvaluation.ply g.result.move_evaluations in
      let (_, _, counted, moved, whole) = validate_result-ok g.result valid in
      let json : from_json g.configuration_snapshot ≡ ok c =
        rw (is, from_json-as_json c, accepted) refl in
      let c1 : (length (map without_fen ps) == g.result.checkpoint.evaluated_positions) ≡ true =
        ground (arith, length-map ps without_fen) in
      let c2 : (length (map move_without_fens ms) == g.result.checkpoint.completed_moves) ≡ true =
        ground (arith, length-map ms move_without_fens) in
      rw
        (
          whole,
          read_positions-rows uuid5 old.id ps,
          read_moves-rows uuid5 old.id inj ps ms l,
          keyed_positions uuid5 old.id ps,
          c1,
          c2,
          json,
        )
        refl

  -- A generation whose records were replaced is read back: its positions and its moves by ply, the
  -- FENs apart, under the configuration that was stored.
  pub replaced-read_generation :
      (g : OwnedGeneration) (d : Database) (c : EngineConfigurationSnapshot) {run : AnalysisRun}
      {e : Database}
      → Replacement uuid5 g d run e
      → IsKeyed uuid5 d
      → g.configuration_snapshot ≡ as_json c
      → configuration_accepted c ≡ true
      → All
          (LinkedTo (sorted_by PositionEvaluation.ply g.result.position_evaluations))
          (sorted_by MoveEvaluation.ply g.result.move_evaluations)
      → read_generation g.job_id g.lease_generation e
        ≡ ok (some (persisted_analysis run c (stored_result g run)))
  unfolding read_generation
  replaced-read_generation g d c {run} {e} r k is accepted l =
      let ps = sorted_by PositionEvaluation.ply g.result.position_evaluations in
      let ms = sorted_by MoveEvaluation.ply g.result.move_evaluations in
      let (old, w) = run_written r in
      let read : read_records run (map (position_row uuid5 run.id) ps)
            (map (row_of uuid5 run.id) ms)
          ≡ ok (persisted_analysis run c (stored_result g run)) =
        rw w (read_records-stored g old c r.valid is accepted l) in
      rw (read_generation, records_found r k l, read) refl
