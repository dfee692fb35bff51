-- ===== src/Results/Records.antt =====
-- The records of a result, written as rows and read back.
use boardtrace.Prelude.{
  ◌==◌, Bool-cases, find, All, ok, text_eq, ℕ, ◌+◌, ◌≡◌, refl, ap, inl, inr, true, false, some,
  List, [], ◌∷◌, map, arith,
}
use boardtrace.FullGame.Evaluation.{Color, white, black, PositionEvaluation, MoveEvaluation}
use boardtrace.FullGame.Contract.{contiguous}
use boardtrace.FullGame.Linked.{at_ply, LinkedTo}
use boardtrace.Results.Rows.{
  AnalysisPositionEvaluation, AnalysisMoveEvaluation, Namespace, position_namespace, Uuid5,
  position_evaluation_id,
}
use boardtrace.Results.Replace.{side_text, position_id_at, position_row, move_row, move_rows}
use boardtrace.Results.Read.{side_of, read_positions, by_record_id, read_moves}

-- The FEN of a position is not stored.
abbrev pub without_fen : PositionEvaluation → PositionEvaluation
without_fen p = record p { fen = [] }

abbrev pub move_without_fens : MoveEvaluation → MoveEvaluation
move_without_fens m = record m { before = without_fen m.before; after = without_fen m.after }

-- Distinct arguments have distinct identifiers.
abbrev pub UuidInjective : Uuid5 → Type 0
UuidInjective uuid5 = (n : Namespace) (a b c d : ℕ) → uuid5 n a b ≡ uuid5 n c d → (a ≡ c) × (b ≡ d)

side_of-side_text : (c : Color) → side_of (side_text c) ≡ some c
unfolding side_of text_eq
side_of-side_text white = refl
side_of-side_text black = refl

module _ (uuid5 : Uuid5) (run_id : ℕ) where
  abbrev pub keyed_entry : PositionEvaluation → ℕ × PositionEvaluation
  keyed_entry p = (position_evaluation_id uuid5 run_id p.ply, without_fen p)

  pub read_positions-rows :
      (ps : List PositionEvaluation)
      → read_positions (map (position_row uuid5 run_id) ps) ≡ ok (map keyed_entry ps)
  unfolding read_positions position_row
  read_positions-rows [] = refl
  read_positions-rows (p ∷ ps) = rw (side_of-side_text p.side_to_move, read_positions-rows ps) refl

  pub keyed_positions :
      (ps : List PositionEvaluation)
      → map (λ (entry : ℕ × PositionEvaluation). entry.1) (map keyed_entry ps) ≡ map without_fen ps
  keyed_positions [] = refl
  keyed_positions (p ∷ ps) = ap (λ l. without_fen p ∷ l) (keyed_positions ps)

  pub contiguous-rows :
      (k : ℕ) (ps : List PositionEvaluation)
      → contiguous PositionEvaluation.ply k ps ≡ true
      → contiguous AnalysisPositionEvaluation.ply k (map (position_row uuid5 run_id) ps) ≡ true
  unfolding contiguous position_row
  contiguous-rows k [] c = refl
  contiguous-rows k (p ∷ ps) c = ground (arith, contiguous-rows (k + 1) ps)

  module _ (inj : UuidInjective uuid5) where
    by_record_id-found :
        (ps : List PositionEvaluation) (k : ℕ) {p : PositionEvaluation}
        → find (at_ply k) ps ≡ some p
        → by_record_id (position_evaluation_id uuid5 run_id k) (map keyed_entry ps)
          ≡ some (without_fen p)
    unfolding by_record_id position_evaluation_id
    by_record_id-found [] k h = absurd (ground arith)
    by_record_id-found (q ∷ ps) k {p} h = elim (Bool-cases (q.ply == k)) [
      | inl hit ↦
          let same : q ≡ p = ground arith in
          let at : q.ply ≡ k = ground arith in
          let e : (uuid5 position_namespace run_id q.ply == uuid5 position_namespace run_id k)
              ≡ true =
            rw at (ground arith) in
          rw (e, same) refl
      | inr miss ↦
          let rest = by_record_id-found ps k {p = p} (ground arith) in
          let apart = inj position_namespace run_id q.ply run_id k in
          let e : (uuid5 position_namespace run_id q.ply == uuid5 position_namespace run_id k)
              ≡ false =
            elim (Bool-cases
              (uuid5 position_namespace run_id q.ply == uuid5 position_namespace run_id k)) [
                | inl equal ↦ let wrong = (apart (ground arith)).1 in absurd (ground arith)
                | inr different ↦ different
              ] in
          rw (e, rest) refl
    ]

  pub position_id_at-found :
      (ps : List PositionEvaluation) (k : ℕ) {p : PositionEvaluation}
      → find (at_ply k) ps ≡ some p
      → position_id_at (position_evaluation_id uuid5 run_id) ps k
        ≡ some (position_evaluation_id uuid5 run_id k)
  unfolding position_id_at
  position_id_at-found [] k h = absurd (ground arith)
  position_id_at-found (q ∷ ps) k {p} h = elim (Bool-cases (q.ply == k)) [
    | inl hit ↦ rw hit refl
    | inr miss ↦ rw (miss, position_id_at-found ps k {p = p} (ground arith)) refl
  ]

  abbrev pub row_of : MoveEvaluation → AnalysisMoveEvaluation
  row_of m =
      move_row uuid5 run_id m (position_evaluation_id uuid5 run_id m.before.ply)
        (position_evaluation_id uuid5 run_id m.after.ply)

  -- The rows of moves whose positions are there.
  pub move_rows-linked :
      (ps : List PositionEvaluation) (ms : List MoveEvaluation)
      → All (LinkedTo ps) ms
      → move_rows uuid5 run_id ps ms ≡ ok (map row_of ms)
  unfolding move_rows
  move_rows-linked ps [] l = refl
  move_rows-linked ps (m ∷ ms) ((b, a), l) =
      rw
        (
          position_id_at-found ps m.before.ply b,
          position_id_at-found ps m.after.ply a,
          move_rows-linked ps ms l,
        )
        refl

  pub contiguous-move_rows :
      (k : ℕ) (ms : List MoveEvaluation)
      → contiguous MoveEvaluation.ply k ms ≡ true
      → contiguous AnalysisMoveEvaluation.ply k (map row_of ms) ≡ true
  unfolding contiguous move_row
  contiguous-move_rows k [] c = refl
  contiguous-move_rows k (m ∷ ms) c = ground (arith, contiguous-move_rows (k + 1) ms)

  pub read_moves-rows :
      UuidInjective uuid5
      → (ps : List PositionEvaluation) (ms : List MoveEvaluation) → All (LinkedTo ps) ms
      → read_moves (map keyed_entry ps) (map row_of ms) ≡ ok (map move_without_fens ms)
  unfolding read_moves move_row
  read_moves-rows inj ps [] l = refl
  read_moves-rows inj ps (m ∷ ms) ((b, a), l) =
      rw
        (
          by_record_id-found inj ps m.before.ply b,
          by_record_id-found inj ps m.after.ply a,
          read_moves-rows inj ps ms l,
        )
        refl
