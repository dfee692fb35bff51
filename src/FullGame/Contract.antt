-- ===== src/FullGame/Contract.antt =====
-- The contract that a result must keep before it is stored: `_validate_result` and
-- `_require_complete_result` of apps/api/src/boardtrace_api/repositories/analysis_results.py.
use boardtrace.Prelude.{
  leb, ◌==◌, if◌then◌else◌, is_some, length, Result, ◌>>◌, raise_if, ℕ, ◌+◌, ◌-◌, ◌≡◌, refl, Bool,
  true, false, not, ◌&&◌, ◌||◌, List, [], ◌∷◌, ◌++◌, arith,
}
use boardtrace.FullGame.Evaluation.{
  PositionEvaluation, MoveEvaluation, FullGameAnalysisStatus, complete, partial,
  FullGameAnalysisResult,
}

-- The messages of the two errors.
pub data ContractError : Type 0 where
  not_complete positions_not_contiguous moves_not_contiguous : ContractError
  position_checkpoint move_checkpoint references_mismatch : ContractError

module _ {A : Type 0} (ply_of : A → ℕ) where
  -- `sorted(…, key=…)`, which keeps the order of equal keys.
  unfoldable pub insert_by : A → List A → List A
  insert_by a [] = a ∷ []
  insert_by a (b ∷ bs) =
      let rest = insert_by a bs in if leb (ply_of a) (ply_of b) then a ∷ b ∷ bs else b ∷ rest

  unfoldable pub sorted_by : List A → List A
  sorted_by [] = []
  sorted_by (a ∷ xs) = insert_by a (sorted_by xs)

  -- Are the plys just `range(first, …)`?
  unfoldable pub contiguous : ℕ → List A → Bool
  contiguous first [] = true
  contiguous first (a ∷ xs) = ply_of a == first && contiguous (first + 1) xs

-- The loop over the moves. `ply - 1` is a number, since the plys count from one by then.
unfoldable pub references_hold : List MoveEvaluation → Bool
references_hold [] = true
references_hold (m ∷ ms) = m.before.ply == m.ply - 1 && m.after.ply == m.ply && references_hold ms

abbrev pub is_complete : FullGameAnalysisStatus → Bool
is_complete complete = true
is_complete partial = false

-- The test that the failure is absent is made twice in the source, the second time in vain.
unfoldable pub validate_result : FullGameAnalysisResult → Result ContractError Unit
validate_result r = do
  raise_if (not (is_complete r.status) || is_some r.failure) not_complete
  let positions = sorted_by PositionEvaluation.ply r.position_evaluations
  let moves = sorted_by MoveEvaluation.ply r.move_evaluations
  raise_if (not (contiguous PositionEvaluation.ply 0 positions)) positions_not_contiguous
  raise_if (not (contiguous MoveEvaluation.ply 1 moves)) moves_not_contiguous
  raise_if (not (r.checkpoint.evaluated_positions == length positions)) position_checkpoint
  raise_if (not (r.checkpoint.completed_moves == length moves)) move_checkpoint
  raise_if (not (references_hold moves)) references_mismatch

module _ {A : Type 0} (ply_of : A → ℕ) where
  insert_first :
      (k : ℕ) (a : A) (xs : List A)
      → ply_of a ≡ k
      → contiguous ply_of (k + 1) xs ≡ true
      → insert_by ply_of a xs ≡ a ∷ xs
  unfolding insert_by contiguous
  insert_first k a [] e c = refl
  insert_first k a (b ∷ bs) e c = ground arith

  -- Sorting leaves plys that count up as they are.
  pub sorted_by-contiguous :
      (k : ℕ) (xs : List A) → contiguous ply_of k xs ≡ true → sorted_by ply_of xs ≡ xs
  unfolding sorted_by contiguous
  sorted_by-contiguous k [] c = refl
  sorted_by-contiguous k (a ∷ xs) c =
      ground (arith, sorted_by-contiguous (k + 1) xs, insert_first k a xs)

  pub contiguous-snoc :
      (k : ℕ) (xs : List A) (a : A)
      → contiguous ply_of k xs ≡ true
      → ply_of a ≡ k + length xs
      → contiguous ply_of k (xs ++ a ∷ []) ≡ true
  unfolding contiguous
  contiguous-snoc k [] a c e = ground arith
  contiguous-snoc k (b ∷ xs) a c e = ground (arith, contiguous-snoc (k + 1) xs a)

pub references_hold-snoc :
    (ms : List MoveEvaluation) (m : MoveEvaluation)
    → references_hold ms ≡ true
    → m.before.ply ≡ m.ply - 1
    → m.after.ply ≡ m.ply
    → references_hold (ms ++ m ∷ []) ≡ true
unfolding references_hold
references_hold-snoc [] m r b a = ground arith
references_hold-snoc (x ∷ ms) m r b a = ground (arith, references_hold-snoc ms m)
