-- ===== src/Moves/Accuracy.antt =====
-- The bounds of the figures of a player.
use boardtrace.Prelude.{
  ltb, is_some, length, filter, length-filter, count-le-length, ok, ℕ, zero, suc, ◌+◌, ◌-◌, ◌*◌,
  ◌≤◌, ◌<◌, ◌≡◌, refl, Option, none, some, List, [], ◌∷◌, map, arith,
}
use boardtrace.FullGame.Evaluation.{Color}
use boardtrace.Moves.Classes.{unclassified, ClassifiedMoveMetric}
use boardtrace.Moves.Rounding.{half_up, half_up_le, half_up_next, half_up_anti}
use boardtrace.Moves.Totals.{
  transform, percentage, quality_eq, qualities, PlayerAnalyticalSummary, is_eligible, count_quality,
  sum_counts, accuracy_of, summarize,
}

-- Under a positive scale an accuracy is at most 100.00, and 100.00 for no loss at all.
pub transform_bounds :
    (scale acpl : ℕ) → 0 < scale → (transform scale acpl ≤ 10000) × (transform scale 0 ≡ 10000)
unfolding transform
transform_bounds scale acpl h = (
  half_up_le (1000000 * scale) (100 * scale + acpl) 10000 (omega arith) (omega arith),
  omega (
    arith,
    half_up_le (1000000 * scale) (100 * scale + 0) 10000 (omega arith) (omega arith),
    (half_up_next (1000000 * scale) (100 * scale + 0) 9999 (omega arith)).1 (omega arith),
  ),
)

-- A greater average loss gives no greater accuracy.
pub transform_anti : (scale a b : ℕ) → 0 < scale → a ≤ b → transform scale b ≤ transform scale a
unfolding transform
transform_anti scale a b h le =
    half_up_anti (1000000 * scale) (100 * scale + a) (100 * scale + b) (omega arith) (omega arith)

percentage_le : (n d p : ℕ) → n ≤ d → percentage n d ≡ some p → p ≤ 10000
unfolding percentage
percentage_le n zero p le h = cc
percentage_le n (suc d) p le h =
    let top : half_up (10000 * n) (suc d) ≤ 10000 =
      half_up_le (10000 * n) (suc d) 10000 (omega arith) (omega arith) in
    ground arith

accuracy_le :
    (scale : ℕ) (acpl : Option ℕ) (p : ℕ) → 0 < scale → accuracy_of scale acpl ≡ some p → p ≤ 10000
accuracy_le scale none p h e = cc
accuracy_le scale (some a) p h e = ground (arith, transform_bounds scale a h)

-- The seven classes part the moves.
pub sum_counts-length :
    (moves : List ClassifiedMoveMetric)
    → sum_counts (map (count_quality moves) qualities) ≡ length moves
sum_counts-length [] = refl
sum_counts-length (c ∷ cs) = ground (arith, sum_counts-length cs)

-- The counts of a summary add up, whatever the scale.
pub summarize-counts :
    (scale : ℕ) (color : Color) (moves : List ClassifiedMoveMetric) {s : PlayerAnalyticalSummary}
    → summarize scale color moves ≡ ok s
    → (s.color ≡ color)
      × (s.total_move_count ≡ length moves)
      × (sum_counts s.quality_counts ≡ s.total_move_count)
      × (s.classified_move_count + s.unclassified_move_count ≡ s.total_move_count)
      × (s.cpl_eligible_move_count + s.excluded_move_count ≡ s.total_move_count)
unfolding summarize
summarize-counts scale color moves {s} e =
    let fits = length-filter is_eligible moves in
    let few =
      count-le-length (λ (c : ClassifiedMoveMetric). quality_eq c.quality unclassified) moves in
    (
      ground arith,
      ground arith,
      ground (arith, sum_counts-length moves),
      ground (arith, few),
      ground (arith, fits),
    )

-- Where the scale is positive, what a summary says adds up: the classes part the moves, so do
-- the eligible and the excluded, and the classified and the unclassified; no percentage is over
-- 100.00, no accuracy either. There is an accuracy exactly when there is an average loss, which
-- there is exactly when some move is eligible, and the flag of the accuracy says so.
pub summarize-totals :
    (scale : ℕ) (color : Color) (moves : List ClassifiedMoveMetric) {s : PlayerAnalyticalSummary}
    → 0 < scale
    → summarize scale color moves ≡ ok s
    → (s.total_move_count ≡ length moves)
      × (sum_counts s.quality_counts ≡ s.total_move_count)
      × (s.classified_move_count + s.unclassified_move_count ≡ s.total_move_count)
      × (s.cpl_eligible_move_count + s.excluded_move_count ≡ s.total_move_count)
      × ((p : ℕ) → s.cpl_coverage ≡ some p → p ≤ 10000)
      × ((p : ℕ) → s.classification_coverage_percent ≡ some p → p ≤ 10000)
      × ((p : ℕ) → s.accuracy ≡ some p → p ≤ 10000)
      × (is_some s.accuracy ≡ is_some s.acpl)
      × (is_some s.acpl ≡ ltb 0 s.cpl_eligible_move_count)
      × (s.accuracy_available ≡ is_some s.accuracy)
unfolding summarize
summarize-totals scale color moves {s} h e =
    let fits = length-filter is_eligible moves in
    let few =
      count-le-length (λ (c : ClassifiedMoveMetric). quality_eq c.quality unclassified) moves in
    (
      ground arith,
      ground (arith, sum_counts-length moves),
      ground (arith, few),
      ground (arith, fits),
      λ p q. percentage_le (length (filter is_eligible moves)) (length moves) p fits (ground arith),
      λ p q.
          percentage_le (length moves - (count_quality moves unclassified).1) (length moves) p
            (omega arith) (ground arith),
      λ p q. accuracy_le scale s.acpl p h (ground arith),
      ground arith,
      ground arith,
      ground arith,
    )
