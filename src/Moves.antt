-- ===== src/Moves.antt =====
-- What is derived from an evaluated game: a metric and a class for each move, and the totals of each
-- player (analysis/move_metrics.py, analysis/move_classification.py, analysis/game_metrics.py and
-- services/analysis_aggregates.py under apps/api/src/boardtrace_api).
pub mod Metrics
pub mod Classes
pub mod Losses
pub mod Classified
pub mod Rounding
pub mod Totals
pub mod Accuracy
pub mod Equality
pub mod Aggregate
pub mod Pipeline
mod Tests
