-- ===== src/FullGame.antt =====
-- The evaluation of a whole game (analysis/full_game.py and the parts of analysis/stockfish.py that
-- it calls, under apps/api/src/boardtrace_api).
pub mod Evaluation
pub mod Replay
pub mod Analyzer
pub mod Contract
pub mod Evaluated
pub mod Linked
pub mod Complete
pub mod Tests
