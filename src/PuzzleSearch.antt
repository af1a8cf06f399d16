-- ===== src/PuzzleSearch.antt =====
-- The search for puzzles: shared/puzzleSearch.js.
pub mod Position
pub mod Turns
pub mod Spot
pub mod Replay
pub mod Hops
pub mod Complete
pub mod Mirror
pub mod Negamax
pub mod Deepening
pub mod Budget
pub mod Plain
pub mod Value
pub mod Exact
pub mod Scoring
