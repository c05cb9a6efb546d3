-- ===== src/Game.antt =====
-- ai/2048: the board of the 2048 game, its moves, its evaluation and the search for a move.
pub mod Utils
pub mod Board
pub mod Move
pub mod Geometry
pub mod Moves
pub mod Score
pub mod Eval
pub mod Search
pub mod Logs
pub mod Candidates
pub mod Grids
pub mod Match
pub mod Synced
pub mod Legal
pub mod Round
pub mod Hosting
