-- ===== src/Game/Moves.antt =====
-- What one round of the double loop of `TryMove` can do, as a relation; its children prove what
-- follows for a whole move.
pub mod Round
pub mod Tiles
pub mod Shape
