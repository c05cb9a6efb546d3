-- ===== src/Game/Score.antt =====
-- The scores of the search, which the program keeps in a `double`. The search compares them, and
-- `EvalAll` weighs four integers; both are parameters, with the laws of `<` on the finite values.
pub mod Laws
pub use Laws.{Scores}
