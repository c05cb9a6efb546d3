-- ===== src/Game/Move.antt =====
-- ai/2048/ai_2048.cc, `TryMove`: one cell at a time, from the side that the tiles move to.
use cpp_code_blocks.Prelude.{
  ℕ, suc, ◌+◌, ◌*◌, Bool, true, false, not, ◌&&◌, List, [], ◌∷◌, ◌++◌, map, none, some, ltb, ◌==◌,
  if◌then◌else◌, update,
}
use cpp_code_blocks.Game.Utils.{right, down}
use cpp_code_blocks.Game.Board.{Tiles, Pos, holds, get_target_pos}

pub record Moving : Type 0 where
  pub tiles : Tiles
  pub merged : ℕ → Bool
  pub can_move : Bool

-- `tiles_[target_pos]++; tiles_[pos] = 0; merged[target_pos] = true;`
abbrev pub merge_into : ℕ → ℕ → Moving → Moving
merge_into pos target m = record {
  tiles = update (update m.tiles target (suc (m.tiles target))) pos 0;
  merged = update m.merged target true;
  can_move = true;
}

-- `tiles_[target_pos0] = tiles_[pos]; tiles_[pos] = 0;`
abbrev pub slide_to : ℕ → ℕ → Moving → Moving
slide_to pos target m = record m {
  tiles = update (update m.tiles target (m.tiles pos)) pos 0;
  can_move = true;
}

abbrev pub slide_if_apart : ℕ → ℕ → Moving → Moving
slide_if_apart pos target0 m = if pos == target0 then m else slide_to pos target0 m

-- `GetTargetPos` has given (target_pos0, target_pos).
unfoldable pub move_to : ℕ → ℕ → Pos → Moving → Moving
unfolding holds
move_to pos target0 none m = slide_if_apart pos target0 m
move_to pos target0 (some target) m =
    if holds m.tiles (some target) (m.tiles pos) && not (m.merged target)
    then merge_into pos target m
    else slide_if_apart pos target0 m

-- The body of the double loop.
unfoldable pub move_cell : ℕ → ℕ → Moving → Moving
unfolding move_to get_target_pos
move_cell dir pos m =
    let (target0, target) = get_target_pos m.tiles pos dir in
    if ltb 0 (m.tiles pos) then move_to pos target0 target m else m

-- The rows of `pos_list`.
abbrev pos_list : Bool → List ℕ
pos_list false = 0 ∷ 1 ∷ 2 ∷ 3 ∷ []
pos_list true = 3 ∷ 2 ∷ 1 ∷ 0 ∷ []

abbrev pairs : List ℕ → List ℕ → List ℕ
pairs [] ys = []
pairs (x ∷ xs) ys = map (λ y. x * 4 + y) ys ++ pairs xs ys

-- The positions in the order of the double loop.
abbrev pub scan : ℕ → List ℕ
scan dir = pairs (pos_list (dir == down)) (pos_list (dir == right))

unfoldable pub move_cells : ℕ → List ℕ → Moving → Moving
unfolding move_cell
move_cells dir [] m = m
move_cells dir (pos ∷ rest) m = move_cells dir rest (move_cell dir pos m)

abbrev pub start_move : Tiles → Moving
start_move tiles = record { tiles = tiles; merged = λ i. false; can_move = false }

-- The tiles after the move, and whether any tile moved.
unfoldable pub try_move : Tiles → ℕ → Tiles × Bool
unfolding move_cells
try_move tiles dir = let m = move_cells dir (scan dir) (start_move tiles) in (m.tiles, m.can_move)
