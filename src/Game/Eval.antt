-- ===== src/Game/Eval.antt =====
-- ai/2048/ai_2048.cc: the evaluation of a board, and the tiles that the other side may place.
use cpp_code_blocks.Prelude.{
  ℕ, zero, suc, ◌+◌, ◌-◌, Bool, true, false, not, ◌&&◌, List, [], ◌∷◌, ◌++◌, map, Option, none,
  some, ltb, leb, ◌==◌, if◌then◌else◌, each, update, ◌*◌, ◌>>=◌,
}
use cpp_code_blocks.Prelude.Int.{ℤ, pos, eqb_ℤ, max_ℤ, ◌+ℤ◌, ◌-ℤ◌}
use cpp_code_blocks.Game.Utils.{dir_pos, lg2, array_max, right, down}
use cpp_code_blocks.Game.Board.{
  Tiles, Pos, get_target_pos, get_all_empty_pos, get_empty_pos_num, get_max_value,
}
use cpp_code_blocks.Game.Score.{Scores}

-- `abs(a - b)`
abbrev pub abs_diff : ℕ → ℕ → ℕ
abs_diff a b = (a - b) + (b - a)

-- What the tile at `i` loses against the next tile in one direction.
unfoldable pub smooth_step : Tiles → ℕ → Pos → ℤ → ℤ
smooth_step tiles i none smooth_val = smooth_val
smooth_step tiles i (some target) smooth_val =
    if leb target 15 && ltb 0 (tiles target)
    then smooth_val -ℤ pos (abs_diff (tiles i) (tiles target))
    else smooth_val

unfoldable pub eval_smoothness_value : Tiles → ℤ
unfolding each smooth_step get_target_pos ◌-ℤ◌
eval_smoothness_value tiles =
    each 16
      (λ i smooth_val.
        if ltb 0 (tiles i)
        then smooth_step tiles i (get_target_pos tiles i down).1
            (smooth_step tiles i (get_target_pos tiles i right).1 smooth_val)
        else smooth_val)
      (pos 0)

-- The two sums of the macro WORK.
pub record Totals : Type 0 where
  pub val1 : ℤ
  pub val2 : ℤ

-- The inner loop passes the empty cells that lie before the end of the line.
unfoldable pub skip_empty : ℕ → Tiles → ℕ → ℕ → ℕ → ℕ
skip_empty zero tiles add end next = next
skip_empty (suc fuel) tiles add end next =
    let rest = skip_empty fuel tiles add end (next + add) in
    if leb next end && tiles next == 0 then rest else next

abbrev add_pair : Tiles → ℕ → ℕ → Totals → Totals
add_pair tiles curr next t =
    if ltb (tiles next) (tiles curr)
    then record t { val1 = t.val1 +ℤ (pos (tiles next) -ℤ pos (tiles curr)) }
    else record t { val2 = t.val2 +ℤ (pos (tiles curr) -ℤ pos (tiles next)) }

-- `while (next <= ids[i][1]) { ... }`, of four rounds at most.
unfoldable pub walk_line : ℕ → Tiles → ℕ → ℕ → ℕ → ℕ → Totals → Totals
unfolding skip_empty
walk_line zero tiles add end curr next t = t
walk_line (suc fuel) tiles add end curr next t =
    let stop = skip_empty 4 tiles add end next in
    let next' : ℕ = if ltb end stop then end else stop in
    let rest = walk_line fuel tiles add end next' (next' + add) (add_pair tiles curr next' t) in
    if leb next end then rest else t

-- One use of the macro: the lines from `start i` to `end i`.
unfoldable pub work : Tiles → (ℕ → ℕ) → (ℕ → ℕ) → ℕ → Totals
unfolding each walk_line ◌+ℤ◌ ◌-ℤ◌
work tiles start end add =
    each 4 (λ i t. walk_line 4 tiles add (end i) (start i) (start i + add) t)
      (record { val1 = pos 0; val2 = pos 0 })

-- The table `ids`: the rows.
unfoldable pub row_totals : Tiles → Totals
unfolding work
row_totals tiles = work tiles (λ i. i * 4) (λ i. i * 4 + 3) 1

-- The table `ids2`: the columns.
unfoldable pub column_totals : Tiles → Totals
unfolding work
column_totals tiles = work tiles (λ i. i) (λ i. i + 12) 4

unfoldable pub eval_monotonicity_value : Tiles → ℤ
unfolding row_totals column_totals ◌+ℤ◌
eval_monotonicity_value tiles =
    let rows = row_totals tiles in
    let columns = column_totals tiles in
    max_ℤ rows.val1 rows.val2 +ℤ max_ℤ columns.val1 columns.val2

abbrev pub Marks : Type 0
Marks = ℕ → Bool

-- `IsValid(pos) && tiles_[pos] == val && !marked[pos]`
unfoldable pub to_mark : Tiles → ℕ → ℕ → Marks → Bool
to_mark tiles val p marked = leb p 15 && tiles p == val && not (marked p)

-- The recursion of `Mark`, on fuel. Each call marks a cell before it goes on to the neighbours, so
-- that 17 levels are enough for 16 cells.
unfoldable pub mark : ℕ → Tiles → ℕ → Pos → Marks → Marks
unfolding to_mark dir_pos
mark zero tiles val p marked = marked
mark (suc fuel) tiles val none marked = marked
mark (suc fuel) tiles val (some p) marked = elim (to_mark tiles val p marked) [
  | true ↦ mark fuel tiles val (dir_pos p 3) (
      mark fuel tiles val (dir_pos p 2) (
        mark fuel tiles val (dir_pos p 1)
          (mark fuel tiles val (dir_pos p 0) (update marked p true))))
  | false ↦ marked
]

pub record Lands : Type 0 where
  pub land_num : ℕ
  pub marked : Marks

abbrev pub land_step : Tiles → ℕ → Lands → Lands
land_step tiles i l =
    if not (tiles i == 0) && not (l.marked i)
    then record { land_num = suc l.land_num; marked = mark 17 tiles (tiles i) (some i) l.marked }
    else l

unfoldable pub count_lands : Tiles → Lands
unfolding each mark
count_lands tiles = each 16 (land_step tiles) (record { land_num = 0; marked = λ i. false })

unfoldable pub get_land_num : Tiles → ℕ
unfolding count_lands
get_land_num tiles = (count_lands tiles).land_num

-- `score[i][j]` for the tile `val` at the empty cell `p`.
unfoldable pub tile_score : Tiles → ℕ → ℕ → ℤ
unfolding eval_smoothness_value get_land_num ◌+ℤ◌ ◌-ℤ◌
tile_score tiles val p =
    let placed = update tiles p val in
    pos 0 -ℤ eval_smoothness_value placed +ℤ pos (get_land_num placed)

-- The cells of `candidate_pos_set` for one tile.
unfoldable pub best_cells : Tiles → ℤ → ℕ → List ℕ → List (ℕ × ℕ)
unfolding tile_score
best_cells tiles max_score val [] = []
best_cells tiles max_score val (p ∷ ps) =
    if eqb_ℤ (tile_score tiles val p) max_score
    then (p, val) ∷ best_cells tiles max_score val ps
    else best_cells tiles max_score val ps

-- Pairs of a position and a tile. `none` is the failed assertion of `ArrayMax`.
unfoldable pub get_candidate_set : Tiles → Option (List (ℕ × ℕ))
unfolding get_all_empty_pos tile_score array_max best_cells
get_candidate_set tiles =
    let empty_pos = get_all_empty_pos tiles in
    do
      max1 ← array_max (map (tile_score tiles 1) empty_pos)
      max2 ← array_max (map (tile_score tiles 2) empty_pos)
      some (
          best_cells tiles (max_ℤ max1 max2) 1 empty_pos
          ++ best_cells tiles (max_ℤ max1 max2) 2 empty_pos)

module _ (scores : Scores) where
  open scores use {Score, weigh}

  unfoldable pub eval_all : Tiles → Score
  unfolding eval_smoothness_value eval_monotonicity_value lg2 get_empty_pos_num get_max_value
  eval_all tiles =
      weigh (eval_smoothness_value tiles) (eval_monotonicity_value tiles)
        (lg2 (get_empty_pos_num tiles)) (get_max_value tiles)
