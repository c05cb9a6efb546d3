-- ===== src/Game/Board.antt =====
-- ai/2048/ai_2048.{h,cc}: the tiles of the board and the operations that read or fill them.
-- `int8_t tiles_[20]` is a function of the index, of which 0 to 15 are used; a tile is the exponent
-- of its value and never negative.
use cpp_code_blocks.Prelude.{
  ℕ, zero, suc, ◌+◌, ◌*◌, ◌/◌, ◌%◌, ◌^◌, Bool, true, false, ◌&&◌, ◌||◌, List, [], ◌∷◌, ◌++◌, Option,
  none, some, ltb, leb, ◌==◌, if◌then◌else◌, each, update, length, get_or,
}
use cpp_code_blocks.Prelude.Int.{ℤ, pos, ltb_ℤ, pos_part}
use cpp_code_blocks.Game.Utils.{dir_pos, lg2}

abbrev pub Tiles : Type 0
Tiles = ℕ → ℕ

-- A position, an `int`; `none` is -1.
abbrev pub Pos : Type 0
Pos = Option ℕ

pub record Ai2048 : Type 0 where
  pub tiles : Tiles
  pub best_move : Option ℕ  -- `none` is -1

abbrev pub clear : Ai2048
clear = record { tiles = λ i. 0; best_move = none }

abbrev pub copy_tiles_from : Ai2048 → Ai2048 → Ai2048
copy_tiles_from this ai = record this { tiles = ai.tiles }

unfoldable pub is_valid : Pos → Bool
is_valid none = false
is_valid (some here) = leb here 15

-- `IsValid(here) && tiles_[here] == val`
unfoldable pub holds : Tiles → Pos → ℕ → Bool
unfolding is_valid
holds tiles none val = false
holds tiles (some here) val = is_valid (some here) && tiles here == val

abbrev pub step_to : Pos → ℕ → Pos
step_to none dir = none
step_to (some here) dir = dir_pos here dir

-- The do-while loop of `GetTargetPos`, on fuel: (prev_pos, here) when it ends.
unfoldable pub target_loop : ℕ → Tiles → ℕ → ℕ → ℕ × Pos
target_loop zero tiles here dir = (here, dir_pos here dir)
target_loop (suc fuel) tiles here dir = elim (dir_pos here dir) [
  | none ↦ (here, none)
  | some next ↦ elim (holds tiles (some next) 0) [
    | true ↦ target_loop fuel tiles next dir
    | false ↦ (here, some next)
  ]
]

-- The board is four cells wide, so that the loop tests three cells at most.
unfoldable pub get_target_pos : Tiles → ℕ → ℕ → ℕ × Pos
unfolding target_loop holds
get_target_pos tiles here dir = target_loop 4 tiles here dir

abbrev pub Grid : Type 0
Grid = ℕ → ℕ → ℤ

unfoldable pub add_computer_move : Tiles → Grid → Tiles
unfolding each lg2
add_computer_move tiles grid =
    each 16
      (λ i t.
        let cell = grid (i / 4) (i % 4) in
        if t i == 0 && ltb_ℤ (pos 0) cell then update t i (lg2 (pos_part cell)) else t)
      tiles

-- `1 << tiles_[i]` for a tile below 31.
unfoldable pub get_all_tiles : Tiles → Grid
get_all_tiles tiles x y =
    let tile = tiles (x * 4 + y) in if ltb 0 tile then pos (2 ^ tile) else pos 0

unfoldable pub get_all_empty_pos : Tiles → List ℕ
unfolding each
get_all_empty_pos tiles = each 16 (λ i set. if tiles i == 0 then set ++ i ∷ [] else set) []

unfoldable pub get_empty_pos_num : Tiles → ℕ
unfolding each
get_empty_pos_num tiles = each 16 (λ i count. if tiles i == 0 then suc count else count) 0

-- `r` and `s` are the results of the two calls of `rand`.
unfoldable pub add_rand_tile : Tiles → ℕ → ℕ → Tiles
unfolding get_all_empty_pos get_or
add_rand_tile tiles r s =
    let pos_set = get_all_empty_pos tiles in
    if ltb 0 (length pos_set)
    then update tiles (get_or pos_set (r % length pos_set) 0) (if s % 2 == 0 then 2 else 1)
    else tiles

unfoldable pub get_max_value : Tiles → ℕ
unfolding each
get_max_value tiles =
    each 15 (λ i max_val. if ltb max_val (tiles (suc i)) then tiles (suc i) else max_val) (tiles 0)

unfoldable pub is_win : Tiles → Bool
unfolding each
is_win tiles = each 16 (λ i won. won || tiles i == 11) false
