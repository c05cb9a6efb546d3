-- ===== src/Tests/GameTests.antt =====
-- Boards, moves and searches.
use cpp_code_blocks.Prelude.{
  ◌==◌, if◌then◌else◌, List, ℕ, ◌+◌, ◌≤◌, ◌<◌, ◌≡◌, ◌↔◌, refl, true, false, [], ◌∷◌, none, some,
  arith, get_or,
}
use cpp_code_blocks.Prelude.Int.{ℤ, pos, negsuc, ltb_ℤ, ◌+ℤ◌}
use cpp_code_blocks.Game.Utils.{dir_pos, left}
use cpp_code_blocks.Game.Board.{Tiles, holds, is_win}
use cpp_code_blocks.Game.Move.{try_move}
use cpp_code_blocks.Game.Moves.Tiles.{total, try_move-total, try_move-eq-false}
use cpp_code_blocks.Game.Moves.Shape.{try_move_bounded, try_move_settled}
use cpp_code_blocks.Game.Score.{Scores}
use cpp_code_blocks.Game.Round.{IsSynced, Chances, play, new_match, new_match-IsSynced}
use cpp_code_blocks.Game.Eval.{eval_all, get_candidate_set}
use cpp_code_blocks.Game.Candidates.{try_move_leaves_candidates}
use cpp_code_blocks.Game.Search.{search_root}
use cpp_code_blocks.Game.Search.AlphaBeta.{mini_max, in_bounds, search_root-eq-mini_max}
use cpp_code_blocks.Game.Search.BestMove.{search_root-best_move}

-- Four rows: 2 2 4 0, 2 0 0 2, 0 0 8 0, 2 2 2 2.
abbrev board : Tiles
board i = get_or (1 ∷ 1 ∷ 2 ∷ 0 ∷ 1 ∷ 0 ∷ 0 ∷ 1 ∷ 0 ∷ 0 ∷ 3 ∷ 0 ∷ 1 ∷ 1 ∷ 1 ∷ 1 ∷ []) i 0

ltb_ℤ_irrefl : (a : ℤ) → ltb_ℤ a a ≡ false
ltb_ℤ_irrefl a = ground arith

ltb_ℤ_trans : (a b c : ℤ) → ltb_ℤ a b ≡ true → ltb_ℤ b c ≡ true → ltb_ℤ a c ≡ true
ltb_ℤ_trans a b c h k = ground arith

ltb_ℤ_total : (a b : ℤ) → ltb_ℤ a b ≡ false → ltb_ℤ b a ≡ false → a ≡ b
ltb_ℤ_total a b h k = ground arith

-- Scores that are integers, weighed as a sum.
abbrev whole_scores : Scores
whole_scores = record {
  Score = ℤ;
  lt = ltb_ℤ;
  lt_irrefl = ltb_ℤ_irrefl;
  lt_trans = ltb_ℤ_trans;
  lt_total = ltb_ℤ_total;
  weigh = λ smooth mono empty max_value. smooth +ℤ mono +ℤ pos (empty + max_value);
  lowest = negsuc 999;
  highest = pos 1000;
  lowest-lt-highest = refl;
}

try_move-total_example : total (try_move board left).0 ≡ total board
try_move-total_example = try_move-total board left (omega arith)

try_move-eq-false_example : ((try_move board left).1 ≡ false) ↔ ((try_move board left).0 ≡ board)
try_move-eq-false_example = try_move-eq-false board left (omega arith)

board_moves : (try_move board left).1 ≡ true
unfolding try_move get_or dir_pos
board_moves = refl

board-le : (i : ℕ) → i < 16 → board i ≤ 3
unfolding get_or
board-le i h = ground arith

try_move_bounded_example : (try_move board left).0 8 ≤ 4
try_move_bounded_example = try_move_bounded board left 3 (omega arith) board-le 8 (omega arith)

moved_value : (try_move board left).0 8 ≡ 3
unfolding try_move get_or dir_pos
moved_value = refl

moved_tile : 0 < (try_move board left).0 8
moved_tile = omega (arith, moved_value)

try_move_settled_example : holds (try_move board left).0 (dir_pos 8 left) 0 ≡ false
try_move_settled_example = try_move_settled board left 8 (omega arith) (omega arith) moved_tile

board_going : is_win board ≡ false
unfolding is_win get_or
board_going = refl

search_root-eq-mini_max_example :
    (search_root whole_scores 3 board none).score
    ≡ in_bounds whole_scores (mini_max whole_scores 3 true board)
search_root-eq-mini_max_example = search_root-eq-mini_max whole_scores 2 board none board_going

best_found : (search_root whole_scores 1 board none).best_move ≡ some 1
unfolding search_root get_or is_win try_move dir_pos eval_all
best_found = refl

search_root-best_move_example :
    ((try_move board 1).1 ≡ true)
    × (in_bounds whole_scores (mini_max whole_scores 0 false (try_move board 1).0)
        ≡ in_bounds whole_scores (mini_max whole_scores 1 true board))
search_root-best_move_example =
    search_root-best_move whole_scores 0 1 board none board_going best_found

try_move_leaves_candidates_example :
    (set : List (ℕ × ℕ)) × (get_candidate_set (try_move board left).0 ≡ some set)
try_move_leaves_candidates_example = try_move_leaves_candidates board left (omega arith) board_moves

-- A board that has only its second cell filled.
abbrev sparse : Tiles
sparse i = if i == 1 then 2 else 0

-- Three rounds.
abbrev chances : List Chances
chances = (2, 5, 0) ∷ (1, 3, 1) ∷ (4, 9, 1) ∷ []

new_match-IsSynced_example : IsSynced (play whole_scores chances (new_match 3 0 8 1))
new_match-IsSynced_example = new_match-IsSynced whole_scores chances 3 0 8 1
