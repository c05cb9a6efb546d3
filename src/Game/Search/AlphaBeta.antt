-- ===== src/Game/Search/AlphaBeta.antt =====
-- `MiniMaxSearch` with its cut-offs against the plain minimax value of the same tree.
use cpp_code_blocks.Prelude.{
  ℕ, zero, suc, ◌≡◌, Bool, true, false, Option, none, if◌then◌else◌, Bool-cases, inl, inr, refl,
}
use cpp_code_blocks.Game.Board.{Tiles, is_win}
use cpp_code_blocks.Game.Eval.{get_candidate_set, eval_all}
use cpp_code_blocks.Game.Score.Laws.{Scores, clamp, Agrees-eq-clamp}
use cpp_code_blocks.Game.Search.{
  Searcher, dirs, or_empty, player_turn, computer_turn, mini_max_search, search_root,
}
use cpp_code_blocks.Game.Search.Window.{
  IsSearch, InWindow, player_value, computer_value, player_loop-InWindow, computer_loop-InWindow,
}

module _ (scores : Scores) where
  open scores use {Score, lt, lt_irrefl, lowest, highest, lowest-lt-highest}

  unfoldable pub player_turn_value : (Tiles → Score) → Tiles → Score
  unfolding player_value
  player_turn_value value tiles =
      if is_win tiles then eval_all scores tiles else player_value scores value tiles dirs

  -- The minimax value of a board: every move and every candidate is looked at.
  unfoldable pub mini_max : ℕ → Bool → Tiles → Score
  unfolding player_turn_value computer_value
  mini_max zero is_player tiles = eval_all scores tiles
  mini_max (suc depth) true tiles = player_turn_value (mini_max depth false) tiles
  mini_max (suc depth) false tiles =
      if is_win tiles
      then eval_all scores tiles
      else computer_value scores (player_turn_value (mini_max depth false)) tiles
          (or_empty (get_candidate_set tiles))

  module _ (child : Searcher scores) (value : Tiles → Score) (c : IsSearch scores child value) where
    player_turn-IsSearch : IsSearch scores (player_turn scores child) (player_turn_value value)
    unfolding player_turn player_turn_value
    player_turn-IsSearch = record {
      search_agrees = λ tiles a b w lo hi. elim (Bool-cases (is_win tiles)) [
        | inl won ↦ rw won (λ t ta tb. refl)
        | inr open_board ↦
            rw open_board
              (player_loop-InWindow scores child value c tiles dirs a b none w lo hi).agrees
      ];
    }

    computer_turn-IsSearch : IsSearch scores (computer_turn scores child) (λ tiles.
        if is_win tiles
        then eval_all scores tiles
        else computer_value scores value tiles (or_empty (get_candidate_set tiles)))
    unfolding computer_turn
    computer_turn-IsSearch = record {
      search_agrees = λ tiles a b w lo hi. elim (Bool-cases (is_win tiles)) [
        | inl won ↦ rw won (λ t ta tb. refl)
        | inr open_board ↦
            rw open_board
              (computer_loop-InWindow scores child value c tiles
                (or_empty (get_candidate_set tiles)) a b w lo hi).agrees
      ];
    }

  pub mini_max_search-IsSearch :
      (depth : ℕ) (is_player : Bool)
      → IsSearch scores (mini_max_search scores depth is_player) (mini_max depth is_player)
  unfolding mini_max_search mini_max
  mini_max_search-IsSearch zero is_player = record {
    search_agrees = λ tiles a b w lo hi t ta tb. refl;
  }
  mini_max_search-IsSearch (suc depth) true =
      player_turn-IsSearch (mini_max_search scores depth false) (mini_max depth false)
        (mini_max_search-IsSearch depth false)
  mini_max_search-IsSearch (suc depth) false =
      computer_turn-IsSearch (player_turn scores (mini_max_search scores depth false))
        (player_turn_value (mini_max depth false))
        (player_turn-IsSearch (mini_max_search scores depth false) (mini_max depth false)
          (mini_max_search-IsSearch depth false))

  pub search_root-InWindow :
      (depth : ℕ) (tiles : Tiles) (best : Option ℕ)
      → is_win tiles ≡ false
      → InWindow scores lowest highest
          (search_root scores (suc depth) tiles best).score
          (mini_max (suc depth) true tiles)
  unfolding search_root mini_max player_turn_value
  search_root-InWindow depth tiles best going = rw going (
      player_loop-InWindow scores (mini_max_search scores depth false) (mini_max depth false)
        (mini_max_search-IsSearch depth false) tiles dirs lowest highest none lowest-lt-highest
        (lt_irrefl lowest) (lt_irrefl highest))

  -- The value of a board, brought into the window from -INF to INF.
  abbrev pub in_bounds : Score → Score
  in_bounds = clamp scores lowest highest

  -- On a board that is not won, the root's score is the minimax value of the board, brought into the
  -- window from -INF to INF: the cut-offs lose nothing.
  pub search_root-eq-mini_max :
      (depth : ℕ) (tiles : Tiles) (best : Option ℕ)
      → is_win tiles ≡ false
      → (search_root scores (suc depth) tiles best).score
        ≡ in_bounds (mini_max (suc depth) true tiles)
  search_root-eq-mini_max depth tiles best going =
      let found = search_root-InWindow depth tiles best going in
      Agrees-eq-clamp scores lowest highest (search_root scores (suc depth) tiles best).score
        (mini_max (suc depth) true tiles) lowest-lt-highest found.above found.below found.agrees
