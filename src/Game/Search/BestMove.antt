-- ===== src/Game/Search/BestMove.antt =====
-- The move that `MiniMaxSearch` leaves in `best_move_`.
use cpp_code_blocks.Prelude.{
  ℕ, suc, ◌≡◌, ◌⊎◌, inl, inr, refl, sym, ◌∙◌, true, false, List, [], ◌∷◌, Option, none, some, arith,
  Bool-cases,
}
use cpp_code_blocks.Game.Board.{Tiles, is_win}
use cpp_code_blocks.Game.Move.{try_move}
use cpp_code_blocks.Game.Score.Laws.{
  Scores, Le, Agrees, lt_asymm, lt_le_trans, le_le_trans, Agrees-eq-clamp,
}
use cpp_code_blocks.Game.Search.{Searcher, dirs, player_loop, mini_max_search, search_root}
use cpp_code_blocks.Game.Search.Window.{IsSearch}
use cpp_code_blocks.Game.Search.AlphaBeta.{
  mini_max, mini_max_search-IsSearch, search_root-InWindow, search_root-eq-mini_max, in_bounds,
}

module _ (scores : Scores) where
  open scores use {Score, lt, lt_irrefl, lt_trans, lowest, highest, lowest-lt-highest}

  -- The move changes the board, and `score` agrees with the value of the board after it.
  pub record IsChoice (value : Tiles → Score) (tiles : Tiles) (a b score : Score) (dir : ℕ)
      : Type 0 where
    pub legal : (try_move tiles dir).1 ≡ true
    pub agrees : Agrees scores a b score (value (try_move tiles dir).0)

  -- Either no move was better than alpha, or the best one is kept.
  abbrev Fits : (Tiles → Score) → Tiles → Score → Score → Option ℕ → Score → Type 0
  Fits value tiles a b best score =
      ((best ≡ none) × (score ≡ a))
      ⊎ ((dir : ℕ) × (best ≡ some dir) × IsChoice value tiles a b score dir)

  module _ (a0 a b s v : Score) (w : lt a b ≡ true) (child : Agrees scores a b s v)
      (better : lt a s ≡ true) where
    -- Below the raised alpha both are too large to fail a test.
    widen : Agrees scores a0 b s v
    widen t lo hi =
        ground (arith, child t, child a (lt_irrefl a) w, lt_trans t a s, lt_trans t a v, better, hi)

    widen_cut : Le scores b s → Agrees scores a0 b b v
    widen_cut k t lo hi = ground (
      arith,
      child t,
      child a (lt_irrefl a) w,
      lt_trans t a v,
      lt_le_trans scores t b s hi k,
      better,
      hi,
    )

  module _ (child : Searcher scores) (value : Tiles → Score) (c : IsSearch scores child value)
      (tiles : Tiles) (a0 b : Score) where
    player_loop-Fits :
        (ds : List ℕ) (a : Score) (best : Option ℕ)
        → lt a b ≡ true
        → Le scores lowest a
        → Le scores b highest
        → Fits value tiles a0 b best a
        → Fits value tiles a0 b
            (player_loop scores child tiles ds a b best).best_move
            (player_loop scores child tiles ds a b best).score
    unfolding player_loop
    player_loop-Fits [] a best w lo hi f = f
    player_loop-Fits (dir ∷ ds) a best w lo hi f = elim (Bool-cases (try_move tiles dir).1) [
      | inr stuck ↦ rw stuck (player_loop-Fits ds a best w lo hi f)
      | inl ok ↦
          let moved = (try_move tiles dir).0 in
          let s = child moved a b in
          let g = c.search_agrees moved a b w lo hi in
          rw ok (elim (Bool-cases (lt a s)) [
            | inr worse ↦ rw (worse, w) (player_loop-Fits ds a best w lo hi f)
            | inl better ↦ rw better (elim (Bool-cases (lt s b)) [
              | inr cut ↦ rw cut (
                  inr (
                    dir,
                    refl,
                    record { legal = ok; agrees = widen_cut a0 a b s (value moved) w g better cut },
                  ))
              | inl inside ↦ rw inside (
                  player_loop-Fits ds s (some dir) inside
                    (le_le_trans scores lowest a s lo (lt_asymm scores a s better)) hi
                    (inr (
                      dir,
                      refl,
                      record { legal = ok; agrees = widen a0 a b s (value moved) w g better },
                    )))
            ])
          ])
    ]

  search_root-Fits :
      (depth : ℕ) (tiles : Tiles) (best : Option ℕ)
      → is_win tiles ≡ false
      → Fits
          (mini_max scores depth false)
          tiles
          lowest
          highest
          (search_root scores (suc depth) tiles best).best_move
          (search_root scores (suc depth) tiles best).score
  unfolding search_root
  search_root-Fits depth tiles best going = rw going (
      player_loop-Fits (mini_max_search scores depth false) (mini_max scores depth false)
        (mini_max_search-IsSearch scores depth false) tiles lowest highest dirs lowest none
        lowest-lt-highest (lt_irrefl lowest) (lt_irrefl highest) (inl (refl, refl)))

  Fits-IsChoice :
      (value : Tiles → Score) (tiles : Tiles) (a b score : Score) (best : Option ℕ) (dir : ℕ)
      → best ≡ some dir
      → Fits value tiles a b best score
      → IsChoice value tiles a b score dir
  Fits-IsChoice value tiles a b score best dir e (inl (missing, _)) = cc
  Fits-IsChoice value tiles a b score best dir e (inr (d, same, choice)) =
      let d-eq : dir ≡ d = ground arith in rw d-eq choice

  -- On a board that is not won, a move left in `best_move_` changes the board, and the board after
  -- it has the minimax value of the board before it, both brought into the window from -INF to INF.
  pub search_root-best_move :
      (depth dir : ℕ) (tiles : Tiles) (best : Option ℕ)
      → is_win tiles ≡ false
      → (search_root scores (suc depth) tiles best).best_move ≡ some dir
      → ((try_move tiles dir).1 ≡ true)
        × (in_bounds scores (mini_max scores depth false (try_move tiles dir).0)
            ≡ in_bounds scores (mini_max scores (suc depth) true tiles))
  search_root-best_move depth dir tiles best going chosen =
      let win = search_root-InWindow scores depth tiles best going in
      let choice =
        Fits-IsChoice (mini_max scores depth false) tiles lowest highest
          (search_root scores (suc depth) tiles best).score
          (search_root scores (suc depth) tiles best).best_move dir chosen
          (search_root-Fits depth tiles best going) in
      (
        choice.legal,
        sym (
              Agrees-eq-clamp scores lowest highest
                (search_root scores (suc depth) tiles best).score
                (mini_max scores depth false (try_move tiles dir).0) lowest-lt-highest win.above
                win.below choice.agrees)
            ∙ search_root-eq-mini_max scores depth tiles best going,
      )
