-- ===== src/Game/Search/Window.antt =====
-- The loops of `MiniMaxSearch` against plain maxima and minima: with the window (alpha, beta) they
-- give the same answer to every test within the window.
use cpp_code_blocks.Prelude.{
  ℕ, ◌≡◌, true, List, [], ◌∷◌, Option, some, arith, if◌then◌else◌, update, Bool-cases, inl, inr,
}
use cpp_code_blocks.Game.Board.{Tiles}
use cpp_code_blocks.Game.Move.{try_move}
use cpp_code_blocks.Game.Score.Laws.{
  Scores, Le, Agrees, max_score, min_score, lt-max_score, lt-min_score, lt_asymm, lt_le_trans,
  le_le_trans,
}
use cpp_code_blocks.Game.Search.{Searcher, player_loop, computer_loop}

module _ (scores : Scores) where
  open scores use {Score, lt, lt_irrefl, lt_trans, lowest, highest}

  -- The best of the moves that change the board.
  unfoldable pub player_value : (Tiles → Score) → Tiles → List ℕ → Score
  player_value value tiles [] = lowest
  player_value value tiles (dir ∷ rest) =
      let (moved, ok) = try_move tiles dir in
      if ok
      then max_score scores (value moved) (player_value value tiles rest)
      else player_value value tiles rest

  -- The worst of the candidates.
  unfoldable pub computer_value : (Tiles → Score) → Tiles → List (ℕ × ℕ) → Score
  computer_value value tiles [] = highest
  computer_value value tiles ((p, val) ∷ rest) =
      min_score scores (value (update tiles p val)) (computer_value value tiles rest)

  -- What a loop returns: a score in the window, which agrees with the plain value there.
  pub record InWindow (a b x y : Score) : Type 0 where
    pub above : Le scores a x
    pub below : Le scores x b
    pub agrees : Agrees scores a b x y

  module _ (a b s v x y : Score) (child : Agrees scores a b s v) where
    -- The score is no better than alpha.
    keep_alpha : Le scores s a → InWindow a b x y → InWindow a b x (max_score scores v y)
    keep_alpha h w = record {
      above = w.above;
      below = w.below;
      agrees = λ t lo hi. ground (
        arith,
        w.agrees t lo hi,
        child t lo hi,
        lt-max_score scores t v y,
        le_le_trans scores s a t h lo,
      );
    }

    -- The score is the new alpha.
    raise_alpha :
        lt a s ≡ true → lt s b ≡ true → InWindow s b x y → InWindow a b x (max_score scores v y)
    raise_alpha h k w = record {
      above = le_le_trans scores a s x (lt_asymm scores a s h) w.above;
      below = w.below;
      agrees = λ t lo hi. ground (
        arith,
        w.agrees t,
        child t lo hi,
        lt-max_score scores t v y,
        lt_le_trans scores t s x,
        w.above,
      );
    }

    -- The score reaches beta, and the loop ends.
    cut_beta : lt a b ≡ true → Le scores b s → InWindow a b b (max_score scores v y)
    cut_beta h k = record {
      above = lt_asymm scores a b h;
      below = lt_irrefl b;
      agrees = λ t lo hi.
          ground
            (arith, child t lo hi, lt-max_score scores t v y, lt_le_trans scores t b s hi k, hi);
    }

    -- The same three cases for the other side.
    keep_beta : Le scores b s → InWindow a b x y → InWindow a b x (min_score scores v y)
    keep_beta h w = record {
      above = w.above;
      below = w.below;
      agrees = λ t lo hi. ground (
        arith,
        w.agrees t lo hi,
        child t lo hi,
        lt-min_score scores t v y,
        lt_le_trans scores t b s hi h,
      );
    }

    lower_beta :
        lt s b ≡ true → lt a s ≡ true → InWindow a s x y → InWindow a b x (min_score scores v y)
    lower_beta h k w = record {
      above = w.above;
      below = le_le_trans scores x s b w.below (lt_asymm scores s b h);
      agrees = λ t lo hi. ground (
        arith,
        w.agrees t lo,
        child t lo hi,
        lt-min_score scores t v y,
        le_le_trans scores x s t w.below,
      );
    }

    cut_alpha : lt a b ≡ true → Le scores s a → InWindow a b a (min_score scores v y)
    cut_alpha h k = record {
      above = lt_irrefl a;
      below = lt_asymm scores a b h;
      agrees = λ t lo hi.
          ground
            (arith, child t lo hi, lt-min_score scores t v y, le_le_trans scores s a t k lo, lo);
    }

  -- A search of the boards one move further on agrees with their values, for every window.
  pub record IsSearch (child : Searcher scores) (value : Tiles → Score) : Type 0 where
    pub search_agrees :
        (tiles : Tiles) (a b : Score)
        → lt a b ≡ true
        → Le scores lowest a
        → Le scores b highest
        → Agrees scores a b (child tiles a b) (value tiles)

  module _ (child : Searcher scores) (value : Tiles → Score) (c : IsSearch child value) where
    pub player_loop-InWindow :
        (tiles : Tiles) (ds : List ℕ) (a b : Score) (best : Option ℕ)
        → lt a b ≡ true
        → Le scores lowest a
        → Le scores b highest
        → InWindow a b
            (player_loop scores child tiles ds a b best).score
            (player_value value tiles ds)
    unfolding player_loop player_value
    player_loop-InWindow tiles [] a b best w lo hi = record {
      above = lt_irrefl a;
      below = lt_asymm scores a b w;
      agrees = λ t ta tb. ground (arith, ta, le_le_trans scores lowest a t lo ta);
    }
    player_loop-InWindow tiles (dir ∷ ds) a b best w lo hi =
        elim (Bool-cases (try_move tiles dir).1) [
          | inr stuck ↦ rw stuck (player_loop-InWindow tiles ds a b best w lo hi)
          | inl ok ↦
              let moved = (try_move tiles dir).0 in
              let s = child moved a b in
              let g = c.search_agrees moved a b w lo hi in
              rw ok (elim (Bool-cases (lt a s)) [
                | inr worse ↦
                    rw (worse, w)
                      (keep_alpha a b s (value moved)
                        (player_loop scores child tiles ds a b best).score
                        (player_value value tiles ds) g worse
                        (player_loop-InWindow tiles ds a b best w lo hi))
                | inl better ↦ rw better (elim (Bool-cases (lt s b)) [
                  | inr cut ↦
                      rw cut (cut_beta a b s (value moved) s (player_value value tiles ds) g w cut)
                  | inl inside ↦ rw inside (
                      raise_alpha a b s (value moved)
                        (player_loop scores child tiles ds s b (some dir)).score
                        (player_value value tiles ds) g better inside
                        (player_loop-InWindow tiles ds s b (some dir) inside
                          (le_le_trans scores lowest a s lo (lt_asymm scores a s better)) hi))
                ])
              ])
        ]

    pub computer_loop-InWindow :
        (tiles : Tiles) (cs : List (ℕ × ℕ)) (a b : Score)
        → lt a b ≡ true
        → Le scores lowest a
        → Le scores b highest
        → InWindow a b (computer_loop scores child tiles cs a b) (computer_value value tiles cs)
    unfolding computer_loop computer_value
    computer_loop-InWindow tiles [] a b w lo hi = record {
      above = lt_asymm scores a b w;
      below = lt_irrefl b;
      agrees = λ t ta tb. ground (arith, tb, lt_le_trans scores t b highest tb hi);
    }
    computer_loop-InWindow tiles ((p, val) ∷ cs) a b w lo hi =
        let placed = update tiles p val in
        let s = child placed a b in
        let g = c.search_agrees placed a b w lo hi in
        elim (Bool-cases (lt s b)) [
          | inr worse ↦
              rw (worse, w)
                (keep_beta a b s (value placed) (computer_loop scores child tiles cs a b)
                  (computer_value value tiles cs) g worse
                  (computer_loop-InWindow tiles cs a b w lo hi))
          | inl better ↦ rw better (elim (Bool-cases (lt a s)) [
            | inr cut ↦
                rw cut (cut_alpha a b s (value placed) s (computer_value value tiles cs) g w cut)
            | inl inside ↦ rw inside (
                lower_beta a b s (value placed) (computer_loop scores child tiles cs a s)
                  (computer_value value tiles cs) g better inside
                  (computer_loop-InWindow tiles cs a s inside lo
                    (le_le_trans scores s b highest (lt_asymm scores s b better) hi)))
          ])
        ]
