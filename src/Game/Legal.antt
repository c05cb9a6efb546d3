-- ===== src/Game/Legal.antt =====
-- ai/2048/ai_2048.cc: the move that `GetPlayerBestMove` chooses.
use cpp_code_blocks.Prelude.{
  ℕ, zero, suc, ◌<◌, ◌≡◌, sym, subst, refl, ◌⊎◌, inl, inr, Bool, true, false, not, List, [], ◌∷◌,
  Option, none, some, if◌then◌else◌, arith, Bool-cases, chosen, passed_over,
}
use cpp_code_blocks.Game.Board.{Tiles, is_win}
use cpp_code_blocks.Game.Move.{try_move}
use cpp_code_blocks.Game.Score.{Scores}
use cpp_code_blocks.Game.Search.{
  Found, Searcher, dirs, player_loop, mini_max_search, search_root, deepen, get_player_best_move,
}

-- A direction in which the board can move.
abbrev pub IsLegal : Tiles → ℕ → Type 0
IsLegal tiles move = (move < 4) × ((try_move tiles move).1 ≡ true)

abbrev AllLegal : Tiles → Option ℕ → Type 0
AllLegal tiles none = Unit {0}
AllLegal tiles (some move) = IsLegal tiles move

abbrev AllDirs : List ℕ → Type 0
AllDirs [] = Unit {0}
AllDirs (dir ∷ rest) = (dir < 4) × AllDirs rest

either {ℓ} : {A : Type ℓ} (P : A → Type 0) (c : Bool) (x y : A) → P x → P y → P (if c then x else y)
either P true x y px py = px
either P false x y px py = py

module _ (scores : Scores) where
  open scores use {Score, lt, lowest, highest}

  abbrev FoundLegal : Tiles → Found scores → Type 0
  FoundLegal tiles found = AllLegal tiles found.best_move

  player_loop-FoundLegal :
      (child : Searcher scores) (tiles : Tiles) (ds : List ℕ) (alpha beta : Score) (best : Option ℕ)
      → AllDirs ds
      → AllLegal tiles best
      → FoundLegal tiles (player_loop scores child tiles ds alpha beta best)
  unfolding player_loop
  player_loop-FoundLegal child tiles [] alpha beta best ds legal = legal
  player_loop-FoundLegal child tiles (dir ∷ rest) alpha beta best (low, ds) legal =
      let score = child (try_move tiles dir).0 alpha beta in
      let better = lt alpha score in
      let alpha' = if better then score else alpha in
      let best' = if better then some dir else best in
      elim (Bool-cases (try_move tiles dir).1) [
        | inr stuck ↦
            subst (FoundLegal tiles) (sym (passed_over (try_move tiles dir).1 _ _ stuck))
              (player_loop-FoundLegal child tiles rest alpha beta best ds legal)
        | inl ok ↦
            let next : AllLegal tiles best' =
              either (AllLegal tiles) better (some dir) best (low, ok) legal in
            subst (FoundLegal tiles) (sym (chosen (try_move tiles dir).1 _ _ ok)) (
              either (FoundLegal tiles) (not (lt alpha' beta))
                (record { score = beta; best_move = best' })
                (player_loop scores child tiles rest alpha' beta best') next
                (player_loop-FoundLegal child tiles rest alpha' beta best' ds next))
      ]

  search_root-FoundLegal :
      (depth : ℕ) (tiles : Tiles) (best : Option ℕ)
      → is_win tiles ≡ false
      → FoundLegal tiles (search_root scores (suc depth) tiles best)
  unfolding search_root
  search_root-FoundLegal depth tiles best going =
      subst (FoundLegal tiles) (sym (passed_over (is_win tiles) _ _ going)) (
        player_loop-FoundLegal (mini_max_search scores depth false) tiles dirs lowest highest none
          (omega arith, (omega arith, (omega arith, (omega arith, tt)))) tt)

  -- The default 0, or a direction in which the board moves.
  abbrev pub IsChosen : Tiles → ℕ → Type 0
  IsChosen tiles move = (move ≡ 0) ⊎ IsLegal tiles move

  by_found :
      (tiles : Tiles) (o : Option ℕ) (best_move : ℕ) (c : Bool) (again : ℕ → ℕ → ℕ)
      → AllLegal tiles o
      → IsChosen tiles best_move
      → ((move m : ℕ) → IsChosen tiles m → IsChosen tiles (again move m))
      → IsChosen tiles
          (elim o [ none ↦ best_move | some move ↦ again move (if c then move else best_move) ])
  by_found tiles none best_move c again legal was next = was
  by_found tiles (some move) best_move c again legal was next =
      next move _ (either (IsChosen tiles) c move best_move (inr legal) was)

  deepen-IsChosen :
      (rounds depth : ℕ) (tiles : Tiles) (best : Option ℕ) (best_move : ℕ)
      → is_win tiles ≡ false
      → IsChosen tiles best_move
      → IsChosen tiles (deepen scores rounds (suc depth) tiles best best_move)
  unfolding deepen
  deepen-IsChosen zero depth tiles best best_move going was = was
  deepen-IsChosen (suc rounds) depth tiles best best_move going was =
      let found = search_root scores (suc depth) tiles best in
      by_found tiles found.best_move best_move (lt lowest found.score)
        (λ move m. deepen scores rounds (suc (suc depth)) tiles (some move) m)
        (search_root-FoundLegal depth tiles best going) was
        (λ move m ok. deepen-IsChosen rounds (suc depth) tiles (some move) m going ok)

  -- Where the game is not won yet, `GetPlayerBestMove` gives 0 or a direction in which the board moves.
  pub get_player_best_move-IsChosen :
      (rounds : ℕ) (tiles : Tiles) (best : Option ℕ)
      → is_win tiles ≡ false
      → IsChosen tiles (get_player_best_move scores rounds tiles best)
  unfolding get_player_best_move
  get_player_best_move-IsChosen rounds tiles best going =
      deepen-IsChosen rounds 0 tiles best 0 going (inl refl)
