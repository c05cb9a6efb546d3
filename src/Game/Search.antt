-- ===== src/Game/Search.antt =====
-- ai/2048/ai_2048.cc: `MiniMaxSearch` and `GetPlayerBestMove`.
pub mod Window
pub mod AlphaBeta
pub mod BestMove
use cpp_code_blocks.Prelude.{
  ℕ, zero, suc, Bool, true, false, not, ◌||◌, List, [], ◌∷◌, Option, none, some, if◌then◌else◌,
  update,
}
use cpp_code_blocks.Game.Board.{Tiles, is_win}
use cpp_code_blocks.Game.Move.{try_move}
use cpp_code_blocks.Game.Eval.{get_candidate_set, eval_all}
use cpp_code_blocks.Game.Score.{Scores}

-- With assertions off, `ArrayMax` of an empty array reads the zero that the array was filled with,
-- and the set of candidates stays empty.
abbrev pub or_empty {ℓ} : {A : Type ℓ} → Option (List A) → List A
or_empty none = []
or_empty (some xs) = xs

abbrev pub dirs : List ℕ
dirs = 0 ∷ 1 ∷ 2 ∷ 3 ∷ []

module _ (scores : Scores) where
  open scores use {Score, lt, lowest, highest}

  -- The score, and `best_move_` of the searching object.
  pub record Found : Type 0 where
    pub score : Score
    pub best_move : Option ℕ

  -- The tiles, alpha and beta: a search of the boards one move further on.
  abbrev pub Searcher : Type 0
  Searcher = Tiles → Score → Score → Score

  -- The loop over the directions.
  unfoldable pub player_loop : Searcher → Tiles → List ℕ → Score → Score → Option ℕ → Found
  player_loop child tiles [] alpha beta best = record { score = alpha; best_move = best }
  player_loop child tiles (dir ∷ rest) alpha beta best =
      let (moved, ok) = try_move tiles dir in
      let skipped = player_loop child tiles rest alpha beta best in
      let score = child moved alpha beta in
      let better = lt alpha score in
      let alpha' = if better then score else alpha in
      let best' = if better then some dir else best in
      let further = player_loop child tiles rest alpha' beta best' in
      if ok
      then if not (lt alpha' beta) then record { score = beta; best_move = best' } else further
      else skipped

  -- The loop over the candidates.
  unfoldable pub computer_loop : Searcher → Tiles → List (ℕ × ℕ) → Score → Score → Score
  computer_loop child tiles [] alpha beta = beta
  computer_loop child tiles ((p, val) ∷ rest) alpha beta =
      let score = child (update tiles p val) alpha beta in
      let beta' = if lt score beta then score else beta in
      let further = computer_loop child tiles rest alpha beta' in
      if not (lt alpha beta') then alpha else further

  unfoldable pub player_turn : Searcher → Tiles → Score → Score → Score
  unfolding player_loop
  player_turn child tiles alpha beta =
      if is_win tiles
      then eval_all scores tiles
      else (player_loop child tiles dirs alpha beta none).score

  unfoldable pub computer_turn : Searcher → Tiles → Score → Score → Score
  unfolding computer_loop
  computer_turn child tiles alpha beta =
      if is_win tiles
      then eval_all scores tiles
      else computer_loop child tiles (or_empty (get_candidate_set tiles)) alpha beta

  -- `MiniMaxSearch(depth, is_player, alpha, beta)`. The other side's turn does not lower the depth:
  -- the player's turn that follows it is written out in the last clause.
  unfoldable pub mini_max_search : ℕ → Bool → Searcher
  unfolding player_turn computer_turn
  mini_max_search zero is_player tiles alpha beta = eval_all scores tiles
  mini_max_search (suc depth) true tiles alpha beta =
      player_turn (mini_max_search depth false) tiles alpha beta
  mini_max_search (suc depth) false tiles alpha beta =
      computer_turn (player_turn (mini_max_search depth false)) tiles alpha beta

  -- `MiniMaxSearch(depth, true, -INF, INF)` from the root, with `best_move_` before the call.
  unfoldable pub search_root : ℕ → Tiles → Option ℕ → Found
  unfolding player_loop mini_max_search
  search_root zero tiles best = record { score = eval_all scores tiles; best_move = best }
  search_root (suc depth) tiles best =
      if is_win tiles
      then record { score = eval_all scores tiles; best_move = best }
      else player_loop (mini_max_search depth false) tiles dirs lowest highest none

  -- The loop of `GetPlayerBestMove`: `rounds` is how often `TimeOut` lets it go on.
  unfoldable pub deepen : ℕ → ℕ → Tiles → Option ℕ → ℕ → ℕ
  unfolding search_root
  deepen zero depth tiles best best_move = best_move
  deepen (suc rounds) depth tiles best best_move =
      let found = search_root depth tiles best in
      elim found.best_move [
        | none ↦ best_move
        | some move ↦
            deepen rounds (suc depth) tiles (some move)
              (if lt lowest found.score then move else best_move)
      ]

  unfoldable pub get_player_best_move : ℕ → Tiles → Option ℕ → ℕ
  unfolding deepen
  get_player_best_move rounds tiles best = deepen rounds 1 tiles best 0
