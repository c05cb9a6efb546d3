-- ===== src/Game/Match.antt =====
-- ai/2048/server.cc: `OnCSAI2048Tile`; ai/2048/client.cc: `OnSCAI2048Move` and `SendTileDataToServer`.
-- The two programs play a match: the client has the game, the server chooses the moves. The messages
-- are values; the codec between them is not part of the model.
use cpp_code_blocks.Prelude.{
  get_or, ℕ, zero, suc, ◌+◌, ◌*◌, ◌/◌, ◌%◌, Bool, not, ◌||◌, List, [], ◌∷◌, map, Option, none, some,
  ◌==◌, if◌then◌else◌, length,
}
use cpp_code_blocks.Prelude.Int.{ℤ, pos}
use cpp_code_blocks.Game.Board.{
  Tiles, Grid, Ai2048, add_computer_move, get_all_tiles, add_rand_tile, is_win,
}
use cpp_code_blocks.Game.Move.{try_move}
use cpp_code_blocks.Game.Score.{Scores}
use cpp_code_blocks.Game.Search.{search_root, get_player_best_move}

-- `aiproto::MoveType`
pub data MoveType : Type 0 where
  up : MoveType
  right : MoveType
  down : MoveType
  left : MoveType

abbrev pub type_of : ℕ → MoveType
type_of best_move =
    if best_move == 0
    then up
    else if best_move == 1
    then right
    else if best_move == 2
    then down
    else left

abbrev pub dir_of : MoveType → ℕ
dir_of up = 0
dir_of right = 1
dir_of down = 2
dir_of left = 3

-- CSAI2048Tile
pub record TileMessage : Type 0 where
  pub data_of : List ℤ
  pub is_over : Bool

-- What the server does with the connection.
pub data Reply : Type 0 where
  shuts_down : Reply
  moves : MoveType → Reply

-- `grid[i / 4][i % 4] = message->data(i)`
abbrev pub grid_of : List ℤ → Grid
grid_of data_of x y = get_or data_of (x * 4 + y) (pos 0)

module _ (scores : Scores) where
  -- `best_move_` after `GetPlayerBestMove`.
  unfoldable pub best_move_after : (rounds depth : ℕ) → Tiles → Option ℕ → Option ℕ
  unfolding search_root
  best_move_after zero depth tiles best = best
  best_move_after (suc rounds) depth tiles best =
      elim (search_root scores depth tiles best).best_move [
        | none ↦ none
        | some move ↦ best_move_after rounds (suc depth) tiles (some move)
      ]

  -- The answer to a board.
  abbrev pub answer : Ai2048 → ℕ → Option ℕ → Ai2048 × Reply
  answer ai best_move best =
      let (tiles, ok) = try_move ai.tiles best_move in
      (record { tiles = tiles; best_move = best }, moves (if ok then type_of best_move else up))

  unfoldable pub on_tile : (rounds : ℕ) → TileMessage → Ai2048 → Ai2048 × Reply
  unfolding add_computer_move get_player_best_move try_move best_move_after
  on_tile rounds message ai =
      let taken = record ai { tiles = add_computer_move ai.tiles (grid_of message.data_of) } in
      if message.is_over || not (length message.data_of == 16)
      then (ai, shuts_down)
      else answer taken (get_player_best_move scores rounds taken.tiles ai.best_move)
          (best_move_after rounds 1 taken.tiles ai.best_move)

-- The indices from `k` on.
unfoldable pub indices : (n k : ℕ) → List ℕ
indices zero k = []
indices (suc n) k = k ∷ indices n (suc k)

-- `grid[i][j]` for each `i`, and for each `j`.
unfoldable pub data_from : Tiles → List ℤ
unfolding indices get_all_tiles
data_from tiles = map (λ i. get_all_tiles tiles (i / 4) (i % 4)) (indices 16 0)

unfoldable pub send_tile_data_to_server : Tiles → (is_over : Bool) → TileMessage
unfolding data_from is_win
send_tile_data_to_server tiles is_over = record {
  data_of = data_from tiles;
  is_over = is_over || is_win tiles;
}

-- `r` and `s` are the results of `rand`.
unfoldable pub on_move : MoveType → (r s : ℕ) → Tiles → Tiles × TileMessage
unfolding try_move add_rand_tile send_tile_data_to_server
on_move move r s tiles =
    let (moved, ok) = try_move tiles (dir_of move) in
    let next = add_rand_tile moved r s in (next, send_tile_data_to_server next (not ok))
