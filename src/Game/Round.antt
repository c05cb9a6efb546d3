-- ===== src/Game/Round.antt =====
-- ai/2048: the server and the client of a match keep the same board.
use cpp_code_blocks.Prelude.{
  ℕ, ◌<◌, ◌≡◌, ◌∙◌, ap, ap₂, sym, subst, refl, inl, inr, Bool, true, false, not, ◌||◌, List, [],
  ◌∷◌, ◌==◌, if◌then◌else◌, length, arith, Bool-cases, chosen, passed_over,
}
use cpp_code_blocks.Game.Board.{Tiles, Ai2048, clear, is_win, add_rand_tile}
use cpp_code_blocks.Game.Move.{try_move}
use cpp_code_blocks.Game.Score.{Scores}
use cpp_code_blocks.Game.Search.{get_player_best_move}
use cpp_code_blocks.Game.Legal.{IsChosen, get_player_best_move-IsChosen}
use cpp_code_blocks.Game.Match.{
  up, type_of, dir_of, TileMessage, Reply, shuts_down, moves, data_from, indices, answer,
  best_move_after, on_tile, send_tile_data_to_server, on_move,
}
use cpp_code_blocks.Game.Synced.{IsBehind, caught_up, add_rand_tile-IsBehind}

-- A match: the server, the client's board, and the message on its way to the server.
pub record Match : Type 0 where
  pub server : Ai2048
  pub client : Tiles
  pub message : TileMessage

-- The chances of a round: how long the clock lets the server search, and two results of `rand`.
abbrev pub Chances : Type 0
Chances = ℕ × ℕ × ℕ

abbrev pub replied : (r s : ℕ) → Match → Ai2048 × Reply → Match
replied r s m (server, shuts_down) = record m { server = server }
replied r s m (server, moves move) =
    let (client, message) = on_move move r s m.client in
    record { server = server; client = client; message = message }

unfoldable pub play_round : Scores → Chances → Match → Match
unfolding on_tile on_move
play_round scores (rounds, r, s) m = replied r s m (on_tile scores rounds m.message m.server)

unfoldable pub play : Scores → List Chances → Match → Match
unfolding play_round
play scores [] m = m
play scores (c ∷ rest) m = play scores rest (play_round scores c m)

-- The message is that of the client's board, and the server lacks at most cells that it takes for empty.
pub record IsSynced (m : Match) : Type 0 where
  pub over : Bool
  pub sent : m.message ≡ send_tile_data_to_server m.client over
  pub behind : IsBehind m.server.tiles m.client

sixteen : (tiles : Tiles) → (length (data_from tiles) == 16) ≡ true
unfolding data_from indices
sixteen tiles = refl

dir_of-type_of : (move : ℕ) → move < 4 → dir_of (type_of move) ≡ move
dir_of-type_of move h = ground arith

-- The client makes the move that the server has made.
same_move :
    (scores : Scores) (tiles : Tiles) (move : ℕ)
    → IsChosen scores tiles move
    → (try_move tiles (dir_of (if (try_move tiles move).1 then type_of move else up))).0
      ≡ (try_move tiles move).0
same_move scores tiles move (inr (low, ok)) =
    ap (λ c. (try_move tiles (dir_of (if c then type_of move else up))).0) ok
    ∙ ap (λ d. (try_move tiles d).0) (dir_of-type_of move low)
same_move scores tiles move (inl zero_move) = elim (Bool-cases (try_move tiles move).1) [
  | inl ok ↦
      ap (λ c. (try_move tiles (dir_of (if c then type_of move else up))).0) ok
      ∙ ap (λ d. (try_move tiles d).0) (dir_of-type_of move (omega (arith, zero_move)))
  | inr stuck ↦
      ap (λ c. (try_move tiles (dir_of (if c then type_of move else up))).0) stuck
      ∙ ap (λ d. (try_move tiles d).0) (sym zero_move)
]

or_right : (a b : Bool) → (a || b) ≡ false → b ≡ false
or_right true b e = cc
or_right false b e = e

module _ (scores : Scores) (rounds r s : ℕ) (m : Match) (synced : IsSynced m) where
  -- What the server does with the client's board, once it has that board.
  abbrev replies : Tiles → Ai2048 × Reply
  replies tiles =
      answer scores (record m.server { tiles = tiles })
        (get_player_best_move scores rounds tiles m.server.best_move)
        (best_move_after scores rounds 1 tiles m.server.best_move)

  ended : (synced.over || is_win m.client) ≡ true → IsSynced (play_round scores (rounds, r, s) m)
  unfolding play_round on_tile send_tile_data_to_server
  ended over =
      subst IsSynced
        (sym (
          ap (λ x. replied r s m (on_tile scores rounds x m.server)) synced.sent
          ∙ ap (replied r s m) (
              chosen (synced.over || is_win m.client || not (length (data_from m.client) == 16)) _ _
                (ap₂ (λ a b. a || not b) over (sixteen m.client)))))
        synced

  goes_on :
      (synced.over || is_win m.client) ≡ false
      → is_win m.client ≡ false
      → IsSynced (play_round scores (rounds, r, s) m)
  unfolding play_round on_tile on_move send_tile_data_to_server
  goes_on open_still going =
      let best_move = get_player_best_move scores rounds m.client m.server.best_move in
      let move = if (try_move m.client best_move).1 then type_of best_move else up in
      let same =
        same_move scores m.client best_move
          (get_player_best_move-IsChosen scores rounds m.client m.server.best_move going) in
      let next : IsSynced (replied r s m (replies m.client)) = record {
        over = not (try_move m.client (dir_of move)).1;
        sent = refl;
        behind =
            subst (λ t. IsBehind (try_move m.client best_move).0 (add_rand_tile t r s)) (sym same)
              (add_rand_tile-IsBehind (try_move m.client best_move).0 r s);
      } in
      subst IsSynced
        (sym (
          ap (λ x. replied r s m (on_tile scores rounds x m.server)) synced.sent
          ∙ ap (replied r s m) (
              passed_over
                (synced.over || is_win m.client || not (length (data_from m.client) == 16)) _ _
                (ap₂ (λ a b. a || not b) open_still (sixteen m.client)))
          ∙ ap (λ t. replied r s m (replies t)) (caught_up m.server.tiles m.client synced.behind)))
        next

  round-IsSynced : IsSynced (play_round scores (rounds, r, s) m)
  round-IsSynced = elim (Bool-cases (synced.over || is_win m.client)) [
    | inl over ↦ ended over
    | inr open_still ↦ goes_on open_still (or_right synced.over (is_win m.client) open_still)
  ]

play-IsSynced :
    (scores : Scores) (chances : List Chances) (m : Match)
    → IsSynced m
    → IsSynced (play scores chances m)
unfolding play
play-IsSynced scores [] m synced = synced
play-IsSynced scores ((rounds, r, s) ∷ rest) m synced =
    play-IsSynced scores rest (play_round scores (rounds, r, s) m)
      (round-IsSynced scores rounds r s m synced)

-- The match as it begins: the server's board is clear, and the client has put two tiles.
abbrev pub new_match : (r1 s1 r2 s2 : ℕ) → Match
new_match r1 s1 r2 s2 =
    let tiles = add_rand_tile (add_rand_tile clear.tiles r1 s1) r2 s2 in
    record { server = clear; client = tiles; message = send_tile_data_to_server tiles false }

IsBehind-trans : (x y z : Tiles) → IsBehind x y → IsBehind y z → IsBehind x z
IsBehind-trans x y z first second i = elim (first i) [
  | inr empty ↦ inr empty
  | inl e ↦ elim (second i) [ inl e' ↦ inl (e ∙ e') | inr (empty, low) ↦ inr (e ∙ empty, low) ]
]

-- From the first message on, whatever the clock and `rand` give, for any number of rounds and also behind
-- the end of the match: the message on its way has the client's board, and the server lacks at most
-- cells of it that it takes for empty, which the message fills. So the server always chooses its move on the
-- client's board, and the client makes the move that the server has made.
pub new_match-IsSynced :
    (scores : Scores) (chances : List Chances) (r1 s1 r2 s2 : ℕ)
    → IsSynced (play scores chances (new_match r1 s1 r2 s2))
new_match-IsSynced scores chances r1 s1 r2 s2 =
    let one = add_rand_tile clear.tiles r1 s1 in
    play-IsSynced scores chances (new_match r1 s1 r2 s2) (record {
      over = false;
      sent = refl;
      behind =
          IsBehind-trans clear.tiles one (add_rand_tile one r2 s2)
            (add_rand_tile-IsBehind clear.tiles r1 s1) (add_rand_tile-IsBehind one r2 s2);
    })
