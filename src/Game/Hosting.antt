-- ===== src/Game/Hosting.antt =====
-- ai/2048/server.cc: the games of all connections; ai/2048/client.cc: `InitDummy` and `OnConnection`. The
-- map's key is the address of the characters of a connection's name, which a connection keeps while it
-- is up. A pointer in the map may be null.
use cpp_code_blocks.Prelude.{
  ℕ, ◌≡◌, ◌∙◌, ap, inl, inr, Bool, true, false, not, ◌||◌, Option, none, some, ◌==◌, if◌then◌else◌,
  length, Bool-cases, chosen, passed_over,
}
use cpp_code_blocks.Prelude.Maps.{
  Map, is_some, find, contains, erase, insert, assign, nat_eq, find-erase, find-insert, find-assign,
}
use cpp_code_blocks.Game.Board.{Tiles, Ai2048, clear, add_rand_tile}
use cpp_code_blocks.Game.Score.{Scores}
use cpp_code_blocks.Game.Match.{TileMessage, Reply, shuts_down, on_tile, send_tile_data_to_server}

abbrev pub AiMap : Type 0
AiMap = Map ℕ (Option Ai2048)

-- `ai_map_[key] = ai`
unfoldable pub store : ℕ → Option Ai2048 → AiMap → AiMap
unfolding insert assign contains
store key ai m = if contains key m then assign key ai m else insert key ai m

unfoldable pub on_connection : (connected : Bool) → ℕ → AiMap → AiMap
unfolding store erase
on_connection true key m = store key (some clear) m
on_connection false key m = erase key m

-- What `ai_map_[key]` gives: a key that is missing is there from then on, with a null pointer.
abbrev pub entry : Option (Option Ai2048) → Option Ai2048
entry none = none
entry (some ai) = ai

abbrev pub serve : Scores → ℕ → ℕ → TileMessage → AiMap → Option Ai2048 → Option (AiMap × Reply)
serve scores rounds key message m none =
    if message.is_over || not (length message.data_of == 16) then some (m, shuts_down) else none
serve scores rounds key message m (some ai) =
    let (ai', reply) = on_tile scores rounds message ai in some (assign key (some ai') m, reply)

-- `none` is the use of a null pointer.
unfoldable pub on_tile_message :
    Scores → (rounds key : ℕ) → TileMessage → AiMap → Option (AiMap × Reply)
unfolding insert assign find on_tile
on_tile_message scores rounds key message m =
    let m1 = insert key none m in serve scores rounds key message m1 (entry (find key m1))

-- `OnUnknownMessage`, and a message that only a server sends.
abbrev pub on_other_message : AiMap → AiMap × Reply
on_other_message m = (m, shuts_down)

-- The client's first board, and its first message.
unfoldable pub init_dummy : (r1 s1 r2 s2 : ℕ) → Tiles
unfolding add_rand_tile
init_dummy r1 s1 r2 s2 = add_rand_tile (add_rand_tile clear.tiles r1 s1) r2 s2

abbrev pub on_client_connection : (connected : Bool) → Tiles → Option TileMessage
on_client_connection true tiles = some (send_tile_data_to_server tiles false)
on_client_connection false tiles = none

-- A connection that comes up has a clear game, and one that goes down has none; the other games stay.
pub on_connection-find :
    (connected : Bool) (key other : ℕ) (m : AiMap)
    → find other (on_connection connected key m)
      ≡ (if key == other then if connected then some (some clear) else none else find other m)
unfolding on_connection store
on_connection-find false key other m = find-erase key other m
on_connection-find true key other m = elim (Bool-cases (contains key m)) [
  | inl there ↦
      ap (find other) (chosen (contains key m) _ _ there)
      ∙ find-assign key other (some clear) m
      ∙ ap (λ c. if key == other then if c then some (some clear) else none else find other m) there
  | inr missing ↦
      ap (find other) (passed_over (contains key m) _ _ missing)
      ∙ find-insert key other (some clear) m
      ∙ ap (λ c. if key == other then if c then find key m else some (some clear) else find other m)
          missing
]

-- A message on a connection whose game is there is answered by that game, and changes no other.
pub on_tile_message-find :
    (scores : Scores) (rounds key other : ℕ) (message : TileMessage) (m : AiMap) (ai : Ai2048)
    → find key m ≡ some (some ai)
    → let result = on_tile scores rounds message ai in
      (m' : AiMap) × (on_tile_message scores rounds key message m ≡ some (m', result.1))
      × (find other m' ≡ (if key == other then some (some result.0) else find other m))
unfolding on_tile_message insert
on_tile_message-find scores rounds key other message m ai there =
    let result = on_tile scores rounds message ai in
    let known : contains key m ≡ true = unfold contains in ap is_some there in
    let same : insert key none m ≡ m = chosen (contains key m) _ _ known in
    (
      assign key (some result.0) m,
      ap (λ x. serve scores rounds key message x (entry (find key x))) same
          ∙ ap (λ o. serve scores rounds key message m (entry o)) there,
      find-assign key other (some result.0) m
          ∙ ap
              (λ c. if key == other then if c then some (some result.0) else none else find other m)
              known,
    )
