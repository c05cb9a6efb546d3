-- ===== src/Relay/Messages.antt =====
-- tcprelay/tcprelay.cc: `onServerMessage`. The cipher, the resolver and the output of a connection are
-- parameters; a buffer that is only read as a whole stands as its readable bytes.
use cpp_code_blocks.Prelude.{
  ℕ, Bool, true, false, List, [], ◌∷◌, ◌++◌, Option, none, some, ltb, ◌==◌, if◌then◌else◌, ◌>>=◌,
  length, take, drop,
}
use cpp_code_blocks.Relay.Request.{Buffers, ServerConnMeta, req_addr_type, parse_request}

-- `init` is `Init` with the cipher and the password of the program's flags; `update` gives the output
-- that `Update` appends.
pub record Cipher : Type 1 where
  pub Encryptor : Type 0
  pub iv_length : ℕ
  pub init : List ℕ → Option Encryptor
  pub update : Encryptor → List ℕ → Option (Encryptor × List ℕ)

-- A new buffer, and `append`; `take_all` is what `send` takes.
pub record Appends (buffers : Buffers) : Type 0 where
  pub empty : buffers.Buffer
  pub append : buffers.Buffer → List ℕ → buffers.Buffer
  pub take_all : buffers.Buffer → List ℕ × buffers.Buffer

-- `relays` sends to the host, `replies` to the client.
pub data Action : Type 0 where
  resolves : List ℕ → Action
  shuts_down : Action
  relays : List ℕ → Action
  replies : List ℕ → Action
  connects : (ip : List ℕ) (port : ℕ) → Action
  disconnects : Action

module _ {buffers : Buffers} (appends : Appends buffers) (cipher : Cipher)
    (resolve : List ℕ → Bool) where
  -- `meta` is the entry of `LocalMetaList`, with its decryptor; `context` tells whether the connection
  -- has that of the tunnel as its context.
  pub record Connection : Type 0 where
    pub input : List ℕ
    pub meta : Option (ServerConnMeta buffers × cipher.Encryptor)
    pub context : Bool
    pub actions : List Action

  abbrev pub act : Action → Connection → Connection
  act action c = record c { actions = c.actions ++ action ∷ [] }

  abbrev pub new_meta : List ℕ → ServerConnMeta buffers
  new_meta bytes = record {
    state = req_addr_type;
    buf = appends.append appends.empty bytes;
    dst_hostname = [];
    dst_addr_len = 0;
    dst_port = 0;
  }

  -- What follows `ParseRequest`.
  abbrev pub parsed : cipher.Encryptor → Connection → Bool × ServerConnMeta buffers → Connection
  parsed decryptor c (false, m) = c
  parsed decryptor c (true, m) =
      let asked = act (Action.resolves m.dst_hostname) c in
      if resolve m.dst_hostname
      then record asked { input = []; meta = some (m, decryptor) }
      else act Action.shuts_down asked

  abbrev pub decrypted : Connection → Option (cipher.Encryptor × List ℕ) → Option Connection
  decrypted c none = some (act Action.shuts_down c)
  decrypted c (some (decryptor, bytes)) =
      parse_request buffers (new_meta bytes) >>= λ r. some (parsed decryptor c r)

  -- The first message, and those that follow it while there is no request; `none` is an assertion that
  -- fails: the cipher takes no empty input.
  unfoldable pub first_message : Connection → Option Connection
  unfolding parse_request
  first_message c =
      let n = cipher.iv_length in
      if ltb (length c.input) n
      then some c
      else if length c.input == n
      then none
      else cipher.init (take n c.input) >>= λ d. decrypted c (cipher.update d (drop n c.input))

  abbrev pub relayed :
      ServerConnMeta buffers → Connection → Option (cipher.Encryptor × List ℕ) → Connection
  relayed m c none = act Action.shuts_down c
  relayed m c (some (decryptor, bytes)) =
      let buf = appends.append m.buf bytes in
      let (sent, left) = appends.take_all buf in
      if c.context
      then act (Action.relays sent)
          (record c { input = []; meta = some (record m { buf = left }, decryptor) })
      else record c { input = []; meta = some (record m { buf = buf }, decryptor) }

  abbrev pub by_meta :
      Connection → Option (ServerConnMeta buffers × cipher.Encryptor) → Option Connection
  by_meta c none = first_message c
  by_meta c (some (m, decryptor)) =
      if length c.input == 0 then none else some (relayed m c (cipher.update decryptor c.input))

  unfoldable pub on_server_message : Connection → Option Connection
  unfolding first_message
  on_server_message c = by_meta c c.meta

  -- Messages as they come in.
  unfoldable pub receive : List (List ℕ) → Connection → Option Connection
  unfolding on_server_message
  receive [] c = some c
  receive (d ∷ ds) c = on_server_message (record c { input = c.input ++ d }) >>= receive ds
