-- ===== src/Relay/Tunnels.antt =====
-- tcprelay/tunnel.h: `Tunnel`; tcprelay/tcprelay.cc: `resolveCallback` and `onServerConnection`. The
-- `Init` of an encryptor and the connections of muduo are parameters; the timing of the latter is the
-- order of the events.
use cpp_code_blocks.Prelude.{
  ℕ, Bool, true, false, ◌||◌, List, [], ◌∷◌, ◌++◌, Option, none, some, ltb, ◌==◌, if◌then◌else◌,
  ◌>>=◌, length,
}
use cpp_code_blocks.Relay.Request.{Buffers, ServerConnMeta}
use cpp_code_blocks.Relay.Messages.{Cipher, Appends, Action, Connection, act, on_server_message}

-- `init_mixed` is `Init` with the name, the password and the vector of the decryptor.
pub record Encrypts (cipher : Cipher) : Type 0 where
  pub init_mixed : cipher.Encryptor → Option cipher.Encryptor
  pub iv : cipher.Encryptor → List ℕ

module _ {buffers : Buffers} (appends : Appends buffers) (cipher : Cipher)
    (resolve : List ℕ → Bool) where
  abbrev pub Meta : Type 0
  Meta = ServerConnMeta buffers × cipher.Encryptor

  -- `callbacks` tells whether the client of the tunnel has the callbacks of `setup`.
  pub record Tunnel : Type 0 where
    pub sent_iv : Bool
    pub encryptor : cipher.Encryptor
    pub data_buf : List ℕ
    pub callbacks : Bool

  -- A connection of the relay with its tunnel. `listed` tells whether `LocalTunnelList` has the tunnel;
  -- `erased` is the meta object after `LocalMetaList` has lost it, which the tunnel still shares.
  pub record Link : Type 0 where
    pub connection : Connection appends cipher resolve
    pub tunnel : Option Tunnel
    pub listed : Bool
    pub erased : Option Meta

  abbrev pub does : Action → Link → Link
  does action l = record l { connection = act appends cipher resolve action l.connection }

  abbrev or_else : Option Meta → Option Meta → Option Meta
  or_else none later = later
  or_else (some o) later = some o

  -- The one meta object of the connection.
  abbrev pub object : Link → Option Meta
  object l = or_else l.connection.meta l.erased

  abbrev put_in : Option Meta → Meta → Link → Link
  put_in none o l = record l { erased = some o }
  put_in (some old) o l = record l { connection = record l.connection { meta = some o } }

  abbrev pub put_object : Meta → Link → Link
  put_object o l = put_in l.connection.meta o l

  abbrev pub set_up : cipher.Encryptor → Tunnel
  set_up encryptor = record {
    sent_iv = false;
    encryptor = encryptor;
    data_buf = [];
    callbacks = true;
  }

  -- `server_conn_` is never reset.
  unfoldable pub teardown : Tunnel → Link → Link
  teardown t l =
      let c = record l.connection { context = false } in
      does Action.shuts_down
        (record l { connection = c; tunnel = some (record t { callbacks = false }) })

  -- `conn->send(buf)`
  abbrev pub send_buffered : Meta → Link → Link
  send_buffered (m, decryptor) l =
      let (sent, left) = appends.take_all m.buf in
      if ltb 0 (buffers.readable_bytes m.buf)
      then does (Action.relays sent) (put_object (record m { buf = left }, decryptor) l)
      else l

  abbrev send_object : Option Meta → Link → Link
  send_object none l = l
  send_object (some o) l = send_buffered o l

  unfoldable pub on_client_connection : (connected : Bool) → Tunnel → Link → Link
  unfolding teardown
  on_client_connection true t l =
      let c = record l.connection { context = true } in
      send_object (object l) (record l { connection = c })
  on_client_connection false t l = teardown t l

  abbrev pub encrypted : Tunnel → Link → Option (cipher.Encryptor × List ℕ) → Link
  encrypted t l none = teardown t l
  encrypted t l (some (encryptor, bytes)) =
      does (Action.replies (t.data_buf ++ bytes))
        (record l { tunnel = some (record t { encryptor = encryptor; data_buf = [] }) })

  -- The callback holds the tunnel weakly: the list and the callbacks of the client keep it alive.
  abbrev pub on_high_water_mark : Tunnel → Link → Link
  on_high_water_mark t l = if t.callbacks || l.listed then does Action.disconnects l else l

  module _ (encrypts : Encrypts cipher) where
    abbrev pub with_iv : Tunnel → Tunnel
    with_iv t =
        if t.sent_iv
        then t
        else record t { sent_iv = true; data_buf = t.data_buf ++ encrypts.iv t.encryptor }

    -- `none` is the assertion on an empty message.
    unfoldable pub on_client_message : List ℕ → Tunnel → Link → Option Link
    unfolding teardown
    on_client_message bytes t l =
        let t1 = with_iv t in
        if length bytes == 0 then none else some (encrypted t1 l (cipher.update t1.encryptor bytes))

    -- The callback of the resolver, with the meta object that it is bound to; the port is that of the
    -- request, the address that of the resolver.
    unfoldable pub resolve_callback : (ip : List ℕ) → Meta → Link → Option Link
    resolve_callback ip (m, decryptor) l = encrypts.init_mixed decryptor >>= λ encryptor.
        let l1 = record l { tunnel = some (set_up encryptor); listed = true } in
        some (does (Action.connects ip m.dst_port) l1)

  abbrev unlisted : Bool → Link → Link
  unlisted true l = record (does Action.disconnects l) { listed = false }
  unlisted false l = l

  abbrev forget : Option Meta → Link → Link
  forget none l = l
  forget (some o) l =
      let c = record l.connection { meta = none } in
      unlisted l.listed (record l { connection = c; erased = some o })

  unfoldable pub on_server_connection : (connected : Bool) → Link → Link
  on_server_connection true l = l
  on_server_connection false l = forget l.connection.meta l

  -- What happens to a connection whose meta object is listed, and to its tunnel: a message of the client;
  -- the answer of the resolver; the tunnel's connection up or down; a message of the host; too much in
  -- one of the two outputs.
  pub data Event : Type 0 where
    client_message : List ℕ → Event
    resolved : (ip : List ℕ) → Event
    host_connection : Bool → Event
    host_message : List ℕ → Event
    high_water_mark : Event

  abbrev with_tunnel : (Tunnel → Link → Option Link) → Option Tunnel → Link → Option Link
  with_tunnel f none l = some l
  with_tunnel f (some t) l = if t.callbacks then f t l else some l

  abbrev with_any_tunnel : (Tunnel → Link → Link) → Option Tunnel → Link → Option Link
  with_any_tunnel f none l = some l
  with_any_tunnel f (some t) l = some (f t l)

  abbrev with_object : (Meta → Link → Option Link) → Option Meta → Link → Option Link
  with_object f none l = some l
  with_object f (some o) l = f o l

  abbrev pub from_client : List ℕ → Link → Option Link
  from_client bytes l =
      let c = record l.connection { input = l.connection.input ++ bytes } in
      on_server_message appends cipher resolve c >>= λ c'. some (record l { connection = c' })

  unfoldable pub happen : Encrypts cipher → Event → Link → Option Link
  unfolding on_client_connection on_client_message resolve_callback
  happen encrypts (client_message bytes) l = from_client bytes l
  happen encrypts (resolved ip) l = with_object (resolve_callback encrypts ip) (object l) l
  happen encrypts (host_connection connected) l =
      with_tunnel (λ t k. some (on_client_connection connected t k)) l.tunnel l
  happen encrypts (host_message bytes) l = with_tunnel (on_client_message encrypts bytes) l.tunnel l
  happen encrypts high_water_mark l = with_any_tunnel on_high_water_mark l.tunnel l

  unfoldable pub happen_all : Encrypts cipher → List Event → Link → Option Link
  unfolding happen
  happen_all encrypts [] l = some l
  happen_all encrypts (event ∷ events) l = happen encrypts event l >>= happen_all encrypts events
