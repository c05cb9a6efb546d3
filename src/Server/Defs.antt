-- ===== src/Server/Defs.antt =====
-- kcp/kcp_server.{h,cc}: the state of `KCPServer` and the handlers of the packets.
-- An `InetAddress` is its text `toIpPort()`, the key of the map of pending sessions. A `Timestamp` is
-- its number of microseconds.
use Prim.Native.String.{String}
use cpp_code_blocks.Prelude.{
  ℕ, zero, suc, Bool, not, ◌||◌, List, [], ◌∷◌, ◌++◌, Option, none, some, leb, ◌==◌, if◌then◌else◌,
  ◌≡◌, refl,
}
use cpp_code_blocks.Prelude.Maps.{Map, find, contains, erase, insert, assign, nat_eq, string_eq}
use cpp_code_blocks.Packet.Control.{header_buffer, control_packet}
use cpp_code_blocks.Packet.Defs.{
  WriteError, written, unable_write_public_header, unable_write_checksum, syn_packet, rst_packet,
  pong_packet, PacketType, type_code, write_public_header,
}

-- kServerMaxSynRetryTimes, kServerMaxGenSessionIdTryTimes, kMaxPacketSize
abbrev pub max_syn_retry_times : ℕ
max_syn_retry_times = 10

abbrev pub max_gen_session_id_try_times : ℕ
max_gen_session_id_try_times = 20

abbrev pub max_packet_size : ℕ
max_packet_size = 1400

-- kServerSynSentTimeout, kServerSessionIdleSeconds and kServerSessionTimeWaitSeconds, in
-- microseconds.
abbrev pub syn_sent_timeout : ℕ
syn_sent_timeout = 2_000_000

abbrev pub session_idle : ℕ
session_idle = 120_000_000

abbrev pub session_time_wait : ℕ
session_time_wait = 120_000_000

pub record KcpPendingSession : Type 0 where
  pub session_id : ℕ
  pub retry_times : ℕ
  pub syn_received_time : ℕ
  pub syn_sent_time : ℕ
  pub peer_address : String

-- A session object, by the arguments of its `Initialize`.
pub record KcpSessionPtr : Type 0 where
  pub session_id : ℕ
  pub peer_address : String

-- What a handler does outside the server: it sends a datagram, has a session closed on the session's
-- own loop, hands it the bytes behind a packet's header, or sets its pending error.
pub data Effect : Type 0 where
  send_to : List ℕ → String → Effect
  close_session : ℕ → Effect
  process_packet_of : ℕ → List ℕ → String → Effect
  set_pending_error : ℕ → (type code : ℕ) → Effect
  flush_and_close_session : ℕ → Effect

pub record KcpServer : Type 0 where
  pub pending_session_map : Map String KcpPendingSession
  pub session_map : Map ℕ KcpSessionPtr
  pub idle_session_map : Map ℕ ℕ
  pub time_wait_session_map : Map ℕ ℕ
  pub effects : List Effect

abbrev pub new_server : KcpServer
new_server = record {
  pending_session_map = [];
  session_map = [];
  idle_session_map = [];
  time_wait_session_map = [];
  effects = [];
}

-- What a call reads from outside: the clock, the results of `RandBytes` by the number of the try,
-- whether `KCPSession::Initialize` succeeds for these arguments, and which sessions are closed.
pub record Env : Type 0 where
  pub now : ℕ
  pub rand_bytes : ℕ → Option ℕ
  pub initialize : ℕ → String → Bool
  pub is_closed : ℕ → Bool

abbrev pub perform : Effect → KcpServer → KcpServer
perform effect s = record s { effects = s.effects ++ effect ∷ [] }

-- The tries of `GenerateSessionId` that are left, from the try `i` on.
unfoldable pub generate_from : Env → KcpServer → ℕ → ℕ → Option ℕ
generate_from env s zero i = none
generate_from env s (suc tries) i =
    let rest = generate_from env s tries (suc i) in
    elim (env.rand_bytes i) [
      | none ↦ rest
      | some rand_id ↦
          if contains rand_id s.session_map || contains rand_id s.time_wait_session_map
          then rest
          else some rand_id
    ]

unfoldable pub generate_session_id : Env → KcpServer → Option ℕ
unfolding generate_from
generate_session_id env s = generate_from env s max_gen_session_id_try_times 0

abbrev pub new_pending : ℕ → ℕ → String → KcpPendingSession
new_pending session_id now client_address = record {
  session_id = session_id;
  retry_times = 0;
  syn_received_time = now;
  syn_sent_time = now;
  peer_address = client_address;
}

abbrev pub retried : ℕ → KcpPendingSession → KcpPendingSession
retried now pending = record pending { retry_times = suc pending.retry_times; syn_sent_time = now }

-- A pending session becomes a session.
unfoldable pub establish : Env → ℕ → String → KcpServer → KcpServer
establish env session_id client_address s = record s {
  session_map =
      insert session_id (record { session_id = session_id; peer_address = client_address })
        s.session_map;
  pending_session_map = erase client_address s.pending_session_map;
  idle_session_map = insert session_id env.now s.idle_session_map;
}

module _ (adler32 : List ℕ → ℕ) where
  -- `SendTo` only logs its errors.
  abbrev send_written : List ℕ × WriteError → String → KcpServer → KcpServer
  send_written (buf, written) client_address s = perform (send_to buf client_address) s
  send_written (buf, unable_write_public_header) client_address s = s
  send_written (buf, unable_write_checksum) client_address s = s

  unfoldable pub send_packet : PacketType → ℕ → String → KcpServer → KcpServer
  unfolding write_public_header type_code
  send_packet packet_type session_id client_address s =
      send_written (write_public_header adler32 header_buffer (type_code packet_type) session_id)
        client_address s

  -- Sending only adds to the effects.
  pub send_packet_lem :
      (t : PacketType) (session_id : ℕ) (client_address : String) (s : KcpServer)
      → send_packet t session_id client_address s
        ≡ perform (send_to (control_packet adler32 t session_id) client_address) s
  unfolding send_packet control_packet
  send_packet_lem t session_id client_address s = refl

  unfoldable pub process_syn_packet : Env → String → KcpServer → KcpServer
  process_syn_packet env client_address s = elim (find client_address s.pending_session_map) [
    | some pending ↦
        let s' = send_packet rst_packet 0 client_address s in
        if leb max_syn_retry_times pending.retry_times
        then record s' { pending_session_map = erase client_address s'.pending_session_map }
        else send_packet syn_packet pending.session_id client_address (record s {
          pending_session_map =
              assign client_address (retried env.now pending) s.pending_session_map;
        })
    | none ↦ elim (generate_session_id env s) [
      | none ↦ send_packet rst_packet 0 client_address s
      | some session_id ↦ send_packet syn_packet session_id client_address (record s {
        pending_session_map =
            insert client_address (new_pending session_id env.now client_address)
              s.pending_session_map;
      })
    ]
  ]

  unfoldable pub process_ping_packet : Env → ℕ → String → KcpServer → KcpServer
  process_ping_packet env session_id client_address s = elim (find session_id s.session_map) [
    | none ↦ send_packet rst_packet session_id client_address s
    | some session ↦ send_packet pong_packet session_id client_address (record s {
      idle_session_map =
          if contains session_id s.idle_session_map
          then assign session_id env.now s.idle_session_map
          else insert session_id env.now s.idle_session_map;
    })
  ]

  unfoldable pub process_ack_packet : Env → ℕ → String → KcpServer → KcpServer
  process_ack_packet env session_id client_address s =
      elim (find client_address s.pending_session_map) [
        | none ↦
            if contains session_id s.session_map
            then s
            else send_packet rst_packet 0 client_address s
        | some pending ↦
            if not (session_id == pending.session_id)
            then send_packet rst_packet 0 client_address s
            else if contains session_id s.session_map
            then s
            else if env.initialize session_id client_address
            then establish env session_id client_address s
            else s
      ]

  unfoldable pub process_rst_packet : Env → ℕ → String → KcpServer → KcpServer
  process_rst_packet env session_id client_address s =
      let s1 = record s { pending_session_map = erase client_address s.pending_session_map } in
      let s2 =
        if contains session_id s1.session_map
        then record (perform (close_session session_id) s1) {
          session_map = erase session_id s1.session_map;
          time_wait_session_map = insert session_id env.now s1.time_wait_session_map;
        }
        else s1 in
      record s2 { idle_session_map = erase session_id s2.idle_session_map }

  unfoldable pub process_data_packet : Env → ℕ → List ℕ → String → KcpServer → KcpServer
  process_data_packet env session_id payload client_address s =
      let deliver = process_packet_of session_id payload client_address in
      if contains session_id s.session_map
      then perform deliver s
      else if contains client_address s.pending_session_map
      then if env.initialize session_id client_address
        then perform deliver (establish env session_id client_address s)
        else s
      else send_packet rst_packet 0 client_address s
