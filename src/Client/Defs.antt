-- ===== src/Client/Defs.antt =====
-- kcp/kcp_client.{h,cc}: the state of `KCPClient` and the handlers of the packets.
-- A result `none` is a failed assertion or the use of a null `socket_`. A `Timestamp` is its number
-- of microseconds, 0 when it is not valid; a delay is in milliseconds. The timers of the event loop
-- that `ResetSession` has registered and that have not fired stand in `reconnect_timers`, by the
-- number of the reconnect that registered them.
use cpp_code_blocks.Prelude.{
  ℕ, suc, ◌+◌, ◌*◌, min, Bool, true, false, not, ◌&&◌, List, [], ◌∷◌, ◌++◌, Option, none, some, leb,
  ltb, ◌==◌, if◌then◌else◌, ◌>>=◌,
}
use cpp_code_blocks.Prelude.Maps.{Map, erase, nat_eq}
use cpp_code_blocks.Packet.Control.{header_buffer}
use cpp_code_blocks.Packet.Defs.{
  WriteError, written, unable_write_public_header, unable_write_checksum, PacketType, type_code,
  write_public_header, syn_packet, ack_packet, rst_packet, ping_packet,
}

-- kClientMaxSynRetryTimes
abbrev pub client_max_syn_retry_times : ℕ
client_max_syn_retry_times = 30

-- kClientSynSentTimeout, kClientSessionIdleSeconds and kClientPingInterval, in microseconds.
abbrev pub client_syn_sent_timeout : ℕ
client_syn_sent_timeout = 2_000_000

abbrev pub client_session_idle : ℕ
client_session_idle = 120_000_000

abbrev pub client_ping_interval : ℕ
client_ping_interval = 5_000_000

-- kClientMaxReconnectDelay, in milliseconds.
abbrev pub max_reconnect_delay : ℕ
max_reconnect_delay = 3_000

pub data State : Type 0 where
  closed : State
  pending : State
  connected : State

-- The fields of `KCPPendingSession` that a client uses.
pub record ClientPendingSession : Type 0 where
  pub session_id : ℕ
  pub retry_times : ℕ
  pub syn_sent_time : ℕ

-- What the client does outside itself: it writes a datagram, closes its session, also
-- with a last flush, hands the session
-- the bytes behind a packet's header, or sets the session's pending error.
pub data Effect : Type 0 where
  write : List ℕ → Effect
  close_session : ℕ → Effect
  flush_and_close_session : ℕ → Effect
  process_packet_of : ℕ → List ℕ → Effect
  set_pending_error : ℕ → (type code : ℕ) → Effect

-- `socket` is `none` for a null pointer, else whether `IsValidSocket()`; a session is its identifier.
-- `lost_timers` counts the timers of the periodic task that the loop still has, but whose identifier a later
-- `Connect` has overwritten.
pub record KcpClient : Type 0 where
  pub socket : Option Bool
  pub pending_session : Option ClientPendingSession
  pub session : Option ℕ
  pub periodic_task_timer : Bool
  pub lost_timers : ℕ
  pub last_received_time : ℕ
  pub last_ping_time : ℕ
  pub state : State
  pub reconnect_enabled : Bool
  pub reconnect_timer_registered : Bool
  pub reconnect_times : ℕ
  pub reconnect_timer : ℕ
  pub reconnect_timers : Map ℕ ℕ
  pub effects : List Effect

abbrev pub new_client : KcpClient
new_client = record {
  socket = none;
  pending_session = none;
  session = none;
  periodic_task_timer = false;
  lost_timers = 0;
  last_received_time = 0;
  last_ping_time = 0;
  state = closed;
  reconnect_enabled = false;
  reconnect_timer_registered = false;
  reconnect_times = 0;
  reconnect_timer = 0;
  reconnect_timers = [];
  effects = [];
}

-- What a call reads from outside: the clock, whether `KCPSession::Initialize` succeeds, and whether
-- the session has been closed.
pub record ClientEnv : Type 0 where
  pub now : ℕ
  pub initialize : ℕ → Bool
  pub is_closed : ℕ → Bool

abbrev pub perform : Effect → KcpClient → KcpClient
perform effect s = record s { effects = s.effects ++ effect ∷ [] }

abbrev pub close_if_any : Option ℕ → KcpClient → KcpClient
close_if_any none s = s
close_if_any (some session_id) s = record (perform (close_session session_id) s) { session = none }

-- `runAfter` with the delay of the next reconnect.
unfoldable pub register_reconnect : KcpClient → KcpClient
register_reconnect s =
    let times = suc s.reconnect_times in
    record s {
      reconnect_times = times;
      reconnect_timer_registered = true;
      reconnect_timer = times;
      reconnect_timers = (times, min (times * 500) max_reconnect_delay) ∷ s.reconnect_timers;
    }

unfoldable pub reset_session : KcpClient → Option KcpClient
unfolding register_reconnect
reset_session s =
    let s1 = record (close_if_any s.session (record s { pending_session = none })) {
      state = closed;
    } in
    elim s.socket [
      | none ↦ none
      | some valid ↦
          if not valid
          then some s1
          else if not s.reconnect_enabled
          then some s1
          else if s.reconnect_timer_registered
          then some s1
          else some (register_reconnect s1)
    ]

abbrev pub await : ClientEnv → KcpClient → KcpClient
await env s = record s {
  pending_session = some (record { session_id = 0; retry_times = 0; syn_sent_time = env.now });
  state = pending;
}

-- The session that `InitializeSession` has set up is taken over.
unfoldable pub establish : ClientEnv → ℕ → KcpClient → KcpClient
establish env session_id s = record s {
  session = some session_id;
  pending_session = none;
  last_ping_time = env.now;
  state = connected;
}

abbrev pub retry : ClientEnv → ClientPendingSession → KcpClient → KcpClient
retry env p s = record s {
  pending_session = some (record p { retry_times = suc p.retry_times; syn_sent_time = env.now });
}

-- `timeDifference(now, t) >= limit` of a valid time.
abbrev pub is_over : ClientEnv → ℕ → ℕ → Bool
is_over env t limit = ltb 0 t && leb (t + limit) env.now

-- The timers are cancelled, and the channel and the socket are closed.
unfoldable pub shut_down : KcpClient → KcpClient
shut_down s = record s {
  periodic_task_timer = false;
  reconnect_timers = erase s.reconnect_timer s.reconnect_timers;
  reconnect_timer_registered = false;
  socket = none;
  state = closed;
}

module _ (adler32 : List ℕ → ℕ) where
  -- An error of `socket_->Write` is only logged.
  abbrev pub write_out : List ℕ × WriteError → KcpClient → KcpClient
  write_out (buf, written) s = perform (write buf) s
  write_out (buf, unable_write_public_header) s = s
  write_out (buf, unable_write_checksum) s = s

  unfoldable pub send_packet : PacketType → ℕ → KcpClient → Option KcpClient
  unfolding write_public_header type_code
  send_packet packet_type session_id s = elim s.socket [
    | none ↦ none
    | some false ↦ none
    | some true ↦
        some (
          write_out (write_public_header adler32 header_buffer (type_code packet_type) session_id)
            s)
  ]

  unfoldable pub build_session : ClientEnv → KcpClient → Option KcpClient
  build_session env s = elim s.socket [
    | none ↦ none
    | some false ↦ some s
    | some true ↦ elim s.state [
      | closed ↦ do t ← send_packet syn_packet 0 s; some (await env t)
      | pending ↦ some s
      | connected ↦ some s
    ]
  ]

  unfoldable pub process_syn_packet : ClientEnv → ℕ → KcpClient → Option KcpClient
  process_syn_packet env session_id s = elim s.session [
    | some own ↦
        if not (own == session_id)
        then send_packet rst_packet session_id s
        else send_packet ack_packet session_id s
    | none ↦ elim s.pending_session [
      | none ↦ send_packet rst_packet session_id s
      | some p ↦
          if not (env.initialize session_id)
          then some s
          else send_packet ack_packet session_id (establish env session_id s)
    ]
  ]

  unfoldable pub process_pong_packet : ClientEnv → ℕ → KcpClient → Option KcpClient
  process_pong_packet env session_id s = elim s.session [
    | none ↦ send_packet rst_packet session_id s
    | some own ↦ some (record s { last_received_time = env.now })
  ]

  unfoldable pub process_data_packet : ClientEnv → ℕ → List ℕ → KcpClient → Option KcpClient
  process_data_packet env session_id payload s = elim s.session [
    | none ↦ send_packet rst_packet session_id s
    | some own ↦
        some (perform (process_packet_of own payload) (record s { last_received_time = env.now }))
  ]

  unfoldable pub run_periodic_task : ClientEnv → KcpClient → Option KcpClient
  run_periodic_task env s = elim s.state [
    | closed ↦ some s
    | pending ↦ elim s.pending_session [
      | none ↦ none
      | some p ↦
          if leb client_max_syn_retry_times p.retry_times
          then reset_session s
          else if leb (p.syn_sent_time + client_syn_sent_timeout) env.now
          then send_packet syn_packet p.session_id (retry env p s)
          else some s
    ]
    | connected ↦ elim s.session [
      | none ↦ none
      | some own ↦
          if is_over env s.last_received_time client_session_idle
          then reset_session s
          else if env.is_closed own
          then reset_session s
          else if is_over env s.last_ping_time client_ping_interval
          then send_packet ping_packet own s
          else some s
    ]
  ]

  unfoldable pub disconnect : KcpClient → Option KcpClient
  disconnect s = elim s.state [
    | closed ↦ some (shut_down s)
    | pending ↦ elim s.pending_session [
      | none ↦ none
      | some p ↦ some (shut_down (record s { pending_session = none }))
    ]
    | connected ↦ elim s.session [
      | none ↦ none
      | some own ↦ do
        t ← send_packet rst_packet own (perform (flush_and_close_session own) s)
        some (shut_down (record t { session = none }))
    ]
  ]
