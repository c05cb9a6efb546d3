-- ===== src/Server/Loop.antt =====
-- kcp/kcp_server.cc: the dispatch of a packet, the read loop and the periodic task.
use Prim.Native.String.{String}
use cpp_code_blocks.Prelude.{
  ℕ, ◌+◌, Bool, true, false, not, ◌&&◌, List, [], ◌∷◌, Option, none, some, leb, ltb, ◌==◌,
  if◌then◌else◌, length,
}
use cpp_code_blocks.Prelude.Maps.{Map, find, erase, insert, assign, nat_eq, string_eq}
use cpp_code_blocks.Packet.Defs.{
  KcpPublicHeader, KcpReceivedPacket, received, empty_header, ReadError, success, syn_packet,
  remaining_bytes, remaining_data, read_public_header,
}
use cpp_code_blocks.Server.Defs.{
  KcpServer, KcpPendingSession, KcpSessionPtr, Env, close_session, perform, send_packet,
  process_syn_packet, process_ack_packet, process_rst_packet, process_ping_packet,
  process_data_packet, retried, max_packet_size, max_syn_retry_times, syn_sent_timeout,
  session_idle, session_time_wait,
}

-- The assertions at the top of the handlers. The enumerators are written as their numbers.
unfoldable pub asserted : KcpPublicHeader → KcpReceivedPacket → Bool
unfolding remaining_bytes
asserted header packet =
    let empty = remaining_bytes packet == 0 in
    if header.packet_type == 0
    then empty && header.session_id == 0
    else if header.packet_type == 1
    then empty
    else if header.packet_type == 2
    then empty
    else if header.packet_type == 3
    then empty && ltb 0 header.session_id
    else true

abbrev pub is_success : ReadError → Bool
is_success success = true
is_success _ = false

module _ (adler32 : List ℕ → ℕ) where
  -- The `switch` of `ProcessPacket`.
  unfoldable pub dispatch :
      Env → KcpPublicHeader → KcpReceivedPacket → String → KcpServer → KcpServer
  dispatch env header packet client_address s =
      if header.packet_type == 0
      then process_syn_packet adler32 env client_address s
      else if header.packet_type == 1
      then process_ack_packet adler32 env header.session_id client_address s
      else if header.packet_type == 2
      then process_rst_packet adler32 env header.session_id client_address s
      else if header.packet_type == 3
      then process_ping_packet adler32 env header.session_id client_address s
      else if header.packet_type == 5
      then process_data_packet adler32 env header.session_id (remaining_data packet) client_address
          s
      else s

  -- `none` is an assertion that fails; `debug` says whether assertions are compiled in.
  unfoldable pub process_packet :
      Bool → Env → KcpReceivedPacket → String → KcpServer → Option KcpServer
  process_packet debug env packet client_address s =
      let result = read_public_header adler32 packet empty_header in
      if ltb max_packet_size (length packet.bytes)
      then some s
      else if not (is_success result.code)
      then some s
      else if debug && not (asserted result.header result.packet)
      then none
      else some (dispatch env result.header result.packet client_address s)

  -- A message of `recvmmsg`: its bytes, and its sender if `ToInetAddr` can read it.
  pub record Message : Type 0 where
    pub env : Env
    pub bytes : List ℕ
    pub sender : Option String

  unfoldable pub handle_message : Bool → Message → KcpServer → Option KcpServer
  handle_message debug message s =
      if length message.bytes == 0
      then some s
      else if ltb max_packet_size (length message.bytes)
      then some s
      else elim message.sender [
        | none ↦ some s
        | some client_address ↦
            process_packet debug message.env (received message.bytes) client_address s
      ]

  abbrev pub or_stop : Option KcpServer → (KcpServer → Option KcpServer) → Option KcpServer
  or_stop none k = none
  or_stop (some s) k = k s

  -- The messages that the read loop takes from the socket before it stops.
  unfoldable pub handle_read : Bool → List Message → KcpServer → Option KcpServer
  handle_read debug [] s = some s
  handle_read debug (message ∷ rest) s =
      or_stop (handle_message debug message s) (handle_read debug rest)

  -- One round of the first loop of `RunPeriodicTask`.
  unfoldable pub sweep_pending : Env → String → KcpPendingSession → KcpServer → KcpServer
  sweep_pending env key pending s =
      if leb max_syn_retry_times pending.retry_times
      then record s { pending_session_map = erase key s.pending_session_map }
      else if leb (pending.syn_sent_time + syn_sent_timeout) env.now
      then send_packet adler32 syn_packet pending.session_id pending.peer_address (record s {
        pending_session_map = assign key (retried env.now pending) s.pending_session_map;
      })
      else s

  unfoldable pub sweep_all_pending : Env → Map String KcpPendingSession → KcpServer → KcpServer
  sweep_all_pending env [] s = s
  sweep_all_pending env ((key, pending) ∷ rest) s =
      sweep_all_pending env rest (sweep_pending env key pending s)

-- `session_map_.erase(it)` and the entry in `time_wait_session_map_`.
abbrev pub retire : Env → ℕ → KcpServer → KcpServer
retire env session_id s = record s {
  session_map = erase session_id s.session_map;
  time_wait_session_map = insert session_id env.now s.time_wait_session_map;
}

-- One round of the second loop.
unfoldable pub sweep_session : Env → ℕ → KcpServer → KcpServer
sweep_session env session_id s = elim (find session_id s.idle_session_map) [
  | none ↦ retire env session_id (perform (close_session session_id) s)
  | some last_received_time ↦
      let unlisted =
        λ (t : KcpServer). record t { idle_session_map = erase session_id t.idle_session_map } in
      if leb (last_received_time + session_idle) env.now
      then unlisted (retire env session_id (perform (close_session session_id) s))
      else if env.is_closed session_id
      then unlisted (retire env session_id s)
      else s
]

unfoldable pub sweep_all_sessions : Env → Map ℕ KcpSessionPtr → KcpServer → KcpServer
sweep_all_sessions env [] s = s
sweep_all_sessions env ((session_id, session) ∷ rest) s =
    sweep_all_sessions env rest (sweep_session env session_id s)

-- The third loop.
unfoldable pub sweep_time_wait : Env → Map ℕ ℕ → Map ℕ ℕ
sweep_time_wait env [] = []
sweep_time_wait env ((session_id, start_time) ∷ rest) =
    if leb (start_time + session_time_wait) env.now
    then sweep_time_wait env rest
    else (session_id, start_time) ∷ sweep_time_wait env rest

unfoldable pub run_periodic_task : (List ℕ → ℕ) → Env → KcpServer → KcpServer
run_periodic_task adler32 env s =
    let s1 = sweep_all_pending adler32 env s.pending_session_map s in
    let s2 = sweep_all_sessions env s1.session_map s1 in
    record s2 { time_wait_session_map = sweep_time_wait env s2.time_wait_session_map }
