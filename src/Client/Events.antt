-- ===== src/Client/Events.antt =====
-- kcp/kcp_client.cc: the calls that come from outside: `Connect`, the datagrams, the timers and
-- `Disconnect`.
use cpp_code_blocks.Prelude.{
  ℕ, Bool, true, false, not, ◌&&◌, ◌||◌, ◌+◌, List, [], ◌∷◌, Option, none, some, ltb, ◌==◌,
  if◌then◌else◌, ◌>>=◌, length,
}
use cpp_code_blocks.Prelude.Int.{ℤ, pos, ltb_ℤ}
use cpp_code_blocks.Prelude.Maps.{contains, erase, nat_eq}
use cpp_code_blocks.Packet.Defs.{
  KcpPublicHeader, KcpReceivedPacket, received, empty_header, read_public_header, remaining_bytes,
  remaining_data,
}
use cpp_code_blocks.Server.Defs.{max_packet_size}
use cpp_code_blocks.Server.Loop.{is_success}
use cpp_code_blocks.Client.Defs.{
  KcpClient, ClientEnv, build_session, reset_session, process_syn_packet, process_pong_packet,
  process_data_packet, run_periodic_task, disconnect,
}

-- The assertions at the top of the handlers. The enumerators are written as their numbers.
unfoldable pub asserted : KcpPublicHeader → KcpReceivedPacket → Bool
unfolding remaining_bytes
asserted header packet =
    let empty = remaining_bytes packet == 0 in
    let named = ltb 0 header.session_id in
    if header.packet_type == 0
    then empty && named
    else if header.packet_type == 2
    then empty
    else if header.packet_type == 4
    then empty && named
    else if header.packet_type == 5
    then named
    else true

-- The results of the calls of the socket, in order: `Connect`, the sizes of the buffers, the
-- addresses. The first failure is the result, and nothing is changed.
unfoldable pub first_failure : List ℤ → Option ℤ
first_failure [] = none
first_failure (rc ∷ rest) = if ltb_ℤ rc (pos 0) then some rc else first_failure rest

pub data Event : Type 0 where
  connecting : ClientEnv → List ℤ → Event
  enabling : Bool → Event
  reading : ClientEnv → Option (List ℕ) → Event
  ticking : ClientEnv → Event
  firing : ClientEnv → ℕ → Event
  disconnecting : Event

module _ (adler32 : List ℕ → ℕ) where
  -- The `switch` of `ProcessPacket`.
  unfoldable pub dispatch :
      ClientEnv → KcpPublicHeader → KcpReceivedPacket → KcpClient → Option KcpClient
  dispatch env header packet s =
      if header.packet_type == 0
      then process_syn_packet adler32 env header.session_id s
      else if header.packet_type == 2
      then reset_session s
      else if header.packet_type == 4
      then process_pong_packet adler32 env header.session_id s
      else if header.packet_type == 5
      then process_data_packet adler32 env header.session_id (remaining_data packet) s
      else some s

  -- `debug` says whether the assertions on the packets' contents are compiled in.
  unfoldable pub process_packet :
      Bool → ClientEnv → KcpReceivedPacket → KcpClient → Option KcpClient
  process_packet debug env packet s =
      let result = read_public_header adler32 packet empty_header in
      if not (is_success result.code)
      then some s
      else if debug && not (asserted result.header result.packet)
      then none
      else dispatch env result.header result.packet s

  -- `bytes` is `none` where `socket_->Read` fails.
  unfoldable pub handle_read : Bool → ClientEnv → Option (List ℕ) → KcpClient → Option KcpClient
  handle_read debug env bytes s = elim s.socket [
    | none ↦ some s
    | some false ↦ some s
    | some true ↦ elim bytes [
      | none ↦ some s
      | some buf ↦
          if ltb max_packet_size (length buf)
          then some s
          else process_packet debug env (received buf) s
    ]
  ]

  -- `runEvery`, its identifier kept over that of an earlier timer, which is not cancelled.
  abbrev pub timed : KcpClient → KcpClient
  timed s = record s {
    periodic_task_timer = true;
    lost_timers = if s.periodic_task_timer then s.lost_timers + 1 else s.lost_timers;
  }

  unfoldable pub connect : ClientEnv → List ℤ → KcpClient → Option (ℤ × KcpClient)
  unfolding first_failure
  connect env results s = elim (first_failure results) [
    | some rc ↦ some (rc, s)
    | none ↦ do
      t ← build_session adler32 env (record s { socket = some true })
      some (pos 0, timed t)
  ]

  -- A timer of a reconnect, if the loop still has it.
  unfoldable pub fire_reconnect : ClientEnv → ℕ → KcpClient → Option KcpClient
  fire_reconnect env timer s =
      if contains timer s.reconnect_timers
      then (do
        t ←
            build_session adler32 env
              (record s { reconnect_timers = erase timer s.reconnect_timers })
        some (record t { reconnect_timer_registered = false }))
      else some s

  -- A timer of the periodic task, if the loop still has one.
  unfoldable pub tick : ClientEnv → KcpClient → Option KcpClient
  tick env s =
      if s.periodic_task_timer || ltb 0 s.lost_timers
      then run_periodic_task adler32 env s
      else some s

  abbrev pub step : Event → KcpClient → Option KcpClient
  step (connecting env results) s = do (rc, t) ← connect env results s; some t
  step (enabling enabled) s = some (record s { reconnect_enabled = enabled })
  step (reading env bytes) s = handle_read false env bytes s
  step (ticking env) s = tick env s
  step (firing env timer) s = fire_reconnect env timer s
  step disconnecting s = disconnect adler32 s

  unfoldable pub run : List Event → KcpClient → Option KcpClient
  run [] s = some s
  run (event ∷ events) s = do t ← step event s; run events t
