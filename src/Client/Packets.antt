-- ===== src/Client/Packets.antt =====
-- The handlers of a client's packets keep the invariant and end.
use cpp_code_blocks.Prelude.{
  ℕ, ◌≡◌, inl, inr, true, false, not, List, Option, none, some, ltb, ◌==◌, if◌then◌else◌, length,
  arith, Option-cases,
}
use cpp_code_blocks.Prelude.Maps.{nat_eq}
use cpp_code_blocks.Packet.Defs.{
  ack_packet, rst_packet, KcpPublicHeader, KcpReceivedPacket, received, empty_header,
  read_public_header, remaining_data,
}
use cpp_code_blocks.Server.Defs.{max_packet_size}
use cpp_code_blocks.Server.Loop.{is_success}
use cpp_code_blocks.Client.Defs.{
  KcpClient, ClientEnv, establish, process_syn_packet, process_pong_packet, process_data_packet,
}
use cpp_code_blocks.Client.Events.{dispatch, process_packet, handle_read}
use cpp_code_blocks.Client.Invariant.{
  Inv, Keeps, kept, by_end, if-Keeps, reset_session-Keeps, establish-Inv, send_packet-Keeps,
}

module _ (adler32 : List ℕ → ℕ) where
  syn-Keeps :
      (env : ClientEnv) (i : ℕ) (s : KcpClient)
      → s.socket ≡ some true
      → Inv s
      → Keeps (process_syn_packet adler32 env i s)
  unfolding process_syn_packet establish
  syn-Keeps env i s e v = elim (Option-cases s.session) [
    | inr (own, there) ↦
        rw (there, process_syn_packet)
          (if-Keeps (not (own == i)) (send_packet-Keeps adler32 rst_packet i s e v)
            (send_packet-Keeps adler32 ack_packet i s e v))
    | inl gone ↦ elim (Option-cases s.pending_session) [
      | inl n ↦ rw (gone, n, process_syn_packet) (send_packet-Keeps adler32 rst_packet i s e v)
      | inr (p, there) ↦
          rw (gone, there, process_syn_packet)
            (if-Keeps (not (env.initialize i)) (kept v) (
              send_packet-Keeps adler32 ack_packet i (establish env i s) e
                (establish-Inv env i s e v)))
    ]
  ]

  pong-Keeps :
      (env : ClientEnv) (i : ℕ) (s : KcpClient)
      → s.socket ≡ some true
      → Inv s
      → Keeps (process_pong_packet adler32 env i s)
  unfolding process_pong_packet
  pong-Keeps env i s e v = elim (Option-cases s.session) [
    | inl gone ↦ rw (gone, process_pong_packet) (send_packet-Keeps adler32 rst_packet i s e v)
    | inr (own, there) ↦
        rw (there, process_pong_packet)
          (kept (record { states = v.states; sockets = v.sockets; timers = v.timers }))
  ]

  data-Keeps :
      (env : ClientEnv) (i : ℕ) (payload : List ℕ) (s : KcpClient)
      → s.socket ≡ some true
      → Inv s
      → Keeps (process_data_packet adler32 env i payload s)
  unfolding process_data_packet
  data-Keeps env i payload s e v = elim (Option-cases s.session) [
    | inl gone ↦ rw (gone, process_data_packet) (send_packet-Keeps adler32 rst_packet i s e v)
    | inr (own, there) ↦
        rw (there, process_data_packet)
          (kept (record { states = v.states; sockets = v.sockets; timers = v.timers }))
  ]

  dispatch-Keeps :
      (env : ClientEnv) (header : KcpPublicHeader) (packet : KcpReceivedPacket) (s : KcpClient)
      → s.socket ≡ some true
      → Inv s
      → Keeps (dispatch adler32 env header packet s)
  unfolding dispatch
  dispatch-Keeps env header packet s e v =
      let i = header.session_id in
      if-Keeps (header.packet_type == 0) (syn-Keeps env i s e v) (
        if-Keeps (header.packet_type == 2) (reset_session-Keeps s v e) (
          if-Keeps (header.packet_type == 4) (pong-Keeps env i s e v) (
            if-Keeps (header.packet_type == 5) (data-Keeps env i (remaining_data packet) s e v)
              (kept v))))

  process_packet-Keeps :
      (env : ClientEnv) (packet : KcpReceivedPacket) (s : KcpClient)
      → s.socket ≡ some true
      → Inv s
      → Keeps (process_packet adler32 false env packet s)
  unfolding process_packet
  process_packet-Keeps env packet s e v =
      let result = read_public_header adler32 packet empty_header in
      if-Keeps (not (is_success result.code)) (kept v)
        (dispatch-Keeps env result.header result.packet s e v)

  -- What a read of the socket comes to.
  read_lem :
      (env : ClientEnv) (bytes : List ℕ) (s : KcpClient)
      → s.socket ≡ some true
      → handle_read adler32 false env (some bytes) s ≡ (
          if ltb max_packet_size (length bytes)
          then some s
          else process_packet adler32 false env (received bytes) s)
  unfolding handle_read
  read_lem env bytes s e = ground arith

  pub handle_read-Keeps :
      (env : ClientEnv) (bytes : Option (List ℕ)) (s : KcpClient)
      → Inv s
      → Keeps (handle_read adler32 false env bytes s)
  unfolding handle_read
  handle_read-Keeps env none s v = by_end (ground arith) v
  handle_read-Keeps env (some bytes) s v = elim v.sockets [
    | inr h ↦ by_end (ground arith) v
    | inl e ↦ rw (read_lem env bytes s e) (
        if-Keeps (ltb max_packet_size (length bytes)) (kept v)
          (process_packet-Keeps env (received bytes) s e v))
  ]
