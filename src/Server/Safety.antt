-- ===== src/Server/Safety.antt =====
-- Which packets make a session: only an address whose handshake is pending gets one, under an
-- identifier that `GenerateSessionId` has found free.
use Prim.Native.String.{String}
use cpp_code_blocks.Prelude.{
  ℕ, zero, suc, ◌≡◌, refl, ◌⊎◌, inl, inr, Bool, true, false, not, List, some, leb, ◌==◌,
  if◌then◌else◌, arith, Bool-cases, Option-cases,
}
use cpp_code_blocks.Prelude.Maps.{
  find, contains, nat_eq, string_eq, contains-erase, contains-insert,
}
use cpp_code_blocks.Packet.Defs.{
  PacketType, rst_packet, syn_packet, pong_packet, KcpPublicHeader, KcpReceivedPacket,
  remaining_data, empty_header, read_public_header,
}
use cpp_code_blocks.Server.Loop.{dispatch, process_packet}
use cpp_code_blocks.Server.Defs.{
  KcpServer, Env, send_packet, generate_from, generate_session_id, process_syn_packet,
  process_ack_packet, process_rst_packet, process_ping_packet, process_data_packet, establish,
  max_syn_retry_times, send_packet_lem, max_gen_session_id_try_times,
}

generate_from-IsFree :
    (env : Env) (s : KcpServer) (tries i id : ℕ)
    → generate_from env s tries i ≡ some id
    → (contains id s.session_map ≡ false) × (contains id s.time_wait_session_map ≡ false)
unfolding generate_from
generate_from-IsFree env s zero i id e = cc
generate_from-IsFree env s (suc tries) i id e =
    ground (arith, generate_from-IsFree env s tries (suc i) id)

-- An identifier that `GenerateSessionId` returns is neither a session's nor in its time wait.
pub generate_session_id-IsFree :
    (env : Env) (s : KcpServer) (id : ℕ)
    → generate_session_id env s ≡ some id
    → (contains id s.session_map ≡ false) × (contains id s.time_wait_session_map ≡ false)
unfolding generate_session_id
generate_session_id-IsFree env s id e =
    generate_from-IsFree env s max_gen_session_id_try_times 0 id e

module _ (adler32 : List ℕ → ℕ) (env : Env) (a : String) (s : KcpServer) where
  send-session_map :
      (t : PacketType) (i : ℕ) (b : String) (s' : KcpServer)
      → (send_packet adler32 t i b s').session_map ≡ s'.session_map
  send-session_map t i b s' = rw (send_packet_lem adler32 t i b s') refl

  syn-session_map : (process_syn_packet adler32 env a s).session_map ≡ s.session_map
  unfolding process_syn_packet
  syn-session_map = elim (Option-cases (find a s.pending_session_map)) [
    | inl e ↦ elim (Option-cases (generate_session_id env s)) [
      | inl gone ↦ rw (e, gone, process_syn_packet) (send-session_map rst_packet 0 a s)
      | inr (i, found) ↦ rw (e, found, process_syn_packet) (send-session_map syn_packet i a _)
    ]
    | inr (p, e) ↦ elim (Bool-cases (leb max_syn_retry_times p.retry_times)) [
      | inl spent ↦ rw (e, process_syn_packet, spent) (send-session_map rst_packet 0 a s)
      | inr again ↦ rw (e, process_syn_packet, again) (send-session_map syn_packet p.session_id a _)
    ]
  ]

  ping-session_map : (i : ℕ) → (process_ping_packet adler32 env i a s).session_map ≡ s.session_map
  unfolding process_ping_packet
  ping-session_map i = elim (Option-cases (find i s.session_map)) [
    | inl e ↦ rw (e, process_ping_packet) (send-session_map rst_packet i a s)
    | inr (session, e) ↦ rw (e, process_ping_packet) (send-session_map pong_packet i a _)
  ]

  -- What may become of the keys of the sessions, for a packet that names the session `i`.
  pub record Grows (i : ℕ) (s' : KcpServer) : Type 0 where
    pub keys :
        (j : ℕ)
        → contains j s'.session_map ≡ true
        → (contains j s.session_map ≡ true)
          ⊎ ((j ≡ i) × (contains a s.pending_session_map ≡ true) × (env.initialize i a ≡ true))

  establish-Grows :
      (i : ℕ)
      → contains a s.pending_session_map ≡ true
      → env.initialize i a ≡ true
      → Grows i (establish env i a s)
  unfolding establish
  establish-Grows i waits ready = record {
    keys = λ j there.
        ground
          (arith, contains-insert i j (record { session_id = i; peer_address = a }) s.session_map);
  }

  same-Grows : (i : ℕ) (s' : KcpServer) → s'.session_map ≡ s.session_map → Grows i s'
  same-Grows i s' e = record { keys = λ j there. inl (rw⁻¹ e there) }

  if-Grows :
      (i : ℕ) (b : Bool) {r t : KcpServer}
      → (b ≡ true → Grows i r)
      → (b ≡ false → Grows i t)
      → Grows i (if b then r else t)
  if-Grows i true v w = v refl
  if-Grows i false v w = w refl

  unchanged : (i : ℕ) → Grows i s
  unchanged i = same-Grows i s refl

  refused : (i : ℕ) → Grows i (send_packet adler32 rst_packet 0 a s)
  refused i = same-Grows i _ (send-session_map rst_packet 0 a s)

  ack-Grows : (i : ℕ) → Grows i (process_ack_packet adler32 env i a s)
  unfolding process_ack_packet
  ack-Grows i = elim (Option-cases (find a s.pending_session_map)) [
    | inl e ↦ rw (e, process_ack_packet) (if-Grows i _ (λ _. unchanged i) (λ _. refused i))
    | inr (p, e) ↦
        let waits : contains a s.pending_session_map ≡ true = unfold contains in rw e refl in
        rw (e, process_ack_packet)
          (if-Grows i (not (i == p.session_id)) (λ _. refused i)
            (λ _.
              if-Grows i (contains i s.session_map) (λ _. unchanged i)
                (λ _.
                  if-Grows i (env.initialize i a) (λ ready. establish-Grows i waits ready)
                    (λ _. unchanged i))))
  ]

  rst-Grows : (i : ℕ) → Grows i (process_rst_packet adler32 env i a s)
  unfolding process_rst_packet
  rst-Grows i = record { keys = λ j there. ground (arith, contains-erase i j s.session_map) }

  data-Grows : (i : ℕ) (payload : List ℕ) → Grows i (process_data_packet adler32 env i payload a s)
  unfolding process_data_packet
  data-Grows i payload =
      if-Grows i (contains i s.session_map) (λ _. same-Grows i _ refl)
        (λ _.
          if-Grows i (contains a s.pending_session_map)
            (λ waits.
              if-Grows i (env.initialize i a)
                (λ ready. record { keys = (establish-Grows i waits ready).keys })
                (λ _. unchanged i))
            (λ _. refused i))

  dispatch-Grows :
      (header : KcpPublicHeader) (packet : KcpReceivedPacket)
      → Grows header.session_id (dispatch adler32 env header packet a s)
  unfolding dispatch
  dispatch-Grows header packet =
      let i = header.session_id in
      if-Grows i (header.packet_type == 0) (λ _. same-Grows i _ syn-session_map)
        (λ _.
          if-Grows i (header.packet_type == 1) (λ _. ack-Grows i)
            (λ _.
              if-Grows i (header.packet_type == 2) (λ _. rst-Grows i)
                (λ _.
                  if-Grows i (header.packet_type == 3) (λ _. same-Grows i _ (ping-session_map i))
                    (λ _.
                      if-Grows i (header.packet_type == 5)
                        (λ _. data-Grows i (remaining_data packet)) (λ _. unchanged i)))))

  -- A packet makes at most the session that its header names, and that only where the sender has a
  -- pending session and `KCPSession::Initialize` succeeds: any other key of the sessions after it was
  -- one before.
  pub process_packet-made :
      (debug : Bool) (packet : KcpReceivedPacket) (s' : KcpServer) (j : ℕ)
      → process_packet adler32 debug env packet a s ≡ some s'
      → contains j s'.session_map ≡ true
      → let i = (read_public_header adler32 packet empty_header).header.session_id in
        (contains j s.session_map ≡ true)
        ⊎ ((j ≡ i) × (contains a s.pending_session_map ≡ true) × (env.initialize i a ≡ true))
  unfolding process_packet
  process_packet-made debug packet s' j e there =
      let result = read_public_header adler32 packet empty_header in
      ground (arith, (dispatch-Grows result.header result.packet).keys j)
