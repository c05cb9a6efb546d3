-- ===== src/Server/Invariant.antt =====
-- What holds of a server between two events: the maps of sessions and of the times of their last
-- packets have the same keys, and a pending session is stored under its peer's address and has not
-- been tried too often.
use Prim.Native.String.{String}
use text.Mathlib.TextEquality.{eq_iff}
use cpp_code_blocks.Prelude.{
  ℕ, ◌≤◌, ◌≡◌, refl, inl, inr, Bool, true, false, List, [], ◌∷◌, some, leb, ◌==◌, if◌then◌else◌,
  arith, Bool-cases, Option-cases,
}
use cpp_code_blocks.Prelude.Maps.{
  Map, find, contains, erase, insert, assign, nat_eq, string_eq, contains-erase, contains-insert,
  contains-assign,
}
use cpp_code_blocks.Packet.Defs.{
  PacketType, rst_packet, syn_packet, pong_packet, KcpPublicHeader, KcpReceivedPacket, empty_header,
  read_public_header, remaining_data,
}
use cpp_code_blocks.Server.Loop.{dispatch, process_packet}
use cpp_code_blocks.Server.Defs.{
  KcpServer, KcpPendingSession, KcpSessionPtr, Env, Effect, new_server, send_packet, new_pending,
  generate_session_id, process_syn_packet, process_ack_packet, process_rst_packet,
  process_ping_packet, process_data_packet, establish, max_syn_retry_times, send_packet_lem,
  retried, perform, process_packet_of,
}

pub record IsPending (key : String) (pending : KcpPendingSession) : Type 0 where
  pub retries : pending.retry_times ≤ max_syn_retry_times
  pub addressed : pending.peer_address ≡ key

abbrev pub AllPending : Map String KcpPendingSession → Type 0
AllPending [] = Unit {0}
AllPending ((key, p) ∷ m) = IsPending key p × AllPending m

abbrev pub SameKeys : Map ℕ ℕ → Map ℕ KcpSessionPtr → Type 0
SameKeys idle sessions = (i : ℕ) → contains i idle ≡ contains i sessions

pub record Inv (s : KcpServer) : Type 0 where
  pub listed : SameKeys s.idle_session_map s.session_map
  pub pending : AllPending s.pending_session_map

pub new_server-Inv : Inv new_server
unfolding contains
new_server-Inv = record { listed = λ i. refl; pending = tt }

pub AllPending-find :
    (m : Map String KcpPendingSession) (key : String) (p : KcpPendingSession)
    → AllPending m
    → find key m ≡ some p
    → IsPending key p
unfolding find
AllPending-find [] key p h e = cc
AllPending-find ((j, q) ∷ m) key p h e = ground (arith, AllPending-find m key p h.1, eq_iff j key)

pub AllPending-erase :
    (m : Map String KcpPendingSession) (key : String) → AllPending m → AllPending (erase key m)
unfolding erase
AllPending-erase [] key h = tt
AllPending-erase ((j, q) ∷ m) key h = ground (arith, AllPending-erase m key h.1)

pub AllPending-assign :
    (m : Map String KcpPendingSession) (key : String) (p : KcpPendingSession)
    → IsPending key p
    → AllPending m
    → AllPending (assign key p m)
unfolding assign
AllPending-assign [] key p v h = tt
AllPending-assign ((j, q) ∷ m) key p v h =
    ground (arith, AllPending-assign m key p v h.1, eq_iff j key)

AllPending-insert :
    (m : Map String KcpPendingSession) (key : String) (p : KcpPendingSession)
    → IsPending key p
    → AllPending m
    → AllPending (insert key p m)
unfolding insert
AllPending-insert m key p v h = ground arith

module _ (idle : Map ℕ ℕ) (sessions : Map ℕ KcpSessionPtr) (h : SameKeys idle sessions)
    (i : ℕ) where
  pub SameKeys-erase : SameKeys (erase i idle) (erase i sessions)
  SameKeys-erase j = ground (arith, h j, contains-erase i j idle, contains-erase i j sessions)

  pub SameKeys-forget : contains i sessions ≡ false → SameKeys (erase i idle) sessions
  SameKeys-forget gone j = ground (arith, h j, contains-erase i j idle)

  pub SameKeys-drop : contains i idle ≡ false → SameKeys idle (erase i sessions)
  SameKeys-drop gone j = ground (arith, h j, contains-erase i j sessions)

  pub SameKeys-insert :
      (t : ℕ) (session : KcpSessionPtr) → SameKeys (insert i t idle) (insert i session sessions)
  SameKeys-insert t session j =
      ground (arith, h j, contains-insert i j t idle, contains-insert i j session sessions)

  pub SameKeys-touch :
      (t : ℕ)
      → contains i sessions ≡ true
      → SameKeys (if contains i idle then assign i t idle else insert i t idle) sessions
  SameKeys-touch t there j =
      ground (arith, h j, h i, contains-insert i j t idle, contains-assign i j t idle)

establish-Inv : (env : Env) (i : ℕ) (a : String) (s : KcpServer) → Inv s → Inv (establish env i a s)
unfolding establish
establish-Inv env i a s v = record {
  listed = SameKeys-insert s.idle_session_map s.session_map v.listed i env.now _;
  pending = AllPending-erase s.pending_session_map a v.pending;
}

pub perform-Inv : (x : Effect) (s : KcpServer) → Inv s → Inv (perform x s)
perform-Inv x s v = record { listed = v.listed; pending = v.pending }

-- Both branches of a test.
pub if-Inv : (b : Bool) {s t : KcpServer} → Inv s → Inv t → Inv (if b then s else t)
if-Inv true v w = v
if-Inv false v w = w

module _ (adler32 : List ℕ → ℕ) where
  pub send_packet-Inv :
      (t : PacketType) (i : ℕ) (a : String) (s : KcpServer)
      → Inv s
      → Inv (send_packet adler32 t i a s)
  send_packet-Inv t i a s v =
      rw (send_packet_lem adler32 t i a s) (record { listed = v.listed; pending = v.pending })

  syn-Inv :
      (env : Env) (a : String) (s : KcpServer) → Inv s → Inv (process_syn_packet adler32 env a s)
  unfolding process_syn_packet
  syn-Inv env a s v = elim (Option-cases (find a s.pending_session_map)) [
    | inr (p, e) ↦ elim (Bool-cases (leb max_syn_retry_times p.retry_times)) [
      | inl spent ↦
          rw (e, process_syn_packet, spent)
            (let sent = send_packet-Inv rst_packet 0 a s v in
              record {
                listed = sent.listed;
                pending =
                    AllPending-erase (send_packet adler32 rst_packet 0 a s).pending_session_map a
                      sent.pending;
              })
      | inr again ↦
          rw (e, process_syn_packet, again)
            (send_packet-Inv syn_packet p.session_id a _ (record {
              listed = v.listed;
              pending =
                  AllPending-assign s.pending_session_map a (retried env.now p)
                    (record {
                      retries = ground arith;
                      addressed = (AllPending-find s.pending_session_map a p v.pending e).addressed;
                    })
                    v.pending;
            }))
    ]
    | inl e ↦ elim (Option-cases (generate_session_id env s)) [
      | inl none_left ↦ rw (e, process_syn_packet, none_left) (send_packet-Inv rst_packet 0 a s v)
      | inr (i, found) ↦
          rw (e, process_syn_packet, found)
            (send_packet-Inv syn_packet i a _ (record {
              listed = v.listed;
              pending =
                  AllPending-insert s.pending_session_map a (new_pending i env.now a)
                    (record { retries = omega arith; addressed = refl }) v.pending;
            }))
    ]
  ]

  ping-Inv :
      (env : Env) (i : ℕ) (a : String) (s : KcpServer)
      → Inv s
      → Inv (process_ping_packet adler32 env i a s)
  unfolding process_ping_packet
  ping-Inv env i a s v = elim (Option-cases (find i s.session_map)) [
    | inl e ↦ rw (e, process_ping_packet) (send_packet-Inv rst_packet i a s v)
    | inr (session, e) ↦
        rw (e, process_ping_packet)
          (send_packet-Inv pong_packet i a _ (record {
            listed =
                SameKeys-touch s.idle_session_map s.session_map v.listed i env.now
                  (unfold contains in rw e refl);
            pending = v.pending;
          }))
  ]

  ack-Inv :
      (env : Env) (i : ℕ) (a : String) (s : KcpServer)
      → Inv s
      → Inv (process_ack_packet adler32 env i a s)
  unfolding process_ack_packet
  ack-Inv env i a s v = elim (Option-cases (find a s.pending_session_map)) [
    | inl e ↦ rw (e, process_ack_packet) (if-Inv _ v (send_packet-Inv rst_packet 0 a s v))
    | inr (p, e) ↦
        rw (e, process_ack_packet)
          (if-Inv _ (send_packet-Inv rst_packet 0 a s v)
            (if-Inv _ v (if-Inv _ (establish-Inv env i a s v) v)))
  ]

  rst-Inv :
      (env : Env) (i : ℕ) (a : String) (s : KcpServer)
      → Inv s
      → Inv (process_rst_packet adler32 env i a s)
  unfolding process_rst_packet
  rst-Inv env i a s v = elim (Bool-cases (contains i s.session_map)) [
    | inl there ↦ rw there (record {
      listed = SameKeys-erase s.idle_session_map s.session_map v.listed i;
      pending = AllPending-erase s.pending_session_map a v.pending;
    })
    | inr gone ↦ rw gone (record {
      listed = SameKeys-forget s.idle_session_map s.session_map v.listed i gone;
      pending = AllPending-erase s.pending_session_map a v.pending;
    })
  ]

  data-Inv :
      (env : Env) (i : ℕ) (payload : List ℕ) (a : String) (s : KcpServer)
      → Inv s
      → Inv (process_data_packet adler32 env i payload a s)
  unfolding process_data_packet
  data-Inv env i payload a s v =
      if-Inv (contains i s.session_map) (perform-Inv (process_packet_of i payload a) s v) (
        if-Inv (contains a s.pending_session_map)
          (if-Inv (env.initialize i a)
            (perform-Inv (process_packet_of i payload a) (establish env i a s)
              (establish-Inv env i a s v))
            v)
          (send_packet-Inv rst_packet 0 a s v))

  pub dispatch-Inv :
      (env : Env) (header : KcpPublicHeader) (packet : KcpReceivedPacket) (a : String)
      (s : KcpServer)
      → Inv s
      → Inv (dispatch adler32 env header packet a s)
  unfolding dispatch
  dispatch-Inv env header packet a s v = if-Inv (header.packet_type == 0) (syn-Inv env a s v) (
      if-Inv (header.packet_type == 1) (ack-Inv env header.session_id a s v) (
        if-Inv (header.packet_type == 2) (rst-Inv env header.session_id a s v) (
          if-Inv (header.packet_type == 3) (ping-Inv env header.session_id a s v) (
            if-Inv (header.packet_type == 5)
              (data-Inv env header.session_id (remaining_data packet) a s v) v))))

  -- Where no assertion fails, a packet keeps the invariant: the maps of sessions and of the times of
  -- their last packets have the same keys, and a pending session is stored under its peer's address
  -- and has been retried ten times at most.
  pub process_packet-Inv :
      (debug : Bool) (env : Env) (packet : KcpReceivedPacket) (a : String) (s s' : KcpServer)
      → process_packet adler32 debug env packet a s ≡ some s'
      → Inv s
      → Inv s'
  unfolding process_packet
  process_packet-Inv debug env packet a s s' e v = ground (
    arith,
    dispatch-Inv env (read_public_header adler32 packet empty_header).header
        (read_public_header adler32 packet empty_header).packet a s v,
  )
