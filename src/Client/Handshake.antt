-- ===== src/Client/Handshake.antt =====
-- kcp/kcp_client.cc and kcp/kcp_server.cc: the handshake, from one side to the other.
use Prim.Native.String.{String}
use cpp_code_blocks.Prelude.{
  ℕ, ◌^◌, ◌<◌, ◌≡◌, refl, Bool, true, false, List, [], ◌∷◌, ◌++◌, none, some, arith,
}
use cpp_code_blocks.Prelude.Maps.{
  find, contains, insert, nat_eq, string_eq, find-insert, find-erase,
}
use cpp_code_blocks.Packet.Control.{control_packet, control_packet-IsReadAs}
use cpp_code_blocks.Packet.Defs.{type_code, syn_packet, ack_packet, received}
use cpp_code_blocks.Server.Defs as Server
use cpp_code_blocks.Server.Defs.{
  KcpServer, KcpSessionPtr, Env, send_packet_lem, new_pending, send_to, generate_session_id,
  process_syn_packet, process_ack_packet,
}
use cpp_code_blocks.Server.Loop as Loop
use cpp_code_blocks.Server.Handshake.{process_packet-control_packet}
use cpp_code_blocks.Server.Safety.{generate_session_id-IsFree}
use cpp_code_blocks.Client.Defs.{
  connected, ClientPendingSession, KcpClient, ClientEnv, perform, write, establish,
  process_syn_packet as client_syn,
}
use cpp_code_blocks.Client.Events.{dispatch, process_packet, asserted}
use cpp_code_blocks.Client.Invariant.{send_packet_lem as client_send_lem}

module _ (adler32 : List ℕ → ℕ) (debug : Bool) where
  -- A client that waits takes the identifier of a SYN over, and acknowledges it.
  client_receives_syn :
      (env : ClientEnv) (c : KcpClient) (p : ClientPendingSession) (i : ℕ)
      → c.socket ≡ some true
      → c.session ≡ none
      → c.pending_session ≡ some p
      → env.initialize i ≡ true
      → 0 < i
      → i < 2 ^ 32
      → process_packet adler32 debug env (received (control_packet adler32 syn_packet i)) c
        ≡ some (perform (write (control_packet adler32 ack_packet i)) (establish env i c))
  unfolding process_packet dispatch asserted type_code client_syn establish
  client_receives_syn env c p i e gone waits ready named small =
      let back = control_packet-IsReadAs adler32 syn_packet i small in
      let sent = client_send_lem adler32 ack_packet i (establish env i c) e in
      ground (arith, back.code, back.read_type, back.read_session, back.all_read, sent)

  -- A server that does not know the sender of a SYN gives it a new identifier.
  server_receives_syn :
      (env : Env) (a : String) (s : KcpServer) (i : ℕ)
      → find a s.pending_session_map ≡ none
      → generate_session_id env s ≡ some i
      → Loop.process_packet adler32 debug env (received (control_packet adler32 syn_packet 0)) a s
        ≡ some (
            Server.perform (send_to (control_packet adler32 syn_packet i) a) (record s {
              pending_session_map = insert a (new_pending i env.now a) s.pending_session_map;
            }))
  unfolding process_syn_packet
  server_receives_syn env a s i new found =
      let t = record s {
        pending_session_map = insert a (new_pending i env.now a) s.pending_session_map;
      } in
      ground (
        arith,
        process_packet-control_packet adler32 debug env a s syn_packet 0 (omega arith) refl,
        send_packet_lem adler32 syn_packet i a t,
      )

  -- The identifier comes back, and the session is there.
  server_receives_ack :
      (env : Env) (a : String) (s : KcpServer) (i : ℕ) (q : Server.KcpPendingSession)
      → find a s.pending_session_map ≡ some q
      → q.session_id ≡ i
      → contains i s.session_map ≡ false
      → env.initialize i a ≡ true
      → i < 2 ^ 32
      → Loop.process_packet adler32 debug env (received (control_packet adler32 ack_packet i)) a s
        ≡ some (Server.establish env i a s)
  unfolding process_ack_packet
  server_receives_ack env a s i q waits same free ready small =
      ground (arith, process_packet-control_packet adler32 debug env a s ack_packet i small refl)

  -- What both sides have after a handshake: the packets that each has sent, and the session.
  pub record Connects (a : String) (i : ℕ) (s s1 s2 : KcpServer) (c c1 : KcpClient) : Type 0 where
    pub offered : s1.effects ≡ s.effects ++ send_to (control_packet adler32 syn_packet i) a ∷ []
    pub acknowledged : c1.effects ≡ c.effects ++ write (control_packet adler32 ack_packet i) ∷ []
    pub client_session : c1.session ≡ some i
    pub client_state : c1.state ≡ connected
    pub server_session : find i s2.session_map ≡ some (record { session_id = i; peer_address = a })
    pub forgotten : find a s2.pending_session_map ≡ none

  -- The handshake: a server that does not know a client's address answers its SYN, the client takes
  -- the answer, the server takes the client's ACK, and both have the session, under one identifier.
  -- The client waits with a valid socket and no session, `GenerateSessionId` finds an identifier, not
  -- 0 and below 2^32, and `Initialize` succeeds on both sides.
  pub handshake :
      (env env' : Env) (client_env : ClientEnv) (a : String) (s : KcpServer) (c : KcpClient)
      (p : ClientPendingSession) (i : ℕ)
      → c.socket ≡ some true
      → c.session ≡ none
      → c.pending_session ≡ some p
      → find a s.pending_session_map ≡ none
      → generate_session_id env s ≡ some i
      → client_env.initialize i ≡ true
      → env'.initialize i a ≡ true
      → 0 < i
      → i < 2 ^ 32
      → (s1 : KcpServer) × (c1 : KcpClient) × (s2 : KcpServer) × (Loop.process_packet adler32 debug
            env
            (received (control_packet adler32 syn_packet 0))
            a
            s
          ≡ some s1)
        × (process_packet adler32 debug client_env
              (received (control_packet adler32 syn_packet i))
              c
            ≡ some c1)
        × (Loop.process_packet adler32 debug env'
              (received (control_packet adler32 ack_packet i))
              a
              s1
            ≡ some s2)
        × Connects a i s s1 s2 c c1
  unfolding establish Server.establish insert contains
  handshake env env' client_env a s c p i e gone waits new found ready ready' named small =
      let s1 = Server.perform (send_to (control_packet adler32 syn_packet i) a) (record s {
        pending_session_map = insert a (new_pending i env.now a) s.pending_session_map;
      }) in
      let q = new_pending i env.now a in
      let free = (generate_session_id-IsFree env s i found).0 in
      let listed : find a s1.pending_session_map ≡ some q =
        ground (arith, find-insert a a q s.pending_session_map, string_eq.beq_iff a a) in
      (
        s1,
        perform (write (control_packet adler32 ack_packet i)) (establish client_env i c),
        Server.establish env' i a s1,
        server_receives_syn env a s i new found,
        client_receives_syn client_env c p i e gone waits ready named small,
        server_receives_ack env' a s1 i q listed refl free ready' small,
        record {
          offered = refl;
          acknowledged = refl;
          client_session = refl;
          client_state = refl;
          server_session = ground (
            arith,
            free,
            find-insert i i (record { session_id = i; peer_address = a }) s.session_map,
          );
          forgotten = ground (arith, find-erase a a s1.pending_session_map, string_eq.beq_iff a a);
        },
      )
