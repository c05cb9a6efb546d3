-- ===== src/Wire/Delivered.antt =====
-- What one side's session hands out, the other side's session gets.
use Prim.Native.String.{String}
use cpp_code_blocks.Prelude.{
  ℕ, ◌^◌, ◌≤◌, ◌<◌, ◌≡◌, ◌∙◌, ap, sym, refl, Bool, true, List, [], ◌∷◌, ◌++◌, Option, none, some,
  ◌>>=◌, length, drop, length-drop, arith,
}
use cpp_code_blocks.Prelude.Maps.{contains, nat_eq}
use cpp_code_blocks.Packet.Bytes.{le_bytes}
use cpp_code_blocks.Packet.Defs.{
  WriteError, written, type_code, received, empty_header, success, read_public_header,
  remaining_data,
}
use cpp_code_blocks.Packet.RoundTrip.{
  write_public_header_lem, read_public_header-write_public_header,
}
use cpp_code_blocks.Server.Defs as Server
use cpp_code_blocks.Server.Loop as Loop
use cpp_code_blocks.Server.TxQueue.{
  ThreadData, IsQueue, append_packet, append_all, accepted, handed_over, append_all-handed_over,
}
use cpp_code_blocks.Client.Defs.{
  KcpClient, ClientEnv, process_packet_of, write, perform, process_data_packet,
}
use cpp_code_blocks.Client.Events.{asserted, dispatch, process_packet, handle_read}
use cpp_code_blocks.Wire.Output.{
  if_written, send_data_to_wire, data_packet_of, server_output, client_output,
}

then_nothing :
    (to_sock_addr : String → Bool) (r : Option ThreadData) → (r >>= append_all to_sock_addr []) ≡ r
unfolding append_all
then_nothing to_sock_addr none = refl
then_nothing to_sock_addr (some d) = refl

when_written :
    {S : Type 0} (send : List ℕ → S → Option S) (out : List ℕ × WriteError) (s : S)
    → out.1 ≡ written
    → if_written send out s ≡ send out.0 s
when_written send (packet, error) s e = ap (λ w. if_written send (packet, w) s) e

module _ (adler32 : List ℕ → ℕ) (raw : List ℕ) (i : ℕ) where
  -- Data with head room for the header, that fits a datagram, and an identifier that fits its bytes.
  pub record IsData : Type 0 where
    pub head_room : 9 ≤ length raw
    pub fits : length raw ≤ Server.max_packet_size
    pub small : i < 2 ^ 32

  abbrev pub packet : List ℕ
  packet = (data_packet_of adler32 raw i).0

  pub record IsBack : Type 0 where
    pub wrote : (data_packet_of adler32 raw i).1 ≡ written
    pub code : (read_public_header adler32 (received packet) empty_header).code ≡ success
    pub read_type :
        (read_public_header adler32 (received packet) empty_header).header.packet_type ≡ 5
    pub read_session :
        (read_public_header adler32 (received packet) empty_header).header.session_id ≡ i
    pub payload :
        remaining_data (read_public_header adler32 (received packet) empty_header).packet
        ≡ drop 9 raw
    pub size : length packet ≡ length raw

  raw-IsBack : IsData → IsBack
  unfolding data_packet_of type_code
  raw-IsBack d =
      let back =
        read_public_header-write_public_header adler32 raw 5 i empty_header d.head_room
          (omega (arith, d.fits)) (omega arith) d.small in
      record {
        wrote = back.0;
        code = back.1;
        read_type = back.2;
        read_session = back.3;
        payload = back.4;
        size =
            ap (λ r. length r.0) (write_public_header_lem adler32 raw 5 i d.head_room)
            ∙ (unfold le_bytes in omega (arith, length-drop 9 raw, d.head_room));
      }

  -- The client hands its session what is behind the header.
  abbrev pub handed_to : ClientEnv → ℕ → KcpClient → KcpClient
  handed_to env own c =
      perform (process_packet_of own (drop 9 raw)) (record c { last_received_time = env.now })

  client_handles :
      (debug : Bool) (env : ClientEnv) (own : ℕ) (c : KcpClient)
      → IsData
      → 0 < i
      → c.session ≡ some own
      → process_packet adler32 debug env (received packet) c ≡ some (handed_to env own c)
  unfolding process_packet dispatch process_data_packet asserted
  client_handles debug env own c d named there =
      let back = raw-IsBack d in
      ground (arith, named, there, back.code, back.read_type, back.read_session, back.payload)

  client_reads :
      (debug : Bool) (env : ClientEnv) (own : ℕ) (c : KcpClient)
      → IsData
      → 0 < i
      → c.socket ≡ some true
      → c.session ≡ some own
      → handle_read adler32 debug env (some packet) c ≡ some (handed_to env own c)
  unfolding handle_read
  client_reads debug env own c d named valid there =
      ground
        (arith, valid, (raw-IsBack d).size, d.fits, client_handles debug env own c d named there)

  -- The server hands the session of the identifier what is behind the header.
  abbrev pub handed_on : String → Server.KcpServer → Server.KcpServer
  handed_on address s = Server.perform (Server.process_packet_of i (drop 9 raw) address) s

  abbrev pub message : Server.Env → String → Loop.Message adler32
  message env address = record { env = env; bytes = packet; sender = some address }

  server_reads :
      (debug : Bool) (env : Server.Env) (address : String) (s : Server.KcpServer)
      → IsData
      → contains i s.session_map ≡ true
      → Loop.handle_message adler32 debug (message env address) s ≡ some (handed_on address s)
  unfolding Loop.handle_message Loop.process_packet Loop.dispatch Loop.asserted
      Server.process_data_packet
  server_reads debug env address s d there =
      let back = raw-IsBack d in
      ground (
        arith, there, back.code, back.read_type, back.read_session, back.payload, back.size, d.fits,
        d.head_room,
      )

  -- Data of a server's session, with head room for the header and within a datagram, to an address
  -- that can be used: the output callback puts one datagram behind those that the thread's queue has
  -- taken so far, the queue having room again; and a client with a session that reads this datagram
  -- hands its session exactly the data behind the head room. The identifier is not 0, and it fits four
  -- bytes.
  pub server_output-delivered :
      (to_sock_addr : String → Bool) (address : String) (q : ThreadData) (debug : Bool)
      (env : ClientEnv) (own : ℕ) (c : KcpClient)
      → IsData
      → 0 < i
      → to_sock_addr address ≡ true
      → IsQueue q
      → c.socket ≡ some true
      → c.session ≡ some own
      → (q' : ThreadData) × (server_output adler32 to_sock_addr raw i address q ≡ some q')
        × IsQueue q'
        × (handed_over q' ≡ handed_over q ++ (packet, address) ∷ [])
        × (handle_read adler32 debug env (some packet) c ≡ some (handed_to env own c))
  unfolding server_output append_all accepted
  server_output-delivered to_sock_addr address q debug env own c d named usable room valid there =
      let back = raw-IsBack d in
      let put = append_all-handed_over to_sock_addr ((packet, address) ∷ []) q room in
      let taken : accepted to_sock_addr ((packet, address) ∷ []) ≡ (packet, address) ∷ [] =
        ground (arith, back.size, d.fits, usable) in
      (
        put.0,
        when_written (λ p. append_packet to_sock_addr (p, address)) (data_packet_of adler32 raw i) q
              back.wrote
            ∙ sym (then_nothing to_sock_addr (append_packet to_sock_addr (packet, address) q))
            ∙ put.1,
        put.2,
        put.3 ∙ ap (λ l. handed_over q ++ l) taken,
        client_reads debug env own c d named valid there,
      )

  wire_write :
      (c : KcpClient)
      → c.socket ≡ some true
      → length packet ≤ Server.max_packet_size
      → send_data_to_wire packet c ≡ some (perform (write packet) c)
  unfolding send_data_to_wire
  wire_write c valid small = ground (arith, valid, small)

  -- Data of a client's session, with head room for the header and within a datagram, on a valid socket:
  -- the output callback writes one datagram to the socket; and a server that has the session and takes
  -- this datagram from whatever address hands the session exactly the data behind the head room, with
  -- that address. The identifier fits four bytes.
  pub client_output-delivered :
      (c : KcpClient) (debug : Bool) (env : Server.Env) (address : String) (s : Server.KcpServer)
      → IsData
      → c.socket ≡ some true
      → contains i s.session_map ≡ true
      → (client_output adler32 raw i c ≡ some (perform (write packet) c))
        × (Loop.handle_message adler32 debug (message env address) s ≡ some (handed_on address s))
  unfolding client_output
  client_output-delivered c debug env address s d valid there =
      let back = raw-IsBack d in
      (
        when_written send_data_to_wire (data_packet_of adler32 raw i) c back.wrote
            ∙ wire_write c valid (omega (arith, back.size, d.fits)),
        server_reads debug env address s d there,
      )
