-- ===== src/Server/Handshake.antt =====
-- kcp/kcp_server.cc and kcp/kcp_client.cc: the packets of the handshake, from one side to the other.
use Prim.Native.String.{String}
use cpp_code_blocks.Prelude.{ℕ, ◌^◌, ◌<◌, ◌≡◌, Bool, true, List, [], some, ltb, ◌==◌, arith}
use cpp_code_blocks.Prelude.Maps.{nat_eq, string_eq}
use cpp_code_blocks.Packet.Control.{control_packet, length-control_packet, control_packet-IsReadAs}
use cpp_code_blocks.Packet.Defs.{
  PacketType, type_code, syn_packet, ack_packet, rst_packet, ping_packet, pong_packet, data_packet,
  received,
}
use cpp_code_blocks.Server.Defs.{
  KcpServer, Env, process_syn_packet, process_ack_packet, process_rst_packet, process_ping_packet,
  process_data_packet,
}
use cpp_code_blocks.Server.Loop.{dispatch, process_packet, asserted}

-- What the assertions ask of the identifier of a session.
abbrev pub is_allowed : PacketType → ℕ → Bool
is_allowed syn_packet i = i == 0
is_allowed ping_packet i = ltb 0 i
is_allowed _ i = true

module _ (adler32 : List ℕ → ℕ) (debug : Bool) (env : Env) (a : String) (s : KcpServer) where
  -- The handler of a packet that is a header alone.
  abbrev pub handled : PacketType → ℕ → KcpServer
  handled syn_packet i = process_syn_packet adler32 env a s
  handled ack_packet i = process_ack_packet adler32 env i a s
  handled rst_packet i = process_rst_packet adler32 env i a s
  handled ping_packet i = process_ping_packet adler32 env i a s
  handled pong_packet i = s
  handled data_packet i = process_data_packet adler32 env i [] a s

  -- A packet of a header alone reaches the handler of its type with the identifier that it was
  -- written with, and no assertion fails: the identifier fits its four bytes, is 0 in a SYN and is
  -- not 0 in a PING.
  pub process_packet-control_packet :
      (t : PacketType) (i : ℕ)
      → i < 2 ^ 32
      → is_allowed t i ≡ true
      → process_packet adler32 debug env (received (control_packet adler32 t i)) a s
        ≡ some (handled t i)
  unfolding process_packet dispatch asserted type_code
  process_packet-control_packet t i small allowed =
      let back = control_packet-IsReadAs adler32 t i small in
      ground (
        arith,
        back.code,
        back.read_type,
        back.read_session,
        back.nothing_left,
        back.all_read,
        length-control_packet adler32 t i,
      )
