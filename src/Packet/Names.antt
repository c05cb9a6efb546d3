-- ===== src/Packet/Names.antt =====
-- kcp/kcp_packets.cc: the names of packet types and error codes for the log.
use Prim.Native.String.{String}
use cpp_code_blocks.Prelude.{ℕ, ◌≡◌, ◌↔◌, refl, ◌==◌, if◌then◌else◌}
use cpp_code_blocks.Packet.Defs.{
  PacketType, syn_packet, ack_packet, rst_packet, ping_packet, pong_packet, data_packet, type_code,
}

unfoldable pub packet_type_to_string : ℕ → String
packet_type_to_string packet_type =
    if packet_type == 0
    then "SYN_PACKET"
    else if packet_type == 1
    then "ACK_PACKET"
    else if packet_type == 2
    then "RST_PACKET"
    else if packet_type == 3
    then "PING_PACKET"
    else if packet_type == 5
    then "DATA_PACKET"
    else "UNKNOW"

-- Of the six packet types exactly PONG_PACKET is printed as an unknown one.
pub unnamed_packet_type :
    (t : PacketType) → (packet_type_to_string (type_code t) ≡ "UNKNOW") ↔ (t ≡ pong_packet)
unfolding packet_type_to_string type_code
unnamed_packet_type syn_packet = (λ h. cc, λ h. cc)
unnamed_packet_type ack_packet = (λ h. cc, λ h. cc)
unnamed_packet_type rst_packet = (λ h. cc, λ h. cc)
unnamed_packet_type ping_packet = (λ h. cc, λ h. cc)
unnamed_packet_type pong_packet = (λ h. refl, λ h. refl)
unnamed_packet_type data_packet = (λ h. cc, λ h. cc)
