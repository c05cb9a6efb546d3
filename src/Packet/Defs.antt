-- ===== src/Packet/Defs.antt =====
-- kcp/kcp_packets.{h,cc}. A buffer is the list of its bytes, and its length that of the list.
use cpp_code_blocks.Prelude.{
  ℕ, ◌+◌, ◌-◌, ◌%◌, ◌^◌, Bool, List, ◌++◌, Option, none, some, leb, ltb, ◌==◌, if◌then◌else◌,
  length, take, drop,
}
use cpp_code_blocks.Packet.Bytes.{le_bytes, le_value}

-- KCPReceivedPacketType
pub data PacketType : Type 0 where
  syn_packet ack_packet rst_packet ping_packet pong_packet data_packet : PacketType

-- The value of the enumerator, an uint8_t.
unfoldable pub type_code : PacketType → ℕ
type_code syn_packet = 0
type_code ack_packet = 1
type_code rst_packet = 2
type_code ping_packet = 3
type_code pong_packet = 4
type_code data_packet = 5

pub record KcpPublicHeader : Type 0 where
  pub checksum : ℕ
  pub packet_type : ℕ
  pub session_id : ℕ

abbrev pub empty_header : KcpPublicHeader
empty_header = record { checksum = 0; packet_type = 0; session_id = 0 }

-- 4 + 1 + 4
abbrev pub public_header_length : ℕ
public_header_length = 9

-- `none` where the function returns false; the header is then as it was.
unfoldable pub read_from : List ℕ → Option KcpPublicHeader
unfolding le_value
read_from buf =
    if ltb (length buf) public_header_length
    then none
    else some (record {
      checksum = le_value (take 4 buf);
      packet_type = le_value (take 1 (drop 4 buf));
      session_id = le_value (take 4 (drop 5 buf));
    })

-- The buffer after the call; `none` where the function returns false, and writes nothing.
unfoldable pub write_to : KcpPublicHeader → List ℕ → Option (List ℕ)
unfolding le_bytes
write_to header buf =
    if ltb (length buf) public_header_length
    then none
    else some (
        le_bytes 4 header.checksum
        ++ (le_bytes 1 header.packet_type ++ (le_bytes 4 header.session_id ++ drop 9 buf)))

unfoldable pub write_checksum : KcpPublicHeader → List ℕ → Option (List ℕ)
unfolding le_bytes
write_checksum header buf =
    if ltb (length buf) 4 then none else some (le_bytes 4 header.checksum ++ drop 4 buf)

-- KCPReceivedPacket: the bytes and the position of the next read.
pub record KcpReceivedPacket : Type 0 where
  pub bytes : List ℕ
  pub pos : ℕ

abbrev pub received : List ℕ → KcpReceivedPacket
received bytes = record { bytes = bytes; pos = 0 }

-- Subtraction of two `size_t`.
abbrev pub sub_size : ℕ → ℕ → ℕ
sub_size a b = (a + 2 ^ 64 - b) % 2 ^ 64

unfoldable pub remaining_bytes : KcpReceivedPacket → ℕ
remaining_bytes packet = sub_size (length packet.bytes) packet.pos

abbrev pub remaining_data : KcpReceivedPacket → List ℕ
remaining_data packet = drop packet.pos packet.bytes

-- The packet that another thread is given.
abbrev pub clone_from_remaining_data : KcpReceivedPacket → KcpReceivedPacket
clone_from_remaining_data packet = received (remaining_data packet)

unfoldable pub can_read : KcpReceivedPacket → ℕ → Bool
can_read packet n = leb n (sub_size (length packet.bytes) packet.pos)

-- `memcpy` from the position on.
unfoldable pub peek_bytes : KcpReceivedPacket → ℕ → Option (List ℕ)
unfolding can_read
peek_bytes packet n =
    if can_read packet n then some (take n (drop packet.pos packet.bytes)) else none

unfoldable pub read_bytes : KcpReceivedPacket → ℕ → KcpReceivedPacket × Option (List ℕ)
unfolding can_read
read_bytes packet n =
    if can_read packet n
    then (record packet { pos = packet.pos + n }, some (take n (drop packet.pos packet.bytes)))
    else (packet, none)

abbrev as_number : Option (List ℕ) → Option ℕ
as_number none = none
as_number (some bytes) = some (le_value bytes)

-- ReadUInt8, ReadUInt16, ReadUInt32 and ReadUInt64, by the width in bytes.
unfoldable pub read_uint : ℕ → KcpReceivedPacket → KcpReceivedPacket × Option ℕ
unfolding read_bytes le_value
read_uint width packet =
    let (packet', result) = read_bytes packet width in (packet', as_number result)

-- PeekUInt8, PeekUInt16, PeekUInt32 and PeekUInt64.
unfoldable pub peek_uint : ℕ → KcpReceivedPacket → Option ℕ
unfolding peek_bytes le_value
peek_uint width packet = as_number (peek_bytes packet width)

pub data ReadError : Type 0 where
  success invalid_length unable_read_checksum unable_read_packet_type : ReadError
  unable_read_session_id invalid_checksum : ReadError

pub record ReadResult : Type 0 where
  pub packet : KcpReceivedPacket
  pub header : KcpPublicHeader
  pub code : ReadError

pub data WriteError : Type 0 where
  written unable_write_public_header unable_write_checksum : WriteError

-- zlib's `adler32(1, data, length)`.
module _ (adler32 : List ℕ → ℕ) where
  -- `static_cast<uint32_t>(::adler32(1, data() + 4, length() - 4))`
  abbrev pub checksum_of : List ℕ → ℕ
  checksum_of bytes = adler32 (drop 4 bytes) % 2 ^ 32

  -- The tail of `ReadPublicHeader`, once the three numbers are read.
  unfoldable pub check_header : KcpReceivedPacket → KcpPublicHeader → ℕ → ℕ → ℕ → ReadResult
  check_header packet header checksum packet_type session_id =
      if checksum == checksum_of packet.bytes
      then record {
        packet = packet;
        header = record { checksum = checksum; packet_type = packet_type; session_id = session_id };
        code = success;
      }
      else record { packet = packet; header = header; code = invalid_checksum }

  abbrev failed_read : KcpReceivedPacket → KcpPublicHeader → ReadError → ReadResult
  failed_read packet header code = record { packet = packet; header = header; code = code }

  abbrev read_session_id : KcpPublicHeader → ℕ → ℕ → KcpReceivedPacket × Option ℕ → ReadResult
  read_session_id header checksum packet_type (packet, none) =
      failed_read packet header unable_read_session_id
  read_session_id header checksum packet_type (packet, some session_id) =
      check_header packet header checksum packet_type session_id

  abbrev read_packet_type : KcpPublicHeader → ℕ → KcpReceivedPacket × Option ℕ → ReadResult
  read_packet_type header checksum (packet, none) =
      failed_read packet header unable_read_packet_type
  read_packet_type header checksum (packet, some packet_type) =
      read_session_id header checksum packet_type (read_uint 4 packet)

  abbrev read_checksum : KcpPublicHeader → KcpReceivedPacket × Option ℕ → ReadResult
  read_checksum header (packet, none) = failed_read packet header unable_read_checksum
  read_checksum header (packet, some checksum) =
      read_packet_type header checksum (read_uint 1 packet)

  unfoldable pub read_public_header : KcpReceivedPacket → KcpPublicHeader → ReadResult
  unfolding can_read read_uint check_header
  read_public_header packet header =
      if can_read packet public_header_length
      then read_checksum header (read_uint 4 packet)
      else failed_read packet header invalid_length

  abbrev finish_header : KcpPublicHeader → List ℕ → Option (List ℕ) → List ℕ × WriteError
  finish_header header before none = (before, unable_write_checksum)
  finish_header header before (some bytes) = (bytes, written)

  abbrev fill_checksum : KcpPublicHeader → List ℕ → Option (List ℕ) → List ℕ × WriteError
  fill_checksum header before none = (before, unable_write_public_header)
  fill_checksum header before (some bytes) =
      finish_header header bytes
        (write_checksum (record header { checksum = checksum_of bytes }) bytes)

  -- KCPPendingSendPacket::WritePublicHeader on the bytes of the packet.
  unfoldable pub write_public_header : List ℕ → ℕ → ℕ → List ℕ × WriteError
  unfolding write_to write_checksum
  write_public_header bytes packet_type session_id =
      let header : KcpPublicHeader = record {
        checksum = 0;
        packet_type = packet_type;
        session_id = session_id;
      } in
      fill_checksum header bytes (write_to header bytes)
