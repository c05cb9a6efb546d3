-- ===== src/Tests/PacketTests.antt =====
-- Packets: a header written and read at concrete bytes.
use cpp_code_blocks.Prelude.{ℕ, ◌≡◌, List, [], ◌∷◌, drop, arith}
use cpp_code_blocks.Packet.Defs.{
  KcpPublicHeader, received, empty_header, read_public_header, write_public_header, success,
  written,
}
use cpp_code_blocks.Packet.Reading.{IsValid}
use cpp_code_blocks.Packet.RoundTrip.{IsWord, read_public_header-write_public_header}
use cpp_code_blocks.Tests.{adler32}

-- A data packet's buffer: nine bytes for the header, and three of data.
abbrev data_buffer : List ℕ
data_buffer = 0 ∷ 0 ∷ 0 ∷ 0 ∷ 0 ∷ 0 ∷ 0 ∷ 0 ∷ 0 ∷ 7 ∷ 8 ∷ 9 ∷ []

abbrev data_header : KcpPublicHeader
data_header = record { checksum = 305_419_896; packet_type = 5; session_id = 4_000_000_000 }

data_header-IsWord : IsWord data_header
data_header-IsWord = record {
  checksum_fits = omega arith;
  type_fits = omega arith;
  session_fits = omega arith;
}

data_packet-IsValid : IsValid (received data_buffer)
data_packet-IsValid = record { within = omega arith; sized = omega arith }

read_public_header-write_public_header_example :
    let out = (write_public_header adler32 data_buffer 5 77).0 in
    let result = read_public_header adler32 (received out) empty_header in
    ((write_public_header adler32 data_buffer 5 77).1 ≡ written)
    × (result.code ≡ success)
    × (result.header.packet_type ≡ 5)
    × (result.header.session_id ≡ 77)
    × (drop result.packet.pos result.packet.bytes ≡ drop 9 data_buffer)
    × (result.packet.pos ≡ 9)
    × (result.packet.bytes ≡ out)
read_public_header-write_public_header_example =
    read_public_header-write_public_header adler32 data_buffer 5 77 empty_header (omega arith)
      (omega arith) (omega arith) (omega arith)
