-- ===== src/Packet/Control.antt =====
-- A packet that is a header alone, as the handshake, the pings and the resets send it.
use cpp_code_blocks.Prelude.{ℕ, ◌^◌, ◌<◌, ◌≡◌, refl, List, [], ◌∷◌, length, drop, arith}
use cpp_code_blocks.Packet.Defs.{
  PacketType, type_code, received, empty_header, success, read_public_header, write_public_header,
  remaining_bytes,
}
use cpp_code_blocks.Packet.RoundTrip.{read_public_header-write_public_header}

-- Nine bytes of the stack, which `WritePublicHeader` overwrites.
abbrev pub header_buffer : List ℕ
header_buffer = 0 ∷ 0 ∷ 0 ∷ 0 ∷ 0 ∷ 0 ∷ 0 ∷ 0 ∷ 0 ∷ []

module _ (adler32 : List ℕ → ℕ) where
  unfoldable pub control_packet : PacketType → ℕ → List ℕ
  unfolding write_public_header type_code
  control_packet t session_id =
      (write_public_header adler32 header_buffer (type_code t) session_id).0

  type_code-lt : (t : PacketType) → type_code t < 2 ^ 8
  unfolding type_code
  type_code-lt t = ground arith

  pub length-control_packet :
      (t : PacketType) (session_id : ℕ) → length (control_packet t session_id) ≡ 9
  unfolding control_packet
  length-control_packet t session_id = refl

  pub record IsReadAs (bytes : List ℕ) (t : PacketType) (session_id : ℕ) : Type 0 where
    pub code : (read_public_header adler32 (received bytes) empty_header).code ≡ success
    pub read_type :
        (read_public_header adler32 (received bytes) empty_header).header.packet_type ≡ type_code t
    pub read_session :
        (read_public_header adler32 (received bytes) empty_header).header.session_id ≡ session_id
    pub nothing_left :
        let packet = (read_public_header adler32 (received bytes) empty_header).packet in
        drop packet.pos packet.bytes ≡ []
    pub all_read :
        remaining_bytes (read_public_header adler32 (received bytes) empty_header).packet ≡ 0

  -- A packet of a header alone, its identifier below 2^32, is read back with its type and identifier,
  -- to its end.
  pub control_packet-IsReadAs :
      (t : PacketType) (session_id : ℕ)
      → session_id < 2 ^ 32
      → IsReadAs (control_packet t session_id) t session_id
  control_packet-IsReadAs t session_id h =
      let back =
        read_public_header-write_public_header adler32 header_buffer (type_code t) session_id
          empty_header (omega arith) (omega arith) (type_code-lt t) h in
      unfold control_packet in
      record {
        code = back.1;
        read_type = back.2;
        read_session = back.3;
        nothing_left = back.4;
        all_read = unfold remaining_bytes in rw (back.5, back.6) (ground arith);
      }
