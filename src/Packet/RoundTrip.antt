-- ===== src/Packet/RoundTrip.antt =====
-- A header that is written is read back: `WriteTo` and `ReadFrom`, `WritePublicHeader` and
-- `ReadPublicHeader`.
use cpp_code_blocks.Prelude.{
  ap, ◌∙◌, ℕ, ◌%◌, ◌^◌, ◌≤◌, ◌<◌, ◌≡◌, refl, false, List, ◌++◌, some, ltb, length, drop,
  length-drop, arith,
}
use cpp_code_blocks.Packet.Bytes.{le_bytes, le_value, le_value-le_bytes}
use cpp_code_blocks.Packet.Defs.{
  KcpPublicHeader, received, read_from, write_to, success, checksum_of, read_public_header,
  write_public_header, written,
}
use cpp_code_blocks.Packet.Reading.{by_read_from, read_public_header_lem}

-- A header and what follows it.
abbrev layout : KcpPublicHeader → List ℕ → List ℕ
layout header rest =
    le_bytes 4 header.checksum
    ++ (le_bytes 1 header.packet_type ++ (le_bytes 4 header.session_id ++ rest))

-- The fields fit their types: uint32_t, uint8_t, uint32_t.
pub record IsWord (header : KcpPublicHeader) : Type 0 where
  pub checksum_fits : header.checksum < 2 ^ 32
  pub type_fits : header.packet_type < 2 ^ 8
  pub session_fits : header.session_id < 2 ^ 32

word_back : (v : ℕ) → v < 2 ^ 32 → le_value (le_bytes 4 v) ≡ v
word_back v h = le_value-le_bytes 4 v h

byte_back : (v : ℕ) → v < 2 ^ 8 → le_value (le_bytes 1 v) ≡ v
byte_back v h = le_value-le_bytes 1 v h

read_from-layout :
    (header : KcpPublicHeader) (rest : List ℕ)
    → IsWord header
    → read_from (layout header rest) ≡ some header
unfolding read_from le_bytes
read_from-layout header rest w =
    rw
      (
        word_back header.checksum w.checksum_fits,
        byte_back header.packet_type w.type_fits,
        word_back header.session_id w.session_fits,
      )
      (ground arith)

-- `WriteTo` fails only on a buffer that is too short. Otherwise it fills the first nine bytes, keeps
-- the others, and `ReadFrom` gives the header back.
pub read_from-write_to :
    (header : KcpPublicHeader) (buf : List ℕ)
    → IsWord header
    → 9 ≤ length buf
    → (out : List ℕ) × (write_to header buf ≡ some out)
      × (length out ≡ length buf)
      × (drop 9 out ≡ drop 9 buf)
      × (read_from out ≡ some header)
unfolding write_to
read_from-write_to header buf w h = (
  layout header (drop 9 buf),
  ground arith,
  unfold le_bytes in omega (arith, length-drop 9 buf),
  unfold le_bytes in refl,
  read_from-layout header (drop 9 buf) w,
)

module _ (adler32 : List ℕ → ℕ) where
  -- The header that `WritePublicHeader` leaves in front of `rest`.
  abbrev pub sealed : ℕ → ℕ → List ℕ → KcpPublicHeader
  sealed packet_type session_id rest = record {
    checksum = adler32 (le_bytes 1 packet_type ++ (le_bytes 4 session_id ++ rest)) % 2 ^ 32;
    packet_type = packet_type;
    session_id = session_id;
  }

  pub write_public_header_lem :
      (bytes : List ℕ) (packet_type session_id : ℕ)
      → 9 ≤ length bytes
      → write_public_header adler32 bytes packet_type session_id
        ≡ (layout (sealed packet_type session_id (drop 9 bytes)) (drop 9 bytes), written)
  unfolding write_public_header le_bytes
  write_public_header_lem bytes packet_type session_id h =
      let long : ltb (length bytes) 9 ≡ false = ground arith in rw long (ground arith)

  pub read_from-write_public_header :
      (bytes : List ℕ) (packet_type session_id : ℕ)
      → 9 ≤ length bytes
      → packet_type < 2 ^ 8
      → session_id < 2 ^ 32
      → read_from (write_public_header adler32 bytes packet_type session_id).0
        ≡ some (sealed packet_type session_id (drop 9 bytes))
  read_from-write_public_header bytes packet_type session_id h ht hs =
      let header = sealed packet_type session_id (drop 9 bytes) in
      let fits : IsWord header = record {
        checksum_fits = omega arith;
        type_fits = ht;
        session_fits = hs;
      } in
      ap (λ r. read_from r.0) (write_public_header_lem bytes packet_type session_id h)
      ∙ read_from-layout header (drop 9 bytes) fits

  sealed-checksum :
      (packet_type session_id : ℕ) (rest : List ℕ)
      → checksum_of adler32 (layout (sealed packet_type session_id rest) rest)
        ≡ (sealed packet_type session_id rest).checksum
  unfolding le_bytes
  sealed-checksum packet_type session_id rest = refl

  by_read_from-sealed :
      (packet_type session_id : ℕ) (rest : List ℕ) (header : KcpPublicHeader)
      → by_read_from adler32
          (layout (sealed packet_type session_id rest) rest)
          header
          (some (sealed packet_type session_id rest))
        ≡ record {
          packet = record { bytes = layout (sealed packet_type session_id rest) rest; pos = 9 };
          header = sealed packet_type session_id rest;
          code = success;
        }
  unfolding by_read_from
  by_read_from-sealed packet_type session_id rest header =
      rw (sealed-checksum packet_type session_id rest) (ground arith)

  -- What `WritePublicHeader` has written, `ReadPublicHeader` accepts: it succeeds with the packet
  -- type and the session id that were given, and leaves the bytes behind the header to be read. The
  -- buffer has room for the header and fewer than 2^64 bytes, and both numbers fit their fields.
  pub read_public_header-write_public_header :
      (bytes : List ℕ) (packet_type session_id : ℕ) (header : KcpPublicHeader)
      → 9 ≤ length bytes
      → length bytes < 2 ^ 64
      → packet_type < 2 ^ 8
      → session_id < 2 ^ 32
      → let out = (write_public_header adler32 bytes packet_type session_id).0 in
        let result = read_public_header adler32 (received out) header in
        ((write_public_header adler32 bytes packet_type session_id).1 ≡ written)
        × (result.code ≡ success)
        × (result.header.packet_type ≡ packet_type)
        × (result.header.session_id ≡ session_id)
        × (drop result.packet.pos result.packet.bytes ≡ drop 9 bytes)
        × (result.packet.pos ≡ 9)
        × (result.packet.bytes ≡ out)
  read_public_header-write_public_header bytes packet_type session_id header h sized ht hs =
      let rest = drop 9 bytes in
      let out = layout (sealed packet_type session_id rest) rest in
      let found : read_from out ≡ some (sealed packet_type session_id rest) =
        read_from-layout (sealed packet_type session_id rest) rest
          (record { checksum_fits = omega arith; type_fits = ht; session_fits = hs }) in
      rw
        (
          write_public_header_lem bytes packet_type session_id h,
          read_public_header_lem adler32 out header
              (unfold le_bytes in omega (arith, length-drop 9 bytes)),
          found,
          by_read_from-sealed packet_type session_id rest header,
        )
        (refl, refl, refl, refl, unfold le_bytes in refl, refl, refl)
