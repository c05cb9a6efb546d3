-- ===== src/Packet/Reading.antt =====
-- The reads of a received packet stay within its bytes, and `ReadPublicHeader` is `ReadFrom` with a
-- check of the sum.
use cpp_code_blocks.Prelude.{
  ℕ, ◌+◌, ◌-◌, ◌^◌, ◌≤◌, ◌<◌, ◌≡◌, refl, true, false, List, Option, none, some, leb, ltb, ◌==◌,
  if◌then◌else◌, length, take, drop, arith, Bool-cases, inl, inr,
}
use cpp_code_blocks.Packet.Bytes.{le_value}
use cpp_code_blocks.Packet.Defs.{
  KcpPublicHeader, KcpReceivedPacket, received, can_read, read_uint, peek_uint, read_from,
  ReadResult, success, invalid_length, invalid_checksum, checksum_of, read_public_header,
  remaining_bytes, public_header_length,
}

-- The position is within the packet, whose length is a `size_t`.
pub record IsValid (packet : KcpReceivedPacket) : Type 0 where
  pub within : packet.pos ≤ length packet.bytes
  pub sized : length packet.bytes < 2 ^ 64

pub received-IsValid : (bytes : List ℕ) → length bytes < 2 ^ 64 → IsValid (received bytes)
received-IsValid bytes h = record { within = omega arith; sized = h }

pub remaining_bytes_lem :
    (packet : KcpReceivedPacket)
    → IsValid packet
    → remaining_bytes packet ≡ length packet.bytes - packet.pos
unfolding remaining_bytes
remaining_bytes_lem packet v = omega (arith, v.within, v.sized)

pub can_read_lem :
    (packet : KcpReceivedPacket) (n : ℕ)
    → IsValid packet
    → can_read packet n ≡ leb (packet.pos + n) (length packet.bytes)
unfolding can_read
can_read_lem packet n v =
    let e = remaining_bytes_lem packet v in
    unfold remaining_bytes in rw e (ground (arith, v.within))

-- A read of `width` bytes, on a valid packet: what remains decides whether it succeeds. A read that
-- fails leaves the packet as it was; one that succeeds moves the position over the bytes that it
-- returns. A peek returns the same and moves nothing.
pub read_uint_lem :
    (packet : KcpReceivedPacket) (width : ℕ)
    → IsValid packet
    → (read_uint width packet ≡ (
        if leb (packet.pos + width) (length packet.bytes)
        then (
          record packet { pos = packet.pos + width },
          some (le_value (take width (drop packet.pos packet.bytes))),
        )
        else (packet, none)))
      × (peek_uint width packet ≡ (read_uint width packet).1)
unfolding read_uint peek_uint
read_uint_lem packet width v = elim (Bool-cases (leb (packet.pos + width) (length packet.bytes))) [
  | inl fits ↦
      let can : can_read packet width ≡ true = ground (arith, can_read_lem packet width v) in
      rw (fits, can) (refl, refl)
  | inr short ↦
      let cannot : can_read packet width ≡ false = ground (arith, can_read_lem packet width v) in
      rw (short, cannot) (refl, refl)
]

-- Reading keeps a valid packet valid, its position within its bytes, and never touches the bytes.
pub read_uint-IsValid :
    (packet : KcpReceivedPacket) (width : ℕ)
    → IsValid packet
    → IsValid (read_uint width packet).0 × ((read_uint width packet).0.bytes ≡ packet.bytes)
read_uint-IsValid packet width v =
    elim (Bool-cases (leb (packet.pos + width) (length packet.bytes))) [
      | inl fits ↦
          rw ((read_uint_lem packet width v).0, fits)
            (record { within = ground arith; sized = v.sized }, refl)
      | inr short ↦ rw ((read_uint_lem packet width v).0, short) (v, refl)
    ]

module _ (adler32 : List ℕ → ℕ) where
  -- What `ReadPublicHeader` does on a packet just received, in terms of `ReadFrom`.
  unfoldable pub by_read_from : List ℕ → KcpPublicHeader → Option KcpPublicHeader → ReadResult
  by_read_from bytes header none = record {
    packet = received bytes;
    header = header;
    code = invalid_length;
  }
  by_read_from bytes header (some found) =
      if found.checksum == checksum_of adler32 bytes
      then record {
        packet = record { bytes = bytes; pos = public_header_length };
        header = found;
        code = success;
      }
      else record {
        packet = record { bytes = bytes; pos = public_header_length };
        header = header;
        code = invalid_checksum;
      }

  step_read :
      (bytes : List ℕ) (pos width : ℕ)
      → length bytes < 2 ^ 64
      → pos + width ≤ length bytes
      → read_uint width (record { bytes = bytes; pos = pos }) ≡ (
        record { bytes = bytes; pos = pos + width },
        some (le_value (take width (drop pos bytes))),
      )
  step_read bytes pos width sized fits = ground (
    arith,
    (read_uint_lem (record { bytes = bytes; pos = pos }) width
        (record { within = omega arith; sized = sized })).0,
  )

  -- On a packet just received, shorter than 2^64 bytes, `ReadPublicHeader` gives what `ReadFrom` gives and checks the sum:
  -- the header changes only on success, and no other error code is returned than INVALID_LENGTH
  -- and INVALID_CHECKSUM.
  pub read_public_header_lem :
      (bytes : List ℕ) (header : KcpPublicHeader)
      → length bytes < 2 ^ 64
      → read_public_header adler32 (received bytes) header
        ≡ by_read_from bytes header (read_from bytes)
  unfolding read_public_header read_from by_read_from
  read_public_header_lem bytes header sized = elim (Bool-cases (ltb (length bytes) 9)) [
    | inl short ↦
        let cannot : can_read (received bytes) 9 ≡ false =
          ground (arith, can_read_lem (received bytes) 9 (received-IsValid bytes sized)) in
        rw (short, cannot) refl
    | inr fits ↦
        let can : can_read (received bytes) 9 ≡ true =
          ground (arith, can_read_lem (received bytes) 9 (received-IsValid bytes sized)) in
        let enough : 9 ≤ length bytes = ground arith in
        rw
          (
            fits,
            can,
            step_read bytes 0 4 sized (omega arith),
            step_read bytes 4 1 sized (omega arith),
            step_read bytes 5 4 sized (omega arith),
          )
          refl
  ]
