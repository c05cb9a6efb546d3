-- ===== src/Socket/Random.antt =====
-- kcp/urandom.h: `RandBytes`. The calls of `read` on /dev/urandom, with their HANDLE_EINTR, are a
-- parameter: the call by its number and the number of bytes that it asks for.
use cpp_code_blocks.Prelude.{
  ℕ, zero, suc, ◌-◌, ◌≤◌, ◌<◌, ◌≡◌, ◌∙◌, refl, ◌↔◌, inl, inr, Bool, true, List, [], ◌∷◌, ◌++◌,
  Option, none, some, ltb, ◌==◌, if◌then◌else◌, length, length-append, arith, ltb→lt, Bool-cases,
  chosen, passed_over,
}

-- `none` is an error.
abbrev pub Reads : Type 0
Reads = (call asked : ℕ) → Option (List ℕ)

-- A result `none` is the end of the fuel; else what `RandBytes` returns, and the bytes in the buffer.
abbrev pub by_read :
    (List ℕ → Option (Bool × List ℕ))
    → (bytes : ℕ) → List ℕ
    → Option (List ℕ)
    → Option (Bool × List ℕ)
by_read again bytes buf none = some (length buf == bytes, buf)
by_read again bytes buf (some []) = some (length buf == bytes, buf)
by_read again bytes buf (some (x ∷ xs)) = again (buf ++ x ∷ xs)

unfoldable pub read_loop : Reads → (fuel call bytes : ℕ) → List ℕ → Option (Bool × List ℕ)
read_loop reads zero call bytes buf = none
read_loop reads (suc fuel) call bytes buf =
    let asked = bytes - length buf in
    let next = by_read (read_loop reads fuel (suc call) bytes) bytes buf (reads call asked) in
    if ltb (length buf) bytes then next else some (length buf == bytes, buf)

-- Each call that goes on has read a byte.
unfoldable pub rand_bytes : Reads → (bytes : ℕ) → Option (Bool × List ℕ)
unfolding read_loop
rand_bytes reads bytes = read_loop reads (suc bytes) 0 bytes []

-- `read` gives no more than it was asked for.
abbrev pub IsBounded : Reads → Type 0
IsBounded reads = (call asked : ℕ) (xs : List ℕ) → reads call asked ≡ some xs → length xs ≤ asked

pub record IsFilled (bytes : ℕ) (result : Option (Bool × List ℕ)) : Type 0 where
  pub ok : Bool
  pub buf : List ℕ
  pub ends : result ≡ some (ok, buf)
  pub within : length buf ≤ bytes
  pub full : (ok ≡ true) ↔ (length buf ≡ bytes)

module _ (reads : Reads) (bounded : IsBounded reads) where
  stops :
      (bytes : ℕ) (buf : List ℕ)
      → length buf ≤ bytes
      → IsFilled bytes (some (length buf == bytes, buf))
  stops bytes buf h = record {
    ok = length buf == bytes;
    buf = buf;
    ends = refl;
    within = h;
    full = ground arith;
  }

  by_read-IsFilled :
      (again : List ℕ → Option (Bool × List ℕ)) (bytes call : ℕ) (buf : List ℕ)
      (o : Option (List ℕ))
      → reads call (bytes - length buf) ≡ o
      → length buf < bytes
      → ((buf' : List ℕ)
          → length buf < length buf'
          → length buf' ≤ bytes
          → IsFilled bytes (again buf'))
      → IsFilled bytes (by_read again bytes buf o)
  by_read-IsFilled again bytes call buf none e h next = stops bytes buf (omega arith)
  by_read-IsFilled again bytes call buf (some []) e h next = stops bytes buf (omega arith)
  by_read-IsFilled again bytes call buf (some (x ∷ xs)) e h next =
      let few = bounded call (bytes - length buf) (x ∷ xs) e in
      next (buf ++ x ∷ xs) (omega (arith, length-append buf (x ∷ xs)))
        (omega (arith, h, few, length-append buf (x ∷ xs)))

  read_loop-IsFilled :
      (fuel call bytes : ℕ) (buf : List ℕ)
      → length buf ≤ bytes
      → bytes - length buf < fuel
      → IsFilled bytes (read_loop reads fuel call bytes buf)
  unfolding read_loop
  read_loop-IsFilled zero call bytes buf h enough = absurd (omega (arith, enough))
  read_loop-IsFilled (suc fuel) call bytes buf h enough =
      let next =
        by_read (read_loop reads fuel (suc call) bytes) bytes buf
          (reads call (bytes - length buf)) in
      elim (Bool-cases (ltb (length buf) bytes)) [
        | inl room ↦
            let read =
              by_read-IsFilled (read_loop reads fuel (suc call) bytes) bytes call buf _ refl
                (ltb→lt _ _ room)
                (λ buf' more fits.
                  read_loop-IsFilled fuel (suc call) bytes buf' fits
                    (omega (arith, more, enough))) in
            record {
              ok = read.ok;
              buf = read.buf;
              ends = chosen (ltb (length buf) bytes) _ _ room ∙ read.ends;
              within = read.within;
              full = read.full;
            }
        | inr full ↦
            let stopped = stops bytes buf h in
            record {
              ok = stopped.ok;
              buf = stopped.buf;
              ends = passed_over (ltb (length buf) bytes) _ _ full ∙ stopped.ends;
              within = stopped.within;
              full = stopped.full;
            }
      ]

  -- If `read` gives no more bytes than it was asked for, `RandBytes` ends, whatever comes short or fails:
  -- it has written at most the bytes asked for, and returns true just if it has written them all.
  pub rand_bytes-IsFilled : (bytes : ℕ) → IsFilled bytes (rand_bytes reads bytes)
  unfolding rand_bytes
  rand_bytes-IsFilled bytes = read_loop-IsFilled (suc bytes) 0 bytes [] (omega arith) (omega arith)
