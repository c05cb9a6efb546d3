-- ===== src/Relay/Request.antt =====
-- tcprelay/tunnel.h: `ServerConnMeta` and `ParseRequest`. The buffers of muduo are a parameter.
use cpp_code_blocks.Prelude.{
  ℕ, zero, suc, ◌+◌, ◌*◌, ◌≡◌, Bool, true, false, List, ◌∷◌, ◌++◌, Option, none, some, ltb, ◌==◌,
  if◌then◌else◌, ◌>>=◌, length,
}

-- A read is `none` where the assertion of the buffer fails, since it has too few bytes. `read_int8`
-- and `read_int16` give the number that the casts to `uint8_t` and `uint16_t` make.
pub record Buffers : Type 1 where
  pub Buffer : Type 0
  pub readable_bytes : Buffer → ℕ
  pub read_int8 : Buffer → Option (ℕ × Buffer)
  pub read_int16 : Buffer → Option (ℕ × Buffer)
  pub retrieve_as_string : ℕ → Buffer → Option (List ℕ × Buffer)

-- Reads take the front of the readable bytes; `read_int16` is in the order of the network.
pub record BufferLaws (buffers : Buffers) : Type 0 where
  pub contents : buffers.Buffer → List ℕ
  pub counts : (b : buffers.Buffer) → buffers.readable_bytes b ≡ length (contents b)
  pub reads_int8 :
      (b : buffers.Buffer) (x : ℕ) (xs : List ℕ)
      → contents b ≡ x ∷ xs
      → (b' : buffers.Buffer) × (buffers.read_int8 b ≡ some (x, b')) × (contents b' ≡ xs)
  pub reads_int16 :
      (b : buffers.Buffer) (x y : ℕ) (xs : List ℕ)
      → contents b ≡ x ∷ y ∷ xs
      → (b' : buffers.Buffer) × (buffers.read_int16 b ≡ some (x * 256 + y, b')) × (contents b' ≡ xs)
  pub retrieves :
      (b : buffers.Buffer) (xs ys : List ℕ)
      → contents b ≡ xs ++ ys
      → (b' : buffers.Buffer) × (buffers.retrieve_as_string (length xs) b ≡ some (xs, b'))
        × (contents b' ≡ ys)

pub data ReqState : Type 0 where
  req_addr_type : ReqState
  req_dst_addr_varlen : ReqState
  req_dst_addr : ReqState
  req_dst_port : ReqState
  req_done : ReqState

abbrev pub addr_type_ipv4 : ℕ
addr_type_ipv4 = 1

abbrev pub addr_type_host : ℕ
addr_type_host = 3

abbrev pub addr_type_ipv6 : ℕ
addr_type_ipv6 = 4

module _ (buffers : Buffers) where
  pub record ServerConnMeta : Type 0 where
    pub state : ReqState
    pub buf : buffers.Buffer
    pub dst_hostname : List ℕ
    pub dst_addr_len : ℕ
    pub dst_port : ℕ

  -- A turn of the loop: it returns, or goes on with `need_bytes`.
  pub data Turn : Type 0 where
    returns : Bool → ServerConnMeta → Turn
    goes_on : (need_bytes : ℕ) → ServerConnMeta → Turn

  abbrev pub read_addr_type : ℕ → ServerConnMeta → ℕ × buffers.Buffer → Turn
  read_addr_type need_bytes m (addr_type, b) =
      if addr_type == addr_type_host
      then Turn.goes_on need_bytes (record m { buf = b; state = req_dst_addr_varlen })
      else if addr_type == addr_type_ipv4
      then Turn.returns false (record m { buf = b })
      else if addr_type == addr_type_ipv6
      then Turn.returns false (record m { buf = b })
      else Turn.goes_on need_bytes (record m { buf = b })

  abbrev pub read_addr_len : ServerConnMeta → ℕ × buffers.Buffer → Turn
  read_addr_len m (addr_len, b) =
      Turn.goes_on addr_len (record m { buf = b; dst_addr_len = addr_len; state = req_dst_addr })

  abbrev pub read_hostname : ServerConnMeta → List ℕ × buffers.Buffer → Turn
  read_hostname m (hostname, b) =
      Turn.goes_on 2 (record m { buf = b; dst_hostname = hostname; state = req_dst_port })

  abbrev pub read_port : ServerConnMeta → ℕ × buffers.Buffer → Turn
  read_port m (port, b) =
      Turn.returns true (record m { buf = b; dst_port = port; state = req_done })

  abbrev pub by_state : ReqState → ℕ → ServerConnMeta → Option Turn
  by_state req_addr_type need_bytes m =
      buffers.read_int8 m.buf >>= λ r. some (read_addr_type need_bytes m r)
  by_state req_dst_addr_varlen need_bytes m =
      buffers.read_int8 m.buf >>= λ r. some (read_addr_len m r)
  by_state req_dst_addr need_bytes m =
      buffers.retrieve_as_string m.dst_addr_len m.buf >>= λ r. some (read_hostname m r)
  by_state req_dst_port need_bytes m = buffers.read_int16 m.buf >>= λ r. some (read_port m r)
  by_state req_done need_bytes m = some (Turn.returns false m)

  unfoldable pub turn : ℕ → ServerConnMeta → Option Turn
  turn need_bytes m = by_state m.state need_bytes m

  abbrev pub after_turn :
      (ℕ → ServerConnMeta → Option (Bool × ServerConnMeta)) → Turn → Option (Bool × ServerConnMeta)
  after_turn again (Turn.returns b m) = some (b, m)
  after_turn again (Turn.goes_on need_bytes m) = again need_bytes m

  -- `none` is a failed assertion, or the end of the fuel.
  unfoldable pub parse_loop : ℕ → ℕ → ServerConnMeta → Option (Bool × ServerConnMeta)
  unfolding turn
  parse_loop zero need_bytes m = none
  parse_loop (suc fuel) need_bytes m =
      if ltb need_bytes (buffers.readable_bytes m.buf)
      then turn need_bytes m >>= after_turn (parse_loop fuel)
      else some (false, m)

  -- A turn takes a byte, or it is the one that reads an empty name.
  unfoldable pub parse_request : ServerConnMeta → Option (Bool × ServerConnMeta)
  unfolding parse_loop
  parse_request m = parse_loop (buffers.readable_bytes m.buf + 3) 0 m
