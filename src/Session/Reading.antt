-- ===== src/Session/Reading.antt =====
-- kcp/kcp_session.cc: `ProcessPacketInLoopThread` and `OnReadEvent`. The user's message callback is a
-- parameter: given its own state and the input buffer, it leaves a state, what it did not retrieve
-- from the buffer, and whether it closed the session, and then the argument of `Close`.
use cpp_code_blocks.Prelude.{
  ℕ, zero, suc, Bool, not, ◌&&◌, List, [], ◌∷◌, ◌++◌, Option, none, some, if◌then◌else◌, ◌>>=◌,
}
use cpp_code_blocks.Session.Defs.{Ikcp, KcpSession, write_complete, emit, close}

-- The side of ikcp that receives. `input` tells whether the code is not negative; `peeksize` and
-- `recv` are `none` for a negative code.
pub record Inbound (ikcp : Ikcp) : Type 0 where
  pub input : ikcp.Cb → List ℕ → ikcp.Cb × Bool
  pub peeksize : ikcp.Cb → Option ℕ
  pub recv : ikcp.Cb → ℕ → ikcp.Cb × Option (List ℕ)

pub record Reader : Type 1 where
  pub User : Type 0
  pub on_message : User → List ℕ → User × List ℕ × Option Bool

unfoldable pub close_if : {ikcp : Ikcp} → ℕ → Option Bool → KcpSession ikcp → KcpSession ikcp
unfolding close
close_if now none s = s
close_if {ikcp} now (some last_flush) s = close ikcp now last_flush s

module _ {ikcp : Ikcp} (inbound : Inbound ikcp) (reader : Reader) (Address : Type 0) where
  pub record Receiver : Type 0 where
    pub session : KcpSession ikcp
    pub input_buffer : List ℕ
    pub peer_address : Address
    pub message_callback : Bool
    pub user : reader.User

  abbrev pub is_closed : Receiver → Bool
  is_closed r = r.session.closed

  abbrev pub with_kcp : ikcp.Cb → Receiver → Receiver
  with_kcp cb r = record r { session = record r.session { kcp = cb } }

  -- The message callback, on the buffer with what was received.
  unfoldable pub call_back : ℕ → List ℕ → Receiver → Receiver
  unfolding close_if
  call_back now bytes r =
      let (user, left, closes) = reader.on_message r.user (r.input_buffer ++ bytes) in
      record r { user = user; input_buffer = left; session = close_if now closes r.session }

  -- `assert(len > 0)`; what is received without a callback is lost.
  unfoldable pub received : ℕ → Option (List ℕ) → Receiver → Option Receiver
  unfolding call_back
  received now none r = none
  received now (some []) r = none
  received now (some (x ∷ xs)) r =
      if r.message_callback then some (call_back now (x ∷ xs) r) else some r

  unfoldable pub on_read_event : ℕ → ℕ → Receiver → Option Receiver
  unfolding received
  on_read_event now bytes_can_read r =
      let (cb, bytes) = inbound.recv r.session.kcp bytes_can_read in
      received now bytes (with_kcp cb r)

  -- `none` is a failed assertion, or the end of the fuel.
  unfoldable pub read_all : ℕ → ℕ → Receiver → Option Receiver
  unfolding on_read_event
  read_all zero now r = none
  read_all (suc fuel) now r =
      if is_closed r then some r else elim (inbound.peeksize r.session.kcp) [
        | none ↦ some r
        | some size ↦ on_read_event now size r >>= read_all fuel now
      ]

  -- The write-complete callback is queued when the packet has made room.
  unfoldable pub after_read : Bool → Receiver → Receiver
  after_read need_drain_before r =
      if not (is_closed r)
        && (need_drain_before
            && (not (ikcp.need_drain r.session.kcp) && r.session.write_complete_callback))
      then record r { session = emit ikcp write_complete r.session }
      else r

  unfoldable pub process_packet_in_loop_thread :
      (fuel now : ℕ) → List ℕ → Address → Receiver → Option Receiver
  unfolding read_all after_read
  process_packet_in_loop_thread fuel now bytes peer_address r =
      let before = ikcp.need_drain r.session.kcp in
      let (cb, ok) = inbound.input r.session.kcp bytes in
      if is_closed r
      then some r
      else if not ok
      then some (with_kcp cb r)
      else (read_all fuel now (record (with_kcp cb r) { peer_address = peer_address }) >>= λ r'.
          some (after_read before r'))
