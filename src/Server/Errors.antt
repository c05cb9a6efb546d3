-- ===== src/Server/Errors.antt =====
-- kcp/kcp_server.cc: `HandleError`, and the destructor. The error queue of the socket is a parameter: the
-- messages that `RecvMsg` gives out before it fails.
use cpp_code_blocks.Prelude.{
  ℕ, zero, suc, ◌-◌, Bool, ◌&&◌, ◌||◌, List, [], ◌∷◌, Option, none, some, ltb, ◌==◌, if◌then◌else◌,
  length,
}
use cpp_code_blocks.Prelude.Maps.{Map, contains, nat_eq}
use cpp_code_blocks.Packet.Defs.{KcpPublicHeader, read_from}
use cpp_code_blocks.Server.Defs.{
  KcpServer, KcpSessionPtr, set_pending_error, flush_and_close_session, perform,
}

-- A control message with what `sock_extended_err` has of the error.
pub record ControlMessage : Type 0 where
  pub level : ℕ
  pub type : ℕ
  pub origin : ℕ
  pub error_type : ℕ
  pub error_code : ℕ

-- `bytes` is the datagram that caused the error, as far as it is returned; `truncated` is MSG_CTRUNC.
pub record ErrorMessage : Type 0 where
  pub truncated : Bool
  pub bytes : List ℕ
  pub controls : List ControlMessage

-- SOL_IP with IP_RECVERR, or SOL_IPV6 with IPV6_RECVERR.
abbrev pub is_receive_error : ControlMessage → Bool
is_receive_error c = (c.level == 0 && c.type == 11) || (c.level == 41 && c.type == 25)

-- SO_EE_ORIGIN_ICMP and SO_EE_ORIGIN_ICMP6
abbrev pub is_icmp : ControlMessage → Bool
is_icmp c = c.origin == 2 || c.origin == 3

abbrev pub report : ControlMessage → Option KcpPublicHeader → KcpServer → KcpServer
report c none s = s
report c (some header) s =
    if contains header.session_id s.session_map
    then perform (set_pending_error header.session_id c.error_type c.error_code) s
    else s

unfoldable pub handle_control : List ℕ → ControlMessage → KcpServer → KcpServer
unfolding read_from
handle_control bytes c s =
    if is_receive_error c then if is_icmp c then report c (read_from bytes) s else s else s

unfoldable pub handle_controls : List ℕ → List ControlMessage → KcpServer → KcpServer
unfolding handle_control
handle_controls bytes [] s = s
handle_controls bytes (c ∷ controls) s = handle_controls bytes controls (handle_control bytes c s)

unfoldable pub handle_error : List ErrorMessage → KcpServer → KcpServer
unfolding handle_controls
handle_error [] s = s
handle_error (message ∷ messages) s =
    handle_error messages
      (if message.truncated then s else handle_controls message.bytes message.controls s)

-- kServerMaxWaitSessionClosedTryTimes
abbrev pub max_wait_session_closed_try_times : ℕ
max_wait_session_closed_try_times = 100_000

unfoldable pub close_sessions : Map ℕ KcpSessionPtr → KcpServer → KcpServer
close_sessions [] s = s
close_sessions ((session_id, session) ∷ rest) s =
    close_sessions rest (perform (flush_and_close_session session_id) s)

-- The loop that waits: `closed i` is `num_closed_sessions` at its look `i`; `tries` are left. It gives
-- the look at which it ends.
unfoldable pub spin : (closed : ℕ → ℕ) → (num_sessions tries i : ℕ) → ℕ
spin closed num_sessions zero i = i
spin closed num_sessions (suc tries) i =
    let later = spin closed num_sessions tries (suc i) in
    if ltb (closed i) num_sessions then later else i

-- What the destructor leaves: the server, how often the loop has looked at the counter, and the number of
-- sessions not closed, for which it looks once more.
pub record Destroyed : Type 0 where
  pub server : KcpServer
  pub looks : ℕ
  pub num_unclosed_sessions : ℕ

-- `++try_times` counts up to the bound, so that many looks fail at most.
unfoldable pub destroy : (closed : ℕ → ℕ) → KcpServer → Destroyed
unfolding close_sessions spin
destroy closed s =
    let num_sessions = length s.session_map in
    let tries = max_wait_session_closed_try_times - 1 in
    let looks = suc (spin closed num_sessions tries 0) in
    record {
      server = close_sessions s.session_map s;
      looks = looks;
      num_unclosed_sessions = num_sessions - closed looks;
    }
