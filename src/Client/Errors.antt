-- ===== src/Client/Errors.antt =====
-- kcp/kcp_client.cc: `HandleError`. The messages of the error queue are those that `RecvMsg` gives out
-- before it fails; the user's callback on errors is a parameter. A result `none` is the use of a null
-- `socket_`, which a callback that disconnects leaves behind.
use cpp_code_blocks.Prelude.{
  ℕ, Bool, true, false, List, [], ◌∷◌, Option, none, some, if◌then◌else◌, ◌>>=◌,
}
use cpp_code_blocks.Packet.Defs.{KcpPublicHeader, read_from}
use cpp_code_blocks.Server.Errors.{ControlMessage, ErrorMessage, is_receive_error, is_icmp}
use cpp_code_blocks.Client.Defs.{KcpClient, set_pending_error, perform}

abbrev pub Callback : Type 0
Callback = ControlMessage → KcpClient → Option KcpClient

-- Whether the loop goes on, with the client.
abbrev pub Going : Type 0
Going = Option (Bool × KcpClient)

-- `socket_->IsValidSocket()`
abbrev pub check_socket : Option Bool → KcpClient → Going
check_socket none s = none
check_socket (some valid) s = some (valid, s)

-- The session that there is now gets the error, whatever session the header names.
abbrev pub report : ControlMessage → Option KcpPublicHeader → Option ℕ → KcpClient → KcpClient
report c (some header) (some own) s = perform (set_pending_error own c.error_type c.error_code) s
report c none session s = s
report c (some header) none s = s

unfoldable pub react : Option Callback → List ℕ → ControlMessage → KcpClient → Option KcpClient
unfolding read_from
react (some callback) bytes c s = callback c s
react none bytes c s = some (if is_icmp c then report c (read_from bytes) s.session s else s)

unfoldable pub handle_control : Option Callback → List ℕ → ControlMessage → KcpClient → Going
unfolding react
handle_control callback bytes c s =
    if is_receive_error c
    then (react callback bytes c s >>= λ s'. check_socket s'.socket s')
    else some (true, s)

abbrev pub and_then : (KcpClient → Going) → Bool × KcpClient → Going
and_then f (false, s) = some (false, s)
and_then f (true, s) = f s

unfoldable pub handle_controls : Option Callback → List ℕ → List ControlMessage → KcpClient → Going
unfolding handle_control
handle_controls callback bytes [] s = some (true, s)
handle_controls callback bytes (c ∷ controls) s =
    handle_control callback bytes c s >>= and_then (handle_controls callback bytes controls)

unfoldable pub handle_message : Option Callback → ErrorMessage → KcpClient → Going
unfolding handle_controls
handle_message callback message s =
    if message.truncated
    then some (true, s)
    else handle_controls callback message.bytes message.controls s

unfoldable pub handle_error : Option Callback → List ErrorMessage → KcpClient → Going
unfolding handle_message
handle_error callback [] s = check_socket s.socket s
handle_error callback (message ∷ messages) s =
    check_socket s.socket s
    >>= and_then (handle_message callback message)
    >>= and_then (handle_error callback messages)
