-- ===== src/Client/Handling.antt =====
-- The errors of a client's socket, with and without a callback of the user.
use cpp_code_blocks.Prelude.{
  ℕ, ◌≡◌, ◌∙◌, ap, refl, Bool, true, false, List, [], ◌∷◌, Option, none, some, if◌then◌else◌, ◌>>=◌,
  arith, chosen,
}
use cpp_code_blocks.Packet.Defs.{KcpPublicHeader, read_from}
use cpp_code_blocks.Server.Errors.{ControlMessage, ErrorMessage, is_receive_error, is_icmp}
use cpp_code_blocks.Client.Defs.{KcpClient, shut_down, disconnect}
use cpp_code_blocks.Client.Errors.{
  Callback, Going, check_socket, report, react, handle_control, handle_controls, handle_message,
  handle_error, and_then,
}

-- The client has a socket object, open or closed.
abbrev pub HasSocket : KcpClient → Type 0
HasSocket s = (valid : Bool) × (s.socket ≡ some valid)

-- A run that goes on or returns, with a socket object.
pub record IsHandled (result : Going) : Type 0 where
  pub goes_on : Bool
  pub after : KcpClient
  pub ends : result ≡ some (goes_on, after)
  pub has_socket : HasSocket after

abbrev pub KeepsSocket : Callback → Type 0
KeepsSocket callback =
    (c : ControlMessage) (s : KcpClient)
    → HasSocket s
    → (s' : KcpClient) × (callback c s ≡ some s') × HasSocket s'

abbrev AllKeep : Option Callback → Type 0
AllKeep none = Unit {0}
AllKeep (some callback) = KeepsSocket callback

checked-IsHandled : (s : KcpClient) → HasSocket s → IsHandled (check_socket s.socket s)
checked-IsHandled s (valid, e) = record {
  goes_on = valid;
  after = s;
  ends = ap (λ o. check_socket o s) e;
  has_socket = (valid, e);
}

bind-IsHandled :
    (first : Going) (f : KcpClient → Going)
    → IsHandled first
    → ((s : KcpClient) → HasSocket s → IsHandled (f s))
    → IsHandled (first >>= and_then f)
bind-IsHandled first f h next = by_going h.goes_on h.ends
  where
    by_going : (b : Bool) → first ≡ some (b, h.after) → IsHandled (first >>= and_then f)
    by_going false e = record {
      goes_on = false;
      after = h.after;
      ends = ap (λ o. o >>= and_then f) e;
      has_socket = h.has_socket;
    }
    by_going true e =
        let later = next h.after h.has_socket in
        record {
          goes_on = later.goes_on;
          after = later.after;
          ends = ap (λ o. o >>= and_then f) e ∙ later.ends;
          has_socket = later.has_socket;
        }

report_keeps :
    (c : ControlMessage) (header : Option KcpPublicHeader) (session : Option ℕ) (s : KcpClient)
    → HasSocket s
    → HasSocket (report c header session s)
report_keeps c none session s has = has
report_keeps c (some header) none s has = has
report_keeps c (some header) (some own) s has = has

react_keeps :
    (callback : Option Callback) (bytes : List ℕ) (c : ControlMessage) (s : KcpClient)
    → AllKeep callback
    → HasSocket s
    → (s' : KcpClient) × (react callback bytes c s ≡ some s') × HasSocket s'
unfolding react
react_keeps (some callback) bytes c s keeps has = keeps c s has
react_keeps none bytes c s keeps has =
    (if is_icmp c then report c (read_from bytes) s.session s else s, refl, either (is_icmp c))
  where
    either : (b : Bool) → HasSocket (if b then report c (read_from bytes) s.session s else s)
    either true = report_keeps c (read_from bytes) s.session s has
    either false = has

control-IsHandled :
    (callback : Option Callback) (bytes : List ℕ) (c : ControlMessage) (s : KcpClient)
    → AllKeep callback
    → HasSocket s
    → IsHandled (handle_control callback bytes c s)
unfolding handle_control
control-IsHandled callback bytes c s keeps has = by_level (is_receive_error c)
  where
    reacted : IsHandled (react callback bytes c s >>= λ s'. check_socket s'.socket s')
    reacted =
        let (s', ends, has') = react_keeps callback bytes c s keeps has in
        let checked = checked-IsHandled s' has' in
        record {
          goes_on = checked.goes_on;
          after = checked.after;
          ends = ap (λ o. o >>= λ t. check_socket t.socket t) ends ∙ checked.ends;
          has_socket = checked.has_socket;
        }

    by_level :
        (b : Bool)
        → IsHandled (
            if b
            then (react callback bytes c s >>= λ s'. check_socket s'.socket s')
            else some (true, s))
    by_level true = reacted
    by_level false = record { goes_on = true; after = s; ends = refl; has_socket = has }

controls-IsHandled :
    (callback : Option Callback) (bytes : List ℕ) (controls : List ControlMessage) (s : KcpClient)
    → AllKeep callback
    → HasSocket s
    → IsHandled (handle_controls callback bytes controls s)
unfolding handle_controls
controls-IsHandled callback bytes [] s keeps has = record {
  goes_on = true;
  after = s;
  ends = refl;
  has_socket = has;
}
controls-IsHandled callback bytes (c ∷ controls) s keeps has =
    bind-IsHandled (handle_control callback bytes c s) (handle_controls callback bytes controls)
      (control-IsHandled callback bytes c s keeps has)
      (λ t has_t. controls-IsHandled callback bytes controls t keeps has_t)

message-IsHandled :
    (callback : Option Callback) (message : ErrorMessage) (s : KcpClient)
    → AllKeep callback
    → HasSocket s
    → IsHandled (handle_message callback message s)
unfolding handle_message
message-IsHandled callback message s keeps has = by_flag message.truncated
  where
    by_flag :
        (b : Bool)
        → IsHandled (
            if b then some (true, s) else handle_controls callback message.bytes message.controls s)
    by_flag true = record { goes_on = true; after = s; ends = refl; has_socket = has }
    by_flag false = controls-IsHandled callback message.bytes message.controls s keeps has

-- Whatever errors the queue holds, a client with a socket object, open or closed, handles them without
-- the use of a null socket, and has a socket object behind them, if there is no callback on errors or
-- the callback always leaves it one.
pub handle_error-IsHandled :
    (callback : Option Callback) (messages : List ErrorMessage) (s : KcpClient)
    → AllKeep callback
    → HasSocket s
    → IsHandled (handle_error callback messages s)
unfolding handle_error
handle_error-IsHandled callback [] s keeps has = checked-IsHandled s has
handle_error-IsHandled callback (message ∷ messages) s keeps has =
    bind-IsHandled (check_socket s.socket s >>= and_then (handle_message callback message))
      (handle_error callback messages)
      (bind-IsHandled (check_socket s.socket s) (handle_message callback message)
        (checked-IsHandled s has) (λ t has_t. message-IsHandled callback message t keeps has_t))
      (λ t has_t. handle_error-IsHandled callback messages t keeps has_t)

shut_down_leaves_null :
    (o : Option KcpClient)
    → (o >>= (λ t. some (shut_down (record t { session = none }))) >>= λ t. check_socket t.socket t)
      ≡ none
unfolding shut_down
shut_down_leaves_null none = refl
shut_down_leaves_null (some t) = refl

disconnect_leaves_null :
    (adler32 : List ℕ → ℕ) (s : KcpClient)
    → (disconnect adler32 s >>= λ t. check_socket t.socket t) ≡ none
unfolding disconnect shut_down
disconnect_leaves_null adler32 s = ground arith

-- A client whose callback on errors disconnects it, in any state: on the first error of its open
-- socket, whatever its origin, the loop uses the null socket that `Disconnect` leaves, or an assertion of
-- `Disconnect` has failed.
pub handle_error-disconnect :
    (adler32 : List ℕ → ℕ) (s : KcpClient) (bytes : List ℕ) (c : ControlMessage)
    (controls : List ControlMessage) (messages : List ErrorMessage)
    → s.socket ≡ some true
    → is_receive_error c ≡ true
    → handle_error
        (some (λ e. disconnect adler32))
        (record { truncated = false; bytes = bytes; controls = c ∷ controls } ∷ messages)
        s
      ≡ none
unfolding handle_error handle_message handle_controls handle_control react
handle_error-disconnect adler32 s bytes c controls messages valid error =
    let callback : Option Callback = some (λ e. disconnect adler32) in
    let message : ErrorMessage = record {
      truncated = false;
      bytes = bytes;
      controls = c ∷ controls;
    } in
    ap
      (λ o.
        check_socket o s
        >>= and_then (handle_message callback message)
        >>= and_then (handle_error callback messages))
      valid
    ∙ ap
        (λ o.
          o
          >>= and_then (handle_controls callback bytes controls)
          >>= and_then (handle_error callback messages))
        (chosen (is_receive_error c) _ _ error ∙ disconnect_leaves_null adler32 s)
