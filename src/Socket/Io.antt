-- ===== src/Socket/Io.antt =====
-- kcp/udp_socket.{h,cc}: the state of `UDPSocket`, and what a method does to it. The operating system
-- is a parameter: it answers a call, given the calls and answers before it.
use cpp_code_blocks.Prelude.{
  ℕ, zero, suc, Bool, false, List, [], ◌∷◌, Option, none, some, ◌==◌, if◌then◌else◌,
}
use cpp_code_blocks.Prelude.Int.{ℤ, pos, negsuc}
use cpp_code_blocks.Prelude.Maps.{is_some}
use Prim.Native.String.{String}

-- A descriptor; `none` is kInvalidSocket, -1.
abbrev pub Descriptor : Type 0
Descriptor = Option ℕ

pub data Call : Type 0 where
  socket : (family : ℕ) → Call
  close : Descriptor → Call
  setsockopt : Descriptor → (level option : String) → List ℤ → Call
  set_group : Descriptor → (level option : String) → (ifindex : ℕ) → List ℕ → Call
  connect : Descriptor → List ℕ → Call
  bind : Descriptor → List ℕ → Call
  getsockname : Descriptor → Call
  getpeername : Descriptor → Call
  recvfrom : Descriptor → (size flags : ℕ) → Call
  sendto : Descriptor → (bytes : List ℕ) → (flags : ℕ) → (address : List ℕ) → Call
  recvmmsg : Descriptor → (messages flags : ℕ) → Call
  sendmmsg : Descriptor → (messages flags : ℕ) → Call
  recvmsg : Descriptor → (flags : ℕ) → Call
  sendmsg : Descriptor → (flags : ℕ) → Call
  if_indextoname : (ifindex : ℕ) → Call
  if_nametoindex : (ifname : String) → Call

-- The value that a call returns, with the socket address that it writes, or -1; then `errno` is one
-- more than the number here.
pub data Answer : Type 0 where
  returned : ℕ → List ℕ → Answer
  failed : ℕ → Answer

abbrev pub History : Type 0
History = List (Call × Answer)

abbrev pub System : Type 0
System = History → Call → Answer

-- The bits of `SocketOptions`.
pub record SocketOptions : Type 0 where
  pub reuse_address : Bool
  pub reuse_port : Bool
  pub broadcast : Bool
  pub receive_error : Bool
  pub receive_dscp_and_ecn : Bool

abbrev pub no_options : SocketOptions
no_options = record {
  reuse_address = false;
  reuse_port = false;
  broadcast = false;
  receive_error = false;
  receive_dscp_and_ecn = false;
}

-- AF_UNSPEC, AF_INET and AF_INET6
abbrev pub af_unspec : ℕ
af_unspec = 0

abbrev pub af_inet : ℕ
af_inet = 2

abbrev pub af_inet6 : ℕ
af_inet6 = 10

-- -EINVAL, -EFAULT, -EAFNOSUPPORT, -EADDRNOTAVAIL and -ENOTCONN
abbrev pub einval : ℤ
einval = negsuc 21

abbrev pub efault : ℤ
efault = negsuc 13

abbrev pub eafnosupport : ℤ
eafnosupport = negsuc 96

abbrev pub eaddrnotavail : ℤ
eaddrnotavail = negsuc 98

abbrev pub enotconn : ℤ
enotconn = negsuc 106

-- muduo's `InetAddress`: its family, the bytes of its socket address, and the address that
-- `setSockAddrInet6` makes of such bytes. `is_multicast` is the test of the system's headers,
-- IN_MULTICAST or IN6_IS_ADDR_MULTICAST.
pub record Addresses : Type 1 where
  pub Address : Type 0
  pub family : Address → ℕ
  pub sock_addr : Address → List ℕ
  pub of_sock_addr : List ℕ → Address
  pub is_multicast : Address → Bool

module _ (net : Addresses) where
  pub record UdpSocket : Type 0 where
    pub sockfd : Descriptor
    pub addr_family : ℕ
    pub socket_options : SocketOptions
    pub local_address : Option net.Address
    pub peer_address : Option net.Address
    pub history : History  -- the last call first

  abbrev pub new_socket : UdpSocket
  new_socket = record {
    sockfd = none;
    addr_family = af_unspec;
    socket_options = no_options;
    local_address = none;
    peer_address = none;
    history = [];
  }

  -- A method: its result, `none` where an assertion fails, and the socket after it.
  abbrev pub Io {ℓ} : Type ℓ → Type ℓ
  Io A = UdpSocket → Option A × UdpSocket

module _ {net : Addresses} where
  abbrev pub pure {ℓ} : {A : Type ℓ} → A → Io net A
  pure a s = (some a, s)

  abbrev pub next {ℓ κ} :
      {A : Type ℓ} {B : Type κ}
      → (A → Io net B)
      → Option A × UdpSocket net
      → Option B × UdpSocket net
  next f (none, s) = (none, s)
  next f (some a, s) = f a s

  infixl 5 ◌>>=◌
  abbrev pub ◌>>=◌ {ℓ κ} : {A : Type ℓ} {B : Type κ} → Io net A → (A → Io net B) → Io net B
  (m >>= f) s = next f (m s)

  abbrev pub asserts : (UdpSocket net → Bool) → Io net (Unit {0})
  asserts test s = if test s then (some tt, s) else (none, s)

  abbrev pub is_valid_socket : UdpSocket net → Bool
  is_valid_socket s = is_some s.sockfd

  -- `if (m < 0) return m;` before `k`.
  abbrev pub or_return : ℤ → Io net ℤ → Io net ℤ
  or_return (negsuc e) k = pure (negsuc e)
  or_return (pos n) k = k

-- A call is made and answered.
unfoldable pub perform : {net : Addresses} → System → Call → Io net Answer
perform os call s =
    let answer = os s.history call in
    (some answer, record s { history = (call, answer) ∷ s.history })

-- ERROR_RETURN: what the call returns, or -errno.
abbrev pub result_of : Answer → ℤ
result_of (returned n address) = pos n
result_of (failed e) = negsuc e

-- EINTR, as `failed` counts it.
abbrev pub is_interrupted : Answer → Bool
is_interrupted (returned n address) = false
is_interrupted (failed e) = e == 3

-- HANDLE_EINTR where assertions are compiled in: the call is made again, `retries` times at most.
unfoldable pub handle_eintr : {net : Addresses} → System → ℕ → Call → Io net Answer
unfolding perform
handle_eintr os zero call s = perform os call s
handle_eintr os (suc retries) call s =
    let first = perform os call s in
    let again = handle_eintr os retries call first.1 in
    if is_interrupted (os s.history call) then again else first

-- `eintr_wrapper_counter++ < 100`
abbrev pub max_eintr_retries : ℕ
max_eintr_retries = 100
