-- ===== src/Socket/Setup.antt =====
-- kcp/udp_socket.cc: a socket is opened, given its options, and closed.
use Prim.Native.String.{String}
use cpp_code_blocks.Prelude.{
  ℕ, suc, Bool, not, ◌&&◌, List, [], ◌∷◌, Option, none, some, ◌==◌, if◌then◌else◌,
}
use cpp_code_blocks.Prelude.Int.{ℤ, pos, negsuc, ltb_ℤ}
use cpp_code_blocks.Prelude.Maps.{is_some}
use cpp_code_blocks.Socket.Io.{
  Call, Answer, returned, failed, System, Addresses, UdpSocket, Io, pure, ◌>>=◌, asserts,
  is_valid_socket, or_return, perform, handle_eintr, max_eintr_retries, result_of, no_options,
  af_unspec, af_inet, af_inet6, einval, eafnosupport, eaddrnotavail, enotconn, SocketOptions,
}
use cpp_code_blocks.Socket.Address.{to_sock_addr, to_inet_addr}

-- A result and an address, which is left alone where the result is an error.
abbrev pub Found : Addresses → Type 0
Found net = ℤ × Option net.Address

module _ {net : Addresses} where
  -- What `getsockname` and `getpeername` give is kept.
  unfoldable pub keep_local : Answer → Io net (Found net)
  unfolding to_inet_addr
  keep_local (failed e) t = (some (pos (suc e), none), t)  -- `return errno;`
  keep_local (returned n out) t = elim (to_inet_addr net out) [
    | none ↦ (some (eaddrnotavail, none), t)
    | some address ↦ (some (pos 0, some address), record t { local_address = some address })
  ]

  unfoldable pub keep_peer : Answer → Io net (Found net)
  unfolding to_inet_addr
  keep_peer (failed e) t = (some (negsuc e, none), t)
  keep_peer (returned n out) t = elim (to_inet_addr net out) [
    | none ↦ (some (eaddrnotavail, none), t)
    | some address ↦ (some (pos 0, some address), record t { peer_address = some address })
  ]

  -- The address that is kept already, or `ask`.
  abbrev pub cached : Option net.Address → Io net (Found net) → Io net (Found net)
  cached (some address) ask = pure (pos 0, some address)
  cached none ask = ask

module _ {net : Addresses} (os : System) where
  abbrev pub unset : UdpSocket net → Bool
  unset s = not (is_valid_socket s)

  unfoldable pub close : Io net (Unit {0})
  unfolding perform
  close s = elim s.sockfd [
    | none ↦ (some tt, s)
    | some fd ↦
        let after = perform os (Call.close (some fd)) s in
        (
          some tt,
          record after.1 { sockfd = none; addr_family = af_unspec; socket_options = no_options },
        )
  ]

  -- `AllowReuseAddress` and its kin set a bit.
  unfoldable pub allow : (SocketOptions → SocketOptions) → Io net (Unit {0})
  allow set_bit =
      asserts unset >>= λ _ s. (some tt, record s { socket_options = set_bit s.socket_options })

  -- `ERROR_RETURN(::setsockopt(sockfd_, ...))` before `k`.
  abbrev pub set_then : String → String → List ℤ → Io net ℤ → Io net ℤ
  set_then level option value k s =
      (perform os (Call.setsockopt s.sockfd level option value) >>= λ a. or_return (result_of a) k)
        s

  -- The same, where the bit is set.
  abbrev pub set_if_then : (UdpSocket net → Bool) → String → String → Io net ℤ → Io net ℤ
  set_if_then wanted level option k s =
      if wanted s then set_then level option (pos 1 ∷ []) k s else k s

  -- The level and the option depend on the family of the socket.
  abbrev pub by_family : {A : Type 0} → A → A → UdpSocket net → A
  by_family inet inet6 s = if s.addr_family == af_inet then inet else inet6

  abbrev pub set_by_family_then : (UdpSocket net → Bool) → String → String → Io net ℤ → Io net ℤ
  set_by_family_then wanted option option6 k s =
      set_if_then wanted (by_family "IPPROTO_IP" "IPPROTO_IPV6" s) (by_family option option6 s) k s

  unfoldable pub create_socket : ℕ → Io net ℤ
  unfolding perform
  create_socket family = asserts unset >>= λ _.
      if not (family == af_inet) && not (family == af_inet6)
      then pure eafnosupport
      else (perform os (Call.socket family) >>= λ a. keep a)
    where
      keep : Answer → Io net ℤ
      keep (failed e) s = (some (negsuc e), s)
      keep (returned fd out) s = (some (pos 0), record s { addr_family = family; sockfd = some fd })

  unfoldable pub set_socket_options : Io net ℤ
  unfolding perform
  set_socket_options = asserts is_valid_socket >>= λ _.
      asserts (λ s. not (s.addr_family == af_unspec)) >>= λ _.
      set_if_then (λ s. s.socket_options.reuse_address) "SOL_SOCKET" "SO_REUSEADDR"
        (set_if_then (λ s. s.socket_options.reuse_port) "SOL_SOCKET" "SO_REUSEPORT"
          (set_if_then (λ s. s.socket_options.broadcast) "SOL_SOCKET" "SO_BROADCAST"
            (set_by_family_then (λ s. s.socket_options.receive_error) "IP_RECVERR" "IPV6_RECVERR"
              (set_by_family_then (λ s. s.socket_options.receive_dscp_and_ecn) "IP_RECVTOS"
                "IPV6_RECVTCLASS" (pure (pos 0))))))

  unfoldable pub connect_impl : net.Address → Io net ℤ
  unfolding to_sock_addr handle_eintr
  connect_impl address = asserts is_valid_socket >>= λ _. elim (to_sock_addr net address) [
    | none ↦ pure eaddrnotavail
    | some bytes ↦ λ s.
        (handle_eintr os max_eintr_retries (Call.connect s.sockfd bytes) >>= λ a.
        or_return (result_of a) (pure (pos 0)))
          s
  ]

  unfoldable pub bind_impl : net.Address → Io net ℤ
  unfolding to_sock_addr perform
  bind_impl address = asserts is_valid_socket >>= λ _. elim (to_sock_addr net address) [
    | none ↦ pure einval
    | some bytes ↦ λ s.
        (perform os (Call.bind s.sockfd bytes) >>= λ a. or_return (result_of a) (pure (pos 0))) s
  ]

  -- `if (rv < 0) { Close(); return rv; } return rv;`
  unfoldable pub close_on_error : ℤ → Io net ℤ
  unfolding close
  close_on_error (pos n) = pure (pos n)
  close_on_error (negsuc e) = close >>= λ _. pure (negsuc e)

  -- `SetSocketOptions`, and then `finish` where that succeeds.
  unfoldable pub configure : Io net ℤ → Io net ℤ
  unfolding set_socket_options
  configure finish = set_socket_options >>= λ rv. or_return rv finish

  -- `Connect` and `Bind`, but for their own assertions.
  unfoldable pub open_with : ℕ → Io net ℤ → Io net ℤ
  unfolding create_socket configure close_on_error
  open_with family finish =
      create_socket family >>= λ rv. or_return rv (configure finish >>= close_on_error)

  unfoldable pub connect : net.Address → Io net ℤ
  unfolding open_with connect_impl
  connect address = asserts unset >>= λ _. asserts (λ s. not (is_some s.peer_address)) >>= λ _.
      open_with (net.family address) (connect_impl address)

  unfoldable pub bind : net.Address → Io net ℤ
  unfolding open_with bind_impl
  bind address = asserts unset >>= λ _. open_with (net.family address) (bind_impl address)

  -- `SetReceiveBufferSize` and `SetSendBufferSize`
  unfoldable pub set_buffer_size : String → ℤ → Io net ℤ
  unfolding perform
  set_buffer_size option size = asserts is_valid_socket >>= λ _.
      if ltb_ℤ size (pos 0)
      then pure einval
      else set_then "SOL_SOCKET" option (size ∷ []) (pure (pos 0))

  unfoldable pub get_local_address : Io net (Found net)
  unfolding perform keep_local
  get_local_address s =
      if not (is_valid_socket s)
      then (some (enotconn, none), s)
      else cached s.local_address (perform os (Call.getsockname s.sockfd) >>= keep_local) s

  unfoldable pub get_peer_address : Io net (Found net)
  unfolding perform keep_peer
  get_peer_address s =
      if not (is_valid_socket s)
      then (some (enotconn, none), s)
      else cached s.peer_address (perform os (Call.getpeername s.sockfd) >>= keep_peer) s
