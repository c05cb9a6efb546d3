-- ===== src/Socket/Methods.antt =====
-- kcp/udp_socket.h: a socket from its constructor to its destructor, by the methods that are called.
use Prim.Native.String.{String}
use cpp_code_blocks.Prelude.{
  ℕ, ◌≡◌, ◌∙◌, ap, inl, inr, Bool, List, [], ◌∷◌, Option, none, Option-cases,
}
use cpp_code_blocks.Prelude.Int.{ℤ}
use cpp_code_blocks.Socket.Io.{
  System, Addresses, UdpSocket, new_socket, Io, pure, ◌>>=◌, SocketOptions,
}
use cpp_code_blocks.Socket.Setup.{
  close, allow, connect, bind, set_buffer_size, get_local_address, get_peer_address,
}
use cpp_code_blocks.Socket.Multicast.{
  set_multicast_if, set_multicast_if_named, set_multicast_ttl, set_multicast_loop, set_dscp_and_ecn,
  join_or_leave_multicast_group, join_or_leave_named,
}
use cpp_code_blocks.Socket.Transfer.{
  recv_from, send_to_impl, recv_mmsg, send_mmsg, send_msg, recv_msg,
}
use cpp_code_blocks.Socket.Tidy.{next-IsTidy}
use cpp_code_blocks.Socket.Opening.{
  Keeps, close-none, close-some, close-Keeps, connect-Keeps, bind-Keeps,
}
use cpp_code_blocks.Socket.Settings.{
  allow-Keeps, set_buffer_size-Keeps, get_local_address-Keeps, get_peer_address-Keeps,
}
use cpp_code_blocks.Socket.Using.{
  set_multicast_if-Keeps, set_multicast_if_named-Keeps, set_multicast_ttl-Keeps,
  set_multicast_loop-Keeps, set_dscp_and_ecn-Keeps, join_or_leave-Keeps, join_or_leave_named-Keeps,
  recv_from-Keeps, send_to_impl-Keeps, recv_mmsg-Keeps, send_mmsg-Keeps, send_msg-Keeps,
  recv_msg-Keeps,
}

module _ (net : Addresses) where
  pub data Method : Type 0 where
    connects : net.Address → Method
    binds : net.Address → Method
    closes : Method
    allows : (SocketOptions → SocketOptions) → Method
    sets_buffer_size : String → ℤ → Method
    gets_local_address : Method
    gets_peer_address : Method
    sets_multicast_if : ℕ → Method
    sets_multicast_if_named : String → Method
    sets_multicast_ttl : ℤ → Method
    sets_multicast_loop : Bool → Method
    sets_dscp_and_ecn : ℕ → Method
    joins_or_leaves : net.Address → ℕ → Bool → Method
    joins_or_leaves_named : net.Address → String → Bool → Method
    receives_from : ℕ → Bool → ℕ → Method
    sends_to : List ℕ → Option net.Address → ℕ → Method
    receives_mmsg : ℕ → ℕ → Method
    sends_mmsg : ℕ → ℕ → Method
    sends_msg : ℕ → Method
    receives_msg : ℕ → Method

module _ {net : Addresses} where
  abbrev ignore {ℓ} : {A : Type ℓ} → Io net A → Io net (Unit {0})
  ignore m = m >>= λ _. pure tt

  module _ (os : System) where
    unfoldable pub call : Method net → Io net (Unit {0})
    call (Method.connects address) = ignore (connect os address)
    call (Method.binds address) = ignore (bind os address)
    call Method.closes = close os
    call (Method.allows set_bit) = allow os set_bit
    call (Method.sets_buffer_size option size) = ignore (set_buffer_size os option size)
    call Method.gets_local_address = ignore (get_local_address os)
    call Method.gets_peer_address = ignore (get_peer_address os)
    call (Method.sets_multicast_if ifindex) = ignore (set_multicast_if os ifindex)
    call (Method.sets_multicast_if_named ifname) = ignore (set_multicast_if_named os ifname)
    call (Method.sets_multicast_ttl ttl) = ignore (set_multicast_ttl os ttl)
    call (Method.sets_multicast_loop loop) = ignore (set_multicast_loop os loop)
    call (Method.sets_dscp_and_ecn value) = ignore (set_dscp_and_ecn os value)
    call (Method.joins_or_leaves group ifindex joins) =
        ignore (join_or_leave_multicast_group os group ifindex joins)
    call (Method.joins_or_leaves_named group ifname joins) =
        ignore (join_or_leave_named os group ifname joins)
    call (Method.receives_from size wanted flags) = ignore (recv_from os size wanted flags)
    call (Method.sends_to bytes address flags) = ignore (send_to_impl os bytes address flags)
    call (Method.receives_mmsg messages flags) = ignore (recv_mmsg os messages flags)
    call (Method.sends_mmsg messages flags) = ignore (send_mmsg os messages flags)
    call (Method.sends_msg flags) = ignore (send_msg os flags)
    call (Method.receives_msg flags) = ignore (recv_msg os flags)

    -- The methods in turn; a failed assertion ends the program.
    unfoldable pub run : List (Method net) → Io net (Unit {0})
    unfolding call
    run [] = pure tt
    run (m ∷ ms) = call m >>= λ _. run ms

    -- A socket is made, used, and destroyed, which closes it.
    unfoldable pub lifetime : List (Method net) → UdpSocket net
    unfolding run close
    lifetime methods = (close os (run methods (new_socket net)).1).1

    ignore-Keeps {ℓ} : {A : Type ℓ} (m : Io net A) → Keeps net os m → Keeps net os (ignore m)
    ignore-Keeps m w s v = next-IsTidy (m s) (λ _. pure tt) (w s v) (λ a t x. x)

    call-Keeps : (m : Method net) → Keeps net os (call m)
    unfolding call
    call-Keeps (Method.connects address) = ignore-Keeps _ (connect-Keeps net os address)
    call-Keeps (Method.binds address) = ignore-Keeps _ (bind-Keeps net os address)
    call-Keeps Method.closes = close-Keeps net os
    call-Keeps (Method.allows set_bit) = allow-Keeps net os set_bit
    call-Keeps (Method.sets_buffer_size option size) =
        ignore-Keeps _ (set_buffer_size-Keeps net os option size)
    call-Keeps Method.gets_local_address = ignore-Keeps _ (get_local_address-Keeps net os)
    call-Keeps Method.gets_peer_address = ignore-Keeps _ (get_peer_address-Keeps net os)
    call-Keeps (Method.sets_multicast_if ifindex) =
        ignore-Keeps _ (set_multicast_if-Keeps net os ifindex)
    call-Keeps (Method.sets_multicast_if_named ifname) =
        ignore-Keeps _ (set_multicast_if_named-Keeps net os ifname)
    call-Keeps (Method.sets_multicast_ttl ttl) = ignore-Keeps _ (set_multicast_ttl-Keeps net os ttl)
    call-Keeps (Method.sets_multicast_loop loop) =
        ignore-Keeps _ (set_multicast_loop-Keeps net os loop)
    call-Keeps (Method.sets_dscp_and_ecn value) =
        ignore-Keeps _ (set_dscp_and_ecn-Keeps net os value)
    call-Keeps (Method.joins_or_leaves group ifindex joins) =
        ignore-Keeps _ (join_or_leave-Keeps net os group ifindex joins)
    call-Keeps (Method.joins_or_leaves_named group ifname joins) =
        ignore-Keeps _ (join_or_leave_named-Keeps net os group ifname joins)
    call-Keeps (Method.receives_from size wanted flags) =
        ignore-Keeps _ (recv_from-Keeps net os size wanted flags)
    call-Keeps (Method.sends_to bytes address flags) =
        ignore-Keeps _ (send_to_impl-Keeps net os bytes address flags)
    call-Keeps (Method.receives_mmsg messages flags) =
        ignore-Keeps _ (recv_mmsg-Keeps net os messages flags)
    call-Keeps (Method.sends_mmsg messages flags) =
        ignore-Keeps _ (send_mmsg-Keeps net os messages flags)
    call-Keeps (Method.sends_msg flags) = ignore-Keeps _ (send_msg-Keeps net os flags)
    call-Keeps (Method.receives_msg flags) = ignore-Keeps _ (recv_msg-Keeps net os flags)

    pub run-Keeps : (methods : List (Method net)) → Keeps net os (run methods)
    unfolding run
    run-Keeps [] s v = v
    run-Keeps (m ∷ ms) s v =
        next-IsTidy (call m s) (λ _. run ms) (call-Keeps m s v) (λ a t w. run-Keeps ms t w)

    pub close-unset : (s : UdpSocket net) → (close os s).1.sockfd ≡ none
    close-unset s = elim (Option-cases s.sockfd) [
      | inl gone ↦ ap (λ r. r.1.sockfd) (close-none net os s gone) ∙ gone
      | inr (fd, there) ↦ ap (λ r. r.1.sockfd) (close-some net os s fd there)
    ]
