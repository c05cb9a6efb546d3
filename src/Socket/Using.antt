-- ===== src/Socket/Using.antt =====
-- The options for multicast and the transfer of datagrams keep a socket tidy.
use Prim.Native.String.{String}
use cpp_code_blocks.Prelude.{
  ℕ, refl, inl, inr, Bool, true, false, not, List, [], ◌∷◌, Option, none, some, ◌==◌, Option-cases,
}
use cpp_code_blocks.Prelude.Int.{ℤ, pos}
use cpp_code_blocks.Socket.Io.{
  Call, Answer, returned, failed, System, Addresses, UdpSocket, Io, pure, or_return, perform,
  handle_eintr, max_eintr_retries, result_of, af_unspec, af_inet, af_inet6, is_valid_socket, einval,
}
use cpp_code_blocks.Socket.Address.{
  to_sock_addr, to_inet_addr, is_address_multicast, sockaddr_in_size, sockaddr_in6_size,
}
use cpp_code_blocks.Socket.Setup.{by_family}
use cpp_code_blocks.Socket.Multicast.{
  opened_then, set_by_family, name_then, on_index, index_then, set_group, group_then,
  set_multicast_if, set_multicast_if_named, set_multicast_ttl, is_bad_ttl, set_multicast_loop,
  set_dscp_and_ecn, join_or_leave_multicast_group, join_or_leave_named,
}
use cpp_code_blocks.Socket.Transfer.{
  transfer, with_sender, recv_from, send_to_impl, on_valid, recv_mmsg, send_mmsg, send_msg,
  recv_msg,
}
use cpp_code_blocks.Socket.Tidy.{
  live, names, needs_descriptor, IsTidyIf, IsTidy, checks, loosen, next-IsTidy, if_io-IsTidy,
  asserts-IsTidy, or_return-IsTidy, IsPlain, perform-IsTidy, handle_eintr-IsTidy,
}
use cpp_code_blocks.Socket.Opening.{Keeps, KeepsValid, pure-Keeps, set_then-Keeps}

module _ (net : Addresses) (os : System) where
  -- Behind the assertion, at its loosest.
  abbrev Follows : Io net ℤ → Type 0
  Follows k = (s : UdpSocket net) → IsTidyIf true s → IsTidy (k s).1

  opened_then-Keeps : (k : Io net ℤ) → Follows k → Keeps net os (opened_then os k)
  opened_then-Keeps k w s v = asserts-IsTidy is_valid_socket _ s v (λ e.
      asserts-IsTidy (λ y. not (y.addr_family == af_unspec)) (λ _. k) s v (λ _. w s (checks v e)))

  opened_valid-Keeps : (k : Io net ℤ) → KeepsValid net os k → Keeps net os (opened_then os k)
  opened_valid-Keeps k w = opened_then-Keeps k (λ s v. loosen (w s v))

  set_by_family-Keeps :
      (option option6 : String) (value : ℤ)
      → KeepsValid net os (set_by_family os option option6 value)
  set_by_family-Keeps option option6 value s v =
      set_then-Keeps net os (by_family os "IPPROTO_IP" "IPPROTO_IPV6" s)
        (by_family os option option6 s) (value ∷ []) (pure (pos 0)) (pure-Keeps net os (pos 0)) s v

  name_then-Keeps :
      (ifindex : ℕ) (k : Io net ℤ)
      → KeepsValid net os k
      → KeepsValid net os (name_then os ifindex k)
  unfolding live names needs_descriptor
  name_then-Keeps ifindex k w s v = if_io-IsTidy (ifindex == 0) k _ s (w s v) (
      next-IsTidy (perform os (Call.if_indextoname ifindex) s) (λ a. or_return (result_of a) k)
        (perform-IsTidy os _ s (record { same = λ a h. refl; own = inl (refl, refl) }) v)
        (λ a t x. or_return-IsTidy (result_of a) k t x w))

  on_index-Keeps :
      (k : ℕ → Io net ℤ)
      → ((i : ℕ) → Keeps net os (k i))
      → (a : Answer) → Keeps net os (on_index os k a)
  on_index-Keeps k w (failed e) s v = v
  on_index-Keeps k w (returned ifindex out) s v = w ifindex s v

  index_then-Keeps :
      (ifname : String) (k : ℕ → Io net ℤ)
      → ((i : ℕ) → Keeps net os (k i))
      → Keeps net os (index_then os ifname k)
  unfolding live names needs_descriptor
  index_then-Keeps ifname k w s v =
      next-IsTidy (perform os (Call.if_nametoindex ifname) s) (on_index os k)
        (perform-IsTidy os _ s (record { same = λ a h. refl; own = inl (refl, refl) }) v)
        (on_index-Keeps k w)

  pub set_multicast_if-Keeps : (ifindex : ℕ) → Keeps net os (set_multicast_if os ifindex)
  unfolding set_multicast_if
  set_multicast_if-Keeps ifindex = opened_valid-Keeps _ (
      name_then-Keeps ifindex _
        (set_by_family-Keeps "IP_MULTICAST_IF" "IPV6_MULTICAST_IF" (pos ifindex)))

  pub set_multicast_if_named-Keeps :
      (ifname : String) → Keeps net os (set_multicast_if_named os ifname)
  unfolding set_multicast_if_named
  set_multicast_if_named-Keeps ifname =
      opened_then-Keeps _
        (λ s v. index_then-Keeps ifname (set_multicast_if os) set_multicast_if-Keeps s (loosen v))

  pub set_multicast_ttl-Keeps : (ttl : ℤ) → Keeps net os (set_multicast_ttl os ttl)
  unfolding set_multicast_ttl
  set_multicast_ttl-Keeps ttl = opened_valid-Keeps _ (λ s v.
      if_io-IsTidy (is_bad_ttl os ttl s) (pure einval)
        (set_by_family os "IP_MULTICAST_TTL" "IPV6_MULTICAST_HOPS" ttl) s v
        (set_by_family-Keeps "IP_MULTICAST_TTL" "IPV6_MULTICAST_HOPS" ttl s v))

  pub set_multicast_loop-Keeps : (loop : Bool) → Keeps net os (set_multicast_loop os loop)
  unfolding set_multicast_loop
  set_multicast_loop-Keeps loop =
      opened_valid-Keeps _ (set_by_family-Keeps "IP_MULTICAST_LOOP" "IPV6_MULTICAST_LOOP" _)

  pub set_dscp_and_ecn-Keeps : (value : ℕ) → Keeps net os (set_dscp_and_ecn os value)
  unfolding set_dscp_and_ecn
  set_dscp_and_ecn-Keeps value =
      opened_valid-Keeps _ (set_by_family-Keeps "IP_TOS" "IPV6_TCLASS" (pos value))

  set_group-Keeps :
      (group : net.Address) (ifindex : ℕ) (level option : String) (size : ℕ)
      → KeepsValid net os (set_group os group ifindex level option size)
  unfolding live names needs_descriptor
  set_group-Keeps group ifindex level option size s v =
      next-IsTidy (perform os _ s) (λ a. or_return (result_of a) (pure (pos 0)))
        (perform-IsTidy os _ s (record { same = λ a h. refl; own = inr (refl, inr refl) }) v)
        (λ a t x. or_return-IsTidy (result_of a) (pure (pos 0)) t x (pure-Keeps net os (pos 0)))

  group_then-Keeps :
      (group : net.Address) (ifindex : ℕ) (option : String)
      → KeepsValid net os (group_then os group ifindex option)
  group_then-Keeps group ifindex option s v =
      if_io-IsTidy (net.family group == af_inet)
        (set_group os group ifindex "IPPROTO_IP" option sockaddr_in_size) _ s
        (set_group-Keeps group ifindex "IPPROTO_IP" option sockaddr_in_size s v)
        (if_io-IsTidy (net.family group == af_inet6)
          (set_group os group ifindex "IPPROTO_IPV6" option sockaddr_in6_size) (pure einval) s
          (set_group-Keeps group ifindex "IPPROTO_IPV6" option sockaddr_in6_size s v) v)

  pub join_or_leave-Keeps :
      (group : net.Address) (ifindex : ℕ) (op_join : Bool)
      → Keeps net os (join_or_leave_multicast_group os group ifindex op_join)
  unfolding join_or_leave_multicast_group
  join_or_leave-Keeps group ifindex op_join s v = asserts-IsTidy is_valid_socket _ s v (λ e.
      let w = checks v e in
      loosen (
        if_io-IsTidy (not (net.family group == s.addr_family)) (pure einval) _ s w (
          if_io-IsTidy (not (is_address_multicast net group)) (pure einval) _ s w
            (name_then-Keeps ifindex _ (group_then-Keeps group ifindex _) s w))))

  pub join_or_leave_named-Keeps :
      (group : net.Address) (ifname : String) (op_join : Bool)
      → Keeps net os (join_or_leave_named os group ifname op_join)
  unfolding join_or_leave_named
  join_or_leave_named-Keeps group ifname op_join =
      index_then-Keeps ifname _ (λ ifindex. join_or_leave-Keeps group ifindex op_join)

  -- A call on the socket's descriptor that opens and closes nothing.
  transfer-IsTidy :
      {checked : Bool} (call : Call) (s : UdpSocket net)
      → IsPlain checked call s
      → IsTidyIf checked s
      → IsTidyIf checked (transfer os call s).1
  transfer-IsTidy call s p v =
      next-IsTidy (handle_eintr os max_eintr_retries call s) (λ a. pure (result_of a))
        (handle_eintr-IsTidy os max_eintr_retries call s p v) (λ a t w. w)

  with_sender-Keeps : (wanted : Bool) (a : Answer) → Keeps net os (with_sender os wanted a)
  unfolding with_sender
  with_sender-Keeps wanted (failed e) s v = v
  with_sender-Keeps false (returned n out) s v = v
  with_sender-Keeps true (returned n out) s v = elim (Option-cases (to_inet_addr net out)) [
    | inl bad ↦ rw (bad, with_sender) v
    | inr (address, good) ↦ rw (good, with_sender) v
  ]

  pub recv_from-Keeps :
      (size : ℕ) (wanted : Bool) (flags : ℕ) → Keeps net os (recv_from os size wanted flags)
  unfolding recv_from live names needs_descriptor
  recv_from-Keeps size wanted flags s v =
      next-IsTidy (handle_eintr os max_eintr_retries (Call.recvfrom s.sockfd size flags) s)
        (with_sender os wanted)
        (handle_eintr-IsTidy os max_eintr_retries _ s
          (record { same = λ a h. refl; own = inr (refl, inl refl) }) v)
        (with_sender-Keeps wanted)

  pub send_to_impl-Keeps :
      (bytes : List ℕ) (address : Option net.Address) (flags : ℕ)
      → Keeps net os (send_to_impl os bytes address flags)
  unfolding send_to_impl live names needs_descriptor
  send_to_impl-Keeps bytes none flags s v =
      transfer-IsTidy (Call.sendto s.sockfd bytes flags []) s
        (record { same = λ a h. refl; own = inr (refl, inl refl) }) v
  send_to_impl-Keeps bytes (some address) flags s v =
      elim (Option-cases (to_sock_addr net address)) [
        | inl bad ↦ rw (bad, send_to_impl) v
        | inr (sock_addr, good) ↦
            rw (good, send_to_impl)
              (transfer-IsTidy (Call.sendto s.sockfd bytes flags sock_addr) s
                (record { same = λ a h. refl; own = inr (refl, inl refl) }) v)
      ]

  on_valid-Keeps :
      (call : UdpSocket net → Call)
      → ((s : UdpSocket net) → IsPlain true (call s) s)
      → Keeps net os (on_valid os call)
  on_valid-Keeps call p s v =
      asserts-IsTidy is_valid_socket _ s v
        (λ e. loosen (transfer-IsTidy (call s) s (p s) (checks v e)))

  pub recv_mmsg-Keeps : (messages flags : ℕ) → Keeps net os (recv_mmsg os messages flags)
  unfolding recv_mmsg live names
  recv_mmsg-Keeps messages flags =
      on_valid-Keeps _ (λ s. record { same = λ a h. refl; own = inr (refl, inr refl) })

  pub send_mmsg-Keeps : (messages flags : ℕ) → Keeps net os (send_mmsg os messages flags)
  unfolding send_mmsg live names
  send_mmsg-Keeps messages flags =
      on_valid-Keeps _ (λ s. record { same = λ a h. refl; own = inr (refl, inr refl) })

  pub send_msg-Keeps : (flags : ℕ) → Keeps net os (send_msg os flags)
  unfolding send_msg live names
  send_msg-Keeps flags =
      on_valid-Keeps _ (λ s. record { same = λ a h. refl; own = inr (refl, inr refl) })

  pub recv_msg-Keeps : (flags : ℕ) → Keeps net os (recv_msg os flags)
  unfolding recv_msg live names
  recv_msg-Keeps flags =
      on_valid-Keeps _ (λ s. record { same = λ a h. refl; own = inr (refl, inr refl) })
