-- ===== src/Socket/Multicast.antt =====
-- kcp/udp_socket.cc: the options for multicast and for the type of service.
use Prim.Native.String.{String}
use cpp_code_blocks.Prelude.{ℕ, Bool, not, ◌||◌, [], ◌∷◌, ◌==◌, if◌then◌else◌, take}
use cpp_code_blocks.Prelude.Int.{ℤ, pos, negsuc, ltb_ℤ}
use cpp_code_blocks.Socket.Io.{
  Call, Answer, returned, failed, System, Addresses, UdpSocket, Io, pure, ◌>>=◌, asserts,
  is_valid_socket, or_return, perform, result_of, af_unspec, af_inet, af_inet6, einval,
}
use cpp_code_blocks.Socket.Address.{is_address_multicast, sockaddr_in_size, sockaddr_in6_size}
use cpp_code_blocks.Socket.Setup.{set_then, by_family}

module _ {net : Addresses} (os : System) where
  -- The two assertions of the methods below.
  abbrev pub opened_then : Io net ℤ → Io net ℤ
  opened_then k =
      asserts is_valid_socket >>= λ _. asserts (λ s. not (s.addr_family == af_unspec)) >>= λ _. k

  -- `setsockopt` at the level and the option of the socket's family.
  abbrev pub set_by_family : String → String → ℤ → Io net ℤ
  set_by_family option option6 value s =
      set_then os (by_family os "IPPROTO_IP" "IPPROTO_IPV6" s) (by_family os option option6 s)
        (value ∷ []) (pure (pos 0)) s

  -- `if_indextoname` fails, or `k`.
  abbrev pub name_then : ℕ → Io net ℤ → Io net ℤ
  name_then ifindex k =
      if ifindex == 0
      then k
      else (perform os (Call.if_indextoname ifindex) >>= λ a. or_return (result_of a) k)

  unfoldable pub set_multicast_if : ℕ → Io net ℤ
  unfolding perform
  set_multicast_if ifindex =
      opened_then
        (name_then ifindex (set_by_family "IP_MULTICAST_IF" "IPV6_MULTICAST_IF" (pos ifindex)))

  -- The index of an interface by its name, 0 being an error, or -errno.
  abbrev pub on_index : (ℕ → Io net ℤ) → Answer → Io net ℤ
  on_index k (failed e) = pure (negsuc e)
  on_index k (returned ifindex out) = k ifindex

  abbrev pub index_then : String → (ℕ → Io net ℤ) → Io net ℤ
  index_then ifname k = perform os (Call.if_nametoindex ifname) >>= on_index k

  unfoldable pub set_multicast_if_named : String → Io net ℤ
  unfolding perform set_multicast_if
  set_multicast_if_named ifname = opened_then (index_then ifname set_multicast_if)

  abbrev pub is_bad_ttl : ℤ → UdpSocket net → Bool
  is_bad_ttl ttl s = ltb_ℤ ttl (by_family os (pos 0) (negsuc 0) s) || ltb_ℤ (pos 255) ttl

  unfoldable pub set_multicast_ttl : ℤ → Io net ℤ
  unfolding perform
  set_multicast_ttl ttl = opened_then (λ s.
      (if is_bad_ttl ttl s
          then pure einval
          else set_by_family "IP_MULTICAST_TTL" "IPV6_MULTICAST_HOPS" ttl)
        s)

  unfoldable pub set_multicast_loop : Bool → Io net ℤ
  unfolding perform
  set_multicast_loop loop =
      opened_then
        (set_by_family "IP_MULTICAST_LOOP" "IPV6_MULTICAST_LOOP" (if loop then pos 1 else pos 0))

  unfoldable pub set_dscp_and_ecn : ℕ → Io net ℤ
  unfolding perform
  set_dscp_and_ecn dscp_and_ecn =
      opened_then (set_by_family "IP_TOS" "IPV6_TCLASS" (pos dscp_and_ecn))

  -- `setsockopt` with the `group_req`.
  abbrev pub set_group : net.Address → ℕ → (level option : String) → (size : ℕ) → Io net ℤ
  set_group group ifindex level option size s =
      (perform os (Call.set_group s.sockfd level option ifindex (take size (net.sock_addr group)))
          >>= λ a. or_return (result_of a) (pure (pos 0)))
        s

  -- -EINVAL for a family that is neither of the two.
  abbrev pub group_then : net.Address → ℕ → String → Io net ℤ
  group_then group ifindex option =
      if net.family group == af_inet
      then set_group group ifindex "IPPROTO_IP" option sockaddr_in_size
      else if net.family group == af_inet6
      then set_group group ifindex "IPPROTO_IPV6" option sockaddr_in6_size
      else pure einval

  unfoldable pub join_or_leave_multicast_group : net.Address → ℕ → Bool → Io net ℤ
  unfolding perform is_address_multicast
  join_or_leave_multicast_group group ifindex op_join = asserts is_valid_socket >>= λ _ s.
      (if not (net.family group == s.addr_family)
          then pure einval
          else if not (is_address_multicast net group)
          then pure einval
          else name_then ifindex (
              group_then group ifindex
                (if op_join then "MCAST_JOIN_GROUP" else "MCAST_LEAVE_GROUP")))
        s

  -- `JoinMulticastGroup` and `LeaveMulticastGroup` with the name of an interface.
  unfoldable pub join_or_leave_named : net.Address → String → Bool → Io net ℤ
  unfolding perform join_or_leave_multicast_group
  join_or_leave_named group ifname op_join =
      index_then ifname (λ ifindex. join_or_leave_multicast_group group ifindex op_join)
