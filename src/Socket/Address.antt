-- ===== src/Socket/Address.antt =====
-- kcp/udp_socket.cc: `SockaddrStorage`, a socket address as its `addr_len` bytes.
use cpp_code_blocks.Prelude.{
  ℕ, Bool, false, ◌||◌, List, Option, none, some, ◌==◌, if◌then◌else◌, length, take,
}
use cpp_code_blocks.Socket.Io.{Addresses, af_inet, af_inet6}

-- kSockaddrInSize and kSockaddrIn6Size, on Linux.
abbrev pub sockaddr_in_size : ℕ
sockaddr_in_size = 16

abbrev pub sockaddr_in6_size : ℕ
sockaddr_in6_size = 28

abbrev pub is_sockaddr_size : ℕ → Bool
is_sockaddr_size n = n == sockaddr_in_size || n == sockaddr_in6_size

-- From the `sockaddr_storage` of the system and its length.
unfoldable pub to_sock_addr_sized : List ℕ → ℕ → Option (List ℕ)
to_sock_addr_sized bytes len = if is_sockaddr_size len then some (take len bytes) else none

module _ (net : Addresses) where
  unfoldable pub to_sock_addr : net.Address → Option (List ℕ)
  to_sock_addr address =
      if net.family address == af_inet
      then some (take sockaddr_in_size (net.sock_addr address))
      else if net.family address == af_inet6
      then some (take sockaddr_in6_size (net.sock_addr address))
      else none

  unfoldable pub to_inet_addr : List ℕ → Option net.Address
  to_inet_addr storage =
      if is_sockaddr_size (length storage) then some (net.of_sock_addr storage) else none

  -- `IsAddressMulticast`
  unfoldable pub is_address_multicast : net.Address → Bool
  is_address_multicast address =
      if net.family address == af_inet
      then net.is_multicast address
      else if net.family address == af_inet6
      then net.is_multicast address
      else false
