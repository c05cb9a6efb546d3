-- ===== src/Socket/Transfer.antt =====
-- kcp/udp_socket.cc: datagrams in and out.
use cpp_code_blocks.Prelude.{ℕ, Bool, false, not, List, [], Option, none, some, if◌then◌else◌}
use cpp_code_blocks.Prelude.Int.{ℤ, pos, negsuc}
use cpp_code_blocks.Socket.Io.{
  Call, Answer, returned, failed, System, Addresses, UdpSocket, Io, pure, ◌>>=◌, asserts,
  is_valid_socket, handle_eintr, max_eintr_retries, result_of, einval, efault,
}
use cpp_code_blocks.Socket.Address.{to_sock_addr, to_inet_addr}
use cpp_code_blocks.Socket.Setup.{Found}

module _ {net : Addresses} (os : System) where
  -- A call on the descriptor, and what it returns, or -errno.
  abbrev pub transfer : Call → Io net ℤ
  transfer call = handle_eintr os max_eintr_retries call >>= λ a. pure (result_of a)

  -- `wanted` says whether the caller asks for the sender's address.
  unfoldable pub with_sender : (wanted : Bool) → Answer → Io net (Found net)
  unfolding to_inet_addr
  with_sender wanted (failed e) = pure (negsuc e, none)
  with_sender wanted (returned n out) =
      if not wanted then pure (pos n, none) else elim (to_inet_addr net out) [
        | none ↦ pure (einval, none)
        | some address ↦ pure (pos n, some address)
      ]

  unfoldable pub recv_from : (size : ℕ) → (wanted : Bool) → (flags : ℕ) → Io net (Found net)
  unfolding handle_eintr with_sender
  recv_from size wanted flags s =
      (handle_eintr os max_eintr_retries (Call.recvfrom s.sockfd size flags) >>= with_sender wanted)
        s

  abbrev pub read : (size : ℕ) → Io net (Found net)
  read size = recv_from size false 0

  unfoldable pub send_to_impl : List ℕ → Option net.Address → (flags : ℕ) → Io net ℤ
  unfolding handle_eintr to_sock_addr
  send_to_impl bytes none flags s = transfer (Call.sendto s.sockfd bytes flags []) s
  send_to_impl bytes (some address) flags s = elim (to_sock_addr net address) [
    | none ↦ (some efault, s)
    | some sock_addr ↦ transfer (Call.sendto s.sockfd bytes flags sock_addr) s
  ]

  abbrev pub write : List ℕ → Io net ℤ
  write bytes = send_to_impl bytes none 0

  abbrev pub send_to : List ℕ → net.Address → (flags : ℕ) → Io net ℤ
  send_to bytes address flags = send_to_impl bytes (some address) flags

  -- The four calls that take message headers.
  abbrev pub on_valid : (UdpSocket net → Call) → Io net ℤ
  on_valid call = asserts is_valid_socket >>= λ _ s. transfer (call s) s

  unfoldable pub recv_mmsg : (messages flags : ℕ) → Io net ℤ
  unfolding handle_eintr
  recv_mmsg messages flags = on_valid (λ s. Call.recvmmsg s.sockfd messages flags)

  unfoldable pub send_mmsg : (messages flags : ℕ) → Io net ℤ
  unfolding handle_eintr
  send_mmsg messages flags = on_valid (λ s. Call.sendmmsg s.sockfd messages flags)

  unfoldable pub send_msg : (flags : ℕ) → Io net ℤ
  unfolding handle_eintr
  send_msg flags = on_valid (λ s. Call.sendmsg s.sockfd flags)

  unfoldable pub recv_msg : (flags : ℕ) → Io net ℤ
  unfolding handle_eintr
  recv_msg flags = on_valid (λ s. Call.recvmsg s.sockfd flags)
