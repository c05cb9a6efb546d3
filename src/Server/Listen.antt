-- ===== src/Server/Listen.antt =====
-- kcp/kcp_server.cc: `Listen`, on a new socket.
use cpp_code_blocks.Prelude.{true}
use cpp_code_blocks.Prelude.Int.{ℤ, pos, negsuc}
use cpp_code_blocks.Socket.Io.{System, Addresses, Io, pure, ◌>>=◌, or_return}
use cpp_code_blocks.Socket.Setup.{allow, bind, set_buffer_size, get_local_address, close}

-- kSocketReceiveBuffer and kSocketSendBuffer
abbrev pub socket_receive_buffer : ℤ
socket_receive_buffer = pos 1_400_000

abbrev pub socket_send_buffer : ℤ
socket_send_buffer = pos 44_800

module _ {net : Addresses} (os : System) where
  -- `if (rc < 0) { ...; return rc; }` before `k`.
  abbrev pub check : Io net ℤ → Io net ℤ → Io net ℤ
  check m k = m >>= λ rc. or_return rc k

  -- The address found is kept in the socket; `server_address_` is a copy of it.
  abbrev pub find_address : Io net ℤ
  find_address = get_local_address os >>= λ found. pure found.0

  abbrev pub take_address : Io net ℤ
  take_address = check find_address (pure (pos 0))

  abbrev pub size_and_address : Io net ℤ
  size_and_address = check (set_buffer_size os "SO_SNDBUF" socket_send_buffer) take_address

  abbrev pub after_bind : Io net ℤ
  after_bind = check (set_buffer_size os "SO_RCVBUF" socket_receive_buffer) size_and_address

  -- The local socket, up to `socket_ = std::move(socket)`.
  unfoldable pub prepare : net.Address → Io net ℤ
  unfolding allow bind set_buffer_size get_local_address
  prepare address =
      allow os (λ o. record o { receive_error = true }) >>= λ _. check (bind os address) after_bind

  -- A socket that is not taken over is destroyed, which closes it.
  unfoldable pub unless_taken : ℤ → Io net ℤ
  unfolding close
  unless_taken (pos n) = pure (pos n)
  unless_taken (negsuc e) = close os >>= λ _. pure (negsuc e)

  -- `Listen`, as far as the socket; what comes behind it cannot fail.
  unfoldable pub listen : net.Address → Io net ℤ
  unfolding prepare unless_taken
  listen address = prepare address >>= unless_taken
