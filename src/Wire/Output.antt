-- ===== src/Wire/Output.antt =====
-- The output callbacks that the two `InitializeSession` set: ikcp's data has head room for the header,
-- which is written there.
use Prim.Native.String.{String}
use cpp_code_blocks.Prelude.{
  ℕ, Bool, true, false, List, Option, none, some, ltb, if◌then◌else◌, length,
}
use cpp_code_blocks.Packet.Defs.{
  WriteError, written, unable_write_public_header, unable_write_checksum, data_packet, type_code,
  write_public_header,
}
use cpp_code_blocks.Server.Defs.{max_packet_size}
use cpp_code_blocks.Server.TxQueue.{ThreadData, append_packet}
use cpp_code_blocks.Client.Defs.{KcpClient, write, perform}

-- A packet that could not be written is dropped.
abbrev pub if_written : {S : Type 0} → (List ℕ → S → Option S) → List ℕ × WriteError → S → Option S
if_written send (packet, written) s = send packet s
if_written send (packet, unable_write_public_header) s = some s
if_written send (packet, unable_write_checksum) s = some s

-- `SendDataToWire`; `none` is the use of a null socket. What `Write` returns is only logged.
unfoldable pub send_data_to_wire : List ℕ → KcpClient → Option KcpClient
send_data_to_wire packet s = elim s.socket [
  | none ↦ none
  | some false ↦ some s
  | some true ↦
      if ltb max_packet_size (length packet) then some s else some (perform (write packet) s)
]

module _ (adler32 : List ℕ → ℕ) where
  unfoldable pub data_packet_of : List ℕ → ℕ → List ℕ × WriteError
  unfolding write_public_header type_code
  data_packet_of raw session_id = write_public_header adler32 raw (type_code data_packet) session_id

  unfoldable pub server_output :
      (to_sock_addr : String → Bool) → List ℕ → ℕ → String → ThreadData → Option ThreadData
  unfolding data_packet_of append_packet
  server_output to_sock_addr raw session_id address =
      if_written (λ packet. append_packet to_sock_addr (packet, address))
        (data_packet_of raw session_id)

  unfoldable pub client_output : List ℕ → ℕ → KcpClient → Option KcpClient
  unfolding data_packet_of send_data_to_wire
  client_output raw session_id = if_written send_data_to_wire (data_packet_of raw session_id)
