-- ===== src/Tests/WireTests.antt =====
-- Three bytes of a session, with head room, on their way.
use Prim.Native.String.{String}
use cpp_code_blocks.Prelude.{ℕ, ◌≡◌, refl, Bool, true, List, [], ◌∷◌, ◌++◌, some, arith}
use cpp_code_blocks.Prelude.Maps.{contains, find, nat_eq}
use cpp_code_blocks.Server.Loop as Loop
use cpp_code_blocks.Server.TxQueue.{ThreadData, IsQueue, new_thread_data, handed_over}
use cpp_code_blocks.Client.Defs.{KcpClient, ClientEnv, new_client, connected, perform, write}
use cpp_code_blocks.Client.Events.{handle_read}
use cpp_code_blocks.Wire.Output.{server_output, client_output}
use cpp_code_blocks.Wire.Delivered.{
  IsData, packet, handed_to, handed_on, message, server_output-delivered, client_output-delivered,
}
use cpp_code_blocks.Tests.{adler32}
use cpp_code_blocks.Tests.ServerTests.{env, server}

abbrev raw : List ℕ
raw = 0 ∷ 0 ∷ 0 ∷ 0 ∷ 0 ∷ 0 ∷ 0 ∷ 0 ∷ 0 ∷ 65 ∷ 66 ∷ 67 ∷ []

raw-IsData : IsData adler32 raw 7
raw-IsData = record { head_room = omega arith; fits = omega arith; small = omega arith }

abbrev client : KcpClient
client = record new_client { socket = some true; session = some 7; state = connected }

abbrev client_env : ClientEnv
client_env = record { now = 1_000_000; initialize = λ i. true; is_closed = λ i. true }

abbrev any : String → Bool
any address = true

new_thread_data-IsQueue : IsQueue new_thread_data
new_thread_data-IsQueue = record { room = omega arith; full = tt }

server_output-delivered_example :
    (q : ThreadData) × (server_output adler32 any raw 7 "10.0.0.3:5000" new_thread_data ≡ some q)
    × IsQueue q
    × (handed_over q ≡ handed_over new_thread_data ++ (packet adler32 raw 7, "10.0.0.3:5000") ∷ [])
    × (handle_read adler32 true client_env (some (packet adler32 raw 7)) client
        ≡ some (handed_to adler32 raw 7 client_env 7 client))
server_output-delivered_example =
    server_output-delivered adler32 raw 7 any "10.0.0.3:5000" new_thread_data true client_env 7
      client raw-IsData (omega arith) refl new_thread_data-IsQueue refl refl

known : contains 7 server.session_map ≡ true
unfolding contains find
known = refl

client_output-delivered_example :
    (client_output adler32 raw 7 client ≡ some (perform (write (packet adler32 raw 7)) client))
    × (Loop.handle_message adler32 true (message adler32 raw 7 env "10.0.0.3:5000") server
        ≡ some (handed_on adler32 raw 7 "10.0.0.3:5000" server))
client_output-delivered_example =
    client_output-delivered adler32 raw 7 client true env "10.0.0.3:5000" server raw-IsData refl
      known
