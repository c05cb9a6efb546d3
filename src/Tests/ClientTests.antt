-- ===== src/Tests/ClientTests.antt =====
-- A client that has sent its SYN, and the events that follow.
use cpp_code_blocks.Prelude.{◌+◌, ◌≡◌, refl, true, false, List, [], ◌∷◌, none, some, arith}
use cpp_code_blocks.Prelude.Int.{pos}
use cpp_code_blocks.Prelude.Maps.{find, contains, string_eq, nat_eq}
use cpp_code_blocks.Packet.Control.{control_packet}
use cpp_code_blocks.Packet.Defs.{received, syn_packet, ack_packet}
use cpp_code_blocks.Server.Defs.{KcpServer, Env, new_server, generate_session_id}
use cpp_code_blocks.Server.Loop as Loop
use cpp_code_blocks.Client.Defs.{
  disconnect, KcpClient, ClientEnv, ClientPendingSession, new_client, pending,
}
use cpp_code_blocks.Client.Events.{
  Event, connecting, enabling, reading, ticking, firing, disconnecting, run, process_packet,
}
use cpp_code_blocks.Client.Invariant.{Inv, new_client-Inv}
use cpp_code_blocks.Client.Run.{run-Keeps}
use cpp_code_blocks.Client.Handshake.{handshake, Connects}
use cpp_code_blocks.Server.Errors.{ControlMessage}
use cpp_code_blocks.Client.Errors.{handle_error}
use cpp_code_blocks.Client.Handling.{handle_error-disconnect}
use cpp_code_blocks.Tests.{adler32}

abbrev env : ClientEnv
env = record { now = 1_000_000; initialize = λ i. true; is_closed = λ i. false }

-- The client connects, gets no answer, is reset, connects again and is shut down.
abbrev events : List Event
events =
    enabling true
    ∷ connecting env (pos 0 ∷ pos 0 ∷ pos 0 ∷ pos 0 ∷ pos 0 ∷ [])
    ∷ ticking (record env { now = 4_000_000 })
    ∷ reading env (some (control_packet adler32 syn_packet 5))
    ∷ reading env none
    ∷ firing env 1
    ∷ disconnecting
    ∷ []

run-Keeps_example : (s' : KcpClient) × (run adler32 events new_client ≡ some s') × Inv s'
run-Keeps_example = run-Keeps adler32 events new_client new_client-Inv

abbrev first_syn : ClientPendingSession
first_syn = record { session_id = 0; retry_times = 0; syn_sent_time = 1_000_000 }

abbrev waiting_client : KcpClient
waiting_client = record new_client {
  socket = some true;
  pending_session = some first_syn;
  periodic_task_timer = true;
  state = pending;
}

abbrev server_env : Env
server_env = record {
  now = 1_000_000;
  rand_bytes = λ i. some (5 + i);
  initialize = λ i address. true;
  is_closed = λ i. false;
}

unknown : find "10.0.0.2:5000" new_server.pending_session_map ≡ none
unfolding find
unknown = refl

first_identifier : generate_session_id server_env new_server ≡ some 5
unfolding generate_session_id find contains
first_identifier = refl

handshake_example :
    (s1 : KcpServer) × (c1 : KcpClient) × (s2 : KcpServer) × (Loop.process_packet adler32 true
        server_env
        (received (control_packet adler32 syn_packet 0))
        "10.0.0.2:5000"
        new_server
      ≡ some s1)
    × (process_packet adler32 true env
          (received (control_packet adler32 syn_packet 5))
          waiting_client
        ≡ some c1)
    × (Loop.process_packet adler32 true server_env
          (received (control_packet adler32 ack_packet 5))
          "10.0.0.2:5000"
          s1
        ≡ some s2)
    × Connects adler32 true "10.0.0.2:5000" 5 new_server s1 s2 waiting_client c1
handshake_example =
    handshake adler32 true server_env server_env env "10.0.0.2:5000" new_server waiting_client
      first_syn 5 refl refl refl unknown first_identifier refl refl (omega arith) (omega arith)

abbrev refused : ControlMessage
refused = record { level = 0; type = 11; origin = 2; error_type = 3; error_code = 3 }

handle_error-disconnect_example :
    handle_error
      (some (λ e. disconnect adler32))
      (record { truncated = false; bytes = []; controls = refused ∷ [] } ∷ [])
      waiting_client
    ≡ none
handle_error-disconnect_example =
    handle_error-disconnect adler32 waiting_client [] refused [] [] refl refl
