-- ===== src/Tests/ServerTests.antt =====
-- A server with a client that waits and a session, and the packets that it takes.
use cpp_code_blocks.Prelude.{
  ℕ, ◌+◌, ◌*◌, ◌-◌, ◌≤◌, length, ◌<◌, ◌≡◌, ◌⊎◌, inr, refl, true, false, List, [], ◌∷◌, ◌++◌, some,
  none, take, drop, arith, map,
}
use cpp_code_blocks.Prelude.Maps.{find, contains, insert, nat_eq, string_eq}
use cpp_code_blocks.Packet.Control.{header_buffer, control_packet}
use cpp_code_blocks.Packet.Defs.{received, empty_header, read_public_header, ack_packet}
use cpp_code_blocks.Server.Defs.{
  KcpServer, KcpPendingSession, Env, new_server, generate_session_id, process_ack_packet, establish,
}
use cpp_code_blocks.Server.Loop.{
  Message, handle_read, process_packet, run_periodic_task, sweep_session, sweep_all_sessions,
  sweep_pending, sweep_all_pending,
}
use cpp_code_blocks.Server.Batches.{RecvMmsg, IsNonblocking, read_batches, read_batches-handle_read}
use cpp_code_blocks.Server.Invariant.{Inv, process_packet-Inv}
use cpp_code_blocks.Server.Periodic.{run_periodic_task-Inv}
use cpp_code_blocks.Server.Handshake.{process_packet-control_packet}
use cpp_code_blocks.Server.Safety.{generate_session_id-IsFree, process_packet-made}
use cpp_code_blocks.Server.Liveness.{run_all, run_all-abandoned}
use cpp_code_blocks.Server.Expiry.{run_periodic_task-IsFresh, IsFreshEntry, AllYoung}
use cpp_code_blocks.Server.TxQueue.{
  ThreadData, new_thread_data, IsQueue, Datagram, append_all, handed_over, accepted,
  append_all-handed_over,
}
use cpp_code_blocks.Server.Errors.{ControlMessage, handle_error, destroy}
use cpp_code_blocks.Server.Reported.{Failed, returned, reports, with_effects, handle_error-reports}
use cpp_code_blocks.Server.Ending.{closing_of, destroy_ends}
use cpp_code_blocks.Tests.{adler32}

-- The server at second 100: one client waits with the identifier 5, and the session 7 is there.
abbrev pub env : Env
env = record {
  now = 100_000_000;
  rand_bytes = λ i. some (7 + i);
  initialize = λ session_id address. true;
  is_closed = λ session_id. false;
}

abbrev waiting : KcpPendingSession
waiting = record {
  session_id = 5;
  retry_times = 0;
  syn_received_time = 99_000_000;
  syn_sent_time = 99_000_000;
  peer_address = "10.0.0.2:5000";
}

abbrev pub server : KcpServer
server = record new_server {
  pending_session_map = ("10.0.0.2:5000", waiting) ∷ [];
  session_map = (7, record { session_id = 7; peer_address = "10.0.0.3:5000" }) ∷ [];
  idle_session_map = (7, 98_000_000) ∷ [];
}

server-Inv : Inv server
unfolding contains find
server-Inv = record {
  listed = λ i. ground arith;
  pending = (record { retries = omega arith; addressed = refl }, tt);
}

generate_session_id_test : generate_session_id env server ≡ some 8
unfolding generate_session_id contains find
generate_session_id_test = refl

generate_session_id-IsFree_example :
    (contains 8 server.session_map ≡ false) × (contains 8 server.time_wait_session_map ≡ false)
generate_session_id-IsFree_example =
    generate_session_id-IsFree env server 8 generate_session_id_test

process_packet-control_packet_example :
    process_packet adler32 true env
      (received (control_packet adler32 ack_packet 5))
      "10.0.0.2:5000"
      server
    ≡ some (process_ack_packet adler32 env 5 "10.0.0.2:5000" server)
process_packet-control_packet_example =
    process_packet-control_packet adler32 true env "10.0.0.2:5000" server ack_packet 5 (omega arith)
      refl

abbrev after_ack : KcpServer
after_ack = process_ack_packet adler32 env 5 "10.0.0.2:5000" server

process_packet-Inv_example : Inv after_ack
process_packet-Inv_example =
    process_packet-Inv adler32 true env (received (control_packet adler32 ack_packet 5))
      "10.0.0.2:5000" server after_ack process_packet-control_packet_example server-Inv

new_key : contains 5 server.session_map ≡ false
unfolding contains find
new_key = refl

made_key : contains 5 after_ack.session_map ≡ true
unfolding contains find process_ack_packet establish insert
made_key = refl

process_packet-made_example :
    let i =
      (read_public_header adler32
        (received (control_packet adler32 ack_packet 5))
        empty_header).header.session_id in
    (contains 5 server.session_map ≡ true)
    ⊎ ((5 ≡ i)
        × (contains "10.0.0.2:5000" server.pending_session_map ≡ true)
        × (env.initialize i "10.0.0.2:5000" ≡ true))
process_packet-made_example =
    process_packet-made adler32 env "10.0.0.2:5000" server true
      (received (control_packet adler32 ack_packet 5)) after_ack 5
      process_packet-control_packet_example made_key

run_periodic_task-Inv_example : Inv (run_periodic_task adler32 env server)
run_periodic_task-Inv_example = run_periodic_task-Inv adler32 env server server-Inv

kept_key : find 7 (run_periodic_task adler32 env server).idle_session_map ≡ some 98_000_000
unfolding find run_periodic_task sweep_all_pending sweep_pending sweep_all_sessions sweep_session
kept_key = refl

run_periodic_task-IsFresh_example :
    IsFreshEntry env 7 (find 7 (run_periodic_task adler32 env server).idle_session_map)
    × AllYoung env (run_periodic_task adler32 env server).time_wait_session_map
run_periodic_task-IsFresh_example = run_periodic_task-IsFresh env adler32 server 7 server-Inv

abbrev datagrams : List Datagram
datagrams = (1 ∷ 2 ∷ [], "10.0.0.2:5000") ∷ (3 ∷ [], "10.0.0.3:5000") ∷ []

new_thread_data-IsQueue : IsQueue new_thread_data
new_thread_data-IsQueue = record { room = omega arith; full = tt }

append_all-handed_over_example :
    (d' : ThreadData) × (append_all (λ address. true) datagrams new_thread_data ≡ some d')
    × IsQueue d'
    × (handed_over d' ≡ handed_over new_thread_data ++ accepted (λ address. true) datagrams)
append_all-handed_over_example =
    append_all-handed_over (λ address. true) datagrams new_thread_data new_thread_data-IsQueue

-- Eleven runs, two seconds apart.
abbrev at_second : ℕ → Env
at_second n = record env { now = n * 1_000_000 }

abbrev eleven_runs : List Env
eleven_runs =
    at_second 101
    ∷ at_second 103
    ∷ at_second 105
    ∷ at_second 107
    ∷ at_second 109
    ∷ at_second 111
    ∷ at_second 113
    ∷ at_second 115
    ∷ at_second 117
    ∷ at_second 119
    ∷ at_second 121
    ∷ []

run_all-abandoned_example :
    contains "10.0.0.2:5000" (run_all adler32 eleven_runs server).pending_session_map ≡ false
run_all-abandoned_example =
    run_all-abandoned adler32 eleven_runs "10.0.0.2:5000" 99_000_000 server server-Inv
      (inr (omega arith, omega arith), tt)
      (
        omega arith,
        (
          omega arith,
          (
            omega arith,
            (
              omega arith,
              (
                omega arith,
                (
                  omega arith,
                  (omega arith, (omega arith, (omega arith, (omega arith, (omega arith, tt))))),
                ),
              ),
            ),
          ),
        ),
      )
      (omega arith)

-- A port that cannot be reached, and an error of the host's own.
abbrev unreachable : ControlMessage
unreachable = record { level = 0; type = 11; origin = 2; error_type = 3; error_code = 3 }

abbrev local_error : ControlMessage
local_error = record { level = 0; type = 11; origin = 1; error_type = 0; error_code = 0 }

-- A PONG of the session 7, and a SYN to a client that waits.
abbrev failed_datagrams : List Failed
failed_datagrams =
    record {
      buffer = header_buffer;
      packet_type = 4;
      session_id = 7;
      controls = local_error ∷ unreachable ∷ [];
    }
    ∷ record {
      buffer = header_buffer;
      packet_type = 0;
      session_id = 5;
      controls = unreachable ∷ [];
    }
    ∷ []

handle_error-reports_example :
    handle_error (map (returned adler32) failed_datagrams) server
    ≡ with_effects adler32 server (reports server failed_datagrams)
handle_error-reports_example = handle_error-reports adler32 failed_datagrams server (
  record { room = omega arith; type_fits = omega arith; session_fits = omega arith },
  (record { room = omega arith; type_fits = omega arith; session_fits = omega arith }, tt),
)

-- The only session is closed when the destructor looks for the second time.
destroy_ends_example :
    let d = destroy (λ i. i) server in
    (d.server ≡ record server { effects = server.effects ++ map closing_of server.session_map })
    × (d.looks ≤ 100_000)
    × ((1 < length server.session_map) ⊎ (d.looks ≤ 2))
    × (d.num_unclosed_sessions ≤ length server.session_map - 1)
destroy_ends_example = destroy_ends (λ i. i) server 1 (λ i j h. h) (omega arith)

-- Seventeen datagrams, one more than the array has room for.
abbrev ack_message : Message adler32
ack_message = record {
  env = env;
  bytes = control_packet adler32 ack_packet 5;
  sender = some "10.0.0.2:5000";
}

abbrev nobody : Message adler32
nobody = record { env = env; bytes = []; sender = none }

abbrev eight : List (Message adler32)
eight = nobody ∷ nobody ∷ nobody ∷ nobody ∷ nobody ∷ nobody ∷ nobody ∷ nobody ∷ []

recv_mmsg : RecvMmsg adler32
recv_mmsg n [] = none
recv_mmsg n (x ∷ xs) = some (take n (x ∷ xs), drop n (x ∷ xs))

recv_mmsg-IsNonblocking : IsNonblocking adler32 recv_mmsg
unfolding recv_mmsg
recv_mmsg-IsNonblocking = record { nothing = λ n. refl; something = λ n x queue. refl }

read_batches-handle_read_example :
    read_batches adler32 true recv_mmsg 18 (eight ++ eight ++ ack_message ∷ []) server
    ≡ handle_read adler32 true (eight ++ eight ++ ack_message ∷ []) server
read_batches-handle_read_example =
    read_batches-handle_read adler32 true recv_mmsg 18 (eight ++ eight ++ ack_message ∷ []) server
      recv_mmsg-IsNonblocking (omega arith)
