-- ===== src/Tests/SessionTests.antt =====
-- A session over a window of four bytes.
use cpp_code_blocks.Prelude.{
  arith, ℕ, ◌+◌, ◌≡◌, refl, ap, true, false, ◌++◌, Option, ◌==◌, if◌then◌else◌, List, [], ◌∷◌, none,
  some, leb, le→leb, length,
}
use cpp_code_blocks.Session.Defs.{Ikcp, KcpSession, Operation, closing, updating, writing}
use cpp_code_blocks.Session.Reading.{Inbound, Reader, Receiver, process_packet_in_loop_thread}
use cpp_code_blocks.Session.View.{size_of_first, ReceiveLaws}
use cpp_code_blocks.Session.Inbox.{IsProcessed, process_packet_in_loop_thread-IsProcessed}
use cpp_code_blocks.Session.Writes.{Laws}
use cpp_code_blocks.Session.Threads.{
  Shared, Step, calls_write, calls_process_packet, calls_close_after_ms, runs_task, timer_fires,
}
use cpp_code_blocks.Session.Ends.{IsAnnounced}
use cpp_code_blocks.Session.Start.{
  Setup, Params, current_ms, set_up, lifespan, lifespan-IsAnnounced,
}

-- A stand-in for ikcp: a count of the bytes that wait. Its window has four, but no message more than three.
abbrev counter : Ikcp
counter = record {
  Cb = ℕ;
  is_alive = λ waiting. true;
  flush = λ waiting now. (waiting, 10);
  need_drain = λ waiting. false;
  reach_snd_hghwat = λ waiting. false;
  waitsnd = λ waiting. waiting;
  available_wnd_in_bytes = λ waiting. 4;
  available_sndwnd_in_bytes = λ waiting. 4;
  send = λ waiting bytes. (waiting + length bytes, leb (length bytes) 3);
  append = λ waiting bytes. (waiting + length bytes, true);
}

abbrev counter_laws : Laws counter
counter_laws = record {
  largest = 3;
  takes = λ cb bytes fits short. le→leb (length bytes) 3 short;
  appends = λ cb bytes short. refl;
}

-- A stand-in for ikcp that gives out the packets it was given.
abbrev queue : Ikcp
queue = record {
  Cb = List (List ℕ);
  is_alive = λ cb. true;
  flush = λ cb now. (cb, 10);
  need_drain = λ cb. false;
  reach_snd_hghwat = λ cb. false;
  waitsnd = λ cb. 0;
  available_wnd_in_bytes = λ cb. 4;
  available_sndwnd_in_bytes = λ cb. 4;
  send = λ cb bytes. (cb, true);
  append = λ cb bytes. (cb, true);
}

abbrev take_first : List (List ℕ) → List (List ℕ) × Option (List ℕ)
take_first [] = ([], none)
take_first (m ∷ ms) = (ms, some m)

abbrev inbound : Inbound queue
inbound = record {
  input = λ cb bytes. (cb ++ bytes ∷ [], true);
  peeksize = size_of_first;
  recv = λ cb n. take_first cb;
}

abbrev inbound_laws : ReceiveLaws inbound
inbound_laws = record {
  available = λ cb. cb;
  peeks = λ cb. refl;
  receives = λ cb m ms e. (ap (λ l. (take_first l).1) e, ap (λ l. (take_first l).0) e);
}

-- The user counts the messages, and closes the session at the third.
abbrev reader : Reader
reader = record {
  User = ℕ;
  on_message = λ n bytes. (n + 1, [], if n == 2 then some false else none);
}

abbrev receiver : Receiver inbound reader ℕ
receiver = record {
  session = record {
    kcp = (1 ∷ []) ∷ (2 ∷ 3 ∷ []) ∷ [];
    closed = false;
    state_timer = none;
    effects = [];
    connection_callback = true;
    write_complete_callback = true;
    high_water_mark_callback = false;
  };
  input_buffer = [];
  peer_address = 7;
  message_callback = true;
  user = 0;
}

process_packet_in_loop_thread-IsProcessed_example :
    IsProcessed inbound reader ℕ inbound_laws
      (5 ∷ [])
      9
      receiver
      (process_packet_in_loop_thread inbound reader ℕ 4 100 (5 ∷ []) 9 receiver)
process_packet_in_loop_thread-IsProcessed_example =
    process_packet_in_loop_thread-IsProcessed inbound reader ℕ inbound_laws 4 100 (5 ∷ []) 9
      receiver (omega arith, (omega arith, (omega arith, tt))) (omega arith)

abbrev session : KcpSession counter
session = record {
  kcp = 0;
  closed = false;
  state_timer = none;
  effects = [];
  connection_callback = true;
  write_complete_callback = true;
  high_water_mark_callback = false;
}

abbrev operations : List (Operation counter)
operations = writing 5 (1 ∷ 2 ∷ []) ∷ updating 6 ∷ closing 7 true ∷ closing 8 false ∷ []

abbrev setup : Setup counter
setup = record {
  create = λ conv. some 0;
  stream = λ mode kcp. kcp;
  wndsize = λ snd_wnd rcv_wnd kcp. some kcp;
  setmtu = λ mtu kcp. some kcp;
  set_head_room = λ head_room kcp. some kcp;
  set_snd_hghwat = λ hghwat kcp. some kcp;
  nodelay = λ nodelay interval resend nocongestion kcp. some kcp;
}

abbrev params : Params
params = record {
  snd_wnd = 64;
  rcv_wnd = 128;
  snd_hghwat = 10;
  nodelay = 0;
  interval = 100;
  resend = 0;
  nocongestion = 0;
  mtu = 512;
  head_room = 9;
  stream_mode = 0;
}

made : set_up setup 7 params ≡ some 0
unfolding set_up
made = refl

lifespan-IsAnnounced_example :
    (s : KcpSession counter) × (lifespan setup 7 params true true false
        (current_ms 5_000 2_000)
        operations
      ≡ some s)
    × IsAnnounced counter s
lifespan-IsAnnounced_example =
    lifespan-IsAnnounced setup counter_laws 7 params true true false (current_ms 5_000 2_000)
      operations 0 made (omega arith, (tt, (tt, (tt, tt))))

-- A stand-in for ikcp that has one message of one byte at most.
abbrev slot : Ikcp
slot = record {
  Cb = Option ℕ;
  is_alive = λ cb. true;
  flush = λ cb now. (cb, 10);
  need_drain = λ cb. false;
  reach_snd_hghwat = λ cb. false;
  waitsnd = λ cb. 0;
  available_wnd_in_bytes = λ cb. 2;
  available_sndwnd_in_bytes = λ cb. 2;
  send = λ cb bytes. (cb, leb (length bytes) 3);
  append = λ cb bytes. (cb, true);
}

abbrev slot_send_laws : Laws slot
slot_send_laws = record {
  largest = 3;
  takes = λ cb bytes fits short. le→leb (length bytes) 3 short;
  appends = λ cb bytes short. refl;
}

abbrev messages_of : Option ℕ → List (List ℕ)
messages_of none = []
messages_of (some b) = (b ∷ []) ∷ []

abbrev first_byte : List ℕ → Option ℕ
first_byte [] = none
first_byte (b ∷ rest) = some b

abbrev slot_inbound : Inbound slot
slot_inbound = record {
  input = λ cb bytes. (first_byte bytes, true);
  peeksize = λ cb. size_of_first (messages_of cb);
  recv = λ cb n. (none, (take_first (messages_of cb)).1);
}

slot_receives :
    (cb : Option ℕ) (m : List ℕ) (ms : List (List ℕ))
    → messages_of cb ≡ m ∷ ms
    → ((take_first (messages_of cb)).1 ≡ some m) × (messages_of none ≡ ms)
slot_receives none m ms e = cc
slot_receives (some b) m ms e = (ap (λ l. (take_first l).1) e, ap (λ l. (take_first l).0) e)

abbrev slot_laws : ReceiveLaws slot_inbound
slot_laws = record { available = messages_of; peeks = λ cb. refl; receives = slot_receives }

abbrev shared : Shared slot_inbound reader ℕ
shared = record {
  receiver = record {
    session = record {
      kcp = none;
      closed = false;
      state_timer = none;
      effects = [];
      connection_callback = true;
      write_complete_callback = true;
      high_water_mark_callback = false;
    };
    input_buffer = [];
    peer_address = 7;
    message_callback = true;
    user = 0;
  };
  tasks = [];
  closes = [];
}

-- Two other threads and that of the loop; the session closes in front of the last write.
abbrev interleaved : List (ℕ × Step slot_inbound reader ℕ)
interleaved =
    (1, calls_write 1 (10 ∷ 11 ∷ 12 ∷ []))
    ∷ (2, calls_write 0 (1 ∷ []))
    ∷ (3, calls_close_after_ms true)
    ∷ (4, calls_process_packet 2 (5 ∷ []) 9)
    ∷ (5, runs_task)
    ∷ (6, calls_write 1 (13 ∷ []))
    ∷ (7, runs_task)
    ∷ (8, timer_fires 0)
    ∷ (9, runs_task)
    ∷ (10, calls_write 2 (20 ∷ []))
    ∷ []
