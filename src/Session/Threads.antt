-- ===== src/Session/Threads.antt =====
-- kcp/kcp_session.cc: `Write` and `ProcessPacket` as other threads call them, and `CloseAfterMs`. The
-- loop of muduo runs what is queued in order, and a timer at any later time.
use cpp_code_blocks.Prelude.{
  ℕ, zero, suc, Bool, List, [], ◌∷◌, ◌++◌, Option, none, some, ◌==◌, if◌then◌else◌, ◌>>=◌,
}
use cpp_code_blocks.Session.Defs.{Ikcp, KcpSession, Operation, operate, close, write_in_loop_thread}
use cpp_code_blocks.Session.Reading.{Inbound, Reader, Receiver, process_packet_in_loop_thread}

-- Thread 0 is that of the loop.
abbrev pub is_in_loop_thread : ℕ → Bool
is_in_loop_thread thread = thread == 0

-- The timer at place `n`, and the others.
unfoldable pub fire : ℕ → List Bool → Option Bool × List Bool
fire n [] = (none, [])
fire zero (last_flush ∷ timers) = (some last_flush, timers)
fire (suc n) (timer ∷ timers) = let (fired, left) = fire n timers in (fired, timer ∷ left)

module _ {ikcp : Ikcp} (inbound : Inbound ikcp) (reader : Reader) (Address : Type 0) where
  -- What is queued: a clone of the bytes, with the thread that called.
  pub data Task : Type 0 where
    writes : (thread : ℕ) → List ℕ → Task
    processes : List ℕ → Address → Task

  -- `closes` has the timers of `CloseAfterMs`.
  pub record Shared : Type 0 where
    pub receiver : Receiver inbound reader Address
    pub tasks : List Task
    pub closes : List Bool

  abbrev pub set_session : Shared → KcpSession ikcp → Shared
  set_session q s = record q { receiver = record q.receiver { session = s } }

  abbrev pub queue_in_loop : Task → Shared → Shared
  queue_in_loop task q = record q { tasks = q.tasks ++ task ∷ [] }

  abbrev pub write_now : (now : ℕ) → List ℕ → Shared → Option Shared
  write_now now bytes q =
      write_in_loop_thread ikcp now bytes q.receiver.session >>= λ s. some (set_session q s)

  unfoldable pub write : (thread now : ℕ) → List ℕ → Shared → Option Shared
  write thread now bytes q =
      if is_in_loop_thread thread
      then write_now now bytes q
      else some (queue_in_loop (writes thread bytes) q)

  abbrev pub process_now : (fuel now : ℕ) → List ℕ → Address → Shared → Option Shared
  process_now fuel now bytes peer_address q =
      process_packet_in_loop_thread inbound reader Address fuel now bytes peer_address q.receiver
      >>= λ r. some (record q { receiver = r })

  unfoldable pub process_packet : (thread fuel now : ℕ) → List ℕ → Address → Shared → Option Shared
  process_packet thread fuel now bytes peer_address q =
      if is_in_loop_thread thread
      then process_now fuel now bytes peer_address q
      else some (queue_in_loop (processes bytes peer_address) q)

  abbrev pub close_after_ms : (last_flush : Bool) → Shared → Shared
  close_after_ms last_flush q = record q { closes = last_flush ∷ q.closes }

  abbrev pub run_first : (fuel now : ℕ) → List Task → Shared → Option Shared
  run_first fuel now [] q = some q
  run_first fuel now (writes thread bytes ∷ tasks) q =
      write_now now bytes (record q { tasks = tasks })
  run_first fuel now (processes bytes peer_address ∷ tasks) q =
      process_now fuel now bytes peer_address (record q { tasks = tasks })

  abbrev pub close_by : (now : ℕ) → Option Bool × List Bool → Shared → Shared
  close_by now (none, left) q = q
  close_by now (some last_flush, left) q =
      set_session (record q { closes = left }) (close ikcp now last_flush q.receiver.session)

  -- A call from a thread, with what the loop does at its time `now`.
  pub data Step : Type 0 where
    calls_write : (thread : ℕ) → List ℕ → Step
    calls_process_packet : (thread : ℕ) → List ℕ → Address → Step
    calls_close_after_ms : (last_flush : Bool) → Step
    closes_now : (last_flush : Bool) → Step
    updates : Step
    runs_task : Step
    timer_fires : ℕ → Step

  unfoldable pub step : (fuel now : ℕ) → Step → Shared → Option Shared
  unfolding write process_packet fire
  step fuel now (calls_write thread bytes) q = write thread now bytes q
  step fuel now (calls_process_packet thread bytes peer_address) q =
      process_packet thread fuel now bytes peer_address q
  step fuel now (calls_close_after_ms last_flush) q = some (close_after_ms last_flush q)
  step fuel now (closes_now last_flush) q =
      operate ikcp (Operation.closing now last_flush) q.receiver.session >>= λ s.
      some (set_session q s)
  step fuel now updates q =
      operate ikcp (Operation.updating now) q.receiver.session >>= λ s. some (set_session q s)
  step fuel now runs_task q = run_first fuel now q.tasks q
  step fuel now (timer_fires n) q = some (close_by now (fire n q.closes) q)

  -- Each step with its time.
  unfoldable pub steps : (fuel : ℕ) → List (ℕ × Step) → Shared → Option Shared
  unfolding step
  steps fuel [] q = some q
  steps fuel ((now, s) ∷ later) q = step fuel now s q >>= steps fuel later
