-- ===== src/Client/Run.antt =====
-- No sequence of events stops a client.
use cpp_code_blocks.Prelude.{ℕ, ◌≡◌, ◌∙◌, ap, refl, List, [], ◌∷◌, some, ◌>>=◌, ◌||◌, ltb}
use cpp_code_blocks.Prelude.Maps.{nat_eq}
use cpp_code_blocks.Client.Defs.{KcpClient}
use cpp_code_blocks.Client.Events.{
  tick, Event, connecting, enabling, reading, ticking, firing, disconnecting, step, run,
}
use cpp_code_blocks.Client.Invariant.{Inv, Keeps, kept, if-Keeps}
use cpp_code_blocks.Client.Packets.{handle_read-Keeps}
use cpp_code_blocks.Client.Timers.{
  run_periodic_task-Keeps, disconnect-Keeps, fire_reconnect-Keeps, connect-Keeps,
}

module _ (adler32 : List ℕ → ℕ) where
  step-Keeps : (event : Event) (s : KcpClient) → Inv s → Keeps (step adler32 event s)
  step-Keeps (connecting env results) s v = connect-Keeps adler32 env results s v
  step-Keeps (enabling enabled) s v =
      kept (record { states = v.states; sockets = v.sockets; timers = v.timers })
  step-Keeps (reading env bytes) s v = handle_read-Keeps adler32 env bytes s v
  step-Keeps (ticking env) s v =
      unfold tick in
      if-Keeps (s.periodic_task_timer || ltb 0 s.lost_timers)
        (run_periodic_task-Keeps adler32 env s v) (kept v)
  step-Keeps (firing env timer) s v = fire_reconnect-Keeps adler32 env timer s v
  step-Keeps disconnecting s v = disconnect-Keeps adler32 s v

  -- From a state with the invariant every sequence of events ends, in such a state: no assertion on
  -- the client's own state fails and no null socket is used. The invariant: the state
  -- says which of the two sessions is set, there is a valid socket or nothing is left that would use
  -- one, and at most one timer of a reconnect runs, with a delay of three seconds at most. The
  -- assertions on the packets are compiled out.
  pub run-Keeps :
      (events : List Event) (s : KcpClient)
      → Inv s
      → (s' : KcpClient) × (run adler32 events s ≡ some s') × Inv s'
  unfolding run
  run-Keeps [] s v = (s, refl, v)
  run-Keeps (event ∷ events) s v =
      let first = step-Keeps event s v in
      let rest = run-Keeps events first.after first.inv in
      (rest.0, (ap (λ r. r >>= run adler32 events) first.ends ∙ rest.1), rest.2)
