-- ===== src/Client/Timers.antt =====
-- `Connect`, `Disconnect` and a client's timers keep the invariant and end.
use cpp_code_blocks.Prelude.{
  ℕ, ◌+◌, ◌≡◌, ◌∙◌, ap, sym, refl, ◌⊎◌, inl, inr, true, false, List, [], ◌∷◌, none, some, leb,
  if◌then◌else◌, arith, Option-cases,
}
use cpp_code_blocks.Prelude.Int.{ℤ}
use cpp_code_blocks.Prelude.Maps.{find, contains, erase, nat_eq}
use cpp_code_blocks.Packet.Control.{control_packet}
use cpp_code_blocks.Packet.Defs.{syn_packet, rst_packet, ping_packet}
use cpp_code_blocks.Client.Defs.{
  pending, connected, ClientPendingSession, write, KcpClient, ClientEnv, perform, reset_session,
  send_packet, build_session, run_periodic_task, shut_down, disconnect, client_max_syn_retry_times,
  client_syn_sent_timeout, client_session_idle, client_ping_interval, is_over, retry, await,
  flush_and_close_session,
}
use cpp_code_blocks.Client.Events.{first_failure, timed, connect, fire_reconnect, connecting, step}
use cpp_code_blocks.Client.Invariant.{
  IsState, IsTimer, Inv, Keeps, kept, by_end, if-Keeps, if-Keeps-by, socket_of, reset_session-Keeps,
  send_packet_lem, send_packet-Keeps,
}

module _ (adler32 : List ℕ → ℕ) where
  -- What `BuildSession` does to the parts of the invariant.
  record Builds (env : ClientEnv) (s : KcpClient) : Type 0 where
    after : KcpClient
    ends : build_session adler32 env s ≡ some after
    states : IsState after
    socket : after.socket ≡ some true
    registered : after.reconnect_timer_registered ≡ s.reconnect_timer_registered
    timer : after.reconnect_timer ≡ s.reconnect_timer
    timers : after.reconnect_timers ≡ s.reconnect_timers

  unchanged :
      (env : ClientEnv) (s : KcpClient)
      → s.socket ≡ some true
      → IsState s
      → (s.state ≡ pending) ⊎ (s.state ≡ connected)
      → Builds env s
  unfolding build_session
  unchanged env s e states active = record {
    after = s;
    ends = ground arith;
    states = states;
    socket = e;
    registered = refl;
    timer = refl;
    timers = refl;
  }

  build_session-Builds :
      (env : ClientEnv) (s : KcpClient) → s.socket ≡ some true → IsState s → Builds env s
  unfolding build_session
  build_session-Builds env s e states = elim states [
    | inl (at, waits, there) ↦
        let sent = send_packet_lem adler32 syn_packet 0 s e in
        record {
          after = await env (perform (write (control_packet adler32 syn_packet 0)) s);
          ends = ground (arith, sent);
          states = inr (inl (_, refl, refl, there, omega arith));
          socket = e;
          registered = refl;
          timer = refl;
          timers = refl;
        }
    | inr (inl h) ↦ unchanged env s e (inr (inl h)) (inl (h.1))
    | inr (inr h) ↦ unchanged env s e (inr (inr h)) (inr (h.1))
  ]

  -- What the periodic task comes to in each state.
  pending_lem :
      (env : ClientEnv) (s : KcpClient) (p : ClientPendingSession)
      → s.state ≡ pending
      → s.pending_session ≡ some p
      → run_periodic_task adler32 env s ≡ (
          if leb client_max_syn_retry_times p.retry_times
          then reset_session s
          else if leb (p.syn_sent_time + client_syn_sent_timeout) env.now
          then send_packet adler32 syn_packet p.session_id (retry env p s)
          else some s)
  unfolding run_periodic_task
  pending_lem env s p at there = ground arith

  connected_lem :
      (env : ClientEnv) (s : KcpClient) (own : ℕ)
      → s.state ≡ connected
      → s.session ≡ some own
      → run_periodic_task adler32 env s ≡ (
          if is_over env s.last_received_time client_session_idle
          then reset_session s
          else if env.is_closed own
          then reset_session s
          else if is_over env s.last_ping_time client_ping_interval
          then send_packet adler32 ping_packet own s
          else some s)
  unfolding run_periodic_task
  connected_lem env s own at there = ground arith

  retry-Inv :
      (env : ClientEnv) (p : ClientPendingSession) (s : KcpClient)
      → s.state ≡ pending
      → s.session ≡ none
      → leb client_max_syn_retry_times p.retry_times ≡ false
      → Inv s
      → Inv (retry env p s)
  retry-Inv env p s at gone again v = record {
    states = inr (inl (_, at, refl, gone, ground arith));
    sockets = v.sockets;
    timers = v.timers;
  }

  pub run_periodic_task-Keeps :
      (env : ClientEnv) (s : KcpClient) → Inv s → Keeps (run_periodic_task adler32 env s)
  unfolding run_periodic_task
  run_periodic_task-Keeps env s v = elim v.states [
    | inl h ↦ by_end (ground arith) v
    | inr (inl (p, at, there, gone, few)) ↦
        let e = socket_of s v (inl at) in
        rw (pending_lem env s p at there) (
          if-Keeps-by (leb client_max_syn_retry_times p.retry_times)
            (λ _. reset_session-Keeps s v e)
            (λ again.
              if-Keeps (leb (p.syn_sent_time + client_syn_sent_timeout) env.now)
                (send_packet-Keeps adler32 syn_packet p.session_id (retry env p s) e
                  (retry-Inv env p s at gone again v))
                (kept v)))
    | inr (inr (own, at, none_waits, there)) ↦
        let e = socket_of s v (inr at) in
        rw (connected_lem env s own at there) (
          if-Keeps (is_over env s.last_received_time client_session_idle)
            (reset_session-Keeps s v e)
            (if-Keeps (env.is_closed own) (reset_session-Keeps s v e) (
              if-Keeps (is_over env s.last_ping_time client_ping_interval)
                (send_packet-Keeps adler32 ping_packet own s e v) (kept v))))
  ]

  shut_down-Inv :
      (s : KcpClient) → s.pending_session ≡ none → s.session ≡ none → IsTimer s → Inv (shut_down s)
  unfolding shut_down erase
  shut_down-Inv s waits there timers =
      let no_timers : erase s.reconnect_timer s.reconnect_timers ≡ [] = ground arith in
      record {
        states = inl (refl, waits, there);
        sockets = inr (refl, refl, refl, no_timers);
        timers = inl (refl, no_timers);
      }

  pub disconnect-Keeps : (s : KcpClient) → Inv s → Keeps (disconnect adler32 s)
  unfolding disconnect
  disconnect-Keeps s v = elim v.states [
    | inl (at, waits, there) ↦
        by_end {s = shut_down s} (ground arith) (shut_down-Inv s waits there v.timers)
    | inr (inl (p, at, waits, there, few)) ↦
        by_end {s = shut_down (record s { pending_session = none })} (ground arith)
          (shut_down-Inv (record s { pending_session = none }) refl there v.timers)
    | inr (inr (own, at, waits, there)) ↦
        let rst = write (control_packet adler32 rst_packet own) in
        let t = perform rst (perform (flush_and_close_session own) s) in
        let sent =
          send_packet_lem adler32 rst_packet own (perform (flush_and_close_session own) s)
            (socket_of s v (inr at)) in
        by_end {s = shut_down (record t { session = none })} (ground (arith, sent))
          (shut_down-Inv (record t { session = none }) waits refl v.timers)
  ]

  -- A timer that runs is the one of `reconnect_timer`.
  only_timer :
      (timer : ℕ) (s : KcpClient)
      → IsTimer s
      → contains timer s.reconnect_timers ≡ true
      → erase timer s.reconnect_timers ≡ []
  unfolding contains find erase
  only_timer timer s timers runs = ground arith

  absurd_timer :
      (timer : ℕ) (s : KcpClient)
      → s.reconnect_timers ≡ []
      → contains timer s.reconnect_timers ≡ true
      → s.socket ≡ some true
  unfolding contains find
  absurd_timer timer s idle runs = ground (arith, idle)

  pub fire_reconnect-Keeps :
      (env : ClientEnv) (timer : ℕ) (s : KcpClient)
      → Inv s
      → Keeps (fire_reconnect adler32 env timer s)
  unfolding fire_reconnect
  fire_reconnect-Keeps env timer s v =
      if-Keeps-by (contains timer s.reconnect_timers)
        (λ runs.
          let e : s.socket ≡ some true = elim v.sockets [
            | inl e ↦ e
            | inr (gone, at, stopped, idle) ↦ absurd_timer timer s idle runs
          ] in
          let b =
            build_session-Builds env
              (record s { reconnect_timers = erase timer s.reconnect_timers }) e v.states in
          by_end {s = record b.after { reconnect_timer_registered = false }}
            (ground (arith, b.ends))
            (record {
              states = b.states;
              sockets = inl b.socket;
              timers = inl (refl, b.timers ∙ only_timer timer s v.timers runs);
            }))
        (λ _. kept v)

  pub connect-Keeps :
      (env : ClientEnv) (results : List ℤ) (s : KcpClient)
      → Inv s
      → Keeps (step adler32 (connecting env results) s)
  unfolding connect
  connect-Keeps env results s v = elim (Option-cases (first_failure results)) [
    | inr (rc, e) ↦ by_end (ground (arith, e)) v
    | inl e ↦
        let b = build_session-Builds env (record s { socket = some true }) refl v.states in
        by_end {s = timed adler32 b.after} (ground (arith, b.ends, e)) (record {
          states = b.states;
          sockets = inl b.socket;
          timers = elim v.timers [
            | inl h ↦ inl (b.registered ∙ h.0, b.timers ∙ h.1)
            | inr (delay, on, only, short) ↦ inr (
              delay,
              b.registered ∙ on,
              b.timers ∙ only ∙ ap (λ t. (t, delay) ∷ []) (sym b.timer),
              short,
            )
          ];
        })
  ]
