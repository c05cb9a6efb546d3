-- ===== src/Server/Periodic.antt =====
-- The periodic task keeps the server's invariant.
use Prim.Native.String.{String}
use cpp_code_blocks.Prelude.{
  ℕ, ◌+◌, refl, inl, inr, List, [], ◌∷◌, leb, arith, Bool-cases, Option-cases,
}
use cpp_code_blocks.Prelude.Maps.{Map, find, contains, erase, nat_eq, string_eq}
use cpp_code_blocks.Packet.Defs.{syn_packet}
use cpp_code_blocks.Server.Loop.{
  retire, sweep_session, sweep_all_sessions, sweep_pending, sweep_all_pending, run_periodic_task,
}
use cpp_code_blocks.Server.Defs.{
  KcpServer, KcpPendingSession, KcpSessionPtr, Env, max_syn_retry_times, retried, perform,
  close_session, session_idle, syn_sent_timeout,
}
use cpp_code_blocks.Server.Invariant.{
  IsPending, AllPending, Inv, AllPending-erase, AllPending-assign, perform-Inv, if-Inv,
  send_packet-Inv, SameKeys-erase, SameKeys-drop,
}

retire-Inv :
    (env : Env) (i : ℕ) (s : KcpServer)
    → Inv s
    → Inv (record (retire env i s) { idle_session_map = erase i (retire env i s).idle_session_map })
retire-Inv env i s v = record {
  listed = SameKeys-erase s.idle_session_map s.session_map v.listed i;
  pending = v.pending;
}

sweep_session-Inv : (env : Env) (i : ℕ) (s : KcpServer) → Inv s → Inv (sweep_session env i s)
unfolding sweep_session
sweep_session-Inv env i s v = elim (Option-cases (find i s.idle_session_map)) [
  | inl e ↦
      rw (e, sweep_session)
        (record {
          listed =
              SameKeys-drop s.idle_session_map s.session_map v.listed i
                (unfold contains in rw e refl);
          pending = v.pending;
        })
  | inr (t, e) ↦
      rw (e, sweep_session)
        (if-Inv (leb (t + session_idle) env.now)
          (retire-Inv env i (perform (close_session i) s) (perform-Inv (close_session i) s v))
          (if-Inv (env.is_closed i) (retire-Inv env i s v) v))
]

sweep_all_sessions-Inv :
    (env : Env) (m : Map ℕ KcpSessionPtr) (s : KcpServer) → Inv s → Inv (sweep_all_sessions env m s)
unfolding sweep_all_sessions
sweep_all_sessions-Inv env [] s v = v
sweep_all_sessions-Inv env ((i, session) ∷ m) s v =
    sweep_all_sessions-Inv env m (sweep_session env i s) (sweep_session-Inv env i s v)

module _ (adler32 : List ℕ → ℕ) (env : Env) where
  sweep_pending-Inv :
      (key : String) (p : KcpPendingSession) (s : KcpServer)
      → IsPending key p
      → Inv s
      → Inv (sweep_pending adler32 env key p s)
  unfolding sweep_pending
  sweep_pending-Inv key p s h v = elim (Bool-cases (leb max_syn_retry_times p.retry_times)) [
    | inl spent ↦ rw spent (record {
      listed = v.listed;
      pending = AllPending-erase s.pending_session_map key v.pending;
    })
    | inr again ↦ rw again (
        if-Inv (leb (p.syn_sent_time + syn_sent_timeout) env.now)
          (send_packet-Inv adler32 syn_packet p.session_id p.peer_address _ (record {
            listed = v.listed;
            pending =
                AllPending-assign s.pending_session_map key (retried env.now p)
                  (record { retries = ground arith; addressed = h.addressed }) v.pending;
          }))
          v)
  ]

  pub sweep_all_pending-Inv :
      (m : Map String KcpPendingSession) (s : KcpServer)
      → AllPending m
      → Inv s
      → Inv (sweep_all_pending adler32 env m s)
  unfolding sweep_all_pending
  sweep_all_pending-Inv [] s h v = v
  sweep_all_pending-Inv ((key, p) ∷ m) s h v =
      sweep_all_pending-Inv m (sweep_pending adler32 env key p s) h.1
        (sweep_pending-Inv key p s h.0 v)

  -- The periodic task keeps the invariant: the maps of sessions and of the times of their last packets
  -- have the same keys, and a pending session is stored under its peer's address and has been retried
  -- ten times at most.
  pub run_periodic_task-Inv : (s : KcpServer) → Inv s → Inv (run_periodic_task adler32 env s)
  unfolding run_periodic_task
  run_periodic_task-Inv s v =
      let s1 = sweep_all_pending adler32 env s.pending_session_map s in
      let swept =
        sweep_all_sessions-Inv env s1.session_map s1
          (sweep_all_pending-Inv s.pending_session_map s v.pending v) in
      record { listed = swept.listed; pending = swept.pending }
