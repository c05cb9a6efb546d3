-- ===== src/Server/Liveness.antt =====
-- kcp/kcp_server.cc: the runs of the periodic task that a client has to finish its handshake.
use Prim.Native.String.{String}
use cpp_code_blocks.Prelude.{
  ℕ, suc, ◌+◌, ◌≤◌, ◌<◌, ◌≡◌, ◌∙◌, sym, subst, refl, inl, inr, true, false, List, [], ◌∷◌, length,
  arith, Bool-cases,
}
use cpp_code_blocks.Prelude.Maps.{Map, find, contains, nat_eq, string_eq}
use cpp_code_blocks.Server.Invariant.{Inv, AllPending}
use cpp_code_blocks.Server.Periodic.{run_periodic_task-Inv}
use cpp_code_blocks.Server.Loop.{
  sweep_pending, sweep_all_pending, sweep_session, sweep_all_sessions, run_periodic_task,
}
use cpp_code_blocks.Server.Defs.{
  KcpServer, KcpPendingSession, KcpSessionPtr, Env, max_syn_retry_times, syn_sent_timeout, retried,
}
use cpp_code_blocks.Server.Abandon.{IsLate, AllLate, other_round, own_round}

module _ (adler32 : List ℕ → ℕ) (env : Env) (k : String) (n t : ℕ) where
  retried-IsLate :
      (j : String) (p : KcpPendingSession)
      → IsLate k n t j p
      → IsLate k (suc n) env.now j (retried env.now p)
  retried-IsLate j p (inl other) = inl other
  retried-IsLate j p (inr (more, sent)) = inr (omega (arith, more), omega arith)

  -- The rounds for a list of entries, once the client's own round is past.
  sweep_rest :
      (m : Map String KcpPendingSession) (s : KcpServer)
      → AllLate k n t m
      → AllLate k (suc n) env.now s.pending_session_map
      → AllLate k (suc n) env.now (sweep_all_pending adler32 env m s).pending_session_map
  unfolding sweep_all_pending
  sweep_rest [] s v w = w
  sweep_rest ((j, p) ∷ m) s (v, vs) w =
      sweep_rest m (sweep_pending adler32 env j p s) vs
        (other_round adler32 env j p s k (suc n) env.now (retried-IsLate j p v) w)

  sweep_first :
      (m : Map String KcpPendingSession) (s : KcpServer)
      → AllLate k n t m
      → t + syn_sent_timeout ≤ env.now
      → contains k m ≡ true
      → AllLate k (suc n) env.now (sweep_all_pending adler32 env m s).pending_session_map
  unfolding sweep_all_pending contains find
  sweep_first [] s v past there = absurd (ground (arith, there))
  sweep_first ((j, p) ∷ m) s (inl other, vs) past there =
      sweep_first m (sweep_pending adler32 env j p s) vs past (ground (arith, other, there))
  sweep_first ((j, p) ∷ m) s (inr (more, sent), vs) past there =
      elim (Bool-cases (string_eq.beq j k)) [
        | inl same ↦
            let e : j ≡ k = ground (arith, string_eq.beq_iff j k, same) in
            sweep_rest m (sweep_pending adler32 env j p s) vs
              (own_round adler32 env j p s k n t e more sent past)
        | inr other ↦
            sweep_first m (sweep_pending adler32 env j p s) vs past (ground (arith, other, there))
      ]

absent-AllLate :
    (k : String) (n t : ℕ) (m : Map String KcpPendingSession)
    → contains k m ≡ false
    → AllLate k n t m
unfolding contains find
absent-AllLate k n t [] gone = tt
absent-AllLate k n t ((j, p) ∷ m) gone = elim (Bool-cases (string_eq.beq j k)) [
  | inl same ↦ absurd (ground (arith, same, gone))
  | inr other ↦ (inl other, absent-AllLate k n t m (ground (arith, other, gone)))
]

-- The second loop leaves the pending sessions alone.
sweep_session_pending :
    (env : Env) (i : ℕ) (s : KcpServer)
    → (sweep_session env i s).pending_session_map ≡ s.pending_session_map
unfolding sweep_session
sweep_session_pending env i s = ground arith

sweep_all_sessions_pending :
    (env : Env) (m : Map ℕ KcpSessionPtr) (s : KcpServer)
    → (sweep_all_sessions env m s).pending_session_map ≡ s.pending_session_map
unfolding sweep_all_sessions
sweep_all_sessions_pending env [] s = refl
sweep_all_sessions_pending env ((i, session) ∷ m) s =
    sweep_all_sessions_pending env m (sweep_session env i s) ∙ sweep_session_pending env i s

module _ (adler32 : List ℕ → ℕ) where
  run_late :
      (env : Env) (k : String) (n t : ℕ) (s : KcpServer)
      → AllLate k n t s.pending_session_map
      → t + syn_sent_timeout ≤ env.now
      → AllLate k (suc n) env.now (run_periodic_task adler32 env s).pending_session_map
  unfolding run_periodic_task
  run_late env k n t s v past =
      let m = s.pending_session_map in
      let s1 = sweep_all_pending adler32 env m s in
      subst (AllLate k (suc n) env.now) (sym (sweep_all_sessions_pending env s1.session_map s1))
        (elim (Bool-cases (contains k m)) [
          | inl there ↦ sweep_first adler32 env k n t m s v past there
          | inr gone ↦ sweep_rest adler32 env k n t m s v (absent-AllLate k (suc n) env.now m gone)
        ])

  -- The runs of the timer, with nothing between them.
  unfoldable pub run_all : List Env → KcpServer → KcpServer
  unfolding run_periodic_task
  run_all [] s = s
  run_all (env ∷ envs) s = run_all envs (run_periodic_task adler32 env s)

  -- Each run comes the timeout of a SYN or more after the time before it.
  abbrev pub Spaced : ℕ → List Env → Type 0
  Spaced t [] = Unit {0}
  Spaced t (env ∷ envs) = (t + syn_sent_timeout ≤ env.now) × Spaced env.now envs

  run_all_late :
      (envs : List Env) (k : String) (n t : ℕ) (s : KcpServer)
      → Inv s
      → AllLate k n t s.pending_session_map
      → Spaced t envs
      → Inv (run_all envs s)
        × ((t' : ℕ) × AllLate k (n + length envs) t' (run_all envs s).pending_session_map)
  unfolding run_all
  run_all_late [] k n t s i v spaced =
      (i, (t, subst (λ x. AllLate k x t s.pending_session_map) (omega arith) v))
  run_all_late (env ∷ envs) k n t s i v (past, spaced) =
      let next =
        run_all_late envs k (suc n) env.now (run_periodic_task adler32 env s)
          (run_periodic_task-Inv adler32 env s i) (run_late env k n t s v past) spaced in
      let after = run_all envs (run_periodic_task adler32 env s) in
      (
        next.0,
        (
          next.1.0,
          subst (λ x. AllLate k x next.1.0 after.pending_session_map) (omega arith) next.1.1,
        ),
      )

  -- No pending session has so many tries.
  worn_out :
      (k : String) (n t : ℕ) (m : Map String KcpPendingSession)
      → max_syn_retry_times < n
      → AllPending m
      → AllLate k n t m
      → contains k m ≡ false
  unfolding contains find
  worn_out k n t [] more i v = refl
  worn_out k n t ((j, p) ∷ m) more (i, is) (inl other, vs) =
      ground (arith, other, worn_out k n t m more is vs)
  worn_out k n t ((j, p) ∷ m) more (i, is) (inr (tries, sent), vs) =
      absurd (omega (arith, i.retries, tries, more))

  -- On a server with the invariant, where every SYN to the client at `k` was sent at `t` at the latest:
  -- after eleven or more runs of the periodic task, each two seconds or more after the one before it
  -- and the first two seconds or more after `t`, with no datagram between them, the server has no
  -- pending session for `k`, whichever number of tries it had and whatever other clients wait.
  pub run_all-abandoned :
      (envs : List Env) (k : String) (t : ℕ) (s : KcpServer)
      → Inv s
      → AllLate k 0 t s.pending_session_map
      → Spaced t envs
      → max_syn_retry_times < length envs
      → contains k (run_all envs s).pending_session_map ≡ false
  run_all-abandoned envs k t s i v spaced many =
      let late = run_all_late envs k 0 t s i v spaced in
      worn_out k (0 + length envs) late.1.0 (run_all envs s).pending_session_map
        (omega (arith, many)) late.0.pending late.1.1
