-- ===== src/Server/Expiry.antt =====
-- kcp/kcp_server.cc: what the periodic task leaves: no idle session and no old entry of the time wait.
use cpp_code_blocks.Prelude.{
  ℕ, ◌+◌, ◌<◌, ◌≡◌, ◌∙◌, sym, refl, subst, ◌⊎◌, inl, inr, true, false, List, [], ◌∷◌, Option, none,
  some, leb, ◌==◌, arith, Bool-cases,
}
use cpp_code_blocks.Prelude.Maps.{Map, find, contains, nat_eq, string_eq, find-erase}
use cpp_code_blocks.Server.Invariant.{Inv}
use cpp_code_blocks.Server.Periodic.{sweep_all_pending-Inv}
use cpp_code_blocks.Server.Loop.{
  sweep_session, sweep_all_sessions, sweep_all_pending, sweep_time_wait, run_periodic_task,
}
use cpp_code_blocks.Server.Defs.{KcpServer, KcpSessionPtr, Env, session_idle, session_time_wait}

module _ (env : Env) where
  -- A session's last packet has come within the limit, and it is not closed.
  abbrev IsFresh : ℕ → Option ℕ → Type 0
  IsFresh i o = (t : ℕ) → o ≡ some t → (env.now < t + session_idle) × (env.is_closed i ≡ false)

  -- An entry, if there is one.
  abbrev pub IsFreshEntry : ℕ → Option ℕ → Type 0
  IsFreshEntry i none = Unit {0}
  IsFreshEntry i (some t) = (env.now < t + session_idle) × (env.is_closed i ≡ false)

  fresh_entry : (i : ℕ) (o : Option ℕ) → IsFresh i o → IsFreshEntry i o
  fresh_entry i none v = tt
  fresh_entry i (some t) v = v t refl

  IsFresh-cases : (i : ℕ) (o o' : Option ℕ) → IsFresh i o → (o' ≡ o) ⊎ (o' ≡ none) → IsFresh i o'
  IsFresh-cases i o o' v h t e = elim h [ inl same ↦ v t (sym same ∙ e) | inr gone ↦ cc ]

  -- A round leaves the entry of a key, or erases it.
  sweep_session-find :
      (i j : ℕ) (s : KcpServer)
      → (find j (sweep_session env i s).idle_session_map ≡ find j s.idle_session_map)
        ⊎ (find j (sweep_session env i s).idle_session_map ≡ none)
  unfolding sweep_session
  sweep_session-find i j s = ground (arith, find-erase i j s.idle_session_map)

  sweep_session-IsFresh :
      (i : ℕ) (s : KcpServer) → IsFresh i (find i (sweep_session env i s).idle_session_map)
  unfolding sweep_session
  sweep_session-IsFresh i s t e = ground (arith, find-erase i i s.idle_session_map)

  sweep_all_sessions-keeps :
      (m : Map ℕ KcpSessionPtr) (j : ℕ) (s : KcpServer)
      → IsFresh j (find j s.idle_session_map)
      → IsFresh j (find j (sweep_all_sessions env m s).idle_session_map)
  unfolding sweep_all_sessions
  sweep_all_sessions-keeps [] j s v = v
  sweep_all_sessions-keeps ((i, session) ∷ m) j s v =
      sweep_all_sessions-keeps m j (sweep_session env i s)
        (IsFresh-cases j _ _ v (sweep_session-find i j s))

  sweep_all_sessions-IsFresh :
      (m : Map ℕ KcpSessionPtr) (j : ℕ) (s : KcpServer)
      → contains j m ≡ true
      → IsFresh j (find j (sweep_all_sessions env m s).idle_session_map)
  unfolding sweep_all_sessions contains find
  sweep_all_sessions-IsFresh [] j s there = cc
  sweep_all_sessions-IsFresh ((i, session) ∷ m) j s there = elim (Bool-cases (i == j)) [
    | inl same ↦
        let e : i ≡ j = ground arith in
        sweep_all_sessions-keeps m j (sweep_session env i s) (
          subst (λ k. IsFresh k (find k (sweep_session env i s).idle_session_map)) e
            (sweep_session-IsFresh i s))
    | inr other ↦ sweep_all_sessions-IsFresh m j (sweep_session env i s) (ground arith)
  ]

  -- Every entry of the time wait is younger than the limit.
  abbrev pub AllYoung : Map ℕ ℕ → Type 0
  AllYoung [] = Unit {0}
  AllYoung ((i, t) ∷ m) = (env.now < t + session_time_wait) × AllYoung m

  sweep_time_wait-AllYoung : (m : Map ℕ ℕ) → AllYoung (sweep_time_wait env m)
  unfolding sweep_time_wait
  sweep_time_wait-AllYoung [] = tt
  sweep_time_wait-AllYoung ((i, t) ∷ m) = elim (Bool-cases (leb (t + session_time_wait) env.now)) [
    | inl old ↦ rw old (sweep_time_wait-AllYoung m)
    | inr young ↦ rw young (ground arith, sweep_time_wait-AllYoung m)
  ]

  -- After the periodic task on a server with the invariant, the entry of any key in the map of idle sessions,
  -- if there is one, is younger than its limit and of a session that is not closed; and every entry of
  -- the time wait is younger than its limit, whether a session is idle or not.
  pub run_periodic_task-IsFresh :
      (adler32 : List ℕ → ℕ) (s : KcpServer) (i : ℕ)
      → Inv s
      → IsFreshEntry i (find i (run_periodic_task adler32 env s).idle_session_map)
        × AllYoung (run_periodic_task adler32 env s).time_wait_session_map
  unfolding run_periodic_task
  run_periodic_task-IsFresh adler32 s i v =
      let s1 = sweep_all_pending adler32 env s.pending_session_map s in
      let v1 = sweep_all_pending-Inv adler32 env s.pending_session_map s v.pending v in
      let s2 = sweep_all_sessions env s1.session_map s1 in
      let fresh : IsFresh i (find i s2.idle_session_map) =
        elim (Bool-cases (contains i s1.session_map)) [
          | inl there ↦ sweep_all_sessions-IsFresh s1.session_map i s1 there
          | inr gone ↦
              sweep_all_sessions-keeps s1.session_map i s1
                (λ u f. unfold contains in ground (arith, v1.listed i))
        ] in
      (fresh_entry i _ fresh, sweep_time_wait-AllYoung s2.time_wait_session_map)
