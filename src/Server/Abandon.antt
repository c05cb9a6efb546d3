-- ===== src/Server/Abandon.antt =====
-- kcp/kcp_server.cc: a client that does not finish its handshake is forgotten.
use Prim.Native.String.{String}
use cpp_code_blocks.Prelude.{
  ℕ, suc, ◌+◌, ◌≤◌, ◌≡◌, ◌∙◌, ap, sym, subst, ◌⊎◌, inl, inr, Bool, true, false, List, [], ◌∷◌, leb,
  if◌then◌else◌, arith, Bool-cases, chosen, passed_over, le→leb,
}
use cpp_code_blocks.Prelude.Maps.{Map, erase, assign, nat_eq, string_eq}
use cpp_code_blocks.Packet.Defs.{syn_packet}
use cpp_code_blocks.Server.Loop.{sweep_pending}
use cpp_code_blocks.Server.Defs.{
  KcpServer, KcpPendingSession, Env, max_syn_retry_times, syn_sent_timeout, retried,
  send_packet_lem,
}

-- Of every entry at `k`, the SYN has been sent again `n` times at least, and not after `t`.
module _ (k : String) (n t : ℕ) where
  abbrev pub IsLate : String → KcpPendingSession → Type 0
  IsLate j p = (string_eq.beq j k ≡ false) ⊎ ((n ≤ p.retry_times) × (p.syn_sent_time ≤ t))

  abbrev pub AllLate : Map String KcpPendingSession → Type 0
  AllLate [] = Unit {0}
  AllLate ((j, p) ∷ m) = IsLate j p × AllLate m

  keep :
      (c : Bool) (x : String × KcpPendingSession) (m m' : Map String KcpPendingSession)
      → AllLate m
      → AllLate (x ∷ m')
      → AllLate (if c then m else x ∷ m')
  keep true x m m' v w = v
  keep false x m m' v w = w

  erase-AllLate : (j : String) (m : Map String KcpPendingSession) → AllLate m → AllLate (erase j m)
  unfolding erase
  erase-AllLate j [] v = tt
  erase-AllLate j ((i, p) ∷ m) (v, w) =
      let rest = erase-AllLate j m w in
      keep (string_eq.beq i j) (i, p) (erase j m) (erase j m) rest (v, rest)

  erased-AllLate : (m : Map String KcpPendingSession) → AllLate (erase k m)
  unfolding erase
  erased-AllLate [] = tt
  erased-AllLate ((i, p) ∷ m) =
      let rest = erased-AllLate m in
      elim (Bool-cases (string_eq.beq i k)) [
        | inl same ↦ subst AllLate (sym (chosen (string_eq.beq i k) _ _ same)) rest
        | inr other ↦
            subst AllLate (sym (passed_over (string_eq.beq i k) _ _ other)) (inl other, rest)
      ]

  assign-AllLate :
      (j : String) (p : KcpPendingSession) (m : Map String KcpPendingSession)
      → IsLate j p
      → AllLate m
      → AllLate (assign j p m)
  unfolding assign
  assign-AllLate j p [] late v = tt
  assign-AllLate j p ((i, q) ∷ m) late (v, w) =
      let rest = assign-AllLate j p m late w in
      elim (Bool-cases (string_eq.beq i j)) [
        | inl same ↦
            let e : i ≡ j = ground (arith, string_eq.beq_iff i j, same) in
            subst AllLate (sym (chosen (string_eq.beq i j) _ _ same))
              (subst (λ x. IsLate x p) (sym e) late, rest)
        | inr other ↦ subst AllLate (sym (passed_over (string_eq.beq i j) _ _ other)) (v, rest)
      ]

  assigned-AllLate :
      (p : KcpPendingSession) (m : Map String KcpPendingSession)
      → (n ≤ p.retry_times) × (p.syn_sent_time ≤ t)
      → AllLate (assign k p m)
  unfolding assign
  assigned-AllLate p [] late = tt
  assigned-AllLate p ((i, q) ∷ m) late =
      let rest = assigned-AllLate p m late in
      elim (Bool-cases (string_eq.beq i k)) [
        | inl same ↦ subst AllLate (sym (chosen (string_eq.beq i k) _ _ same)) (inr late, rest)
        | inr other ↦
            subst AllLate (sym (passed_over (string_eq.beq i k) _ _ other)) (inl other, rest)
      ]

module _ (adler32 : List ℕ → ℕ) (env : Env) (j : String) (p : KcpPendingSession)
    (s : KcpServer) where
  -- The map of pending sessions after a round of the first loop.
  abbrev pub swept : Map String KcpPendingSession
  swept = (sweep_pending adler32 env j p s).pending_session_map

  swept_spent : leb max_syn_retry_times p.retry_times ≡ true → swept ≡ erase j s.pending_session_map
  unfolding sweep_pending
  swept_spent spent = ap (λ (x : KcpServer). x.pending_session_map) (chosen _ _ _ spent)

  swept_due :
      leb max_syn_retry_times p.retry_times ≡ false
      → leb (p.syn_sent_time + syn_sent_timeout) env.now ≡ true
      → swept ≡ assign j (retried env.now p) s.pending_session_map
  unfolding sweep_pending
  swept_due again due =
      ap (λ (x : KcpServer). x.pending_session_map)
        (passed_over _ _ _ again
          ∙ chosen _ _ _ due
          ∙ send_packet_lem adler32 syn_packet p.session_id p.peer_address _)

  swept_idle :
      leb max_syn_retry_times p.retry_times ≡ false
      → leb (p.syn_sent_time + syn_sent_timeout) env.now ≡ false
      → swept ≡ s.pending_session_map
  unfolding sweep_pending
  swept_idle again idle =
      ap (λ (x : KcpServer). x.pending_session_map)
        (passed_over _ _ _ again ∙ passed_over _ _ _ idle)

  module _ (k : String) (n t : ℕ) where
    -- A round for another client, or one that follows in time.
    pub other_round :
        IsLate k n t j (retried env.now p)
        → AllLate k n t s.pending_session_map
        → AllLate k n t swept
    other_round late v =
        let goal : Map String KcpPendingSession → Type 0 = AllLate k n t in
        elim (Bool-cases (leb max_syn_retry_times p.retry_times)) [
          | inl spent ↦
              subst goal (sym (swept_spent spent)) (erase-AllLate k n t j s.pending_session_map v)
          | inr again ↦ elim (Bool-cases (leb (p.syn_sent_time + syn_sent_timeout) env.now)) [
            | inl due ↦
                subst goal (sym (swept_due again due))
                  (assign-AllLate k n t j (retried env.now p) s.pending_session_map late v)
            | inr idle ↦ subst goal (sym (swept_idle again idle)) v
          ]
        ]

    -- The client's own round counts one more, or forgets it.
    pub own_round :
        j ≡ k
        → n ≤ p.retry_times
        → p.syn_sent_time ≤ t
        → t + syn_sent_timeout ≤ env.now
        → AllLate k (suc n) env.now swept
    own_round same more sent past =
        let goal : Map String KcpPendingSession → Type 0 = AllLate k (suc n) env.now in
        elim (Bool-cases (leb max_syn_retry_times p.retry_times)) [
          | inl spent ↦
              subst goal (sym (swept_spent spent ∙ ap (λ i. erase i s.pending_session_map) same))
                (erased-AllLate k (suc n) env.now s.pending_session_map)
          | inr again ↦
              let due : leb (p.syn_sent_time + syn_sent_timeout) env.now ≡ true =
                le→leb _ _ (omega (arith, sent, past)) in
              subst goal
                (sym (
                  swept_due again due
                  ∙ ap (λ i. assign i (retried env.now p) s.pending_session_map) same))
                (assigned-AllLate k (suc n) env.now (retried env.now p) s.pending_session_map
                  (omega (arith, more), omega arith))
        ]
