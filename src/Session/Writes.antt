-- ===== src/Session/Writes.antt =====
-- What is written reaches ikcp whole and in order.
use cpp_code_blocks.Prelude.{
  append_assoc, append_nil, take-drop, ℕ, ◌-◌, ◌≤◌, ◌≡◌, ◌∙◌, ap, sym, refl, inl, inr, Bool, true,
  false, not, ◌&&◌, List, [], ◌∷◌, ◌++◌, Option, some, ltb, ◌==◌, if◌then◌else◌, length, take, drop,
  length-take, length-drop, arith, Bool-cases,
}
use cpp_code_blocks.Session.Defs.{
  Ikcp, SessionEffect, sent, appended, flush_tx_queue, connection, write_complete, high_water_mark,
  KcpSession, send_first, append_rest, write_in_loop_thread, writable, emit, flush_now,
}

-- The bytes that have been handed to ikcp.
unfoldable pub handed : List SessionEffect → List ℕ
handed [] = []
handed (sent bytes ∷ effects) = bytes ++ handed effects
handed (appended bytes ∷ effects) = bytes ++ handed effects
handed (flush_tx_queue ∷ effects) = handed effects
handed (connection up ∷ effects) = handed effects
handed (write_complete ∷ effects) = handed effects
handed (high_water_mark n ∷ effects) = handed effects

-- ikcp takes a message that fits into the window that it reports and is not larger than its largest, and
-- appends that much at any time. Outside its stream mode a message has to go into fewer than IKCP_WND_RCV
-- segments, whatever the window is, so the largest has 127 segments.
pub record Laws (ikcp : Ikcp) : Type 0 where
  pub largest : ℕ
  pub takes :
      (cb : ikcp.Cb) (bytes : List ℕ)
      → length bytes ≤ ikcp.available_wnd_in_bytes cb
      → length bytes ≤ largest
      → (ikcp.send cb bytes).1 ≡ true
  pub appends :
      (cb : ikcp.Cb) (bytes : List ℕ) → length bytes ≤ largest → (ikcp.append cb bytes).1 ≡ true

pub handed-append : (xs ys : List SessionEffect) → handed (xs ++ ys) ≡ handed xs ++ handed ys
unfolding handed
handed-append [] ys = refl
handed-append (sent b ∷ xs) ys =
    ap (λ l. b ++ l) (handed-append xs ys) ∙ sym (append_assoc b (handed xs) (handed ys))
handed-append (appended b ∷ xs) ys =
    ap (λ l. b ++ l) (handed-append xs ys) ∙ sym (append_assoc b (handed xs) (handed ys))
handed-append (flush_tx_queue ∷ xs) ys = handed-append xs ys
handed-append (connection up ∷ xs) ys = handed-append xs ys
handed-append (write_complete ∷ xs) ys = handed-append xs ys
handed-append (high_water_mark n ∷ xs) ys = handed-append xs ys

pub handed-silent :
    (effects : List SessionEffect) (x : SessionEffect)
    → handed (x ∷ []) ≡ []
    → handed (effects ++ x ∷ []) ≡ handed effects
handed-silent effects x e =
    handed-append effects (x ∷ []) ∙ ap (λ l. handed effects ++ l) e ∙ append_nil (handed effects)

module _ (ikcp : Ikcp) (laws : Laws ikcp) where
  quiet :
      (c : Bool) (t s : KcpSession ikcp)
      → handed t.effects ≡ handed s.effects
      → handed (if c then t else s).effects ≡ handed s.effects
  quiet true t s e = e
  quiet false t s e = refl

  -- A step of a write, with the bytes that it hands over.
  record Hands (start : KcpSession ikcp) (bytes : List ℕ) (result : Option (KcpSession ikcp))
      : Type 0 where
    after : KcpSession ikcp
    ends : result ≡ some after
    whole : handed after.effects ≡ handed start.effects ++ bytes

  append_rest-Hands :
      (reached : Bool) (rest : List ℕ) (s : KcpSession ikcp)
      → length rest ≤ laws.largest
      → Hands s rest (append_rest ikcp reached rest s)
  unfolding append_rest handed
  append_rest-Hands reached [] s short = record {
    after = s;
    ends = refl;
    whole = sym (append_nil (handed s.effects));
  }
  append_rest-Hands reached (x ∷ xs) s short =
      let kcp' = (ikcp.append s.kcp (x ∷ xs)).0 in
      let s1 = record (emit ikcp (appended (x ∷ xs)) s) { kcp = kcp' } in
      let mark = high_water_mark (ikcp.waitsnd kcp') in
      let passed = not reached && (ikcp.reach_snd_hghwat kcp' && s.high_water_mark_callback) in
      record {
        after = if passed then emit ikcp mark s1 else s1;
        ends = rw (laws.appends s.kcp (x ∷ xs) short) (ground arith);
        whole =
            quiet passed (emit ikcp mark s1) s1 (handed-silent s1.effects mark refl)
            ∙ handed-append s.effects (appended (x ∷ xs) ∷ [])
            ∙ ap (λ l. handed s.effects ++ l) (append_nil (x ∷ xs));
      }

  send_first-Hands :
      (now n : ℕ) (bytes : List ℕ) (s : KcpSession ikcp)
      → n ≤ ikcp.available_wnd_in_bytes s.kcp
      → length bytes ≤ laws.largest
      → Hands s (take n bytes) (send_first ikcp now bytes n s)
  unfolding send_first handed
  send_first-Hands now n bytes s fits short =
      let kcp' = (ikcp.send s.kcp (take n bytes)).0 in
      let s1 = record (emit ikcp (sent (take n bytes)) s) { kcp = kcp' } in
      let wire = ltb 0 (ikcp.available_sndwnd_in_bytes s.kcp) in
      let s2 = if wire then flush_now ikcp now s1 else s1 in
      let all = length bytes - n == 0 && s.write_complete_callback in
      record {
        after = if all then emit ikcp write_complete s2 else s2;
        ends =
            rw
              (laws.takes s.kcp (take n bytes) (omega (arith, fits, length-take n bytes))
                (omega (arith, short, length-take n bytes)))
              refl;
        whole =
            quiet all (emit ikcp write_complete s2) s2
              (handed-silent s2.effects write_complete refl)
            ∙ quiet wire (flush_now ikcp now s1) s1 (handed-silent s1.effects flush_tx_queue refl)
            ∙ handed-append s.effects (sent (take n bytes) ∷ [])
            ∙ ap (λ l. handed s.effects ++ l) (append_nil (take n bytes));
      }

  live_write :
      (now : ℕ) (bytes : List ℕ) (s : KcpSession ikcp)
      → s.closed ≡ false
      → length bytes ≤ laws.largest
      → Hands s bytes (write_in_loop_thread ikcp now bytes s)
  unfolding write_in_loop_thread
  live_write now bytes s live short =
      let n = writable ikcp bytes s in
      let reached = ikcp.reach_snd_hghwat s.kcp in
      elim (Bool-cases (n == 0)) [
        | inl nothing ↦
            let a = append_rest-Hands reached bytes s short in
            record { after = a.after; ends = ground (arith, a.ends); whole = a.whole }
        | inr room ↦
            let first = send_first-Hands now n bytes s (ground arith) short in
            let second =
              append_rest-Hands reached (drop n bytes) first.after
                (omega (arith, short, length-drop n bytes)) in
            record {
              after = second.after;
              ends = ground (arith, first.ends, second.ends);
              whole =
                  second.whole
                  ∙ ap (λ l. l ++ drop n bytes) first.whole
                  ∙ append_assoc (handed s.effects) (take n bytes) (drop n bytes)
                  ∙ ap (λ l. handed s.effects ++ l) (take-drop n bytes);
            }
      ]

  -- A write that is not larger than ikcp's largest message ends without a failed
  -- assertion, and it hands ikcp the bytes written, whole and in order, or nothing if the session is
  -- closed.
  pub write_in_loop_thread-handed :
      (now : ℕ) (bytes : List ℕ) (s : KcpSession ikcp)
      → length bytes ≤ laws.largest
      → (s' : KcpSession ikcp) × (write_in_loop_thread ikcp now bytes s ≡ some s')
        × (handed s'.effects ≡ handed s.effects ++ (if s.closed then [] else bytes))
  unfolding write_in_loop_thread
  write_in_loop_thread-handed now bytes s short = elim (Bool-cases s.closed) [
    | inl over ↦ (
      s,
      ground arith,
      sym (append_nil (handed s.effects))
          ∙ ap (λ c. handed s.effects ++ (if c then [] else bytes)) (sym over),
    )
    | inr live ↦
        let w = live_write now bytes s live short in
        (
          w.after,
          w.ends,
          w.whole ∙ ap (λ c. handed s.effects ++ (if c then [] else bytes)) (sym live),
        )
  ]
