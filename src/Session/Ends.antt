-- ===== src/Session/Ends.antt =====
-- A session tells its end once.
use cpp_code_blocks.Prelude.{
  ℕ, suc, ◌+◌, ◌-◌, ◌≤◌, ◌≡◌, ◌∙◌, ap, refl, inl, inr, Bool, true, false, not, ◌&&◌, List, [], ◌∷◌,
  ◌++◌, Option, some, ltb, ◌==◌, if◌then◌else◌, ◌>>=◌, length, take, drop, length-take, length-drop,
  arith, Bool-cases,
}
use cpp_code_blocks.Session.Defs.{
  Ikcp, SessionEffect, sent, appended, flush_tx_queue, connection, write_complete, high_water_mark,
  KcpSession, send_first, append_rest, write_in_loop_thread, writable, emit, flush_now, close,
  update_connection_state, Operation, closing, updating, writing, operate, operate_all,
}
use cpp_code_blocks.Session.Writes.{Laws}

-- How often `connection_callback_` has been called with false.
unfoldable pub downs : List SessionEffect → ℕ
downs [] = 0
downs (connection false ∷ effects) = suc (downs effects)
downs (connection true ∷ effects) = downs effects
downs (sent bytes ∷ effects) = downs effects
downs (appended bytes ∷ effects) = downs effects
downs (flush_tx_queue ∷ effects) = downs effects
downs (write_complete ∷ effects) = downs effects
downs (high_water_mark n ∷ effects) = downs effects

downs-append : (xs ys : List SessionEffect) → downs (xs ++ ys) ≡ downs xs + downs ys
unfolding downs
downs-append [] ys = omega arith
downs-append (connection false ∷ xs) ys = omega (arith, downs-append xs ys)
downs-append (connection true ∷ xs) ys = downs-append xs ys
downs-append (sent bytes ∷ xs) ys = downs-append xs ys
downs-append (appended bytes ∷ xs) ys = downs-append xs ys
downs-append (flush_tx_queue ∷ xs) ys = downs-append xs ys
downs-append (write_complete ∷ xs) ys = downs-append xs ys
downs-append (high_water_mark n ∷ xs) ys = downs-append xs ys

module _ (ikcp : Ikcp) where
  -- The callback has been told of the end exactly if there was one.
  abbrev pub IsAnnounced : KcpSession ikcp → Type 0
  IsAnnounced s = downs s.effects ≡ (if s.closed && s.connection_callback then 1 else 0)

  silent :
      (x : SessionEffect) (s : KcpSession ikcp)
      → downs (x ∷ []) ≡ 0
      → IsAnnounced s
      → IsAnnounced (emit ikcp x s)
  silent x s e v = omega (arith, downs-append s.effects (x ∷ []), e, v)

  if-IsAnnounced :
      (c : Bool) (s t : KcpSession ikcp)
      → IsAnnounced s
      → IsAnnounced t
      → IsAnnounced (if c then s else t)
  if-IsAnnounced true s t v w = v
  if-IsAnnounced false s t v w = w

  close-IsAnnounced :
      (now : ℕ) (last_flush : Bool) (s : KcpSession ikcp)
      → IsAnnounced s
      → IsAnnounced (close ikcp now last_flush s)
  unfolding close downs
  close-IsAnnounced now last_flush s v = ground (
    arith,
    downs-append s.effects (flush_tx_queue ∷ []),
    downs-append s.effects (connection false ∷ []),
    downs-append (s.effects ++ flush_tx_queue ∷ []) (connection false ∷ []),
  )

  update-IsAnnounced :
      (now : ℕ) (s : KcpSession ikcp)
      → IsAnnounced s
      → IsAnnounced (update_connection_state ikcp now s)
  unfolding update_connection_state downs
  update-IsAnnounced now s v = if-IsAnnounced s.closed s _ v (
      if-IsAnnounced (not (ikcp.is_alive s.kcp)) (close ikcp now false s) _
        (close-IsAnnounced now false s v) (silent flush_tx_queue s refl v))

  -- A call that ends, with the invariant.
  record Ends (result : Option (KcpSession ikcp)) : Type 0 where
    after : KcpSession ikcp
    ends : result ≡ some after
    announced : IsAnnounced after

  module _ (laws : Laws ikcp) where
    append_rest-Ends :
        (reached : Bool) (rest : List ℕ) (s : KcpSession ikcp)
        → IsAnnounced s
        → length rest ≤ laws.largest
        → Ends (append_rest ikcp reached rest s)
    unfolding append_rest downs
    append_rest-Ends reached [] s v short = record { after = s; ends = refl; announced = v }
    append_rest-Ends reached (x ∷ xs) s v short =
        let kcp' = (ikcp.append s.kcp (x ∷ xs)).0 in
        let s1 = record (emit ikcp (appended (x ∷ xs)) s) { kcp = kcp' } in
        let mark = high_water_mark (ikcp.waitsnd kcp') in
        let passed = not reached && (ikcp.reach_snd_hghwat kcp' && s.high_water_mark_callback) in
        let v1 : IsAnnounced s1 = silent (appended (x ∷ xs)) s refl v in
        record {
          after = if passed then emit ikcp mark s1 else s1;
          ends = rw (laws.appends s.kcp (x ∷ xs) short) (ground arith);
          announced = if-IsAnnounced passed (emit ikcp mark s1) s1 (silent mark s1 refl v1) v1;
        }

    send_first-Ends :
        (now n : ℕ) (bytes : List ℕ) (s : KcpSession ikcp)
        → n ≤ ikcp.available_wnd_in_bytes s.kcp
        → IsAnnounced s
        → length bytes ≤ laws.largest
        → Ends (send_first ikcp now bytes n s)
    unfolding send_first downs
    send_first-Ends now n bytes s fits v short =
        let kcp' = (ikcp.send s.kcp (take n bytes)).0 in
        let s1 = record (emit ikcp (sent (take n bytes)) s) { kcp = kcp' } in
        let wire = ltb 0 (ikcp.available_sndwnd_in_bytes s.kcp) in
        let s2 = if wire then flush_now ikcp now s1 else s1 in
        let all = length bytes - n == 0 && s.write_complete_callback in
        let v1 : IsAnnounced s1 = silent (sent (take n bytes)) s refl v in
        let v2 : IsAnnounced s2 =
          if-IsAnnounced wire (flush_now ikcp now s1) s1 (silent flush_tx_queue s1 refl v1) v1 in
        record {
          after = if all then emit ikcp write_complete s2 else s2;
          ends =
              rw
                (laws.takes s.kcp (take n bytes) (omega (arith, fits, length-take n bytes))
                  (omega (arith, short, length-take n bytes)))
                refl;
          announced =
              if-IsAnnounced all (emit ikcp write_complete s2) s2 (silent write_complete s2 refl v2)
                v2;
        }

    write-Ends :
        (now : ℕ) (bytes : List ℕ) (s : KcpSession ikcp)
        → IsAnnounced s
        → length bytes ≤ laws.largest
        → Ends (write_in_loop_thread ikcp now bytes s)
    unfolding write_in_loop_thread
    write-Ends now bytes s v short =
        let n = writable ikcp bytes s in
        let reached = ikcp.reach_snd_hghwat s.kcp in
        elim (Bool-cases s.closed) [
          | inl over ↦ record { after = s; ends = ground arith; announced = v }
          | inr live ↦ elim (Bool-cases (n == 0)) [
            | inl nothing ↦
                let a = append_rest-Ends reached bytes s v short in
                record { after = a.after; ends = ground (arith, a.ends); announced = a.announced }
            | inr room ↦
                let first = send_first-Ends now n bytes s (ground arith) v short in
                let second =
                  append_rest-Ends reached (drop n bytes) first.after first.announced
                    (omega (arith, short, length-drop n bytes)) in
                record {
                  after = second.after;
                  ends = ground (arith, first.ends, second.ends);
                  announced = second.announced;
                }
          ]
        ]

    -- What is written is not larger than ikcp's largest message.
    abbrev pub IsShort : Operation ikcp → Type 0
    IsShort (closing now last_flush) = Unit {0}
    IsShort (updating now) = Unit {0}
    IsShort (writing now bytes) = length bytes ≤ laws.largest

    abbrev pub AllShort : List (Operation ikcp) → Type 0
    AllShort [] = Unit {0}
    AllShort (operation ∷ operations) = IsShort operation × AllShort operations

    operate-Ends :
        (operation : Operation ikcp) (s : KcpSession ikcp)
        → IsAnnounced s
        → IsShort operation
        → Ends (operate ikcp operation s)
    operate-Ends (closing now last_flush) s v short = record {
      after = close ikcp now last_flush s;
      ends = refl;
      announced = close-IsAnnounced now last_flush s v;
    }
    operate-Ends (updating now) s v short = record {
      after = update_connection_state ikcp now s;
      ends = refl;
      announced = update-IsAnnounced now s v;
    }
    operate-Ends (writing now bytes) s v short = write-Ends now bytes s v short

    -- Where no write is larger than ikcp's largest message, every sequence of writes,
    -- updates and closes ends without a failed assertion, and from a state in which the connection
    -- callback has been told of the end exactly if there was one, it ends in such a state.
    pub operate_all-IsAnnounced :
        (operations : List (Operation ikcp)) (s : KcpSession ikcp)
        → IsAnnounced s
        → AllShort operations
        → (s' : KcpSession ikcp) × (operate_all ikcp operations s ≡ some s') × IsAnnounced s'
    unfolding operate_all
    operate_all-IsAnnounced [] s v short = (s, refl, v)
    operate_all-IsAnnounced (operation ∷ operations) s v short =
        let first = operate-Ends operation s v short.0 in
        let rest = operate_all-IsAnnounced operations first.after first.announced short.1 in
        (rest.0, ap (λ r. r >>= operate_all ikcp operations) first.ends ∙ rest.1, rest.2)
