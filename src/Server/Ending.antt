-- ===== src/Server/Ending.antt =====
-- The end of a server.
use cpp_code_blocks.Prelude.{
  ℕ, zero, suc, ◌+◌, ◌-◌, ◌≤◌, ◌<◌, ◌≡◌, ◌∙◌, ap, sym, ◌⊎◌, inl, inr, [], ◌∷◌, ◌++◌, map, ltb, ◌==◌,
  length, append_assoc, append_nil, arith, Bool-cases, chosen, passed_over,
}
use cpp_code_blocks.Prelude.Maps.{Map}
use cpp_code_blocks.Server.Defs.{KcpServer, KcpSessionPtr, Effect, flush_and_close_session, perform}
use cpp_code_blocks.Server.Errors.{close_sessions, spin, destroy, max_wait_session_closed_try_times}

abbrev pub closing_of : ℕ × KcpSessionPtr → Effect
closing_of (session_id, session) = flush_and_close_session session_id

close_sessions_lem :
    (m : Map ℕ KcpSessionPtr) (s : KcpServer)
    → close_sessions m s ≡ record s { effects = s.effects ++ map closing_of m }
unfolding close_sessions
close_sessions_lem [] s = ap (λ x. record s { effects = x }) (sym (append_nil s.effects))
close_sessions_lem ((session_id, session) ∷ rest) s =
    close_sessions_lem rest (perform (flush_and_close_session session_id) s)
    ∙ ap (λ x. record s { effects = x })
        (append_assoc s.effects (flush_and_close_session session_id ∷ []) (map closing_of rest))

-- The loop stops at its bound, at the first look that finds all sessions closed, or at neither, never
-- behind one of them.
record Spun (closed : ℕ → ℕ) (n tries i last : ℕ) : Type 0 where
  bounded : last ≤ i + tries
  stopped : (n ≤ closed last) ⊎ (last ≡ i + tries)
  first : (k : ℕ) → (closed k < n) ⊎ ((k < i) ⊎ (last ≤ k))

spin-Spun : (closed : ℕ → ℕ) (n tries i : ℕ) → Spun closed n tries i (spin closed n tries i)
unfolding spin
spin-Spun closed n zero i = record {
  bounded = omega arith;
  stopped = inr (omega arith);
  first = λ k. inr (ground arith);
}
spin-Spun closed n (suc tries) i = elim (Bool-cases (ltb (closed i) n)) [
  | inl open_still ↦
      let same = chosen (ltb (closed i) n) (spin closed n tries (suc i)) i open_still in
      let later = spin-Spun closed n tries (suc i) in
      rw same (record {
        bounded = omega (arith, later.bounded);
        stopped = ground (arith, later.stopped);
        first = λ k. elim (later.first k) [
          | inl short ↦ inl short
          | inr (inr stopped) ↦ inr (inr stopped)
          | inr (inl early) ↦ elim (Bool-cases (k == i)) [
            | inl here ↦ let e : k ≡ i = ground arith in inl (rw e (ground (arith, open_still)))
            | inr before ↦ inr (inl (ground arith))
          ]
        ];
      })
  | inr done ↦
      let same = passed_over (ltb (closed i) n) (spin closed n tries (suc i)) i done in
      rw same (record {
        bounded = omega arith;
        stopped = inl (ground (arith, done));
        first = λ k. inr (ground arith);
      })
]

-- The destructor has each session closed with a last flush, once and in the order of the map, and looks at
-- the number of those closed, which only grows, at most 100000 times, and never again once a
-- look has found all closed: for each `k`, not all are closed at look `k`, counted from 0, or there are at
-- most `k` + 1 looks. It finds no more sessions left than were not closed at any look within the bound.
pub destroy_ends :
    (closed : ℕ → ℕ) (s : KcpServer) (k : ℕ)
    → ((i j : ℕ) → i ≤ j → closed i ≤ closed j)
    → k ≤ 100_000
    → let d = destroy closed s in
      (d.server ≡ record s { effects = s.effects ++ map closing_of s.session_map })
      × (d.looks ≤ 100_000)
      × ((closed k < length s.session_map) ⊎ (d.looks ≤ suc k))
      × (d.num_unclosed_sessions ≤ length s.session_map - closed k)
unfolding destroy
destroy_ends closed s k grows early =
    let n = length s.session_map in
    let tries = max_wait_session_closed_try_times - 1 in
    let last = spin closed n tries 0 in
    let spun = spin-Spun closed n tries 0 in
    (
      close_sessions_lem s.session_map s,
      omega (arith, spun.bounded),
      elim (spun.first k) [
        | inl short ↦ inl short
        | inr (inl early) ↦ absurd (omega (arith, early))
        | inr (inr stopped) ↦ inr (omega (arith, stopped))
      ],
      elim spun.stopped [
        | inl enough ↦
            let later = grows last (suc last) (omega arith) in omega (arith, enough, later)
        | inr end ↦ let later = grows k (suc last) (omega (arith, end)) in omega (arith, later)
      ],
    )
