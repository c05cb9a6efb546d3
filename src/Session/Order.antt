-- ===== src/Session/Order.antt =====
-- The writes of several threads.
use cpp_code_blocks.Prelude.{
  ℕ, ◌≤◌, ◌≡◌, ◌∙◌, sym, ap, refl, ◌⊎◌, inl, inr, Bool, true, false, List, [], ◌∷◌, ◌++◌, Option,
  some, ◌==◌, if◌then◌else◌, ◌>>=◌, length, append_assoc, append_nil, Bool-cases, chosen,
  passed_over,
}
use cpp_code_blocks.Session.Defs.{Ikcp, KcpSession, write_in_loop_thread}
use cpp_code_blocks.Session.Writes.{Laws, handed, write_in_loop_thread-handed}
use cpp_code_blocks.Session.Reading.{Inbound, Reader}
use cpp_code_blocks.Session.Keeping.{Keeps}
use cpp_code_blocks.Session.Threads.{
  Task, writes, processes, Shared, Step, calls_write, calls_process_packet, calls_close_after_ms,
  closes_now, updates, runs_task, timer_fires, step, steps,
}

-- A write: the thread that calls, and the bytes.
abbrev pub Write : Type 0
Write = ℕ × List ℕ

-- All bytes, and those of one thread.
abbrev pub payload : List Write → List ℕ
payload [] = []
payload ((thread, bytes) ∷ later) = bytes ++ payload later

abbrev pub by : ℕ → List Write → List ℕ
by t [] = []
by t ((thread, bytes) ∷ later) =
    let rest = by t later in if t == thread then bytes ++ rest else rest

if-append :
    (c : Bool) (bytes rest ys all : List ℕ)
    → all ≡ rest ++ ys
    → (if c then bytes ++ all else all) ≡ (if c then bytes ++ rest else rest) ++ ys
if-append true bytes rest ys all e = ap (λ x. bytes ++ x) e ∙ sym (append_assoc bytes rest ys)
if-append false bytes rest ys all e = e

pub by-append : (t : ℕ) (xs ys : List Write) → by t (xs ++ ys) ≡ by t xs ++ by t ys
by-append t [] ys = refl
by-append t ((thread, bytes) ∷ xs) ys =
    if-append (t == thread) bytes (by t xs) (by t ys) (by t (xs ++ ys)) (by-append t xs ys)

module _ {ikcp : Ikcp} (inbound : Inbound ikcp) (reader : Reader) (Address : Type 0) where
  abbrev Q : Type 0
  Q = Shared inbound reader Address

  abbrev pub queued : List (Task inbound reader Address) → List Write
  queued [] = []
  queued (writes thread bytes ∷ tasks) = (thread, bytes) ∷ queued tasks
  queued (processes bytes peer_address ∷ tasks) = queued tasks

  abbrev pub issued : List (ℕ × Step inbound reader Address) → List Write
  issued [] = []
  issued ((now, calls_write thread bytes) ∷ later) = (thread, bytes) ∷ issued later
  issued ((now, calls_process_packet thread bytes peer_address) ∷ later) = issued later
  issued ((now, calls_close_after_ms last_flush) ∷ later) = issued later
  issued ((now, closes_now last_flush) ∷ later) = issued later
  issued ((now, updates) ∷ later) = issued later
  issued ((now, runs_task) ∷ later) = issued later
  issued ((now, timer_fires n) ∷ later) = issued later

  abbrev effects_of : Q → List ℕ
  effects_of q = handed q.receiver.session.effects

  -- No assertion fails, and the writes come in three parts: what ikcp has taken; what has found the session closed; what
  -- is still queued. Each thread's bytes stand in these, in this order, as it has written them.
  pub record IsOrdered (q : Q) (later : List (ℕ × Step inbound reader Address)) (result : Option Q)
      : Type 0 where
    pub final : Q
    pub ends : result ≡ some final
    pub taken : List Write
    pub refused : List Write
    pub whole :
        handed final.receiver.session.effects ≡ handed q.receiver.session.effects ++ payload taken
    pub order :
        (thread : ℕ)
        → by thread ((taken ++ refused) ++ queued final.tasks)
          ≡ by thread (queued q.tasks ++ issued later)
    pub stopped : (refused ≡ []) ⊎ (final.receiver.session.closed ≡ true)
    pub start :
        (q.receiver.session.closed ≡ false)
        ⊎ ((taken ≡ []) × (final.receiver.session.closed ≡ true))

  module _ (laws : Laws ikcp) where
    -- No write is larger than ikcp's largest message.
    abbrev pub AllShort : List Write → Type 0
    AllShort [] = Unit {0}
    AllShort ((thread, bytes) ∷ later) = (length bytes ≤ laws.largest) × AllShort later

    pub AllShort-append : (xs ys : List Write) → AllShort xs → AllShort ys → AllShort (xs ++ ys)
    AllShort-append [] ys short other = other
    AllShort-append ((thread, bytes) ∷ xs) ys short other =
        (short.0, AllShort-append xs ys short.1 other)

    pub record Wrote (bytes : List ℕ) (s : KcpSession ikcp) (result : Option (KcpSession ikcp))
        : Type 0 where
      pub after : KcpSession ikcp
      pub ends : result ≡ some after
      pub whole : handed after.effects ≡ handed s.effects ++ (if s.closed then [] else bytes)
      pub over : (s.closed ≡ true) → after.closed ≡ true

    pub write-Wrote :
        (now : ℕ) (bytes : List ℕ) (s : KcpSession ikcp)
        → length bytes ≤ laws.largest
        → Wrote bytes s (write_in_loop_thread ikcp now bytes s)
    unfolding write_in_loop_thread
    write-Wrote now bytes s short = elim (Bool-cases s.closed) [
      | inl over ↦ record {
        after = s;
        ends = chosen s.closed _ _ over;
        whole =
            sym (append_nil _) ∙ ap (λ x. handed s.effects ++ x) (sym (chosen s.closed _ _ over));
        over = λ e. e;
      }
      | inr live ↦
          let (s', ends, whole) = write_in_loop_thread-handed ikcp laws now bytes s short in
          record { after = s'; ends = ends; whole = whole; over = λ e. cc }
    ]

    module _ (fuel now : ℕ) (s : Step inbound reader Address)
        (later : List (ℕ × Step inbound reader Address)) (q q' : Q) where
      pub quietly :
          step inbound reader Address fuel now s q ≡ some q'
          → Keeps q.receiver.session q'.receiver.session
          → ((t : ℕ)
              → by t (queued q'.tasks ++ issued later)
                ≡ by t (queued q.tasks ++ issued ((now, s) ∷ later)))
          → IsOrdered q' later (steps inbound reader Address fuel later q')
          → IsOrdered q ((now, s) ∷ later) (steps inbound reader Address fuel ((now, s) ∷ later) q)
      unfolding steps
      quietly once keeps same rest = record {
        final = rest.final;
        ends = ap (λ o. o >>= steps inbound reader Address fuel later) once ∙ rest.ends;
        taken = rest.taken;
        refused = rest.refused;
        whole = rest.whole ∙ ap (λ x. x ++ payload rest.taken) keeps.bytes;
        order = λ t. rest.order t ∙ same t;
        stopped = rest.stopped;
        start = elim (Bool-cases q.receiver.session.closed) [
          | inr live ↦ inl live
          | inl over ↦ elim rest.start [ inl live' ↦ cc (keeps.over over) | inr both ↦ inr both ]
        ];
      }

      pub writing :
          (t : ℕ) (bytes : List ℕ)
          → step inbound reader Address fuel now s q ≡ some q'
          → handed q'.receiver.session.effects
            ≡ handed q.receiver.session.effects ++ (if q.receiver.session.closed then [] else bytes)
          → ((q.receiver.session.closed ≡ true) → q'.receiver.session.closed ≡ true)
          → ((u : ℕ) (xs : List Write)
              → by u xs ≡ by u (queued q'.tasks ++ issued later)
              → by u ((t, bytes) ∷ xs) ≡ by u (queued q.tasks ++ issued ((now, s) ∷ later)))
          → IsOrdered q' later (steps inbound reader Address fuel later q')
          → IsOrdered q ((now, s) ∷ later) (steps inbound reader Address fuel ((now, s) ∷ later) q)
      unfolding steps
      writing t bytes once whole over next rest = elim (Bool-cases q.receiver.session.closed) [
        | inr live ↦ record {
          final = rest.final;
          ends = ap (λ o. o >>= steps inbound reader Address fuel later) once ∙ rest.ends;
          taken = (t, bytes) ∷ rest.taken;
          refused = rest.refused;
          whole =
              rest.whole
              ∙ ap (λ x. x ++ payload rest.taken)
                  (whole
                    ∙ ap (λ x. handed q.receiver.session.effects ++ x) (passed_over _ _ _ live))
              ∙ append_assoc (handed q.receiver.session.effects) bytes (payload rest.taken);
          order = λ u. next u _ (rest.order u);
          stopped = rest.stopped;
          start = inl live;
        }
        | inl shut ↦ elim rest.start [
          | inl live ↦ cc (over shut)
          | inr (none_taken, ended) ↦ record {
            final = rest.final;
            ends = ap (λ o. o >>= steps inbound reader Address fuel later) once ∙ rest.ends;
            taken = [];
            refused = (t, bytes) ∷ (rest.taken ++ rest.refused);
            whole =
                rest.whole
                ∙ ap (λ x. handed q'.receiver.session.effects ++ payload x) none_taken
                ∙ append_nil _
                ∙ whole
                ∙ ap (λ x. handed q.receiver.session.effects ++ x) (chosen _ _ _ shut);
            order = λ u. next u _ (rest.order u);
            stopped = inr ended;
            start = inr (refl, ended);
          }
        ]
      ]
