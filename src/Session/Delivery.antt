-- ===== src/Session/Delivery.antt =====
-- The messages that a packet makes available are read, in order, and all of them.
use cpp_code_blocks.Prelude.{
  ℕ, zero, suc, ◌<◌, ◌≡◌, ◌∙◌, ap, sym, refl, ◌⊎◌, inl, inr, Bool, true, false, ◌||◌, List, [], ◌∷◌,
  ◌++◌, Option, none, some, if◌then◌else◌, ◌>>=◌, length, arith, Bool-cases, Option-cases, chosen,
  passed_over,
}
use cpp_code_blocks.Prelude.Maps.{is_some}
use cpp_code_blocks.Session.Defs.{Ikcp, KcpSession, close}
use cpp_code_blocks.Session.Reading.{
  Inbound, Reader, Receiver, with_kcp, close_if, call_back, received, on_read_event, read_all,
}
use cpp_code_blocks.Session.View.{size_of_first, NoneEmpty, ReceiveLaws, View, hand_over, deliver}

close-closed :
    {ikcp : Ikcp} (now : ℕ) (last_flush : Bool) (s : KcpSession ikcp)
    → (close ikcp now last_flush s).closed ≡ true
unfolding close
close-closed now last_flush s = ground arith

close_if-closed :
    {ikcp : Ikcp} (now : ℕ) (closes : Option Bool) (s : KcpSession ikcp)
    → (close_if now closes s).closed ≡ s.closed || is_some closes
unfolding close_if
close_if-closed now none s = ground arith
close_if-closed now (some last_flush) s = ground (arith, close-closed now last_flush s)

module _ {ikcp : Ikcp} (inbound : Inbound ikcp) (reader : Reader) (Address : Type 0) where
  abbrev pub view : Receiver inbound reader Address → View reader
  view r = record { user = r.user; buffer = r.input_buffer; over = r.session.closed }

  module _ (laws : ReceiveLaws inbound) where
    -- A message is read, and the user has it.
    record Steps (m : List ℕ) (ms : List (List ℕ)) (r : Receiver inbound reader Address)
        (result : Option (Receiver inbound reader Address)) : Type 0 where
      after : Receiver inbound reader Address
      ends : result ≡ some after
      seen : view after ≡ (if r.message_callback then hand_over reader m (view r) else view r)
      peer : after.peer_address ≡ r.peer_address
      same : after.message_callback ≡ r.message_callback
      left : (after.session.closed ≡ true) ⊎ (laws.available after.session.kcp ≡ ms)

    call_back-Steps :
        (now : ℕ) (m : List ℕ) (ms : List (List ℕ)) (r : Receiver inbound reader Address)
        → r.message_callback ≡ true
        → laws.available r.session.kcp ≡ ms
        → Steps m ms r (some (call_back inbound reader Address now m r))
    unfolding call_back close_if
    call_back-Steps now m ms r there e =
        let answer = reader.on_message r.user (r.input_buffer ++ m) in
        record {
          after = call_back inbound reader Address now m r;
          ends = refl;
          seen = rw there (
              ap (λ b. record { user = answer.0; buffer = answer.1; over = b })
                (close_if-closed now answer.2 r.session));
          peer = refl;
          same = refl;
          left = elim (Option-cases answer.2) [
            | inl stays ↦ inr (rw stays e)
            | inr (last_flush, closes) ↦ inl (rw closes (close-closed now last_flush r.session))
          ];
        }

    received-Steps :
        (now : ℕ) (m : List ℕ) (ms : List (List ℕ)) (r : Receiver inbound reader Address)
        → 0 < length m
        → laws.available r.session.kcp ≡ ms
        → Steps m ms r (received inbound reader Address now (some m) r)
    unfolding received
    received-Steps now [] ms r n e = absurd (omega (arith, n))
    received-Steps now (x ∷ xs) ms r n e = elim (Bool-cases r.message_callback) [
      | inl there ↦
          let read = call_back-Steps now (x ∷ xs) ms r there e in
          record {
            after = read.after;
            ends = chosen r.message_callback _ _ there ∙ read.ends;
            seen = read.seen;
            peer = read.peer;
            same = read.same;
            left = read.left;
          }
      | inr lost ↦ record {
        after = r;
        ends = rw lost refl;
        seen = rw lost refl;
        peer = refl;
        same = refl;
        left = inr e;
      }
    ]

    on_read_event-Steps :
        (now : ℕ) (m : List ℕ) (ms : List (List ℕ)) (r : Receiver inbound reader Address)
        → 0 < length m
        → laws.available r.session.kcp ≡ m ∷ ms
        → Steps m ms r (on_read_event inbound reader Address now (length m) r)
    unfolding on_read_event
    on_read_event-Steps now m ms r n e =
        let (got, rest) = laws.receives r.session.kcp m ms e in
        let cb = (inbound.recv r.session.kcp (length m)).0 in
        let read = received-Steps now m ms (with_kcp inbound reader Address cb r) n rest in
        record {
          after = read.after;
          ends =
              ap
                (λ bytes.
                  received inbound reader Address now bytes (with_kcp inbound reader Address cb r))
                got
              ∙ read.ends;
          seen = read.seen;
          peer = read.peer;
          same = read.same;
          left = read.left;
        }

    -- The loop ends without a failed assertion; the user saw the messages, and either they are all read
    -- or the session is closed.
    pub record Drains (ms : List (List ℕ)) (r : Receiver inbound reader Address)
        (result : Option (Receiver inbound reader Address)) : Type 0 where
      pub after : Receiver inbound reader Address
      pub ends : result ≡ some after
      pub seen : view after ≡ deliver reader r.message_callback ms (view r)
      pub peer : after.peer_address ≡ r.peer_address
      pub left : (after.session.closed ≡ true) ⊎ (laws.available after.session.kcp ≡ [])

    pub closed-Drains :
        (fuel now : ℕ) (ms : List (List ℕ)) (r : Receiver inbound reader Address)
        → 0 < fuel
        → r.session.closed ≡ true
        → Drains ms r (read_all inbound reader Address fuel now r)
    unfolding read_all deliver
    closed-Drains zero now ms r n over = absurd (omega (arith, n))
    closed-Drains (suc fuel) now [] r n over = record {
      after = r;
      ends = rw over refl;
      seen = refl;
      peer = refl;
      left = inl over;
    }
    closed-Drains (suc fuel) now (m ∷ ms) r n over = record {
      after = r;
      ends = rw over refl;
      seen = rw over refl;
      peer = refl;
      left = inl over;
    }

    -- One more message, read by a step.
    read_one :
        (fuel now : ℕ) (m : List ℕ) (ms : List (List ℕ)) (r : Receiver inbound reader Address)
        → r.session.closed ≡ false
        → laws.available r.session.kcp ≡ m ∷ ms
        → read_all inbound reader Address (suc fuel) now r ≡ (
            on_read_event inbound reader Address now (length m) r
            >>= read_all inbound reader Address fuel now)
    unfolding read_all
    read_one fuel now m ms r live e =
        let size : inbound.peeksize r.session.kcp ≡ some (length m) =
          laws.peeks r.session.kcp ∙ ap size_of_first e in
        passed_over r.session.closed _ _ live ∙ simp size

    -- With more fuel than there are messages.
    pub read_all-Drains :
        (fuel now : ℕ) (ms : List (List ℕ)) (r : Receiver inbound reader Address)
        → laws.available r.session.kcp ≡ ms
        → NoneEmpty ms
        → length ms < fuel
        → Drains ms r (read_all inbound reader Address fuel now r)
    unfolding read_all deliver
    read_all-Drains zero now ms r e full n = absurd (omega (arith, n))
    read_all-Drains (suc fuel) now [] r e full n = elim (Bool-cases r.session.closed) [
      | inl over ↦ closed-Drains (suc fuel) now [] r (omega arith) over
      | inr live ↦
          let size : inbound.peeksize r.session.kcp ≡ none =
            laws.peeks r.session.kcp ∙ ap size_of_first e in
          record {
            after = r;
            ends = passed_over r.session.closed _ _ live ∙ simp size;
            seen = refl;
            peer = refl;
            left = inr e;
          }
    ]
    read_all-Drains (suc fuel) now (m ∷ ms) r e full n = elim (Bool-cases r.session.closed) [
      | inl over ↦ closed-Drains (suc fuel) now (m ∷ ms) r (omega arith) over
      | inr live ↦
          let read = on_read_event-Steps now m ms r full.0 e in
          let rest : Drains ms read.after (read_all inbound reader Address fuel now read.after) =
            elim read.left [
              | inl over ↦ closed-Drains fuel now ms read.after (omega (arith, n)) over
              | inr e' ↦ read_all-Drains fuel now ms read.after e' full.1 (omega (arith, n))
            ] in
          record {
            after = rest.after;
            ends =
                read_one fuel now m ms r live e
                ∙ ap (λ o. o >>= read_all inbound reader Address fuel now) read.ends
                ∙ rest.ends;
            seen =
                rest.seen
                ∙ ap (λ c. deliver reader c ms (view read.after)) read.same
                ∙ ap (deliver reader r.message_callback ms) read.seen
                ∙ sym (passed_over r.session.closed _ _ live);
            peer = rest.peer ∙ read.peer;
            left = rest.left;
          }
    ]
