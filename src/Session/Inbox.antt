-- ===== src/Session/Inbox.antt =====
-- What a packet does to an open session, and to one that is closed.
use cpp_code_blocks.Prelude.{
  ℕ, ◌<◌, ◌≡◌, ◌∙◌, ap, ap₂, sym, subst, refl, ◌⊎◌, inl, inr, Bool, true, false, not, ◌&&◌, List,
  [], Option, some, if◌then◌else◌, ◌>>=◌, length, Bool-cases, chosen, passed_over,
}
use cpp_code_blocks.Session.Defs.{Ikcp}
use cpp_code_blocks.Session.Reading.{
  Inbound, Reader, Receiver, with_kcp, read_all, after_read, process_packet_in_loop_thread,
}
use cpp_code_blocks.Session.Delivery.{view, read_all-Drains}
use cpp_code_blocks.Session.View.{ReceiveLaws, NoneEmpty, deliver}

module _ {ikcp : Ikcp} (inbound : Inbound ikcp) (reader : Reader) (Address : Type 0) where
  abbrev Inbox : Type 0
  Inbox = Receiver inbound reader Address

  module _ (before : Bool) (r : Inbox) where
    abbrev drained : Bool
    drained =
        not r.session.closed
        && (before && (not (ikcp.need_drain r.session.kcp) && r.session.write_complete_callback))

    -- The queued callback changes nothing else.
    after_read_keeps {ℓ} :
        {A : Type ℓ} (f : Inbox → A)
        → ((effects : _) → f (record r { session = record r.session { effects = effects } }) ≡ f r)
        → f (after_read inbound reader Address before r) ≡ f r
    unfolding after_read
    after_read_keeps f same = elim (Bool-cases drained) [
      | inl c ↦ ap f (chosen drained _ _ c) ∙ same _
      | inr c ↦ ap f (passed_over drained _ _ c)
    ]

  module _ (laws : ReceiveLaws inbound) where
    abbrev pub accepted : List ℕ → Inbox → Bool
    accepted bytes r = not r.session.closed && (inbound.input r.session.kcp bytes).1

    -- What ikcp can give out once it has the packet, if the session is open and ikcp accepts it.
    abbrev pub messages : List ℕ → Inbox → List (List ℕ)
    messages bytes r =
        if accepted bytes r then laws.available (inbound.input r.session.kcp bytes).0 else []

    pub record IsProcessed (bytes : List ℕ) (peer_address : Address) (r : Inbox)
        (result : Option Inbox) : Type 0 where
      pub after : Inbox
      pub ends : result ≡ some after
      pub seen :
          view inbound reader Address after
          ≡ deliver reader r.message_callback (messages bytes r) (view inbound reader Address r)
      pub peer : after.peer_address ≡ (if accepted bytes r then peer_address else r.peer_address)
      pub left :
          (accepted bytes r ≡ false)
          ⊎ ((after.session.closed ≡ true) ⊎ (laws.available after.session.kcp ≡ []))

    idle-IsProcessed :
        (bytes : List ℕ) (peer_address : Address) (r after : Inbox) (result : Option Inbox)
        → accepted bytes r ≡ false
        → result ≡ some after
        → view inbound reader Address after ≡ view inbound reader Address r
        → after.peer_address ≡ r.peer_address
        → IsProcessed bytes peer_address r result
    unfolding deliver
    idle-IsProcessed bytes peer_address r after result idle ends seen peer = record {
      after = after;
      ends = ends;
      seen =
          seen
          ∙ ap (λ ms. deliver reader r.message_callback ms (view inbound reader Address r))
              (sym (passed_over (accepted bytes r) _ _ idle));
      peer = peer ∙ sym (passed_over (accepted bytes r) _ _ idle);
      left = inl idle;
    }

    -- `ikcp_input` has taken the packet.
    abbrev filled : List ℕ → Address → Inbox → Inbox
    filled bytes peer_address r =
        record (with_kcp inbound reader Address (inbound.input r.session.kcp bytes).0 r) {
          peer_address = peer_address;
        }

    read-IsProcessed :
        (fuel now : ℕ) (bytes : List ℕ) (peer_address : Address) (r : Inbox) (before : Bool)
        → accepted bytes r ≡ true
        → NoneEmpty (messages bytes r)
        → length (messages bytes r) < fuel
        → IsProcessed bytes peer_address r (
            read_all inbound reader Address fuel now (filled bytes peer_address r) >>= λ r'.
            some (after_read inbound reader Address before r'))
    read-IsProcessed fuel now bytes peer_address r before taken full n =
        let ms = laws.available (inbound.input r.session.kcp bytes).0 in
        let same : messages bytes r ≡ ms = chosen (accepted bytes r) _ _ taken in
        let read =
          read_all-Drains inbound reader Address laws fuel now ms (filled bytes peer_address r) refl
            (subst NoneEmpty same full) (subst (λ l. length l < fuel) same n) in
        record {
          after = after_read inbound reader Address before read.after;
          ends = ap (λ o. o >>= λ r'. some (after_read inbound reader Address before r')) read.ends;
          seen =
              after_read_keeps before read.after (view inbound reader Address) (λ e. refl)
              ∙ read.seen
              ∙ ap (λ l. deliver reader r.message_callback l (view inbound reader Address r))
                  (sym same);
          peer =
              after_read_keeps before read.after (λ x. x.peer_address) (λ e. refl)
              ∙ read.peer
              ∙ sym (chosen (accepted bytes r) _ _ taken);
          left = inr (elim read.left [
            | inl over ↦
                inl (after_read_keeps before read.after (λ x. x.session.closed) (λ e. refl) ∙ over)
            | inr none_left ↦ inr (
                ap laws.available
                  (after_read_keeps before read.after (λ x. x.session.kcp) (λ e. refl))
                ∙ none_left)
          ]);
        }

    -- Where `ikcp_peeksize` and `ikcp_recv` tell of the messages available, none of them is empty, and
    -- the fuel is more than their number: a packet is processed without a failed assertion. The
    -- message callback, if there is one, gets these messages one by one in order, until it closes the
    -- session, and no other; the session has the packet's address as its peer; and it is closed or has no message left. A packet that
    -- comes to a closed session, or that ikcp refuses, hands over nothing and leaves the address.
    pub process_packet_in_loop_thread-IsProcessed :
        (fuel now : ℕ) (bytes : List ℕ) (peer_address : Address) (r : Inbox)
        → NoneEmpty (messages bytes r)
        → length (messages bytes r) < fuel
        → IsProcessed bytes peer_address r
            (process_packet_in_loop_thread inbound reader Address fuel now bytes peer_address r)
    unfolding process_packet_in_loop_thread
    process_packet_in_loop_thread-IsProcessed fuel now bytes peer_address r full n =
        let ok = (inbound.input r.session.kcp bytes).1 in
        elim (Bool-cases r.session.closed) [
          | inl over ↦
              idle-IsProcessed bytes peer_address r r _ (ap (λ c. not c && ok) over)
                (chosen r.session.closed _ _ over) refl refl
          | inr live ↦ elim (Bool-cases ok) [
            | inr refused ↦
                idle-IsProcessed bytes peer_address r
                  (with_kcp inbound reader Address (inbound.input r.session.kcp bytes).0 r) _
                  (ap₂ (λ c d. not c && d) live refused)
                  (passed_over r.session.closed _ _ live ∙ chosen (not ok) _ _ (ap not refused))
                  refl refl
            | inl taken ↦
                let read =
                  read-IsProcessed fuel now bytes peer_address r (ikcp.need_drain r.session.kcp)
                    (ap₂ (λ c d. not c && d) live taken) full n in
                record {
                  after = read.after;
                  ends =
                      passed_over r.session.closed _ _ live
                      ∙ passed_over (not ok) _ _ (ap not taken)
                      ∙ read.ends;
                  seen = read.seen;
                  peer = read.peer;
                  left = read.left;
                }
          ]
        ]
