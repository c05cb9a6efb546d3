-- ===== src/Session/Keeping.antt =====
-- What hands no byte to ikcp, and opens no session that is closed.
use cpp_code_blocks.Prelude.{
  ℕ, zero, suc, ◌≡◌, ◌∙◌, refl, Bool, true, false, not, ◌&&◌, List, [], ◌∷◌, Option, none, some,
  if◌then◌else◌, ◌>>=◌, ◌++◌,
}
use cpp_code_blocks.Session.Defs.{
  Ikcp, KcpSession, SessionEffect, write_complete, flush_tx_queue, connection, emit, flush_now,
  on_connection_event, close, update_connection_state,
}
use cpp_code_blocks.Session.Writes.{handed, handed-silent}
use cpp_code_blocks.Session.Reading.{
  Inbound, Reader, Receiver, with_kcp, close_if, call_back, received, on_read_event, read_all,
  after_read, process_packet_in_loop_thread,
}

pub record Keeps {ikcp : Ikcp} (s t : KcpSession ikcp) : Type 0 where
  pub bytes : handed t.effects ≡ handed s.effects
  pub over : (s.closed ≡ true) → t.closed ≡ true

module _ {ikcp : Ikcp} where
  pub Keeps-refl : (s : KcpSession ikcp) → Keeps s s
  Keeps-refl s = record { bytes = refl; over = λ e. e }

  pub Keeps-trans : (s t u : KcpSession ikcp) → Keeps s t → Keeps t u → Keeps s u
  Keeps-trans s t u a b = record { bytes = b.bytes ∙ a.bytes; over = λ e. b.over (a.over e) }

  if-Keeps :
      (c : Bool) (s t u : KcpSession ikcp) → Keeps s t → Keeps s u → Keeps s (if c then t else u)
  if-Keeps true s t u a b = a
  if-Keeps false s t u a b = b

  emit-Keeps :
      (s : KcpSession ikcp) (effect : SessionEffect)
      → handed (effect ∷ []) ≡ []
      → Keeps s (emit ikcp effect s)
  emit-Keeps s effect e = record { bytes = handed-silent s.effects effect e; over = λ o. o }

  flush_now-Keeps : (now : ℕ) (s : KcpSession ikcp) → Keeps s (flush_now ikcp now s)
  unfolding handed
  flush_now-Keeps now s = record {
    bytes = handed-silent s.effects flush_tx_queue refl;
    over = λ o. o;
  }

  event-Keeps : (up : Bool) (s : KcpSession ikcp) → Keeps s (on_connection_event ikcp up s)
  unfolding handed
  event-Keeps up s =
      if-Keeps s.connection_callback s (emit ikcp (connection up) s) s
        (emit-Keeps s (connection up) refl) (Keeps-refl s)

  pub close-Keeps :
      (now : ℕ) (last_flush : Bool) (s : KcpSession ikcp) → Keeps s (close ikcp now last_flush s)
  unfolding close
  close-Keeps now last_flush s =
      let s1 = record s { closed = true; state_timer = none } in
      let first : Keeps s s1 = record { bytes = refl; over = λ o. refl } in
      let s2 = if last_flush then flush_now ikcp now s1 else s1 in
      let second =
        if-Keeps last_flush s1 (flush_now ikcp now s1) s1 (flush_now-Keeps now s1)
          (Keeps-refl s1) in
      if-Keeps s.closed s s (on_connection_event ikcp false s2) (Keeps-refl s)
        (Keeps-trans s s2 _ (Keeps-trans s s1 s2 first second) (event-Keeps false s2))

  pub update-Keeps : (now : ℕ) (s : KcpSession ikcp) → Keeps s (update_connection_state ikcp now s)
  unfolding update_connection_state
  update-Keeps now s =
      let timed = record (flush_now ikcp now s) { state_timer = some (ikcp.flush s.kcp now).1 } in
      let flushed = flush_now-Keeps now s in
      let kept : Keeps s timed = record { bytes = flushed.bytes; over = flushed.over } in
      if-Keeps s.closed s s _ (Keeps-refl s) (
        if-Keeps (not (ikcp.is_alive s.kcp)) s (close ikcp now false s) timed
          (close-Keeps now false s) kept)

  close_if-Keeps :
      (now : ℕ) (closes : Option Bool) (s : KcpSession ikcp) → Keeps s (close_if now closes s)
  unfolding close_if
  close_if-Keeps now none s = Keeps-refl s
  close_if-Keeps now (some last_flush) s = close-Keeps now last_flush s

  module _ (inbound : Inbound ikcp) (reader : Reader) (Address : Type 0) where
    abbrev Inbox : Type 0
    Inbox = Receiver inbound reader Address

    abbrev pub AllKeep : Inbox → Option Inbox → Type 0
    AllKeep r none = Unit {0}
    AllKeep r (some r') = Keeps r.session r'.session

    if-AllKeep :
        (c : Bool) (r t u : Inbox)
        → Keeps r.session t.session
        → Keeps r.session u.session
        → AllKeep r (if c then some t else some u)
    if-AllKeep true r t u a b = a
    if-AllKeep false r t u a b = b

    received-Keeps :
        (now : ℕ) (got : Option (List ℕ)) (r : Inbox)
        → AllKeep r (received inbound reader Address now got r)
    unfolding received call_back
    received-Keeps now none r = tt
    received-Keeps now (some []) r = tt
    received-Keeps now (some (x ∷ xs)) r =
        if-AllKeep r.message_callback r (call_back inbound reader Address now (x ∷ xs) r) r
          (close_if-Keeps now (reader.on_message r.user (r.input_buffer ++ x ∷ xs)).2 r.session)
          (Keeps-refl r.session)

    trans-AllKeep :
        (r r' : Inbox) (o : Option Inbox) → Keeps r.session r'.session → AllKeep r' o → AllKeep r o
    trans-AllKeep r r' none a b = tt
    trans-AllKeep r r' (some t) a b = Keeps-trans r.session r'.session t.session a b

    bind-Keeps :
        (r : Inbox) (o : Option Inbox) (f : Inbox → Option Inbox)
        → AllKeep r o
        → ((r' : Inbox) → AllKeep r' (f r'))
        → AllKeep r (o >>= f)
    bind-Keeps r none f a g = tt
    bind-Keeps r (some r') f a g = trans-AllKeep r r' (f r') a (g r')

    by_closed :
        (c : Bool) (r : Inbox) (o : Option Inbox)
        → AllKeep r o
        → AllKeep r (if c then some r else o)
    by_closed true r o a = Keeps-refl r.session
    by_closed false r o a = a

    by_size :
        (size : Option ℕ) (now : ℕ) (r : Inbox) (again : Inbox → Option Inbox)
        → ((r' : Inbox) → AllKeep r' (again r'))
        → AllKeep r (elim size [
          | none ↦ some r
          | some n ↦ on_read_event inbound reader Address now n r >>= again
        ])
    unfolding on_read_event
    by_size none now r again keeps = Keeps-refl r.session
    by_size (some n) now r again keeps =
        let (cb, got) = inbound.recv r.session.kcp n in
        bind-Keeps r (on_read_event inbound reader Address now n r) again
          (trans-AllKeep r (with_kcp inbound reader Address cb r) _
            (record { bytes = refl; over = λ o. o })
            (received-Keeps now got (with_kcp inbound reader Address cb r)))
          keeps

    read_all-Keeps :
        (fuel now : ℕ) (r : Inbox) → AllKeep r (read_all inbound reader Address fuel now r)
    unfolding read_all on_read_event
    read_all-Keeps zero now r = tt
    read_all-Keeps (suc fuel) now r = by_closed r.session.closed r _ (
        by_size (inbound.peeksize r.session.kcp) now r (read_all inbound reader Address fuel now)
          (read_all-Keeps fuel now))

    either-Keeps :
        (c : Bool) (r t u : Inbox)
        → Keeps r.session t.session
        → Keeps r.session u.session
        → Keeps r.session (if c then t else u).session
    either-Keeps true r t u a b = a
    either-Keeps false r t u a b = b

    after_read-Keeps :
        (before : Bool) (r : Inbox)
        → Keeps r.session (after_read inbound reader Address before r).session
    unfolding after_read handed
    after_read-Keeps before r =
        either-Keeps
          (not r.session.closed
            && (before
                && (not (ikcp.need_drain r.session.kcp) && r.session.write_complete_callback)))
          r (record r { session = emit ikcp write_complete r.session }) r
          (emit-Keeps r.session write_complete refl) (Keeps-refl r.session)

    by_input :
        (c ok : Bool) (before : Bool) (r fed : Inbox) (o : Option Inbox)
        → Keeps r.session fed.session
        → AllKeep r o
        → AllKeep r (
            if c
            then some r
            else if not ok
            then some fed
            else (o >>= λ r'. some (after_read inbound reader Address before r')))
    by_input true ok before r fed o a b = Keeps-refl r.session
    by_input false false before r fed o a b = a
    by_input false true before r fed o a b =
        bind-Keeps r o (λ r'. some (after_read inbound reader Address before r')) b
          (after_read-Keeps before)

    -- A packet, whatever it holds.
    pub process_packet-Keeps :
        (fuel now : ℕ) (bytes : List ℕ) (peer_address : Address) (r : Inbox)
        → AllKeep r
            (process_packet_in_loop_thread inbound reader Address fuel now bytes peer_address r)
    unfolding process_packet_in_loop_thread
    process_packet-Keeps fuel now bytes peer_address r =
        let (cb, ok) = inbound.input r.session.kcp bytes in
        let before = ikcp.need_drain r.session.kcp in
        let fed = with_kcp inbound reader Address cb r in
        let kept : Keeps r.session fed.session = record { bytes = refl; over = λ o. o } in
        let moved = record fed { peer_address = peer_address } in
        by_input r.session.closed ok before r fed (read_all inbound reader Address fuel now moved)
          kept
          (trans-AllKeep r moved _ (record { bytes = refl; over = λ o. o })
            (read_all-Keeps fuel now moved))
