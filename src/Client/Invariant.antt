-- ===== src/Client/Invariant.antt =====
-- What holds of a client between two events, and that no event uses a null socket or fails an
-- assertion on the client's own state.
use cpp_code_blocks.Prelude.{
  ℕ, suc, ◌*◌, ◌≤◌, ◌≡◌, refl, ◌⊎◌, inl, inr, min, Bool, true, false, not, List, [], ◌∷◌, Option,
  none, some, if◌then◌else◌, arith, Option-cases,
}
use cpp_code_blocks.Prelude.Maps.{nat_eq}
use cpp_code_blocks.Packet.Control.{control_packet}
use cpp_code_blocks.Packet.Defs.{PacketType}
use cpp_code_blocks.Client.Defs.{
  closed, pending, connected, ClientPendingSession, Effect, write, KcpClient, ClientEnv, new_client,
  perform, reset_session, register_reconnect, send_packet, establish, max_reconnect_delay,
  client_max_syn_retry_times, close_if_any,
}

-- The state says which of the two pointers is set.
abbrev pub IsState : KcpClient → Type 0
IsState s =
    ((s.state ≡ closed) × (s.pending_session ≡ none) × (s.session ≡ none))
    ⊎ ((p : ClientPendingSession) × (s.state ≡ pending)
        × (s.pending_session ≡ some p)
        × (s.session ≡ none)
        × (p.retry_times ≤ client_max_syn_retry_times))
    ⊎ ((own : ℕ) × (s.state ≡ connected) × (s.pending_session ≡ none) × (s.session ≡ some own))

-- There is a valid socket, or nothing is left that would use one.
abbrev pub IsSocket : KcpClient → Type 0
IsSocket s =
    (s.socket ≡ some true)
    ⊎ ((s.socket ≡ none)
        × (s.state ≡ closed)
        × (s.periodic_task_timer ≡ false)
        × (s.reconnect_timers ≡ []))

-- At most one timer of a reconnect runs, the one that `reconnect_timer` names.
abbrev pub IsTimer : KcpClient → Type 0
IsTimer s =
    ((s.reconnect_timer_registered ≡ false) × (s.reconnect_timers ≡ []))
    ⊎ ((delay : ℕ) × (s.reconnect_timer_registered ≡ true)
        × (s.reconnect_timers ≡ (s.reconnect_timer, delay) ∷ [])
        × (delay ≤ max_reconnect_delay))

pub record Inv (s : KcpClient) : Type 0 where
  pub states : IsState s
  pub sockets : IsSocket s
  pub timers : IsTimer s

-- The call ends, in a state that has the invariant.
pub record Keeps (result : Option KcpClient) : Type 0 where
  pub after : KcpClient
  pub ends : result ≡ some after
  pub inv : Inv after

pub kept : {s : KcpClient} → Inv s → Keeps (some s)
kept v = record { after = _; ends = refl; inv = v }

pub by_end : {r : Option KcpClient} {s : KcpClient} → r ≡ some s → Inv s → Keeps r
by_end e v = record { after = _; ends = e; inv = v }

pub if-Keeps : (b : Bool) {r t : Option KcpClient} → Keeps r → Keeps t → Keeps (if b then r else t)
if-Keeps true v w = v
if-Keeps false v w = w

pub if-Keeps-by :
    (b : Bool) {r t : Option KcpClient}
    → (b ≡ true → Keeps r)
    → (b ≡ false → Keeps t)
    → Keeps (if b then r else t)
if-Keeps-by true v w = v refl
if-Keeps-by false v w = w refl

pub new_client-Inv : Inv new_client
new_client-Inv = record {
  states = inl (refl, refl, refl);
  sockets = inr (refl, refl, refl, refl);
  timers = inl (refl, refl);
}

perform-Inv : (x : Effect) (s : KcpClient) → Inv s → Inv (perform x s)
perform-Inv x s v = record { states = v.states; sockets = v.sockets; timers = v.timers }

-- Outside the closed state there is a socket.
pub socket_of :
    (s : KcpClient) → Inv s → (s.state ≡ pending) ⊎ (s.state ≡ connected) → s.socket ≡ some true
socket_of s v active = elim v.sockets [
  | inl e ↦ e
  | inr h ↦ elim active [ inl p ↦ cc | inr c ↦ cc ]
]

register-Inv :
    (s : KcpClient)
    → Inv s
    → s.socket ≡ some true
    → s.reconnect_timer_registered ≡ false
    → Inv (register_reconnect s)
unfolding register_reconnect
register-Inv s v e free = record {
  states = v.states;
  sockets = inl e;
  timers =
      inr (min (suc s.reconnect_times * 500) max_reconnect_delay, refl, ground arith, omega arith);
}

-- The end of `ResetSession`, once the session is gone.
wait-Keeps :
    (s : KcpClient)
    → Inv s
    → s.socket ≡ some true
    → Keeps (
        if not true
        then some s
        else if not s.reconnect_enabled
        then some s
        else if s.reconnect_timer_registered
        then some s
        else some (register_reconnect s))
wait-Keeps s v e = if-Keeps (not s.reconnect_enabled) (kept v) (
    if-Keeps-by s.reconnect_timer_registered (λ _. kept v) (λ free. kept (register-Inv s v e free)))

pub reset_session-Keeps : (s : KcpClient) → Inv s → s.socket ≡ some true → Keeps (reset_session s)
unfolding reset_session
reset_session-Keeps s v e = elim (Option-cases s.session) [
  | inl gone ↦
      rw (gone, e)
        (wait-Keeps (record s { pending_session = none; session = none; state = closed })
          (record { states = inl (refl, refl, refl); sockets = inl e; timers = v.timers }) e)
  | inr (own, there) ↦
      rw (there, e)
        (wait-Keeps
          (record (close_if_any (some own) (record s { pending_session = none })) {
            state = closed;
          })
          (record { states = inl (refl, refl, refl); sockets = inl e; timers = v.timers }) e)
]

pub establish-Inv :
    (env : ClientEnv) (i : ℕ) (s : KcpClient)
    → s.socket ≡ some true
    → Inv s
    → Inv (establish env i s)
unfolding establish
establish-Inv env i s e v = record {
  states = inr (inr (i, refl, refl, refl));
  sockets = inl e;
  timers = v.timers;
}

module _ (adler32 : List ℕ → ℕ) where
  pub send_packet_lem :
      (t : PacketType) (i : ℕ) (s : KcpClient)
      → s.socket ≡ some true
      → send_packet adler32 t i s ≡ some (perform (write (control_packet adler32 t i)) s)
  unfolding send_packet control_packet
  send_packet_lem t i s e = rw e refl

  pub send_packet-Keeps :
      (t : PacketType) (i : ℕ) (s : KcpClient)
      → s.socket ≡ some true
      → Inv s
      → Keeps (send_packet adler32 t i s)
  send_packet-Keeps t i s e v =
      rw (send_packet_lem t i s e) (kept (perform-Inv (write (control_packet adler32 t i)) s v))
