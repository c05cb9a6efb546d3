-- ===== src/Socket/Opening.antt =====
-- `Connect`, `Bind` and `Close` keep a socket tidy.
use Prim.Native.String.{String}
use cpp_code_blocks.Prelude.{
  ℕ, ◌≡◌, ◌∙◌, ap, sym, subst, refl, ◌⊎◌, inl, inr, Bool, true, false, not, ◌&&◌, List, [], ◌∷◌,
  Option, none, some, ◌==◌, arith, Bool-cases, Option-cases,
}
use cpp_code_blocks.Prelude.Int.{ℤ, pos, negsuc}
use cpp_code_blocks.Prelude.Maps.{is_some}
use cpp_code_blocks.Socket.Io.{
  Call, Answer, returned, failed, System, Addresses, UdpSocket, Io, pure, ◌>>=◌, or_return, perform,
  handle_eintr, max_eintr_retries, result_of, af_inet, af_inet6, af_unspec, eafnosupport,
  no_options, is_valid_socket,
}
use cpp_code_blocks.Socket.Address.{to_sock_addr}
use cpp_code_blocks.Socket.Setup.{
  close, set_then, set_if_then, set_by_family_then, by_family, unset, create_socket,
  set_socket_options, connect_impl, bind_impl, close_on_error, configure, open_with, connect, bind,
}
use cpp_code_blocks.Socket.Tidy.{
  live, names, needs_descriptor, opened, forget, forgotten, IsTidyIf, IsTidy, checks, loosen,
  next-IsTidy, if-IsTidy, asserts-IsTidy, or_return-IsTidy, perform-IsTidy, handle_eintr-IsTidy,
}

pub Answer-cases :
    (a : Answer) → ((fd : ℕ) × (out : List ℕ) × (a ≡ returned fd out)) ⊎ ((e : ℕ) × (a ≡ failed e))
Answer-cases (returned fd out) = inl (fd, out, refl)
Answer-cases (failed e) = inr (e, refl)

module _ (net : Addresses) (os : System) where
  abbrev pub Keeps {ℓ} : {A : Type ℓ} → Io net A → Type 0
  Keeps m = (s : UdpSocket net) → IsTidy s → IsTidy (m s).1

  -- Behind the assertion that the socket is valid.
  abbrev pub KeepsValid {ℓ} : {A : Type ℓ} → Io net A → Type 0
  KeepsValid m = (s : UdpSocket net) → IsTidyIf true s → IsTidyIf true (m s).1

  -- What `Close` comes to.
  abbrev pub closed : ℕ → UdpSocket net → UdpSocket net
  closed fd s = record s {
    sockfd = none;
    addr_family = af_unspec;
    socket_options = no_options;
    history = (Call.close (some fd), os s.history (Call.close (some fd))) ∷ s.history;
  }

  pub close-none : (s : UdpSocket net) → s.sockfd ≡ none → close os s ≡ (some tt, s)
  unfolding close
  close-none s gone = ground (arith, gone)

  pub close-some :
      (s : UdpSocket net) (fd : ℕ) → s.sockfd ≡ some fd → close os s ≡ (some tt, closed fd s)
  unfolding close perform
  close-some s fd there = ground (arith, there)

  -- A state that a call is known to end in.
  by_result {ℓ} :
      {A : Type ℓ} {r : Option A × UdpSocket net} (o : Option A) (t : UdpSocket net)
      → r ≡ (o, t)
      → IsTidy t
      → IsTidy r.1
  by_result o t e v = subst IsTidy (ap (λ x. x.1) (sym e)) v

  pub close-Keeps : Keeps (close os)
  unfolding live names needs_descriptor
  close-Keeps s v = elim (Option-cases s.sockfd) [
    | inl gone ↦ by_result (some tt) s (close-none s gone) v
    | inr (fd, there) ↦
        let alone : live s.history ≡ fd ∷ [] = v.held ∙ ap opened there in
        by_result (some tt) (closed fd s) (close-some s fd there) (record {
          held = ap (forget fd) alone ∙ forgotten fd;
          used = (inr (fd, refl, alone), v.used);
          valid = inl refl;
        })
  ]

  -- What `CreateSocket` comes to on a socket that is not valid.
  abbrev pub with_call : ℕ → Answer → UdpSocket net → UdpSocket net
  with_call family answer s = record s { history = (Call.socket family, answer) ∷ s.history }

  module _ (family : ℕ) (s : UdpSocket net) where
    abbrev pub unsupported : Bool
    unsupported = not (family == af_inet) && not (family == af_inet6)

    create_asserted : (fd : ℕ) → s.sockfd ≡ some fd → create_socket os family s ≡ (none, s)
    unfolding create_socket
    create_asserted fd there = ground (arith, there)

    pub create_unsupported :
        s.sockfd ≡ none → unsupported ≡ true → create_socket os family s ≡ (some eafnosupport, s)
    unfolding create_socket
    create_unsupported gone bad = ground (arith, gone, bad)

    pub create_failed :
        (e : ℕ)
        → s.sockfd ≡ none
        → unsupported ≡ false
        → os s.history (Call.socket family) ≡ failed e
        → create_socket os family s ≡ (some (negsuc e), with_call family (failed e) s)
    unfolding create_socket perform
    create_failed e gone good answer = ground (arith, gone, good, answer)

    pub create_returned :
        (fd : ℕ) (out : List ℕ)
        → s.sockfd ≡ none
        → unsupported ≡ false
        → os s.history (Call.socket family) ≡ returned fd out
        → create_socket os family s ≡ (
          some (pos 0),
          record (with_call family (returned fd out) s) { addr_family = family; sockfd = some fd },
        )
    unfolding create_socket perform
    create_returned fd out gone good answer = ground (arith, gone, good, answer)

  pub create_socket-Keeps : (family : ℕ) → Keeps (create_socket os family)
  unfolding live names needs_descriptor
  create_socket-Keeps family s v = elim (Option-cases s.sockfd) [
    | inr (fd, there) ↦ by_result none s (create_asserted family s fd there) v
    | inl gone ↦ elim (Bool-cases (unsupported family s)) [
      | inl bad ↦ by_result (some eafnosupport) s (create_unsupported family s gone bad) v
      | inr good ↦ elim (Answer-cases (os s.history (Call.socket family))) [
        | inl (fd, out, answer) ↦
            by_result (some (pos 0)) _ (create_returned family s fd out gone good answer) (record {
              held = ap (λ l. fd ∷ l) (v.held ∙ ap opened gone);
              used = (inl (refl, refl), v.used);
              valid = inl refl;
            })
        | inr (e, answer) ↦
            by_result (some (negsuc e)) _ (create_failed family s e gone good answer)
              (record { held = v.held; used = (inl (refl, refl), v.used); valid = inl refl })
      ]
    ]
  ]

  pub set_then-Keeps :
      (level option : String) (value : List ℤ) (k : Io net ℤ)
      → KeepsValid k
      → KeepsValid (set_then os level option value k)
  unfolding live names needs_descriptor
  set_then-Keeps level option value k w s v =
      next-IsTidy (perform os (Call.setsockopt s.sockfd level option value) s) _
        (perform-IsTidy os _ s (record { same = λ a h. refl; own = inr (refl, inr refl) }) v)
        (λ a t u. or_return-IsTidy (result_of a) k t u w)

  pub pure-Keeps {ℓ} : {A : Type ℓ} (a : A) → KeepsValid (pure a)
  pure-Keeps a s v = v

  set_if_then-Keeps :
      (wanted : UdpSocket net → Bool) (level option : String) (k : Io net ℤ)
      → KeepsValid k
      → KeepsValid (set_if_then os wanted level option k)
  set_if_then-Keeps wanted level option k w s v =
      if-IsTidy (wanted s) (set_then os level option (pos 1 ∷ []) k s) (k s)
        (set_then-Keeps level option (pos 1 ∷ []) k w s v) (w s v)

  set_by_family_then-Keeps :
      (wanted : UdpSocket net → Bool) (option option6 : String) (k : Io net ℤ)
      → KeepsValid k
      → KeepsValid (set_by_family_then os wanted option option6 k)
  set_by_family_then-Keeps wanted option option6 k w s v =
      set_if_then-Keeps wanted (by_family os "IPPROTO_IP" "IPPROTO_IPV6" s)
        (by_family os option option6 s) k w s v

  pub set_socket_options-Keeps : Keeps (set_socket_options os)
  unfolding set_socket_options
  set_socket_options-Keeps s v = asserts-IsTidy is_valid_socket _ s v (λ e. loosen (
      asserts-IsTidy (λ x. not (x.addr_family == af_unspec)) _ s (checks v e)
        (λ _.
          set_if_then-Keeps (λ x. x.socket_options.reuse_address) "SOL_SOCKET" "SO_REUSEADDR" _
            (set_if_then-Keeps (λ x. x.socket_options.reuse_port) "SOL_SOCKET" "SO_REUSEPORT" _
              (set_if_then-Keeps (λ x. x.socket_options.broadcast) "SOL_SOCKET" "SO_BROADCAST" _
                (set_by_family_then-Keeps (λ x. x.socket_options.receive_error) "IP_RECVERR"
                  "IPV6_RECVERR" _
                  (set_by_family_then-Keeps (λ x. x.socket_options.receive_dscp_and_ecn)
                    "IP_RECVTOS" "IPV6_RECVTCLASS" _ (pure-Keeps (pos 0))))))
            s (checks v e))))

  -- A call on the socket's descriptor, its result returned.
  connect_impl-Keeps : (address : net.Address) → Keeps (connect_impl os address)
  unfolding connect_impl live names
  connect_impl-Keeps address s v = asserts-IsTidy is_valid_socket _ s v (λ e.
      loosen (elim (Option-cases (to_sock_addr net address)) [
        | inl bad ↦ rw bad (checks v e)
        | inr (bytes, good) ↦ rw good (
            next-IsTidy (handle_eintr os max_eintr_retries (Call.connect s.sockfd bytes) s)
              (λ a. or_return (result_of a) (pure (pos 0)))
              (handle_eintr-IsTidy os max_eintr_retries _ s
                (record { same = λ a h. refl; own = inr (refl, inr refl) }) (checks v e))
              (λ a u x. or_return-IsTidy (result_of a) (pure (pos 0)) u x (pure-Keeps (pos 0))))
      ]))

  bind_impl-Keeps : (address : net.Address) → Keeps (bind_impl os address)
  unfolding bind_impl live names
  bind_impl-Keeps address s v = asserts-IsTidy is_valid_socket _ s v (λ e.
      loosen (elim (Option-cases (to_sock_addr net address)) [
        | inl bad ↦ rw bad (checks v e)
        | inr (bytes, good) ↦ rw good (
            next-IsTidy (perform os (Call.bind s.sockfd bytes) s)
              (λ a. or_return (result_of a) (pure (pos 0)))
              (perform-IsTidy os _ s (record { same = λ a h. refl; own = inr (refl, inr refl) })
                (checks v e))
              (λ a u x. or_return-IsTidy (result_of a) (pure (pos 0)) u x (pure-Keeps (pos 0))))
      ]))

  close_on_error-Keeps : (rv : ℤ) → Keeps (close_on_error os rv)
  unfolding close_on_error
  close_on_error-Keeps (pos n) s v = v
  close_on_error-Keeps (negsuc e) s v =
      next-IsTidy (close os s) (λ _. pure (negsuc e)) (close-Keeps s v) (λ a t w. w)

  configure-Keeps : (finish : Io net ℤ) → Keeps finish → Keeps (configure os finish)
  unfolding configure
  configure-Keeps finish w s v =
      next-IsTidy (set_socket_options os s) (λ rv. or_return rv finish)
        (set_socket_options-Keeps s v) (λ rv t x. or_return-IsTidy rv finish t x w)

  open_with-Keeps :
      (family : ℕ) (finish : Io net ℤ) → Keeps finish → Keeps (open_with os family finish)
  unfolding open_with
  open_with-Keeps family finish w s v =
      let rest : Io net ℤ = configure os finish >>= close_on_error os in
      next-IsTidy (create_socket os family s) (λ rv. or_return rv rest)
        (create_socket-Keeps family s v)
        (λ rv t x. or_return-IsTidy rv rest t x (λ u y.
          next-IsTidy (configure os finish u) (close_on_error os) (configure-Keeps finish w u y)
            close_on_error-Keeps))

  pub connect-Keeps : (address : net.Address) → Keeps (connect os address)
  unfolding connect
  connect-Keeps address s v = asserts-IsTidy (unset os) _ s v (λ _.
      asserts-IsTidy (λ x. not (is_some x.peer_address)) _ s v
        (λ _.
          open_with-Keeps (net.family address) (connect_impl os address)
            (connect_impl-Keeps address) s v))

  pub bind-Keeps : (address : net.Address) → Keeps (bind os address)
  unfolding bind
  bind-Keeps address s v = asserts-IsTidy (unset os) _ s v (λ _.
      open_with-Keeps (net.family address) (bind_impl os address) (bind_impl-Keeps address) s v)
