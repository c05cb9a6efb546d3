-- ===== src/Server/Listening.antt =====
-- kcp/kcp_server.cc: `Listen` ends with a socket that is bound, or with none.
use cpp_code_blocks.Prelude.{
  ℕ, suc, ◌≡◌, ◌∙◌, ap, sym, subst, refl, ◌⊎◌, inl, inr, Bool, true, false, not, [], ◌∷◌, Option,
  none, some, if◌then◌else◌, arith, Option-cases, chosen, passed_over,
}
use cpp_code_blocks.Prelude.Int.{ℤ, pos, negsuc, ltb_ℤ}
use cpp_code_blocks.Socket.Io.{
  Call, System, Answer, returned, failed, Addresses, UdpSocket, Io, pure, next, ◌>>=◌, or_return,
  new_socket, is_valid_socket, result_of, perform, einval, eaddrnotavail,
}
use cpp_code_blocks.Socket.Address.{to_inet_addr}
use cpp_code_blocks.Socket.Setup.{
  Found, allow, bind, set_buffer_size, set_then, get_local_address, close, cached, keep_local,
}
use cpp_code_blocks.Socket.Tidy.{live, opened, new_socket-IsTidy, next-IsTidy, or_return-IsTidy}
use cpp_code_blocks.Socket.Opening.{Keeps, close-Keeps, close-none, close-some, bind-Keeps}
use cpp_code_blocks.Socket.Settings.{allow-Keeps, set_buffer_size-Keeps, get_local_address-Keeps}
use cpp_code_blocks.Socket.Methods.{close-unset}
use cpp_code_blocks.Socket.Endings.{IsEnding, bind_ends}
use cpp_code_blocks.Server.Listen.{
  socket_receive_buffer, socket_send_buffer, check, find_address, take_address, size_and_address,
  after_bind, prepare, unless_taken, listen,
}

module _ {net : Addresses} (family : ℕ) where
  -- The socket is open, in the family.
  pub record IsOpen (s : UdpSocket net) : Type 0 where
    pub valid : is_valid_socket s ≡ true
    pub known : s.addr_family ≡ family

  -- A step that ends with some result, and leaves the socket open.
  record Leaves (r : Option ℤ × UdpSocket net) : Type 0 where
    rv : ℤ
    ends : r.0 ≡ some rv
    after : IsOpen r.1

  record Results (r : Option ℤ × UdpSocket net) : Type 0 where
    leaves : Leaves r
    is_result : (leaves.rv ≡ pos 0) ⊎ ((e : ℕ) × (leaves.rv ≡ negsuc e))

  then_Results :
      (r : Option ℤ × UdpSocket net) (k : Io net ℤ)
      → Leaves r
      → ((u : UdpSocket net) → IsOpen u → Results (k u))
      → Results (next (λ rc. or_return rc k) r)
  then_Results (none, u) k l w = absurd (ground (arith, l.ends))
  then_Results (some (pos n), u) k l w = w u l.after
  then_Results (some (negsuc e), u) k l w = record {
    leaves = record { rv = negsuc e; ends = refl; after = l.after };
    is_result = inr (e, refl);
  }

  or_return-Leaves :
      (rv : ℤ) (u : UdpSocket net) → IsOpen u → Leaves (or_return rv (pure (pos 0)) u)
  or_return-Leaves (pos n) u v = record { rv = pos 0; ends = refl; after = v }
  or_return-Leaves (negsuc e) u v = record { rv = negsuc e; ends = refl; after = v }

  if-Leaves :
      (c : Bool) (r t : Option ℤ × UdpSocket net)
      → Leaves r
      → Leaves t
      → Leaves (if c then r else t)
  if-Leaves true r t v w = v
  if-Leaves false r t v w = w

  module _ (os : System) where
    set_buffer_size-Leaves :
        (option : _) (n : ℕ) (s : UdpSocket net)
        → IsOpen s
        → Leaves (set_buffer_size os option (pos n) s)
    unfolding set_buffer_size perform
    set_buffer_size-Leaves option n s v =
        let call = Call.setsockopt s.sockfd "SOL_SOCKET" option (pos n ∷ []) in
        let answer = os s.history call in
        let t = record s { history = (call, answer) ∷ s.history } in
        let k : Io net ℤ = set_then os "SOL_SOCKET" option (pos n ∷ []) (pure (pos 0)) in
        let positive : ltb_ℤ (pos n) (pos 0) ≡ false = ground arith in
        let same : set_buffer_size os option (pos n) s
            ≡ or_return (result_of answer) (pure (pos 0)) t =
          ap (next (λ _. if ltb_ℤ (pos n) (pos 0) then pure einval else k))
            (chosen (is_valid_socket s) (some tt, s) (none, s) v.valid)
          ∙ ap (λ c. (if c then pure einval else k) s) positive in
        subst Leaves (sym same)
          (or_return-Leaves (result_of answer) t (record { valid = v.valid; known = v.known }))

    -- What `GetLocalAddress` finds is a result in any case.
    Finds : Option (Found net) × UdpSocket net → Type 0
    Finds r = Leaves (next (λ found. pure found.0) r)

    keep_local-Finds : (a : Answer) (t : UdpSocket net) → IsOpen t → Finds (keep_local a t)
    unfolding keep_local Finds
    keep_local-Finds (failed e) t v = record { rv = pos (suc e); ends = refl; after = v }
    keep_local-Finds (returned n out) t v = elim (Option-cases (to_inet_addr net out)) [
      | inl bad ↦ rw (bad, keep_local) (record { rv = eaddrnotavail; ends = refl; after = v })
      | inr (address, good) ↦
          rw (good, keep_local)
            (record {
              rv = pos 0;
              ends = refl;
              after = record { valid = v.valid; known = v.known };
            })
    ]

    cached-Finds :
        (o : Option net.Address) (ask : Io net (Found net)) (s : UdpSocket net)
        → IsOpen s
        → Finds (ask s)
        → Finds (cached o ask s)
    unfolding Finds
    cached-Finds none ask s v w = w
    cached-Finds (some address) ask s v w = record { rv = pos 0; ends = refl; after = v }

    get_local_address-Finds : (s : UdpSocket net) → IsOpen s → Finds (get_local_address os s)
    unfolding get_local_address perform
    get_local_address-Finds s v =
        let call = Call.getsockname s.sockfd in
        let answer = os s.history call in
        subst Finds (sym (passed_over (not (is_valid_socket s)) _ _ (ap not v.valid))) (
          cached-Finds s.local_address (perform os call >>= keep_local) s v (
            keep_local-Finds answer (record s { history = (call, answer) ∷ s.history })
              (record { valid = v.valid; known = v.known })))

    after_bind-Results : (s : UdpSocket net) → IsOpen s → Results (after_bind os s)
    unfolding Finds
    after_bind-Results s v =
        then_Results (set_buffer_size os "SO_RCVBUF" socket_receive_buffer s) (size_and_address os)
          (set_buffer_size-Leaves "SO_RCVBUF" 1_400_000 s v)
          (λ t w.
            then_Results (set_buffer_size os "SO_SNDBUF" socket_send_buffer t) (take_address os)
              (set_buffer_size-Leaves "SO_SNDBUF" 44_800 t w)
              (λ u x.
                then_Results (find_address os u) (pure (pos 0)) (get_local_address-Finds u x)
                  (λ z y. record {
                    leaves = record { rv = pos 0; ends = refl; after = y };
                    is_result = inl refl;
                  })))

    close-ends : (s : UdpSocket net) → (close os s).0 ≡ some tt
    close-ends s = elim (Option-cases s.sockfd) [
      | inl gone ↦ ap (λ (r : Option (Unit {0}) × UdpSocket net). r.0) (close-none net os s gone)
      | inr (fd, there) ↦
          ap (λ (r : Option (Unit {0}) × UdpSocket net). r.0) (close-some net os s fd there)
    ]

    -- The socket is destroyed on an error.
    destroyed-IsEnding :
        (e : ℕ) (s : UdpSocket net) → IsEnding family (unless_taken os (negsuc e) s)
    unfolding unless_taken
    destroyed-IsEnding e s =
        let u = (close os s).1 in
        let shut : next (λ _. pure (negsuc e)) (close os s) ≡ (some (negsuc e), u) =
          ap (λ (o : Option (Unit {0})). next (λ _. pure (negsuc e)) (o, u)) (close-ends s) in
        inr (
          e,
          ap (λ (r : Option ℤ × UdpSocket net). r.0) shut,
          ap (λ (r : Option ℤ × UdpSocket net). r.1.sockfd) shut ∙ close-unset os s,
        )

    taken-IsEnding :
        (r : Option ℤ × UdpSocket net) → Results r → IsEnding family (next (unless_taken os) r)
    unfolding unless_taken
    taken-IsEnding (none, s) w = absurd (ground (arith, w.leaves.ends))
    taken-IsEnding (some (negsuc e), s) w = destroyed-IsEnding e s
    taken-IsEnding (some (pos n), s) w = elim w.is_result [
      | inl fine ↦ inl (w.leaves.ends ∙ ap some fine, w.leaves.after.valid, w.leaves.after.known)
      | inr (e, error) ↦ absurd (ground (arith, w.leaves.ends, error))
    ]

    -- `Bind`, and what follows it where it succeeds.
    behind_bind :
        (r : Option ℤ × UdpSocket net)
        → IsEnding family r
        → IsEnding family (next (unless_taken os) (next (λ rc. or_return rc (after_bind os)) r))
    unfolding unless_taken
    behind_bind (none, s) (inl (fine, valid, known)) = absurd (ground (arith, fine))
    behind_bind (none, s) (inr (e, error, v)) = absurd (ground (arith, error))
    behind_bind (some (negsuc e), s) v = destroyed-IsEnding e s
    behind_bind (some (pos n), s) (inl (fine, valid, known)) =
        taken-IsEnding (after_bind os s)
          (after_bind-Results s (record { valid = valid; known = known }))
    behind_bind (some (pos n), s) (inr (e, error, v)) = absurd (ground (arith, error))

module _ (net : Addresses) (os : System) where
  check-Keeps : (m k : Io net ℤ) → Keeps net os m → Keeps net os k → Keeps net os (check os m k)
  check-Keeps m k v w s t =
      next-IsTidy (m s) (λ rc. or_return rc k) (v s t) (λ rc u x. or_return-IsTidy rc k u x w)

  find_address-Keeps : Keeps net os (find_address os)
  find_address-Keeps s v =
      next-IsTidy (get_local_address os s) (λ found. pure found.0)
        (get_local_address-Keeps net os s v) (λ a t w. w)

  after_bind-Keeps : Keeps net os (after_bind os)
  after_bind-Keeps =
      check-Keeps (set_buffer_size os "SO_RCVBUF" socket_receive_buffer) (size_and_address os)
        (set_buffer_size-Keeps net os "SO_RCVBUF" socket_receive_buffer)
        (check-Keeps (set_buffer_size os "SO_SNDBUF" socket_send_buffer) (take_address os)
          (set_buffer_size-Keeps net os "SO_SNDBUF" socket_send_buffer)
          (check-Keeps (find_address os) (pure (pos 0)) find_address-Keeps (λ s v. v)))

  prepare-Keeps : (address : net.Address) → Keeps net os (prepare os address)
  unfolding prepare
  prepare-Keeps address s v =
      next-IsTidy (allow os (λ o. record o { receive_error = true }) s)
        (λ _. check os (bind os address) (after_bind os))
        (allow-Keeps net os (λ o. record o { receive_error = true }) s v)
        (λ a.
          check-Keeps (bind os address) (after_bind os) (bind-Keeps net os address)
            after_bind-Keeps)

  unless_taken-Keeps : (rc : ℤ) → Keeps net os (unless_taken os rc)
  unfolding unless_taken
  unless_taken-Keeps (pos n) s v = v
  unless_taken-Keeps (negsuc e) s v =
      next-IsTidy (close os s) (λ _. pure (negsuc e)) (close-Keeps net os s v) (λ a t w. w)

  -- However the system answers, `Listen` on a new socket fails no assertion: it returns 0, and then the
  -- socket is valid and of the address's family; or it returns an error, and then the socket has been
  -- closed. Either way exactly the socket's descriptor is open in the system.
  pub listen-IsEnding :
      (address : net.Address)
      → IsEnding (net.family address) (listen os address (new_socket net))
        × (live (listen os address (new_socket net)).1.history
            ≡ opened (listen os address (new_socket net)).1.sockfd)
  unfolding listen prepare
  listen-IsEnding address =
      let family = net.family address in
      let s : UdpSocket net =
        (allow os (λ o. record o { receive_error = true }) (new_socket net)).1 in
      (
        behind_bind family os (bind os address s) (bind_ends os address s refl),
        (next-IsTidy (prepare os address (new_socket net)) (unless_taken os)
            (prepare-Keeps address (new_socket net) new_socket-IsTidy) unless_taken-Keeps).held,
      )
