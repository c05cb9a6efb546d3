-- ===== src/Socket/Outcomes.antt =====
-- kcp/udp_socket.cc: what a step of `Connect` or of `Bind` comes to.
use Prim.Native.String.{String}
use cpp_code_blocks.Prelude.{
  ℕ, zero, suc, ◌≡◌, sym, subst, refl, ◌⊎◌, inl, inr, Bool, true, false, not, List, [], ◌∷◌, Option,
  some, ◌==◌, if◌then◌else◌, arith, Bool-cases, Option-cases,
}
use cpp_code_blocks.Prelude.Int.{ℤ, pos, negsuc}
use cpp_code_blocks.Socket.Io.{
  Call, Answer, History, System, Addresses, UdpSocket, Io, pure, next, ◌>>=◌, asserts, or_return,
  perform, handle_eintr, max_eintr_retries, is_interrupted, result_of, af_unspec, is_valid_socket,
  einval, eaddrnotavail,
}
use cpp_code_blocks.Socket.Address.{to_sock_addr}
use cpp_code_blocks.Socket.Setup.{
  set_then, set_if_then, set_by_family_then, by_family, set_socket_options, connect_impl, bind_impl,
  configure,
}

module _ {net : Addresses} where
  -- Nothing but calls was made.
  abbrev pub with_history : UdpSocket net → History → UdpSocket net
  with_history s h = record s { history = h }

  -- 0 or an error, and no assertion failed.
  pub record Gives (s : UdpSocket net) (r : Option ℤ × UdpSocket net) : Type 0 where
    pub rv : ℤ
    pub h : History
    pub ends : r ≡ (some rv, with_history s h)
    pub is_result : (rv ≡ pos 0) ⊎ ((e : ℕ) × (rv ≡ negsuc e))

  then-Gives {ℓ} :
      {A : Type ℓ} (s : UdpSocket net) (r : Option A × UdpSocket net) (f : A → Io net ℤ) (a : A)
      (t : UdpSocket net)
      → r ≡ (some a, t)
      → Gives s (f a t)
      → Gives s (next f r)
  then-Gives s r f a t e g = subst (λ x. Gives s (next f x)) (sym e) g

  asserts-Gives :
      (s : UdpSocket net) (test : UdpSocket net → Bool) (f : Unit {0} → Io net ℤ)
      → test s ≡ true
      → Gives s (f tt s)
      → Gives s ((asserts test >>= f) s)
  asserts-Gives s test f holds g = then-Gives s (asserts test s) f tt s (ground (arith, holds)) g

  result-Gives :
      (s : UdpSocket net) (rv : ℤ) (h : History)
      → (rv ≡ pos 0) ⊎ ((e : ℕ) × (rv ≡ negsuc e))
      → Gives s (pure rv (with_history s h))
  result-Gives s rv h v = record { rv = rv; h = h; ends = refl; is_result = v }

  -- More calls came before.
  pub rebase :
      (s : UdpSocket net) (h : History) (r : Option ℤ × UdpSocket net)
      → Gives (with_history s h) r
      → Gives s r
  rebase s h r g = record { rv = g.rv; h = g.h; ends = g.ends; is_result = g.is_result }

  or_return-Gives :
      (s : UdpSocket net) (h : History) (rv : ℤ) (k : Io net ℤ)
      → Gives s (k (with_history s h))
      → Gives s (or_return rv k (with_history s h))
  or_return-Gives s h (pos n) k g = g
  or_return-Gives s h (negsuc e) k g = result-Gives s (negsuc e) h (inr (e, refl))

  if-Gives :
      (s : UdpSocket net) (b : Bool) (r t : Option ℤ × UdpSocket net)
      → Gives s r
      → Gives s t
      → Gives s (if b then r else t)
  if-Gives s true r t v w = v
  if-Gives s false r t v w = w

  -- The state `t` may have more calls behind it than `s`.
  abbrev pub Works : Io net ℤ → UdpSocket net → Type 0
  Works k s = (h : History) → Gives s (k (with_history s h))

  module _ (os : System) where
    set_then_gives :
        (s : UdpSocket net) (level option : String) (value : List ℤ) (k : Io net ℤ)
        → Works k s
        → Works (set_then os level option value k) s
    unfolding perform
    set_then_gives s level option value k g h =
        or_return-Gives s _ (result_of (os h (Call.setsockopt s.sockfd level option value))) k (g _)

    set_if_then_gives :
        (s : UdpSocket net) (wanted : UdpSocket net → Bool) (level option : String) (k : Io net ℤ)
        → Works k s
        → Works (set_if_then os wanted level option k) s
    set_if_then_gives s wanted level option k g h =
        if-Gives s (wanted (with_history s h)) _ _
          (set_then_gives s level option (pos 1 ∷ []) k g h) (g h)

    set_by_family_then_gives :
        (s : UdpSocket net) (wanted : UdpSocket net → Bool) (option option6 : String) (k : Io net ℤ)
        → Works k s
        → Works (set_by_family_then os wanted option option6 k) s
    set_by_family_then_gives s wanted option option6 k g h =
        set_if_then_gives s wanted (by_family os "IPPROTO_IP" "IPPROTO_IPV6" (with_history s h))
          (by_family os option option6 (with_history s h)) k g h

    set_socket_options-Gives :
        (s : UdpSocket net)
        → is_valid_socket s ≡ true
        → not (s.addr_family == af_unspec) ≡ true
        → Gives s (set_socket_options os s)
    unfolding set_socket_options
    set_socket_options-Gives s valid known = asserts-Gives s is_valid_socket _ valid (
        asserts-Gives s (λ x. not (x.addr_family == af_unspec)) _ known
          (set_if_then_gives s (λ x. x.socket_options.reuse_address) "SOL_SOCKET" "SO_REUSEADDR" _
            (set_if_then_gives s (λ x. x.socket_options.reuse_port) "SOL_SOCKET" "SO_REUSEPORT" _
              (set_if_then_gives s (λ x. x.socket_options.broadcast) "SOL_SOCKET" "SO_BROADCAST" _
                (set_by_family_then_gives s (λ x. x.socket_options.receive_error) "IP_RECVERR"
                  "IPV6_RECVERR" _
                  (set_by_family_then_gives s (λ x. x.socket_options.receive_dscp_and_ecn)
                    "IP_RECVTOS" "IPV6_RECVTCLASS" _ (λ h. result-Gives s (pos 0) h (inl refl))))))
            s.history))

    handle_eintr_gives :
        (retries : ℕ) (c : Call) (s : UdpSocket net)
        → (a : Answer) × (h : History) × (handle_eintr os retries c s ≡ (some a, with_history s h))
    unfolding handle_eintr perform
    handle_eintr_gives zero c s = (os s.history c, _, refl)
    handle_eintr_gives (suc retries) c s =
        let again = handle_eintr_gives retries c (perform os c s).1 in
        elim (Bool-cases (is_interrupted (os s.history c))) [
          | inr other ↦ (os s.history c, (perform os c s).1.history, rw other refl)
          | inl eintr ↦ (again.0, again.1, rw eintr again.2)
        ]

    pub connect_impl-Gives :
        (s : UdpSocket net) (address : net.Address)
        → is_valid_socket s ≡ true
        → Gives s (connect_impl os address s)
    unfolding connect_impl
    connect_impl-Gives s address valid =
        asserts-Gives s is_valid_socket _ valid (elim (Option-cases (to_sock_addr net address)) [
          | inl bad ↦ rw bad (result-Gives s eaddrnotavail s.history (inr (98, refl)))
          | inr (bytes, good) ↦
              let made = handle_eintr_gives max_eintr_retries (Call.connect s.sockfd bytes) s in
              rw good (
                then-Gives s (handle_eintr os max_eintr_retries (Call.connect s.sockfd bytes) s)
                  (λ a. or_return (result_of a) (pure (pos 0))) made.0 _ made.2
                  (or_return-Gives s made.1 (result_of made.0) (pure (pos 0))
                    (result-Gives s (pos 0) made.1 (inl refl))))
        ])

    pub bind_impl-Gives :
        (s : UdpSocket net) (address : net.Address)
        → is_valid_socket s ≡ true
        → Gives s (bind_impl os address s)
    unfolding bind_impl perform
    bind_impl-Gives s address valid =
        asserts-Gives s is_valid_socket _ valid (elim (Option-cases (to_sock_addr net address)) [
          | inl bad ↦ rw bad (result-Gives s einval s.history (inr (21, refl)))
          | inr (bytes, good) ↦ rw good (
              or_return-Gives s _ (result_of (os s.history (Call.bind s.sockfd bytes)))
                (pure (pos 0)) (result-Gives s (pos 0) _ (inl refl)))
        ])

    pub configure-Gives :
        (s : UdpSocket net) (finish : Io net ℤ)
        → is_valid_socket s ≡ true
        → not (s.addr_family == af_unspec) ≡ true
        → Works finish s
        → Gives s (configure os finish s)
    unfolding configure
    configure-Gives s finish valid known g =
        let set = set_socket_options-Gives s valid known in
        then-Gives s (set_socket_options os s) (λ rv. or_return rv finish) set.rv _ set.ends
          (or_return-Gives s set.h set.rv finish (g set.h))
