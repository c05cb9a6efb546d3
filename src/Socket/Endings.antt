-- ===== src/Socket/Endings.antt =====
-- kcp/udp_socket.cc: how `Connect` and `Bind` end.
use cpp_code_blocks.Prelude.{
  ℕ, ◌≡◌, ap, sym, subst, refl, ◌⊎◌, inl, inr, true, false, not, ◌&&◌, Option, none, some, ◌==◌,
  arith, Bool-cases,
}
use cpp_code_blocks.Prelude.Int.{ℤ, pos, negsuc}
use cpp_code_blocks.Prelude.Maps.{is_some}
use cpp_code_blocks.Socket.Io.{
  Call, returned, System, Addresses, UdpSocket, Io, pure, next, ◌>>=◌, or_return, af_inet, af_inet6,
  af_unspec, is_valid_socket,
}
use cpp_code_blocks.Socket.Setup.{
  connect_impl, bind_impl, close_on_error, configure, open_with, connect, bind,
}
use cpp_code_blocks.Socket.Tidy.{live, opened, IsTidy}
use cpp_code_blocks.Socket.Opening.{
  Answer-cases, close-some, unsupported, with_call, create_unsupported, with_call, create_failed,
  create_returned, connect-Keeps, bind-Keeps,
}
use cpp_code_blocks.Socket.Outcomes.{
  with_history, Gives, Works, rebase, connect_impl-Gives, bind_impl-Gives, configure-Gives,
}

known_family :
    (family : ℕ)
    → not (family == af_inet) && not (family == af_inet6) ≡ false
    → not (family == af_unspec) ≡ true
known_family family supported = ground (arith, supported)

module _ {net : Addresses} where
  -- The socket is open in the family and the result is 0, or the result is an error and the socket is not
  -- valid.
  abbrev pub IsEnding : ℕ → Option ℤ × UdpSocket net → Type 0
  IsEnding family r =
      ((r.0 ≡ some (pos 0)) × (is_valid_socket r.1 ≡ true) × (r.1.addr_family ≡ family))
      ⊎ ((e : ℕ) × (r.0 ≡ some (negsuc e)) × (r.1.sockfd ≡ none))

  module _ (os : System) where
    close_on_error_ends :
        (rv : ℤ) (s : UdpSocket net) (fd : ℕ)
        → s.sockfd ≡ some fd
        → (rv ≡ pos 0) ⊎ ((e : ℕ) × (rv ≡ negsuc e))
        → IsEnding s.addr_family (close_on_error os rv s)
    unfolding close_on_error
    close_on_error_ends (pos n) s fd there (inl e) = inl (ap some e, ap is_some there, refl)
    close_on_error_ends (pos n) s fd there (inr (e, eq)) = absurd (ground (arith, eq))
    close_on_error_ends (negsuc m) s fd there v =
        let shut = ap (next (λ _. pure (negsuc m))) (close-some net os s fd there) in
        inr (m, ap (λ r. r.0) shut, ap (λ r. r.1.sockfd) shut)

    finish_ends :
        (s : UdpSocket net) (fd : ℕ) (r : Option ℤ × UdpSocket net)
        → s.sockfd ≡ some fd
        → Gives s r
        → IsEnding s.addr_family (next (close_on_error os) r)
    finish_ends s fd r there g =
        subst (λ x. IsEnding s.addr_family (next (close_on_error os) x)) (sym g.ends)
          (close_on_error_ends g.rv (with_history s g.h) fd there g.is_result)

    open_with_ends :
        (family : ℕ) (finish : Io net ℤ) (s : UdpSocket net)
        → s.sockfd ≡ none
        → ((t : UdpSocket net) → is_valid_socket t ≡ true → Works finish t)
        → IsEnding family (open_with os family finish s)
    unfolding open_with
    open_with_ends family finish s gone works =
        let rest : Io net ℤ = configure os finish >>= close_on_error os in
        let Ends : Option ℤ × UdpSocket net → Type 0 =
          λ r. IsEnding family (next (λ rv. or_return rv rest) r) in
        elim (Bool-cases (unsupported net os family s)) [
          | inl bad ↦
              subst Ends (sym (create_unsupported net os family s gone bad)) (inr (96, refl, gone))
          | inr good ↦ elim (Answer-cases (os s.history (Call.socket family))) [
            | inr (e, answer) ↦
                subst Ends (sym (create_failed net os family s e gone good answer))
                  (inr (e, refl, gone))
            | inl (fd, out, answer) ↦
                let made = create_returned net os family s fd out gone good answer in
                let t : UdpSocket net = record (with_call net os family (returned fd out) s) {
                  addr_family = family;
                  sockfd = some fd;
                } in
                subst Ends (sym made) (
                  finish_ends t fd (configure os finish t) refl
                    (configure-Gives os t finish refl (known_family family good) (works t refl)))
          ]
        ]

    connect_ends :
        (address : net.Address) (s : UdpSocket net)
        → s.sockfd ≡ none
        → s.peer_address ≡ none
        → IsEnding (net.family address) (connect os address s)
    unfolding connect
    connect_ends address s gone fresh =
        let same : connect os address s
            ≡ open_with os (net.family address) (connect_impl os address) s =
          ground (arith, gone, fresh) in
        subst (IsEnding (net.family address)) (sym same) (
          open_with_ends (net.family address) (connect_impl os address) s gone
            (λ t valid h. rebase t h _ (connect_impl-Gives os (with_history t h) address valid)))

    pub bind_ends :
        (address : net.Address) (s : UdpSocket net)
        → s.sockfd ≡ none
        → IsEnding (net.family address) (bind os address s)
    unfolding bind
    bind_ends address s gone =
        let same : bind os address s ≡ open_with os (net.family address) (bind_impl os address) s =
          ground (arith, gone) in
        subst (IsEnding (net.family address)) (sym same) (
          open_with_ends (net.family address) (bind_impl os address) s gone
            (λ t valid h. rebase t h _ (bind_impl-Gives os (with_history t h) address valid)))

    -- The socket is open in the family, with its descriptor as the only one, and the result is 0; or the
    -- result is an error, the socket is not valid, and no descriptor is left open.
    abbrev pub IsOpening : ℕ → Option ℤ × UdpSocket net → Type 0
    IsOpening family r = IsEnding family r × (live r.1.history ≡ opened r.1.sockfd)

    -- On a tidy socket that is not valid and has no peer address, whatever the system answers, `Connect`
    -- and `Bind` fail no assertion, and both end in one of two ways: the result is 0 and the socket is
    -- valid and of the address's family; or the result is negative and the socket is not valid. Either
    -- way the system has exactly the socket's descriptor open, so a failed attempt leaves none.
    pub connect_and_bind-IsOpening :
        (address : net.Address) (s : UdpSocket net)
        → s.sockfd ≡ none
        → s.peer_address ≡ none
        → IsTidy s
        → IsOpening (net.family address) (connect os address s)
          × IsOpening (net.family address) (bind os address s)
    connect_and_bind-IsOpening address s gone fresh v = (
      (connect_ends address s gone fresh, (connect-Keeps net os address s v).held),
      (bind_ends address s gone, (bind-Keeps net os address s v).held),
    )
