-- ===== src/Socket/Settings.antt =====
-- The options of a socket and its addresses keep it tidy.
use Prim.Native.String.{String}
use cpp_code_blocks.Prelude.{
  ◌≡◌, Bool, true, false, if◌then◌else◌, refl, inl, inr, not, [], ◌∷◌, Option, none, some,
  Option-cases,
}
use cpp_code_blocks.Prelude.Int.{ℤ, pos, ltb_ℤ}
use cpp_code_blocks.Socket.Io.{
  Call, Answer, returned, failed, System, Addresses, UdpSocket, Io, pure, ◌>>=◌, perform,
  SocketOptions, is_valid_socket, einval, enotconn,
}
use cpp_code_blocks.Socket.Address.{to_inet_addr}
use cpp_code_blocks.Socket.Setup.{
  allow, set_then, unset, keep_local, keep_peer, cached, set_buffer_size, get_local_address,
  get_peer_address, Found,
}
use cpp_code_blocks.Socket.Tidy.{
  live, names, needs_descriptor, IsTidy, checks, loosen, next-IsTidy, if_io-IsTidy, asserts-IsTidy,
  perform-IsTidy,
}
use cpp_code_blocks.Socket.Opening.{Keeps, set_then-Keeps, pure-Keeps}

module _ (net : Addresses) (os : System) where
  pub allow-Keeps : (set_bit : SocketOptions → SocketOptions) → Keeps net os (allow os set_bit)
  unfolding allow
  allow-Keeps set_bit s v =
      asserts-IsTidy (unset os) _ s v
        (λ _. record { held = v.held; used = v.used; valid = inl refl })

  pub set_buffer_size-Keeps :
      (option : String) (size : ℤ) → Keeps net os (set_buffer_size os option size)
  unfolding set_buffer_size
  set_buffer_size-Keeps option size s v = asserts-IsTidy is_valid_socket _ s v (λ e. loosen (
      if_io-IsTidy (ltb_ℤ size (pos 0)) (pure einval)
        (set_then os "SOL_SOCKET" option (size ∷ []) (pure (pos 0))) s (checks v e)
        (set_then-Keeps net os "SOL_SOCKET" option (size ∷ []) (pure (pos 0))
          (pure-Keeps net os (pos 0)) s (checks v e))))

  keep_local-Keeps : (a : Answer) → Keeps net os (keep_local a)
  unfolding keep_local
  keep_local-Keeps (failed e) t w = w
  keep_local-Keeps (returned n out) t w = elim (Option-cases (to_inet_addr net out)) [
    | inl bad ↦ rw (bad, keep_local) w
    | inr (address, good) ↦
        rw (good, keep_local) (record { held = w.held; used = w.used; valid = w.valid })
  ]

  keep_peer-Keeps : (a : Answer) → Keeps net os (keep_peer a)
  unfolding keep_peer
  keep_peer-Keeps (failed e) t w = w
  keep_peer-Keeps (returned n out) t w = elim (Option-cases (to_inet_addr net out)) [
    | inl bad ↦ rw (bad, keep_peer) w
    | inr (address, good) ↦
        rw (good, keep_peer) (record { held = w.held; used = w.used; valid = w.valid })
  ]

  cached-Keeps :
      (o : Option net.Address) (ask : Io net (Found net)) (s : UdpSocket net)
      → IsTidy s
      → IsTidy (ask s).1
      → IsTidy (cached o ask s).1
  cached-Keeps none ask s v w = w
  cached-Keeps (some address) ask s v w = v

  unless-IsTidy :
      {A : Type 0} (b : Bool) (r t : Option A × UdpSocket net)
      → IsTidy r.1
      → ((b ≡ true) → IsTidy t.1)
      → IsTidy (if not b then r else t).1
  unless-IsTidy true r t v w = w refl
  unless-IsTidy false r t v w = v

  pub get_local_address-Keeps : Keeps net os (get_local_address os)
  unfolding get_local_address live names needs_descriptor
  get_local_address-Keeps s v =
      let call = Call.getsockname s.sockfd in
      unless-IsTidy (is_valid_socket s) (some (enotconn, none), s) _ v
        (λ e. cached-Keeps s.local_address (perform os call >>= keep_local) s v (
          next-IsTidy (perform os call s) (keep_local)
            (loosen (
              perform-IsTidy os call s (record { same = λ a h. refl; own = inr (refl, inr refl) })
                (checks v e)))
            keep_local-Keeps))

  pub get_peer_address-Keeps : Keeps net os (get_peer_address os)
  unfolding get_peer_address live names needs_descriptor
  get_peer_address-Keeps s v =
      let call = Call.getpeername s.sockfd in
      unless-IsTidy (is_valid_socket s) (some (enotconn, none), s) _ v
        (λ e. cached-Keeps s.peer_address (perform os call >>= keep_peer) s v (
          next-IsTidy (perform os call s) (keep_peer)
            (loosen (
              perform-IsTidy os call s (record { same = λ a h. refl; own = inr (refl, inr refl) })
                (checks v e)))
            keep_peer-Keeps))
