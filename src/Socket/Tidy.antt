-- ===== src/Socket/Tidy.antt =====
-- Descriptors are neither leaked nor used after their end.
use cpp_code_blocks.Prelude.{
  ℕ, zero, suc, ◌≡◌, ◌∙◌, ap, sym, refl, ◌⊎◌, inl, inr, Bool, true, false, List, [], ◌∷◌, Option,
  none, some, ◌==◌, if◌then◌else◌, arith, Option-cases,
}
use cpp_code_blocks.Prelude.Int.{ℤ, pos, negsuc}
use cpp_code_blocks.Socket.Io.{
  Call, Answer, returned, History, System, Addresses, Descriptor, UdpSocket, new_socket, Io, next,
  ◌>>=◌, asserts, or_return, perform, handle_eintr, is_interrupted, is_valid_socket,
}
use cpp_code_blocks.Prelude.Maps.{is_some}

-- `close` ends one use of the descriptor, whatever it returns.
abbrev pub forget : ℕ → List ℕ → List ℕ
forget fd [] = []
forget fd (x ∷ xs) = if x == fd then xs else x ∷ forget fd xs

pub forgotten : (fd : ℕ) → forget fd (fd ∷ []) ≡ []
forgotten fd = ground arith

-- The descriptors that are open after the calls.
unfoldable pub live : History → List ℕ
live [] = []
live ((Call.socket family, returned fd out) ∷ h) = fd ∷ live h
live ((Call.close (some fd), answer) ∷ h) = forget fd (live h)
live (_ ∷ h) = live h

-- The descriptor that a call is made on; `none` also where it has none.
unfoldable pub names : Call → Descriptor
names (Call.close fd) = fd
names (Call.setsockopt fd level option value) = fd
names (Call.set_group fd level option ifindex group) = fd
names (Call.connect fd address) = fd
names (Call.bind fd address) = fd
names (Call.getsockname fd) = fd
names (Call.getpeername fd) = fd
names (Call.recvfrom fd size flags) = fd
names (Call.sendto fd bytes flags address) = fd
names (Call.recvmmsg fd messages flags) = fd
names (Call.sendmmsg fd messages flags) = fd
names (Call.recvmsg fd flags) = fd
names (Call.sendmsg fd flags) = fd
names _ = none

-- Whether the system has to get an open descriptor with the call. `RecvFrom` and `SendToImpl` do not look
-- at theirs, and pass -1 on where the socket is not open; three calls take none.
unfoldable pub needs_descriptor : Call → Bool
needs_descriptor (Call.socket family) = false
needs_descriptor (Call.if_indextoname ifindex) = false
needs_descriptor (Call.if_nametoindex ifname) = false
needs_descriptor (Call.recvfrom fd size flags) = false
needs_descriptor (Call.sendto fd bytes flags address) = false
needs_descriptor _ = true

-- A call is made on the one descriptor that is open; on none only if it needs none.
abbrev pub IsUsed : Call → History → Type 0
IsUsed call h =
    ((names call ≡ none) × (needs_descriptor call ≡ false))
    ⊎ ((fd : ℕ) × (names call ≡ some fd) × (live h ≡ fd ∷ []))

abbrev pub AllUsed : History → Type 0
AllUsed [] = Unit {0}
AllUsed ((call, answer) ∷ h) = IsUsed call h × AllUsed h

abbrev pub opened : Descriptor → List ℕ
opened none = []
opened (some fd) = fd ∷ []

module _ {net : Addresses} where
  -- Exactly the socket's descriptor is open, and every call so far was made as it has to be. Behind the
  -- assertion of a method, the socket is valid too.
  pub record IsTidyIf (checked : Bool) (s : UdpSocket net) : Type 0 where
    pub held : live s.history ≡ opened s.sockfd
    pub used : AllUsed s.history
    pub valid : (checked ≡ false) ⊎ (is_valid_socket s ≡ true)

  abbrev pub IsTidy : UdpSocket net → Type 0
  IsTidy = IsTidyIf false

  pub checks : {s : UdpSocket net} → IsTidy s → is_valid_socket s ≡ true → IsTidyIf true s
  checks v e = record { held = v.held; used = v.used; valid = inr e }

  pub loosen : {s : UdpSocket net} → IsTidyIf true s → IsTidy s
  loosen v = record { held = v.held; used = v.used; valid = inl refl }

  pub new_socket-IsTidy : IsTidy (new_socket net)
  unfolding live
  new_socket-IsTidy = record { held = refl; used = tt; valid = inl refl }

  pub next-IsTidy {ℓ κ} :
      {checked : Bool} {A : Type ℓ} {B : Type κ} (r : Option A × UdpSocket net) (f : A → Io net B)
      → IsTidyIf checked r.1
      → ((a : A) (t : UdpSocket net) → IsTidyIf checked t → IsTidyIf checked (f a t).1)
      → IsTidyIf checked (next f r).1
  next-IsTidy (none, s) f v k = v
  next-IsTidy (some a, s) f v k = k a s v

  pub if-IsTidy {ℓ} :
      {checked : Bool} {A : Type ℓ} (b : Bool) (r t : Option A × UdpSocket net)
      → IsTidyIf checked r.1
      → IsTidyIf checked t.1
      → IsTidyIf checked (if b then r else t).1
  if-IsTidy true r t v w = v
  if-IsTidy false r t v w = w

  pub if_io-IsTidy {ℓ} :
      {checked : Bool} {A : Type ℓ} (b : Bool) (m k : Io net A) (s : UdpSocket net)
      → IsTidyIf checked (m s).1
      → IsTidyIf checked (k s).1
      → IsTidyIf checked ((if b then m else k) s).1
  if_io-IsTidy true m k s v w = v
  if_io-IsTidy false m k s v w = w

  asserted {κ} :
      {checked : Bool} {B : Type κ} (b : Bool) (f : Unit {0} → Io net B) (s : UdpSocket net)
      → IsTidyIf checked s
      → ((b ≡ true) → IsTidyIf checked (f tt s).1)
      → IsTidyIf checked (next f (if b then (some tt, s) else (none, s))).1
  asserted true f s v k = k refl
  asserted false f s v k = v

  pub asserts-IsTidy {κ} :
      {checked : Bool} {B : Type κ} (test : UdpSocket net → Bool) (f : Unit {0} → Io net B)
      (s : UdpSocket net)
      → IsTidyIf checked s
      → ((test s ≡ true) → IsTidyIf checked (f tt s).1)
      → IsTidyIf checked ((asserts test >>= f) s).1
  asserts-IsTidy test f s v k = asserted (test s) f s v k

  pub or_return-IsTidy :
      {checked : Bool} (rv : ℤ) (k : Io net ℤ) (s : UdpSocket net)
      → IsTidyIf checked s
      → ((t : UdpSocket net) → IsTidyIf checked t → IsTidyIf checked (k t).1)
      → IsTidyIf checked (or_return rv k s).1
  or_return-IsTidy (pos n) k s v w = w s v
  or_return-IsTidy (negsuc e) k s v w = v

  -- The call opens and closes nothing, and is made on the socket's descriptor, or on none if it
  -- needs none.
  pub record IsPlain (checked : Bool) (call : Call) (s : UdpSocket net) : Type 0 where
    pub same : (answer : Answer) (h : History) → live ((call, answer) ∷ h) ≡ live h
    pub own :
        ((names call ≡ none) × (needs_descriptor call ≡ false))
        ⊎ ((names call ≡ s.sockfd) × ((needs_descriptor call ≡ false) ⊎ (checked ≡ true)))

  -- A call on the socket's descriptor while that is not open.
  unneeded :
      (checked : Bool) (call : Call) (s : UdpSocket net)
      → IsTidyIf checked s
      → s.sockfd ≡ none
      → (needs_descriptor call ≡ false) ⊎ (checked ≡ true)
      → needs_descriptor call ≡ false
  unneeded checked call s v gone (inl e) = e
  unneeded checked call s v gone (inr c) = elim v.valid [
    | inl loose ↦ cc
    | inr valid ↦ cc (sym (ap is_some gone))
  ]

  called-IsUsed :
      (checked : Bool) (call : Call) (s : UdpSocket net)
      → IsTidyIf checked s
      → IsPlain checked call s
      → IsUsed call s.history
  called-IsUsed checked call s v p = elim p.own [
    | inl without ↦ inl without
    | inr (e, needs) ↦ elim (Option-cases s.sockfd) [
      | inl gone ↦ inl (e ∙ gone, unneeded checked call s v gone needs)
      | inr (fd, there) ↦ inr (fd, e ∙ there, v.held ∙ ap opened there)
    ]
  ]

  pub perform-IsTidy :
      {checked : Bool} (os : System) (call : Call) (s : UdpSocket net)
      → IsPlain checked call s
      → IsTidyIf checked s
      → IsTidyIf checked (perform os call s).1
  unfolding perform
  perform-IsTidy {checked} os call s p v = record {
    held = p.same (os s.history call) s.history ∙ v.held;
    used = (called-IsUsed checked call s v p, v.used);
    valid = v.valid;
  }

  pub handle_eintr-IsTidy :
      {checked : Bool} (os : System) (retries : ℕ) (call : Call) (s : UdpSocket net)
      → IsPlain checked call s
      → IsTidyIf checked s
      → IsTidyIf checked (handle_eintr os retries call s).1
  unfolding handle_eintr perform
  handle_eintr-IsTidy os zero call s p v = perform-IsTidy os call s p v
  handle_eintr-IsTidy os (suc retries) call s p v =
      let first = perform-IsTidy os call s p v in
      if-IsTidy (is_interrupted (os s.history call))
        (handle_eintr os retries call (perform os call s).1) (perform os call s)
        (handle_eintr-IsTidy os retries call (perform os call s).1
          (record { same = p.same; own = p.own }) first)
        first
