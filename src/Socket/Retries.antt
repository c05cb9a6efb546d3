-- ===== src/Socket/Retries.antt =====
-- common/macros.h: the calls that `HANDLE_EINTR` makes.
use cpp_code_blocks.Prelude.{
  ℕ, zero, suc, ◌≡◌, ap, refl, ◌⊎◌, inl, inr, Bool, true, false, ◌<◌, ◌≤◌, arith, Bool-cases,
}
use cpp_code_blocks.Socket.Io.{
  Call, System, Addresses, UdpSocket, perform, handle_eintr, is_interrupted,
}

module _ {net : Addresses} (os : System) (call : Call) where
  -- The socket once the call was made `n` times.
  unfoldable pub after : ℕ → UdpSocket net → UdpSocket net
  unfolding perform
  after zero s = s
  after (suc n) s = after n (perform os call s).1

  abbrev pub interrupted_at : ℕ → UdpSocket net → Bool
  interrupted_at n s = is_interrupted (os (after n s).history call)

  -- Call number `count`, from 0, is the last, and its answer is the result: those before it were
  -- interrupted, and it was not, or it is the last one allowed.
  pub record IsRetried (retries : ℕ) (s : UdpSocket net) : Type 0 where
    pub count : ℕ
    pub bounded : count ≤ retries
    pub result : handle_eintr os retries call s ≡ perform os call (after count s)
    pub before : (i : ℕ) → i < count → interrupted_at i s ≡ true
    pub ended : (interrupted_at count s ≡ false) ⊎ (count ≡ retries)

  shift_before :
      (n : ℕ) (s : UdpSocket net)
      → interrupted_at 0 s ≡ true
      → ((i : ℕ) → i < n → interrupted_at i (perform os call s).1 ≡ true)
      → (i : ℕ) → i < suc n
      → interrupted_at i s ≡ true
  unfolding after perform
  shift_before n s first rest zero v = first
  shift_before n s first rest (suc i) v = rest i (omega arith)

  -- HANDLE_EINTR makes a call at most `retries` + 1 times: again while it is interrupted. Its result is
  -- that of the first call that is not interrupted, or of the last one.
  pub handle_eintr-IsRetried : (retries : ℕ) (s : UdpSocket net) → IsRetried retries s
  unfolding handle_eintr after perform
  handle_eintr-IsRetried zero s = record {
    count = 0;
    bounded = omega arith;
    result = refl;
    before = λ i v. ground arith;
    ended = inr refl;
  }
  handle_eintr-IsRetried (suc retries) s =
      let again = handle_eintr-IsRetried retries (perform os call s).1 in
      elim (Bool-cases (is_interrupted (os s.history call))) [
        | inr other ↦ record {
          count = 0;
          bounded = omega arith;
          result = rw other refl;
          before = λ i v. ground arith;
          ended = inl other;
        }
        | inl eintr ↦ record {
          count = suc again.count;
          bounded = (let b = again.bounded in omega arith);
          result = rw eintr again.result;
          before = shift_before again.count s eintr again.before;
          ended = elim again.ended [ inl other ↦ inl other | inr e ↦ inr (ap suc e) ];
        }
      ]
