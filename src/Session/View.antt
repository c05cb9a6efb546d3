-- ===== src/Session/View.antt =====
-- What the user of a session sees, and what ikcp gives out.
use cpp_code_blocks.Prelude.{
  ℕ, ◌<◌, ◌≡◌, Bool, ◌||◌, List, [], ◌∷◌, ◌++◌, Option, none, some, if◌then◌else◌, length,
}
use cpp_code_blocks.Prelude.Maps.{is_some}
use cpp_code_blocks.Session.Defs.{Ikcp}
use cpp_code_blocks.Session.Reading.{Inbound, Reader}

abbrev pub size_of_first : List (List ℕ) → Option ℕ
size_of_first [] = none
size_of_first (m ∷ ms) = some (length m)

abbrev pub NoneEmpty : List (List ℕ) → Type 0
NoneEmpty [] = Unit {0}
NoneEmpty (m ∷ ms) = (0 < length m) × NoneEmpty ms

-- The messages that can be received now, in order: `ikcp_peeksize` has the size of the first, and
-- `ikcp_recv` gives it out.
pub record ReceiveLaws {ikcp : Ikcp} (inbound : Inbound ikcp) : Type 0 where
  pub available : ikcp.Cb → List (List ℕ)
  pub peeks : (cb : ikcp.Cb) → inbound.peeksize cb ≡ size_of_first (available cb)
  pub receives :
      (cb : ikcp.Cb) (m : List ℕ) (ms : List (List ℕ))
      → available cb ≡ m ∷ ms
      → ((inbound.recv cb (length m)).1 ≡ some m) × (available (inbound.recv cb (length m)).0 ≡ ms)

module _ (reader : Reader) where
  -- What the user sees.
  pub record View : Type 0 where
    pub user : reader.User
    pub buffer : List ℕ
    pub over : Bool

  abbrev pub hand_over : List ℕ → View → View
  hand_over m v =
      let (user, left, closes) = reader.on_message v.user (v.buffer ++ m) in
      record { user = user; buffer = left; over = v.over || is_some closes }

  -- The messages in order, until the session is closed; without a callback they are lost.
  unfoldable pub deliver : (callback : Bool) → List (List ℕ) → View → View
  deliver callback [] v = v
  deliver callback (m ∷ ms) v =
      if v.over then v else deliver callback ms (if callback then hand_over m v else v)
