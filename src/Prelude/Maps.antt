-- ===== src/Prelude/Maps.antt =====
-- `std::unordered_map` as an association list. The order of the entries stands for the order of
-- iteration, which the standard leaves open.
use Prim.Native.Nat.{ℕ}
use Prim.Native.String.{String}
use mathlib.Core.Path.{◌≡◌}
use mathlib.Core.Logic.{◌↔◌}
use mathlib.Core.Bool.{Bool, true, false}
use mathlib.Core.Option.{Option, none, some}
use mathlib.Core.List.{List, [], ◌∷◌}
use text.Mathlib.Text.{◌==◌ as str_eq}
use text.Mathlib.TextEquality.{eq_iff}
use native.Mathlib.Omega.{arith}
use cpp_code_blocks.Prelude.Tests.{if◌then◌else◌, ◌==◌ as nat_beq, ==_iff}

pub record Eq {ℓ} (A : Type ℓ) : Type ℓ where
  pub beq : A → A → Bool
  pub beq_iff : (a b : A) → (beq a b ≡ true) ↔ (a ≡ b)

instance abbrev pub nat_eq : Eq ℕ
nat_eq = record { beq = nat_beq; beq_iff = ==_iff }

instance abbrev pub string_eq : Eq String
string_eq = record { beq = str_eq; beq_iff = eq_iff }

abbrev pub Map {ℓ κ} : Type ℓ → Type κ → Type (ℓ ⊔ κ)
Map K V = List (K × V)

abbrev pub is_some {ℓ} : {A : Type ℓ} → Option A → Bool
is_some none = false
is_some (some v) = true

module _ {ℓ κ} {K : Type ℓ} {V : Type κ} ⦃e : Eq K⦄ where
  unfoldable pub find : K → Map K V → Option V
  find k [] = none
  find k ((j, v) ∷ m) = if e.beq j k then some v else find k m

  -- `m.count(k) > 0`
  unfoldable pub contains : K → Map K V → Bool
  unfolding find
  contains k m = is_some (find k m)

  -- `m.erase(k)`; keys are distinct in the program's maps.
  unfoldable pub erase : K → Map K V → Map K V
  erase k [] = []
  erase k ((j, v) ∷ m) = if e.beq j k then erase k m else (j, v) ∷ erase k m

  -- `m.insert(make_pair(k, v))` changes nothing where the key is there already.
  unfoldable pub insert : K → V → Map K V → Map K V
  unfolding contains
  insert k v m = if contains k m then m else (k, v) ∷ m

  -- `it->second = v` at the entry of `k`.
  unfoldable pub assign : K → V → Map K V → Map K V
  assign k v [] = []
  assign k v ((j, w) ∷ m) = if e.beq j k then (j, v) ∷ assign k v m else (j, w) ∷ assign k v m

  pub find-erase :
      (k j : K) (m : Map K V) → find j (erase k m) ≡ (if e.beq k j then none else find j m)
  unfolding find erase
  find-erase k j [] = ground arith
  find-erase k j ((i, w) ∷ m) =
      ground (arith, find-erase k j m, e.beq_iff k j, e.beq_iff i k, e.beq_iff i j)

  pub find-insert :
      (k j : K) (v : V) (m : Map K V)
      → find j (insert k v m)
        ≡ (if e.beq k j then (if contains k m then find k m else some v) else find j m)
  unfolding find insert
  find-insert k j v m = ground (arith, e.beq_iff k j)

  pub find-assign :
      (k j : K) (v : V) (m : Map K V)
      → find j (assign k v m)
        ≡ (if e.beq k j then (if contains k m then some v else none) else find j m)
  unfolding find assign contains
  find-assign k j v [] = ground arith
  find-assign k j v ((i, w) ∷ m) =
      ground (arith, find-assign k j v m, e.beq_iff k j, e.beq_iff i k, e.beq_iff i j)

  pub contains-erase :
      (k j : K) (m : Map K V) → contains j (erase k m) ≡ (if e.beq k j then false else contains j m)
  unfolding contains
  contains-erase k j m = rw (find-erase k j m) (ground arith)

  pub contains-insert :
      (k j : K) (v : V) (m : Map K V)
      → contains j (insert k v m) ≡ (if e.beq k j then true else contains j m)
  unfolding contains
  contains-insert k j v m = rw (find-insert k j v m) (ground (arith, e.beq_iff k j))

  pub contains-assign : (k j : K) (v : V) (m : Map K V) → contains j (assign k v m) ≡ contains j m
  unfolding contains
  contains-assign k j v m = rw (find-assign k j v m) (ground (arith, e.beq_iff k j))
