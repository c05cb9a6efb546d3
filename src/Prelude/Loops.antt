-- ===== src/Prelude/Loops.antt =====
-- `for (int i = 0; i < n; ++i)`, sums over such a range, and arrays as functions of the index.
use Prim.Native.Nat.{ℕ, zero, suc, ◌+◌, ◌≤◌, ◌<◌}
use mathlib.Core.Path.{◌≡◌, refl}
use mathlib.Core.Logic.{◌⊎◌, inl, inr}
use native.Mathlib.Omega.{arith}
use cpp_code_blocks.Prelude.Tests.{if◌then◌else◌, ◌==◌, Bool-cases}

-- The body sees the indices 0, 1, ..., n - 1 in this order.
unfoldable pub each {ℓ} : {S : Type ℓ} → ℕ → (ℕ → S → S) → S → S
each zero body s = s
each (suc n) body s = body n (each n body s)

pub each_inv {ℓ κ} :
    {S : Type ℓ} (P : ℕ → S → Type κ) (body : ℕ → S → S) (n : ℕ) (s : S)
    → P 0 s
    → ((i : ℕ) (t : S) → i < n → P i t → P (suc i) (body i t))
    → P n (each n body s)
unfolding each
each_inv P body zero s start keep = start
each_inv P body (suc n) s start keep =
    keep n (each n body s) (omega arith)
      (each_inv P body n s start (λ i t lt. keep i t (omega arith)))

-- `a[i] = v`
abbrev pub update {ℓ} : {A : Type ℓ} → (ℕ → A) → ℕ → A → ℕ → A
update a i v j = if i == j then v else a j

unfoldable pub sum_below : ℕ → (ℕ → ℕ) → ℕ
sum_below zero f = 0
sum_below (suc n) f = sum_below n f + f n

pub sum_below-congr :
    (n : ℕ) (f g : ℕ → ℕ) → ((i : ℕ) → i < n → f i ≡ g i) → sum_below n f ≡ sum_below n g
unfolding sum_below
sum_below-congr zero f g h = refl
sum_below-congr (suc n) f g h =
    omega (arith, h n (omega arith), sum_below-congr n f g (λ i lt. h i (omega arith)))

sum_below-update_above :
    (n i v : ℕ) (f : ℕ → ℕ) → n < suc i → sum_below n (update f i v) ≡ sum_below n f
sum_below-update_above n i v f h = sum_below-congr n (update f i v) f (λ j lt. ground arith)

-- Writing one cell changes the sum by the difference of its two values.
pub sum_below-update :
    (n i v : ℕ) (f : ℕ → ℕ) → i < n → sum_below n (update f i v) + f i ≡ sum_below n f + v
unfolding sum_below
sum_below-update zero i v f h = absurd (omega arith)
sum_below-update (suc n) i v f h =
    ground (arith, sum_below-update n i v f, sum_below-update_above n i v f)

pub sum_below_mono :
    (n : ℕ) (f g : ℕ → ℕ) → ((i : ℕ) → i < n → f i ≤ g i) → sum_below n f ≤ sum_below n g
unfolding sum_below
sum_below_mono zero f g h = omega arith
sum_below_mono (suc n) f g h =
    omega (arith, h n (omega arith), sum_below_mono n f g (λ i lt. h i (omega arith)))

-- A zero among the first `n` values, or the proof that there is none.
pub zero_below : (n : ℕ) (f : ℕ → ℕ) → ((i : ℕ) × (i < n) × (f i ≡ 0)) ⊎ ((i : ℕ) → i < n → 0 < f i)
zero_below zero f = inr (λ i h. absurd (omega arith))
zero_below (suc n) f = elim (zero_below n f) [
  | inl (i, h, e) ↦ inl (i, omega arith, e)
  | inr pos ↦ elim (Bool-cases (f n == 0)) [
    | inl e ↦ inl (n, omega arith, ground arith)
    | inr e ↦ inr (λ i h. elim (Bool-cases (i == n)) [
      | inl same ↦ let e' : i ≡ n = ground arith in rw e' (ground arith)
      | inr other ↦ pos i (ground arith)
    ])
  ]
]
