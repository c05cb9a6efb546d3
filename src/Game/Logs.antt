-- ===== src/Game/Logs.antt =====
-- ai/2048/ai_utils.h: what `lg2` computes.
use cpp_code_blocks.Prelude.{
  ℕ, zero, suc, ◌+◌, ◌/◌, ◌^◌, ◌≤◌, ◌<◌, ◌≡◌, inl, inr, ltb, arith, Bool-cases,
}
use native.Mathlib.Nat.{pow-suc}
use cpp_code_blocks.Game.Utils.{lg2_loop, lg2}

-- Where the loop stops: `e` steps on.
record IsLog (n k result : ℕ) : Type 0 where
  e : ℕ
  steps : result ≡ k + e
  below : 2 ^ e ≤ n
  above : n < 2 ^ suc e

lg2_loop-IsLog : (fuel n k : ℕ) → 0 < n → n ≤ fuel → IsLog n k (lg2_loop fuel n k)
unfolding lg2_loop
lg2_loop-IsLog zero n k h enough = absurd (omega arith)
lg2_loop-IsLog (suc fuel) n k h enough = elim (Bool-cases (ltb 1 n)) [
  | inr last ↦ record { e = 0; steps = ground arith; below = omega arith; above = ground arith }
  | inl more ↦
      let half : 0 < n / 2 = ground arith in
      let rest = lg2_loop-IsLog fuel (n / 2) (suc k) half (ground arith) in
      record {
        e = suc rest.e;
        steps = rw more (omega (arith, rest.steps));
        below = omega (arith, rest.below, pow-suc 2 rest.e);
        above = omega (arith, rest.above, pow-suc 2 (suc rest.e));
      }
]

-- For a positive number `lg2` is the logarithm to base 2, rounded down: the loop has enough fuel.
pub lg2_bounds : (n : ℕ) → 0 < n → (2 ^ lg2 n ≤ n) × (n < 2 ^ suc (lg2 n))
unfolding lg2
lg2_bounds n h =
    let log = lg2_loop-IsLog n n 0 h (omega arith) in
    let same : lg2 n ≡ log.e = ground (arith, log.steps) in rw same (log.below, log.above)
