-- ===== src/Game/Grids.antt =====
-- ai/2048/ai_2048.cc: a board that is given out as a grid of values and taken in again.
use cpp_code_blocks.Prelude.{
  ℕ, zero, suc, ◌+◌, ◌*◌, ◌/◌, ◌%◌, ◌^◌, ◌≤◌, ◌<◌, ◌≡◌, ◌∙◌, ap, lt→ltb, refl, inl, inr, true, ◌&&◌,
  ltb, ◌==◌, if◌then◌else◌, each_inv, update, arith, Bool-cases,
}
use native.Mathlib.Nat.{pow-suc}
use cpp_code_blocks.Prelude.Int.{pos, ltb_ℤ, pos_part}
use cpp_code_blocks.Game.Utils.{lg2_loop, lg2}
use cpp_code_blocks.Game.Board.{Tiles, get_all_tiles, add_computer_move}

pow_pos : (t : ℕ) → 0 < 2 ^ t
pow_pos zero = omega arith
pow_pos (suc t) = omega (arith, pow_pos t, pow-suc 2 t)

lg2_loop-pow : (t fuel k : ℕ) → 2 ^ t ≤ fuel → lg2_loop fuel (2 ^ t) k ≡ k + t
unfolding lg2_loop
lg2_loop-pow t zero k h = absurd (omega (arith, pow_pos t))
lg2_loop-pow zero (suc fuel) k h = ground arith
lg2_loop-pow (suc t) (suc fuel) k h =
    let half : 2 ^ suc t / 2 ≡ 2 ^ t = omega (arith, pow-suc 2 t) in
    let rest = lg2_loop-pow t fuel (suc k) (omega (arith, pow-suc 2 t, pow_pos t)) in
    let more : ltb 1 (2 ^ suc t) ≡ true = ground (arith, pow-suc 2 t, pow_pos t) in
    rw (more, half) (omega (arith, rest))

lg2-pow : (t : ℕ) → lg2 (2 ^ t) ≡ t
unfolding lg2
lg2-pow t = ground (arith, pow_pos t, lg2_loop-pow t (2 ^ t) 0)

cell_lem :
    (tiles : Tiles) (i : ℕ)
    → get_all_tiles tiles (i / 4) (i % 4) ≡ (if ltb 0 (tiles i) then pos (2 ^ tiles i) else pos 0)
unfolding get_all_tiles
cell_lem tiles i = let back : i / 4 * 4 + i % 4 ≡ i = omega arith in rw back refl

-- The body of the loop of `AddComputerMove`.
abbrev fill : Tiles → ℕ → Tiles → Tiles
fill tiles i t =
    let cell = get_all_tiles tiles (i / 4) (i % 4) in
    if t i == 0 && ltb_ℤ (pos 0) cell then update t i (lg2 (pos_part cell)) else t

fill_lem :
    (tiles t : Tiles) (i j : ℕ) → fill tiles i t j ≡ (if i == j && (t i == 0) then tiles i else t j)
fill_lem tiles t i j = rw (cell_lem tiles i) (elim (Bool-cases (ltb 0 (tiles i))) [
  | inl tile ↦ rw tile (ground (arith, lg2-pow (tiles i), pow_pos (tiles i)))
  | inr empty ↦
      let none_there : tiles i ≡ 0 = ground arith in rw empty (ground (arith, none_there, ap t))
])

-- The cells before `n` have been taken in.
abbrev IsTaken : Tiles → Tiles → ℕ → Tiles → Type 0
IsTaken mine tiles n t = (j : ℕ) → t j ≡ (if ltb j n && (mine j == 0) then tiles j else mine j)

fill-IsTaken :
    (mine tiles : Tiles) (i : ℕ) (t : Tiles)
    → IsTaken mine tiles i t
    → IsTaken mine tiles (suc i) (fill tiles i t)
fill-IsTaken mine tiles i t v j = rw (fill_lem tiles t i j) (elim (Bool-cases (i == j)) [
  | inl same ↦ let e : i ≡ j = ground arith in rw e (ground (arith, v j))
  | inr other ↦ rw other (ground (arith, v j))
])

pub taken :
    (mine tiles : Tiles) → IsTaken mine tiles 16 (add_computer_move mine (get_all_tiles tiles))
unfolding add_computer_move
taken mine tiles =
    each_inv (IsTaken mine tiles) (fill tiles) 16 mine (λ j. ground arith)
      (λ i t h v. fill-IsTaken mine tiles i t v)

-- `AddComputerMove` on the grid that `GetAllTiles` has given fills exactly the empty cells, with the
-- tiles of the other board; a cell of a board has an index below 16.
pub add_computer_move-get_all_tiles :
    (mine tiles : Tiles) (i : ℕ)
    → i < 16
    → add_computer_move mine (get_all_tiles tiles) i ≡ (if mine i == 0 then tiles i else mine i)
add_computer_move-get_all_tiles mine tiles i hi =
    taken mine tiles i ∙ ap (λ b. if b && (mine i == 0) then tiles i else mine i) (lt→ltb i 16 hi)
