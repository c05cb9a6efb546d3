-- ===== src/Game/Moves/Tiles.antt =====
-- `TryMove` keeps the sum of the tiles' values, and reports exactly whether a tile has moved.
use native.Mathlib.Nat.{pow-suc}
use cpp_code_blocks.Prelude.{
  ℕ, zero, suc, ◌+◌, ◌^◌, ◌≤◌, ◌<◌, ◌≡◌, ◌≢◌, ◌↔◌, ◌⊎◌, inl, inr, refl, ◌∙◌, true, false, arith,
  ◌==◌, if◌then◌else◌, update, sum_below, sum_below-update, sum_below-congr, sum_below_mono,
  zero_below, ap, subst,
}
use cpp_code_blocks.Game.Board.{Tiles}
use cpp_code_blocks.Game.Geometry.{dist}
use cpp_code_blocks.Game.Move.{Moving, start_move, merge_into, slide_to, move_cells, scan, try_move}
use cpp_code_blocks.Game.Moves.Round.{IsGoal, Round, still, slid, merged, move_inv}

-- The number that is shown for a tile.
abbrev pub face : ℕ → ℕ
face t = if t == 0 then 0 else 2 ^ t

abbrev pub total : Tiles → ℕ
total tiles = sum_below 16 (λ i. face (tiles i))

-- Any quantity of the cells after two writes.
module _ (w : ℕ → ℕ → ℕ) where
  abbrev weigh : Tiles → ℕ
  weigh tiles = sum_below 16 (λ i. w i (tiles i))

  weigh-update :
      (tiles : Tiles) (i v : ℕ)
      → i < 16
      → weigh (update tiles i v) + w i (tiles i) ≡ weigh tiles + w i v
  weigh-update tiles i v h = omega (
    arith,
    sum_below-congr 16 (λ j. w j (update tiles i v j)) (update (λ j. w j (tiles j)) i (w i v))
        (λ j lt. ground arith),
    sum_below-update 16 i (w i v) (λ j. w j (tiles j)) h,
  )

  -- `p` is cleared and `q` becomes `v`.
  weigh-move :
      (tiles : Tiles) (p q v : ℕ)
      → p < 16
      → q < 16
      → q ≢ p
      → weigh (update (update tiles q v) p 0) + w p (tiles p) + w q (tiles q)
        ≡ weigh tiles + w p 0 + w q v
  weigh-move tiles p q v hp hq ne =
      ground (arith, weigh-update tiles q v hq, weigh-update (update tiles q v) p 0 hp)

apart : {m : Moving} {p q dir : ℕ} → IsGoal m p q dir → q ≢ p
apart {m} {p} {q} {dir} g e = omega (arith, g.nearer, ap (λ i. dist i dir) e)

face-suc : (t : ℕ) → 0 < t → face (suc t) ≡ face t + face t
face-suc zero h = absurd (omega arith)
face-suc (suc t) h = ground (arith, pow-suc 2 (suc t))

total-Round :
    (dir p : ℕ) (m m' : Moving) → p < 16 → Round dir p m m' → total m'.tiles ≡ total m.tiles
total-Round dir p m m' hp (still s e) = rw e
total-Round dir p m m' hp (slid q g clear stop e) =
    rw e (ground (arith, weigh-move (λ i. face) m.tiles p q (m.tiles p) hp g.in_range (apart g)))
total-Round dir p m m' hp (merged q g same free e) = rw e (
    ground (
      arith,
      weigh-move (λ i. face) m.tiles p q (suc (m.tiles q)) hp g.in_range (apart g),
      face-suc (m.tiles q),
      ap face same,
      g.tile,
    ))

-- A move in one of the four directions keeps the sum of the values on the board.
pub try_move-total :
    (tiles : Tiles) (dir : ℕ) → dir < 4 → total (try_move tiles dir).0 ≡ total tiles
unfolding try_move
try_move-total tiles dir hd =
    move_inv (λ k m. total m.tiles ≡ total tiles) dir hd
      (λ p m m' hp r e. total-Round dir p m m' hp r ∙ e) (start_move tiles) refl

-- How far the tiles are from the side, a tile at the side counting one.
abbrev pub potential : ℕ → Tiles → ℕ
potential dir tiles = sum_below 16 (λ i. if tiles i == 0 then 0 else suc (dist i dir))

-- Nothing has moved yet, or the potential has fallen.
abbrev Falls : ℕ → Tiles → Moving → Type 0
Falls dir tiles m =
    ((m.can_move ≡ false) × (m.tiles ≡ tiles))
    ⊎ ((m.can_move ≡ true) × (potential dir m.tiles < potential dir tiles))

Falls-after :
    (dir : ℕ) (tiles : Tiles) (m m' : Moving)
    → m'.can_move ≡ true
    → potential dir m'.tiles < potential dir m.tiles
    → Falls dir tiles m
    → Falls dir tiles m'
Falls-after dir tiles m m' moved less (inl (_, same)) =
    inr (moved, subst (λ t. potential dir m'.tiles < potential dir t) same less)
Falls-after dir tiles m m' moved less (inr (_, before)) = inr (moved, omega arith)

potential-move :
    (dir p q v : ℕ) (m : Moving)
    → p < 16
    → IsGoal m p q dir
    → 0 < v
    → potential dir (update (update m.tiles q v) p 0) < potential dir m.tiles
potential-move dir p q v m hp g hv = ground (
  arith,
  weigh-move (λ i t. if t == 0 then 0 else suc (dist i dir)) m.tiles p q v hp g.in_range (apart g),
  g.nearer,
  g.tile,
)

Round-Falls :
    (dir p : ℕ) (tiles : Tiles) (m m' : Moving)
    → p < 16
    → Round dir p m m'
    → Falls dir tiles m
    → Falls dir tiles m'
Round-Falls dir p tiles m m' hp (still s e) f = rw e f
Round-Falls dir p tiles m m' hp (slid q g clear stop e) f = rw e (
    Falls-after dir tiles m (slide_to p q m) refl (potential-move dir p q (m.tiles p) m hp g g.tile)
      f)
Round-Falls dir p tiles m m' hp (merged q g same free e) f = rw e (
    Falls-after dir tiles m (merge_into p q m) refl
      (potential-move dir p q (suc (m.tiles q)) m hp g (omega arith)) f)

try_move-Falls :
    (tiles : Tiles) (dir : ℕ)
    → dir < 4
    → Falls dir tiles (move_cells dir (scan dir) (start_move tiles))
try_move-Falls tiles dir hd =
    move_inv (λ k m. Falls dir tiles m) dir hd
      (λ p m m' hp r f. Round-Falls dir p tiles m m' hp r f) (start_move tiles) (inl (refl, refl))

-- In each of the four directions `TryMove` returns false exactly when the board is as it was.
pub try_move-eq-false :
    (tiles : Tiles) (dir : ℕ)
    → dir < 4
    → ((try_move tiles dir).1 ≡ false) ↔ ((try_move tiles dir).0 ≡ tiles)
unfolding try_move
try_move-eq-false tiles dir hd = elim (try_move-Falls tiles dir hd) [
  | inl (stuck, same) ↦ (λ _. same, λ _. stuck)
  | inr (moved, less) ↦ (λ stuck. cc, λ same. absurd (omega (arith, ap (potential dir) same)))
]

sum_dist : (dir : ℕ) → dir < 4 → sum_below 16 (λ i. suc (dist i dir)) ≡ 40
unfolding sum_below
sum_dist zero h = refl
sum_dist (suc zero) h = refl
sum_dist (suc (suc zero)) h = refl
sum_dist (suc (suc (suc zero))) h = refl
sum_dist (suc (suc (suc (suc d)))) h = absurd (omega arith)

potential-le : (tiles : Tiles) (dir : ℕ) → dir < 4 → potential dir tiles ≤ 40
potential-le tiles dir hd = omega (
  arith,
  sum_dist dir hd,
  sum_below_mono 16 (λ i. if tiles i == 0 then 0 else suc (dist i dir)) (λ i. suc (dist i dir))
      (λ i h. ground arith),
)

potential-full :
    (tiles : Tiles) (dir : ℕ)
    → dir < 4
    → ((i : ℕ) → i < 16 → 0 < tiles i)
    → potential dir tiles ≡ 40
potential-full tiles dir hd full =
    sum_below-congr 16 (λ i. if tiles i == 0 then 0 else suc (dist i dir)) (λ i. suc (dist i dir))
      (λ i h. ground (arith, full i h))
    ∙ sum_dist dir hd

-- After a move in one of the four directions that returns true the board has an empty cell.
pub try_move_leaves_room :
    (tiles : Tiles) (dir : ℕ)
    → dir < 4
    → (try_move tiles dir).1 ≡ true
    → (i : ℕ) × (i < 16) × ((try_move tiles dir).0 i ≡ 0)
unfolding try_move
try_move_leaves_room tiles dir hd moved = elim (zero_below 16 (try_move tiles dir).0) [
  | inl found ↦ found
  | inr full ↦ elim (try_move-Falls tiles dir hd) [
    | inl (stuck, same) ↦ cc
    | inr (_, less) ↦ absurd (
        omega (arith, potential-full (try_move tiles dir).0 dir hd full, potential-le tiles dir hd))
  ]
]
