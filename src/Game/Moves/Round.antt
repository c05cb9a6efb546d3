-- ===== src/Game/Moves/Round.antt =====
-- What one round of the double loop of `TryMove` can do, as a relation between the states.
use cpp_code_blocks.Prelude.{
  ℕ, zero, suc, ◌+◌, ◌≤◌, ◌<◌, ◌≡◌, refl, sym, ◌⊎◌, inl, inr, false, not, ◌&&◌, List, [], ◌∷◌, none,
  some, arith, ltb, Bool-cases, length, subst,
}
use cpp_code_blocks.Game.Utils.{dir_pos}
use cpp_code_blocks.Game.Board.{Tiles, Pos, holds, get_target_pos}
use cpp_code_blocks.Game.Geometry.{
  dist, rank, IsNext, dir_pos-IsNext, IsTarget, get_target_pos-IsTarget, holds-some,
}
use cpp_code_blocks.Game.Move.{
  Moving, merge_into, slide_to, slide_if_apart, move_to, move_cell, move_cells, scan,
}

-- Before a tile at `p` can go on, there is the side of the board or another tile.
abbrev pub Stops : Tiles → ℕ → ℕ → Type 0
Stops tiles p dir = holds tiles (dir_pos p dir) 0 ≡ false

pub record IsGoal (m : Moving) (p q dir : ℕ) : Type 0 where
  pub in_range : q < 16
  pub nearer : dist q dir < dist p dir
  pub earlier : rank q dir < rank p dir
  pub tile : 0 < m.tiles p

pub data Round (dir p : ℕ) (m m' : Moving) : Type 0 where
  still : (m.tiles p ≡ 0) ⊎ Stops m.tiles p dir → m' ≡ m → Round dir p m m'
  slid :
      (q : ℕ)
      → IsGoal m p q dir
      → m.tiles q ≡ 0
      → Stops m.tiles q dir
      → m' ≡ slide_to p q m
      → Round dir p m m'
  merged :
      (q : ℕ)
      → IsGoal m p q dir
      → m.tiles q ≡ m.tiles p
      → m.merged q ≡ false
      → m' ≡ merge_into p q m
      → Round dir p m m'

module _ (dir p : ℕ) (m : Moving) (hp : p < 16) (hd : dir < 4) (tile : 0 < m.tiles p) where
  slide-Round :
      (t0 : ℕ) (t : Pos) → IsTarget m.tiles p dir (t0, t) → Round dir p m (slide_if_apart p t0 m)
  slide-Round t0 t found = elim found.reached [
    | inl same ↦ still (inr (rw (← same, ← found.follows) found.stops)) (ground arith)
    | inr (clear, near, early) ↦
        slid t0 (record { in_range = found.in_range; nearer = near; earlier = early; tile = tile })
          clear (rw (← found.follows) found.stops) (ground arith)
  ]

  nearer_of_reached :
      (t0 : ℕ) (t : Pos)
      → IsTarget m.tiles p dir (t0, t)
      → (dist t0 dir ≤ dist p dir) × (rank t0 dir ≤ rank p dir)
  nearer_of_reached t0 t found = elim found.reached [
    | inl same ↦ rw same (omega arith, omega arith)
    | inr (clear, near, early) ↦ (omega arith, omega arith)
  ]

  move_to-Round :
      (t0 : ℕ) (t : Pos) → IsTarget m.tiles p dir (t0, t) → Round dir p m (move_to p t0 t m)
  unfolding move_to
  move_to-Round t0 none found = slide-Round t0 none found
  move_to-Round t0 (some q) found =
      let next : IsNext t0 q dir = dir_pos-IsNext t0 q dir found.in_range hd (sym found.follows) in
      elim (Bool-cases (holds m.tiles (some q) (m.tiles p) && not (m.merged q))) [
        | inl joins ↦ rw joins (
            merged q
              (record {
                in_range = next.in_range;
                nearer = omega (arith, nearer_of_reached t0 (some q) found);
                earlier = omega (arith, nearer_of_reached t0 (some q) found);
                tile = tile;
              })
              (ground (arith, holds-some m.tiles q (m.tiles p) next.in_range)) (ground arith) refl)
        | inr apart ↦ rw apart (slide-Round t0 (some q) found)
      ]

pub move_cell-Round :
    (dir p : ℕ) (m : Moving) → p < 16 → dir < 4 → Round dir p m (move_cell dir p m)
unfolding move_cell
move_cell-Round dir p m hp hd = elim (Bool-cases (ltb 0 (m.tiles p))) [
  | inl tile ↦ rw tile (
      move_to-Round dir p m hp hd (ground arith) (get_target_pos m.tiles p dir).0
        (get_target_pos m.tiles p dir).1 (get_target_pos-IsTarget m.tiles p dir hp hd))
  | inr empty ↦ rw empty (still (inl (ground arith)) refl)
]

-- The positions have the ranks k, k + 1, ... in this order.
abbrev pub IsScan : ℕ → ℕ → List ℕ → Type 0
IsScan dir k [] = Unit {0}
IsScan dir k (p ∷ ps) = (p < 16) × (rank p dir ≡ k) × IsScan dir (suc k) ps

pub scan-IsScan : (dir : ℕ) → dir < 4 → IsScan dir 0 (scan dir)
scan-IsScan zero h = omega arith
scan-IsScan (suc zero) h = omega arith
scan-IsScan (suc (suc zero)) h = omega arith
scan-IsScan (suc (suc (suc zero))) h = omega arith
scan-IsScan (suc (suc (suc (suc d)))) h = absurd (omega arith)

length-scan : (d : ℕ) → d < 4 → length (scan d) ≡ 16
length-scan zero h = refl
length-scan (suc zero) h = refl
length-scan (suc (suc zero)) h = refl
length-scan (suc (suc (suc zero))) h = refl
length-scan (suc (suc (suc (suc d)))) h = absurd (omega arith)

module _ {ℓ} (P : ℕ → Moving → Type ℓ) (dir : ℕ) (hd : dir < 4)
    (keep : (p : ℕ) (m m' : Moving)
      → p < 16
      → Round dir p m m'
      → P (rank p dir) m
      → P (suc (rank p dir)) m') where
  rounds_inv :
      (k j : ℕ) (ps : List ℕ) (m : Moving)
      → IsScan dir k ps
      → k + length ps ≡ j
      → P k m
      → P j (move_cells dir ps m)
  unfolding move_cells
  rounds_inv k j [] m s e h = let e' : k ≡ j = omega arith in rw (← e') h
  rounds_inv k j (p ∷ ps) m (hp, r, s) e h =
      rounds_inv (suc k) j ps (move_cell dir p m) s (omega arith) (
        subst (λ n. P (suc n) (move_cell dir p m)) r
          (keep p m (move_cell dir p m) hp (move_cell-Round dir p m hp hd) (rw r h)))

  -- An invariant of the rounds, stated for the rank of the next position, holds at the end.
  pub move_inv : (m : Moving) → P 0 m → P 16 (move_cells dir (scan dir) m)
  move_inv m h =
      rounds_inv 0 16 (scan dir) m (scan-IsScan dir hd) (omega (arith, length-scan dir hd)) h
