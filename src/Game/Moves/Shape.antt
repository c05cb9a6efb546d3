-- ===== src/Game/Moves/Shape.antt =====
-- `TryMove` merges a tile at most once, and leaves no gap before a tile.
use native.Mathlib.Nat.{lt_of_lt_of_le}
use native.Mathlib.Decide.{ℕ_discrete}
use cpp_code_blocks.Prelude.{
  ℕ, suc, ◌+◌, ◌≤◌, ◌<◌, ◌≡◌, ◌≢◌, inl, inr, ap, true, false, some, arith, ◌==◌, if◌then◌else◌,
  update, Option-cases, Bool-cases,
}
use cpp_code_blocks.Game.Utils.{dir_pos}
use cpp_code_blocks.Game.Board.{Tiles, holds}
use cpp_code_blocks.Game.Geometry.{rank, IsNext, dir_pos-IsNext, holds-some, holds-none}
use cpp_code_blocks.Game.Move.{Moving, start_move, try_move, move_cells, scan}
use cpp_code_blocks.Game.Moves.Round.{Stops, IsGoal, Round, still, slid, merged, move_inv}

-- A tile is above `n` only if it is marked as merged, and only cells scanned already are marked.
record OneMerge (n dir k : ℕ) (m : Moving) : Type 0 where
  bound : (i : ℕ) → i < 16 → m.tiles i ≤ n + (if m.merged i then 1 else 0)
  marked : (i : ℕ) → m.merged i ≡ true → rank i dir < k

Round-OneMerge :
    (n dir p : ℕ) (m m' : Moving)
    → p < 16
    → Round dir p m m'
    → OneMerge n dir (rank p dir) m
    → OneMerge n dir (suc (rank p dir)) m'
Round-OneMerge n dir p m m' hp (still s e) h =
    rw e (record { bound = h.bound; marked = λ i t. omega (arith, h.marked i t) })
Round-OneMerge n dir p m m' hp (slid q g clear stop e) h = rw e (record {
  bound = λ i hi. ground (arith, h.bound i, h.bound p, h.marked p);
  marked = λ i t. omega (arith, h.marked i t);
})
Round-OneMerge n dir p m m' hp (merged q g same free e) h = rw e (record {
  bound = λ i hi. ground (arith, h.bound i, h.bound q g.in_range);
  marked = λ i t. elim (Bool-cases (q == i)) [
    | inl here ↦ ground (arith, g.earlier)
    | inr other ↦ ground (arith, h.marked i)
  ];
})

-- One move in one of the four directions raises the largest tile by one at most: a merged tile
-- takes no part in a second merge.
pub try_move_bounded :
    (tiles : Tiles) (dir n : ℕ)
    → dir < 4
    → ((i : ℕ) → i < 16 → tiles i ≤ n)
    → (i : ℕ) → i < 16
    → (try_move tiles dir).0 i ≤ suc n
unfolding try_move
try_move_bounded tiles dir n hd h i hi = ground (arith, final.bound i hi)
  where
    final : OneMerge n dir 16 (move_cells dir (scan dir) (start_move tiles))
    final =
        move_inv (OneMerge n dir) dir hd (λ p m m' hp r f. Round-OneMerge n dir p m m' hp r f)
          (start_move tiles) (record { bound = λ j hj. omega (arith, h j hj); marked = λ j t. cc })

Stops-next :
    (tiles : Tiles) (i r dir : ℕ)
    → r < 16
    → dir_pos i dir ≡ some r
    → Stops tiles i dir
    → tiles r ≢ 0
Stops-next tiles i r dir hr e stop = ground (arith, holds-some tiles r 0 hr, rw e at stop)

-- What stops a tile still stops it where no cell in its way has been cleared.
Stops-keep :
    (tiles tiles' : Tiles) (i dir : ℕ)
    → i < 16
    → dir < 4
    → ((r : ℕ) → IsNext i r dir → tiles r ≢ 0 → tiles' r ≢ 0)
    → Stops tiles i dir
    → Stops tiles' i dir
Stops-keep tiles tiles' i dir hi hd keep stop = elim (Option-cases (dir_pos i dir)) [
  | inl e ↦ rw e (holds-none tiles' 0)
  | inr (r, e) ↦
      let next : IsNext i r dir = dir_pos-IsNext i r dir hi hd e in
      rw e (
        ground (
          arith,
          holds-some tiles' r 0 next.in_range,
          keep r next (Stops-next tiles i r dir next.in_range e stop),
        ))
]

rank-injective : (i p dir : ℕ) → i < 16 → p < 16 → dir < 4 → rank i dir ≡ rank p dir → i ≡ p
rank-injective i p dir hi hp hd e = ground arith

earlier_ne : (r p dir : ℕ) → rank r dir < rank p dir → r ≢ p
earlier_ne r p dir h e = omega (arith, h, ap (λ i. rank i dir) e)

full_after :
    (tiles : Tiles) (p q v r : ℕ)
    → r ≢ p
    → 0 < v
    → tiles r ≢ 0
    → update (update tiles q v) p 0 r ≢ 0
full_after tiles p q v r ne hv full = ground arith

full_before :
    (tiles : Tiles) (p q v i : ℕ)
    → (q == i) ≡ false
    → 0 < update (update tiles q v) p 0 i
    → (i ≢ p) × (0 < tiles i)
full_before tiles p q v i ne full = ground arith

cleared : (tiles : Tiles) (p q v i : ℕ) → 0 < update (update tiles q v) p 0 i → i ≢ p
cleared tiles p q v i full = ground arith

earlier_lt :
    (i p dir : ℕ)
    → i < 16
    → p < 16
    → dir < 4
    → i ≢ p
    → rank i dir < suc (rank p dir)
    → rank i dir < rank p dir
earlier_lt i p dir hi hp hd ne h = ground arith

-- Every cell scanned so far is empty or stopped.
abbrev Settled : ℕ → ℕ → Moving → Type 0
Settled dir k m = (i : ℕ) → i < 16 → rank i dir < k → 0 < m.tiles i → Stops m.tiles i dir

-- A tile goes from `p` to `q`, where it is stopped.
Settled-move :
    (dir p q v : ℕ) (m : Moving)
    → p < 16
    → dir < 4
    → IsGoal m p q dir
    → 0 < v
    → Stops m.tiles q dir
    → Settled dir (rank p dir) m
    → (i : ℕ) → i < 16
    → rank i dir < suc (rank p dir)
    → 0 < update (update m.tiles q v) p 0 i
    → Stops (update (update m.tiles q v) p 0) i dir
Settled-move dir p q v m hp hd g hv stop s i hi early tile =
    Stops-keep m.tiles (update (update m.tiles q v) p 0) i dir hi hd
      (λ r next full.
        full_after m.tiles p q v r (earlier_ne r p dir (lt_of_lt_of_le next.earlier (omega arith)))
          hv full)
      before
  where
    before : Stops m.tiles i dir
    before = elim (Bool-cases (q == i)) [
      | inl same ↦ let e : q ≡ i = ground arith in rw e at stop
      | inr other ↦
          let (ne, full) = full_before m.tiles p q v i other tile in
          s i hi (earlier_lt i p dir hi hp hd ne early) full
    ]

Round-Settled :
    (dir p : ℕ) (m m' : Moving)
    → p < 16
    → dir < 4
    → Round dir p m m'
    → Settled dir (rank p dir) m
    → Settled dir (suc (rank p dir)) m'
Round-Settled dir p m m' hp hd (still c e) s = rw e (λ i hi early tile. elim (ℕ_discrete i p) [
  | yes same ↦ elim c [
    | inl empty ↦ absurd (omega (arith, tile, empty, ap m.tiles same))
    | inr stop ↦ rw same stop
  ]
  | no other ↦ s i hi (earlier_lt i p dir hi hp hd other early) tile
])
Round-Settled dir p m m' hp hd (slid q g clear stop e) s =
    rw e (Settled-move dir p q (m.tiles p) m hp hd g g.tile stop s)
Round-Settled dir p m m' hp hd (merged q g same free e) s = rw e (
    Settled-move dir p q (suc (m.tiles q)) m hp hd g (omega arith)
      (s q g.in_range g.earlier (omega (arith, g.tile, same))) s)

-- After a move in one of the four directions, what lies next to a tile in that direction is the side of the board or
-- another tile: no tile has a gap before it.
pub try_move_settled :
    (tiles : Tiles) (dir i : ℕ)
    → dir < 4
    → i < 16
    → 0 < (try_move tiles dir).0 i
    → holds (try_move tiles dir).0 (dir_pos i dir) 0 ≡ false
unfolding try_move
try_move_settled tiles dir i hd hi tile = final i hi (ground arith) tile
  where
    final : Settled dir 16 (move_cells dir (scan dir) (start_move tiles))
    final =
        move_inv (Settled dir) dir hd (λ p m m' hp r s. Round-Settled dir p m m' hp hd r s)
          (start_move tiles) (λ j hj early full. elim early [ ])
