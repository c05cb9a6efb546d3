-- ===== src/Game/Geometry.antt =====
-- The four by four grid behind `dir_pos`, and what `GetTargetPos` finds in it.
use cpp_code_blocks.Prelude.{
  ℕ, zero, suc, ◌+◌, ◌-◌, ◌*◌, ◌/◌, ◌%◌, ◌≤◌, ◌<◌, ◌≡◌, refl, sym, ◌⊎◌, inl, inr, Bool, true, false,
  ◌&&◌, none, some, arith, ltb, ◌==◌, if◌then◌else◌, Bool-cases, Option-cases,
}
use cpp_code_blocks.Game.Utils.{dir_pos, up, right, down}
use cpp_code_blocks.Game.Board.{Tiles, Pos, holds, target_loop, get_target_pos}

-- How many cells lie between a position and the side that `dir` points to.
abbrev pub dist : ℕ → ℕ → ℕ
dist p dir =
    if dir == up
    then p / 4
    else if dir == right
    then 3 - p % 4
    else if dir == down
    then 3 - p / 4
    else p % 4

-- When the double loop of `TryMove` reaches a position.
abbrev pub rank : ℕ → ℕ → ℕ
rank p dir =
    if dir == right
    then p / 4 * 4 + (3 - p % 4)
    else if dir == down
    then (3 - p / 4) * 4 + p % 4
    else p

all_below : ℕ → (ℕ → Bool) → Bool
all_below zero test = true
all_below (suc n) test = test n && all_below n test

all_below_sound :
    (n : ℕ) (test : ℕ → Bool) (i : ℕ) → all_below n test ≡ true → i < n → test i ≡ true
unfolding all_below
all_below_sound zero test i h lt = absurd (omega arith)
all_below_sound (suc n) test i h lt = ground (arith, all_below_sound n test i)

step_test : ℕ → ℕ → Bool
step_test dir p = elim (dir_pos p dir) [
  | none ↦ dist p dir == 0
  | some q ↦ ltb q 16 && suc (dist q dir) == dist p dir && ltb (rank q dir) (rank p dir)
]

step_table : all_below 4 (λ dir. all_below 16 (step_test dir)) ≡ true
unfolding all_below step_test dir_pos
step_table = refl

step_tested : (p dir : ℕ) → p < 16 → dir < 4 → step_test dir p ≡ true
step_tested p dir hp hd =
    all_below_sound 16 (step_test dir) p
      (all_below_sound 4 (λ d. all_below 16 (step_test d)) dir step_table hd) hp

pub record IsNext (p q dir : ℕ) : Type 0 where
  pub in_range : q < 16
  pub nearer : suc (dist q dir) ≡ dist p dir
  pub earlier : rank q dir < rank p dir

-- A neighbour lies on the board, one step nearer to the side, and is scanned earlier.
pub dir_pos-IsNext : (p q dir : ℕ) → p < 16 → dir < 4 → dir_pos p dir ≡ some q → IsNext p q dir
unfolding step_test
dir_pos-IsNext p q dir hp hd e =
    let t : step_test dir p ≡ true = step_tested p dir hp hd in ground arith

dir_pos_at_side : (p dir : ℕ) → p < 16 → dir < 4 → dist p dir ≡ 0 → dir_pos p dir ≡ none
unfolding step_test
dir_pos_at_side p dir hp hd e = elim (Option-cases (dir_pos p dir)) [
  | inl h ↦ h
  | inr (q, h) ↦ absurd (omega (arith, (dir_pos-IsNext p q dir hp hd h).nearer))
]

pub dist-le : (p dir : ℕ) → p < 16 → dir < 4 → dist p dir ≤ 3
dist-le p dir hp hd = ground arith

-- What `GetTargetPos` returns for the position `p`.
pub record IsTarget (tiles : Tiles) (p dir : ℕ) (t : ℕ × Pos) : Type 0 where
  pub in_range : t.0 < 16
  pub reached :
      (t.0 ≡ p) ⊎ ((tiles t.0 ≡ 0) × (dist t.0 dir < dist p dir) × (rank t.0 dir < rank p dir))
  pub follows : t.1 ≡ dir_pos t.0 dir
  pub stops : holds tiles t.1 0 ≡ false

pub holds-none : (tiles : Tiles) (v : ℕ) → holds tiles none v ≡ false
unfolding holds
holds-none tiles v = refl

pub holds-some : (tiles : Tiles) (q v : ℕ) → q < 16 → holds tiles (some q) v ≡ (tiles q == v)
unfolding holds
holds-some tiles q v h = ground arith

stay_IsTarget :
    (tiles : Tiles) (p dir : ℕ) (q : Pos)
    → p < 16
    → dir_pos p dir ≡ q
    → holds tiles q 0 ≡ false
    → IsTarget tiles p dir (p, q)
stay_IsTarget tiles p dir q hp e stop = record {
  in_range = hp;
  reached = inl refl;
  follows = sym e;
  stops = stop;
}

-- One empty cell further, the search goes on from there.
pass_IsTarget :
    (tiles : Tiles) (p q dir : ℕ) (t : ℕ × Pos)
    → IsNext p q dir
    → tiles q ≡ 0
    → IsTarget tiles q dir t
    → IsTarget tiles p dir t
pass_IsTarget tiles p q dir t next empty found = record {
  in_range = found.in_range;
  reached = elim found.reached [
    | inl same ↦ inr (rw same empty, rw same (omega arith), rw same next.earlier)
    | inr (clear, near, early) ↦ inr (clear, omega arith, omega arith)
  ];
  follows = found.follows;
  stops = found.stops;
}

target_loop-IsTarget :
    (fuel : ℕ) (tiles : Tiles) (p dir : ℕ)
    → p < 16
    → dir < 4
    → dist p dir < fuel
    → IsTarget tiles p dir (target_loop fuel tiles p dir)
unfolding target_loop
target_loop-IsTarget zero tiles p dir hp hd h = absurd (omega arith)
target_loop-IsTarget (suc fuel) tiles p dir hp hd h = elim (Option-cases (dir_pos p dir)) [
  | inl e ↦ rw (e, target_loop) (stay_IsTarget tiles p dir none hp e (holds-none tiles 0))
  | inr (q, e) ↦
      let next : IsNext p q dir = dir_pos-IsNext p q dir hp hd e in
      elim (Bool-cases (holds tiles (some q) 0)) [
        | inl clear ↦
            rw (e, target_loop, clear)
              (pass_IsTarget tiles p q dir (target_loop fuel tiles q dir) next
                (ground (arith, holds-some tiles q 0 next.in_range))
                (target_loop-IsTarget fuel tiles q dir next.in_range hd (omega arith)))
        | inr stop ↦ rw (e, target_loop, stop) (stay_IsTarget tiles p dir (some q) hp e stop)
      ]
]

-- From a cell of the board, in one of the four directions, `GetTargetPos` gives a cell that is the
-- start or an empty cell nearer to the side, and the position after that cell, which is off the
-- board or holds a tile: the loop ends by its own test.
pub get_target_pos-IsTarget :
    (tiles : Tiles) (p dir : ℕ)
    → p < 16
    → dir < 4
    → IsTarget tiles p dir (get_target_pos tiles p dir)
unfolding get_target_pos
get_target_pos-IsTarget tiles p dir hp hd =
    target_loop-IsTarget 4 tiles p dir hp hd (omega (arith, dist-le p dir hp hd))
