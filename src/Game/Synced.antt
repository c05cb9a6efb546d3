-- ===== src/Game/Synced.antt =====
-- The boards of the two programs of a match.
use cpp_code_blocks.Prelude.{
  get_or, ℕ, zero, suc, ◌+◌, ◌*◌, ◌/◌, ◌%◌, ◌<◌, ◌≡◌, ◌∙◌, ap, sym, subst, refl, fun_ext, ◌⊎◌, inl,
  inr, ◌&&◌, List, [], ◌∷◌, ◌++◌, ltb, ◌==◌, if◌then◌else◌, length, each, map, length-append,
  each_inv, update, arith, ltb→lt, Bool-cases, chosen, passed_over,
}
use native.Mathlib.Nat.{mod-lt}
use cpp_code_blocks.Prelude.Int.{ℤ, pos, ltb_ℤ, pos_part}
use cpp_code_blocks.Game.Board.{
  Tiles, add_computer_move, get_all_tiles, get_all_empty_pos, add_rand_tile,
}
use cpp_code_blocks.Game.Utils.{lg2}
use cpp_code_blocks.Game.Grids.{taken}
use cpp_code_blocks.Game.Match.{grid_of, indices, data_from}

-- The server's board has all tiles of the client's, but for cells that it takes for empty.
abbrev pub IsBehind : Tiles → Tiles → Type 0
IsBehind server client = (i : ℕ) → (server i ≡ client i) ⊎ ((server i ≡ 0) × (i < 16))

each-congr {ℓ} :
    {S : Type ℓ} (n : ℕ) (f g : ℕ → S → S) (s : S)
    → ((i : ℕ) (t : S) → i < n → f i t ≡ g i t)
    → each n f s ≡ each n g s
unfolding each
each-congr zero f g s same = refl
each-congr (suc n) f g s same =
    same n (each n f s) (omega arith)
    ∙ ap (g n) (each-congr n f g s (λ i t h. same i t (omega arith)))

get_or-indices :
    (f : ℕ → ℤ) (n k i : ℕ) → i < n → get_or (map f (indices n k)) i (pos 0) ≡ f (k + i)
unfolding get_or indices
get_or-indices f zero k i h = absurd (omega arith)
get_or-indices f (suc n) k zero h = ap f (omega arith)
get_or-indices f (suc n) k (suc i) h =
    get_or-indices f n (suc k) i (omega arith) ∙ ap f (omega arith)

same_cell :
    (tiles : Tiles) (i : ℕ)
    → i < 16
    → grid_of (data_from tiles) (i / 4) (i % 4) ≡ get_all_tiles tiles (i / 4) (i % 4)
unfolding data_from
same_cell tiles i h =
    let back : i / 4 * 4 + i % 4 ≡ i = omega arith in
    let cell : ℕ → ℤ = λ k. get_all_tiles tiles (k / 4) (k % 4) in
    ap (λ k. get_or (map cell (indices 16 0)) k (pos 0)) back
    ∙ get_or-indices cell 16 0 i h
    ∙ ap cell (omega arith)

same_grid :
    (mine tiles : Tiles)
    → add_computer_move mine (grid_of (data_from tiles))
      ≡ add_computer_move mine (get_all_tiles tiles)
unfolding add_computer_move
same_grid mine tiles = each-congr 16 _ _ mine (λ i t h.
    ap (λ cell. if t i == 0 && ltb_ℤ (pos 0) cell then update t i (lg2 (pos_part cell)) else t)
      (same_cell tiles i h))

-- What the client sends, the server has.
pub caught_up :
    (mine tiles : Tiles)
    → IsBehind mine tiles
    → add_computer_move mine (grid_of (data_from tiles)) ≡ tiles
caught_up mine tiles behind =
    same_grid mine tiles
    ∙ fun_ext (λ i. taken mine tiles i ∙ elim (behind i) [
      | inl same ↦ ground (arith, same)
      | inr (empty, low) ↦ ground (arith, empty, low)
    ])

-- An empty cell of a board, in range.
abbrev IsEmptyCell : Tiles → ℕ → Type 0
IsEmptyCell tiles p = (tiles p ≡ 0) × (p < 16)

abbrev AllEmpty : Tiles → List ℕ → Type 0
AllEmpty tiles set = (j : ℕ) → j < length set → IsEmptyCell tiles (get_or set j 0)

get_or-snoc :
    (set : List ℕ) (x j : ℕ)
    → j < suc (length set)
    → (get_or (set ++ x ∷ []) j 0 ≡ x)
      ⊎ ((j < length set) × (get_or (set ++ x ∷ []) j 0 ≡ get_or set j 0))
unfolding get_or
get_or-snoc [] x zero h = inl refl
get_or-snoc [] x (suc j) h = absurd (omega arith)
get_or-snoc (y ∷ set) x zero h = inr (omega arith, refl)
get_or-snoc (y ∷ set) x (suc j) h = elim (get_or-snoc set x j (omega arith)) [
  | inl e ↦ inl e
  | inr (low, e) ↦ inr (omega arith, e)
]

AllEmpty-snoc :
    (tiles : Tiles) (set : List ℕ) (i : ℕ)
    → i < 16
    → tiles i ≡ 0
    → AllEmpty tiles set
    → AllEmpty tiles (set ++ i ∷ [])
AllEmpty-snoc tiles set i low empty all j h =
    elim (get_or-snoc set i j (omega (arith, h, length-append set (i ∷ [])))) [
      | inl e ↦ (ap tiles e ∙ empty, omega (arith, e, low))
      | inr (before, e) ↦
          let (none_there, low') = all j before in (ap tiles e ∙ none_there, omega (arith, e, low'))
    ]

AllEmpty-get_all_empty_pos : (tiles : Tiles) → AllEmpty tiles (get_all_empty_pos tiles)
unfolding get_all_empty_pos
AllEmpty-get_all_empty_pos tiles =
    each_inv (λ n set. AllEmpty tiles set) (λ i set. if tiles i == 0 then set ++ i ∷ [] else set) 16
      [] (λ j h. absurd (omega arith))
      (λ i set low all. elim (Bool-cases (tiles i == 0)) [
        | inl empty ↦
            subst (AllEmpty tiles) (sym (chosen (tiles i == 0) _ _ empty))
              (AllEmpty-snoc tiles set i low (ground (arith, empty)) all)
        | inr full ↦ subst (AllEmpty tiles) (sym (passed_over (tiles i == 0) _ _ full)) all
      ])

update-IsBehind :
    (tiles : Tiles) (p v : ℕ) → IsEmptyCell tiles p → IsBehind tiles (update tiles p v)
update-IsBehind tiles p v (empty, low) i = elim (Bool-cases (p == i)) [
  | inl here ↦
      let e : p ≡ i = ground (arith, here) in inr (ap tiles (sym e) ∙ empty, omega (arith, e, low))
  | inr other ↦ inl (ground (arith, other))
]

pub add_rand_tile-IsBehind : (tiles : Tiles) (r s : ℕ) → IsBehind tiles (add_rand_tile tiles r s)
unfolding add_rand_tile
add_rand_tile-IsBehind tiles r s =
    let set = get_all_empty_pos tiles in
    let p = get_or set (r % length set) 0 in
    elim (Bool-cases (ltb 0 (length set))) [
      | inl some_left ↦
          let low : r % length set < length set = mod-lt r (ltb→lt _ _ some_left) in
          subst (IsBehind tiles) (sym (chosen (ltb 0 (length set)) _ _ some_left)) (
            update-IsBehind tiles p (if s % 2 == 0 then 2 else 1)
              (AllEmpty-get_all_empty_pos tiles (r % length set) low))
      | inr full ↦
          subst (IsBehind tiles) (sym (passed_over (ltb 0 (length set)) _ _ full)) (λ i. inl refl)
    ]
