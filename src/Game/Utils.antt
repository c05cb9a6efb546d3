-- ===== src/Game/Utils.antt =====
-- ai/2048/ai_utils.h: the table of neighbours, the binary logarithm and the maximum of an array.
use cpp_code_blocks.Prelude.{
  ℕ, zero, suc, ◌/◌, List, [], ◌∷◌, Option, none, some, ltb, if◌then◌else◌, get_or,
}
use cpp_code_blocks.Prelude.Int.{ℤ, ltb_ℤ}

-- kUp, kRight, kDown, kLeft
abbrev pub up : ℕ
up = 0

abbrev pub right : ℕ
right = 1

abbrev pub down : ℕ
down = 2

abbrev pub left : ℕ
left = 3

-- `none` is the entry -1.
abbrev neighbours : List (List (Option ℕ))
neighbours =
    (none ∷ some 1 ∷ some 4 ∷ none ∷ [])
    ∷ (none ∷ some 2 ∷ some 5 ∷ some 0 ∷ [])
    ∷ (none ∷ some 3 ∷ some 6 ∷ some 1 ∷ [])
    ∷ (none ∷ none ∷ some 7 ∷ some 2 ∷ [])
    ∷ (some 0 ∷ some 5 ∷ some 8 ∷ none ∷ [])
    ∷ (some 1 ∷ some 6 ∷ some 9 ∷ some 4 ∷ [])
    ∷ (some 2 ∷ some 7 ∷ some 10 ∷ some 5 ∷ [])
    ∷ (some 3 ∷ none ∷ some 11 ∷ some 6 ∷ [])
    ∷ (some 4 ∷ some 9 ∷ some 12 ∷ none ∷ [])
    ∷ (some 5 ∷ some 10 ∷ some 13 ∷ some 8 ∷ [])
    ∷ (some 6 ∷ some 11 ∷ some 14 ∷ some 9 ∷ [])
    ∷ (some 7 ∷ none ∷ some 15 ∷ some 10 ∷ [])
    ∷ (some 8 ∷ some 13 ∷ none ∷ none ∷ [])
    ∷ (some 9 ∷ some 14 ∷ none ∷ some 12 ∷ [])
    ∷ (some 10 ∷ some 15 ∷ none ∷ some 13 ∷ [])
    ∷ (some 11 ∷ none ∷ none ∷ some 14 ∷ [])
    ∷ []

unfoldable pub dir_pos : ℕ → ℕ → Option ℕ
unfolding get_or
dir_pos pos dir = get_or (get_or neighbours pos []) dir none

-- The loop `for (; n > 1; n >>= 1) ++k` on fuel.
unfoldable pub lg2_loop : ℕ → ℕ → ℕ → ℕ
lg2_loop zero n k = k
lg2_loop (suc fuel) n k = let rest = lg2_loop fuel (n / 2) (suc k) in if ltb 1 n then rest else k

-- The early return at 0 gives the same value as the loop would.
unfoldable pub lg2 : ℕ → ℕ
unfolding lg2_loop
lg2 n = if ltb 0 n then lg2_loop n n 0 else 0

-- The loop of `ArrayMax`, with the maximum so far.
unfoldable pub array_max_loop : ℤ → List ℤ → ℤ
array_max_loop max_val [] = max_val
array_max_loop max_val (x ∷ xs) = array_max_loop (if ltb_ℤ max_val x then x else max_val) xs

-- `none` is the failed assertion `array_size > 0`.
unfoldable pub array_max : List ℤ → Option ℤ
unfolding array_max_loop
array_max [] = none
array_max (x ∷ xs) = some (array_max_loop x xs)
