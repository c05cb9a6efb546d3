-- ===== src/Game/Candidates.antt =====
-- ai/2048/ai_2048.cc: after a move the assertion of `ArrayMax` in `GetCandidateSet` holds.
use cpp_code_blocks.Prelude.{
  ℕ, ◌<◌, ◌≡◌, refl, inl, inr, true, List, [], ◌∷◌, ◌++◌, some, ◌==◌, if◌then◌else◌, length,
  length-append, each_inv, arith, Bool-cases, Option-cases,
}
use cpp_code_blocks.Prelude.Maps.{is_some}
use cpp_code_blocks.Game.Utils.{array_max}
use cpp_code_blocks.Game.Board.{Tiles, get_all_empty_pos}
use cpp_code_blocks.Game.Move.{try_move}
use cpp_code_blocks.Game.Moves.Tiles.{try_move_leaves_room}
use cpp_code_blocks.Game.Eval.{get_candidate_set}

-- An empty cell among those seen is in the list.
abbrev Lists : Tiles → ℕ → ℕ → List ℕ → Type 0
Lists tiles p n set = p < n → 0 < length set

get_all_empty_pos-Lists :
    (tiles : Tiles) (p : ℕ) → tiles p ≡ 0 → Lists tiles p 16 (get_all_empty_pos tiles)
unfolding get_all_empty_pos
get_all_empty_pos-Lists tiles p empty =
    each_inv (Lists tiles p) (λ i set. if tiles i == 0 then set ++ i ∷ [] else set) 16 []
      (λ h. absurd (omega (arith, h)))
      (λ i set hi ih early. elim (Bool-cases (tiles i == 0)) [
        | inl here ↦ rw here (omega (arith, length-append set (i ∷ [])))
        | inr other ↦ rw other (ih (grind arith))
      ])

some_cell :
    (tiles : Tiles) (cells : List ℕ)
    → get_all_empty_pos tiles ≡ cells
    → 0 < length cells
    → (set : List (ℕ × ℕ)) × (get_candidate_set tiles ≡ some set)
unfolding get_candidate_set array_max
some_cell tiles [] e h = absurd (omega arith)
some_cell tiles (p ∷ ps) e h =
    let found : is_some (get_candidate_set tiles) ≡ true = rw e refl in
    elim (Option-cases (get_candidate_set tiles)) [
      | inl missing ↦ absurd (ground (arith, found, missing))
      | inr set ↦ set
    ]

-- After a move that returns true, `GetCandidateSet` has a cell to choose from, so that the assertion
-- of `ArrayMax` on the size of its array holds.
pub try_move_leaves_candidates :
    (tiles : Tiles) (dir : ℕ)
    → dir < 4
    → (try_move tiles dir).1 ≡ true
    → (set : List (ℕ × ℕ)) × (get_candidate_set (try_move tiles dir).0 ≡ some set)
try_move_leaves_candidates tiles dir hd moved =
    let room = try_move_leaves_room tiles dir hd moved in
    some_cell (try_move tiles dir).0 (get_all_empty_pos (try_move tiles dir).0) refl
      (get_all_empty_pos-Lists (try_move tiles dir).0 room.0 room.2 room.1)
