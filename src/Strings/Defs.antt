-- ===== src/Strings/Defs.antt =====
-- common/string_utils.h: `WriteInto`, `Join`, `Split` and `Trim`. A string is the list of its
-- characters' codes; a write through the pointer of `WriteInto` that is out of range is `none`, and so
-- is an assertion that fails.
use cpp_code_blocks.Prelude.{
  ℕ, zero, suc, ◌+◌, ◌-◌, ◌*◌, Bool, ◌&&◌, ◌||◌, List, [], ◌∷◌, Option, none, some, ltb, leb, ◌==◌,
  if◌then◌else◌, ◌>>=◌, length,
}

-- The code of ' '.
abbrev pub space : ℕ
space = 32

abbrev pub zeros : ℕ → List ℕ
zeros zero = []
zeros (suc n) = 0 ∷ zeros n

unfoldable pub write_into : ℕ → Option (List ℕ)
write_into length_with_null =
    if ltb 1 length_with_null then some (zeros (length_with_null - 1)) else none

-- `ptr[i] = c`
unfoldable pub put : ℕ → ℕ → List ℕ → Option (List ℕ)
put i c [] = none
put zero c (x ∷ xs) = some (c ∷ xs)
put (suc i) c (x ∷ xs) = put i c xs >>= λ ys. some (x ∷ ys)

-- What has been written, and `now_len`.
abbrev pub Written : Type 0
Written = List ℕ × ℕ

-- `ptr[now_len++] = c` for each character.
unfoldable pub put_all : List ℕ → Written → Option Written
unfolding put
put_all [] w = some w
put_all (c ∷ cs) (result, now_len) =
    put now_len c result >>= λ result'. put_all cs (result', suc now_len)

unfoldable pub sizes : List (List ℕ) → ℕ
sizes [] = 0
sizes (v ∷ vs) = length v + sizes vs

-- The loop over the strings; `str` goes behind each but the last.
unfoldable pub join_loop : List ℕ → List (List ℕ) → Written → Option Written
unfolding put_all
join_loop str [] w = some w
join_loop str (v ∷ vs) w = put_all v w >>= λ w1.
    (if ltb 0 (length vs) then put_all str w1 else some w1) >>= join_loop str vs

abbrev pub total_length : List ℕ → List (List ℕ) → ℕ
total_length str vs = (if ltb 0 (length vs) then (length vs - 1) * length str else 0) + sizes vs

unfoldable pub join : List ℕ → List (List ℕ) → Option (List ℕ)
unfolding write_into join_loop sizes
join str vs = write_into (total_length str vs + 1) >>= λ result.
    join_loop str vs (result, 0) >>= λ w. some w.0

-- `std::isspace` of the classic locale, by which `>>` ends a word.
abbrev pub is_space : ℕ → Bool
is_space c = c == space || (leb 9 c && leb c 13)

abbrev pub blank : ℕ → ℕ → ℕ
blank delim c = if c == delim then space else c

-- The rest of the word that has begun, and the words behind it.
unfoldable pub words : List ℕ → List ℕ × List (List ℕ)
words [] = ([], [])
words (c ∷ cs) =
    let (word, rest) = words cs in
    if is_space c then ([], if length word == 0 then rest else word ∷ rest) else (c ∷ word, rest)

abbrev pub begin_words : List ℕ × List (List ℕ) → List (List ℕ)
begin_words (word, rest) = if length word == 0 then rest else word ∷ rest

abbrev pub blank_all : ℕ → List ℕ → List ℕ
blank_all delim [] = []
blank_all delim (c ∷ cs) = blank delim c ∷ blank_all delim cs

-- `Split` into a new vector.
unfoldable pub split : List ℕ → ℕ → List (List ℕ)
unfolding words
split str delim = begin_words (words (blank_all delim str))
