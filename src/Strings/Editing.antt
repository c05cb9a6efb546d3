-- ===== src/Strings/Editing.antt =====
-- common/string_utils.h: `Trim`, `HexDump` and `GenRandString`.
use cpp_code_blocks.Prelude.{
  get_or, ℕ, zero, suc, ◌+◌, ◌-◌, ◌*◌, ◌/◌, ◌%◌, List, [], ◌∷◌, Option, some, ltb, ◌==◌,
  if◌then◌else◌, ◌>>=◌, length, take, drop,
}
use cpp_code_blocks.Strings.Defs.{space, Written, write_into, put, put_all}

-- `ptr[i] = '\0'`, where the string has its terminator behind its last character.
unfoldable pub put_null : Written → Option (List ℕ)
unfolding put
put_null (result, i) = if i == length result then some result else put i 0 result

-- `begin_id`, and `end_id + 1`, from `e` down.
unfoldable pub skip_front : List ℕ → ℕ
skip_front [] = 0
skip_front (c ∷ cs) = if c == space then suc (skip_front cs) else 0

unfoldable pub skip_back : List ℕ → ℕ → ℕ
unfolding get_or
skip_back str zero = zero
skip_back str (suc e) =
    let rest = skip_back str e in if get_or str e 0 == space then rest else suc e

unfoldable pub trim : List ℕ → Option (List ℕ)
unfolding write_into put_all put_null skip_front skip_back
trim str =
    let begin = skip_front str in
    let past = skip_back str (length str) in
    let len_with_null = if ltb (begin + 1) past then past - begin + 1 else 1 in
    write_into len_with_null
    >>= (λ result. put_all (take (past - begin) (drop begin str)) (result, 0))
    >>= put_null

-- "0x%02x "
abbrev pub hex_digit : ℕ → ℕ
hex_digit d = if ltb d 10 then 48 + d else 87 + d

abbrev pub hex_text : ℕ → List ℕ
hex_text b = 48 ∷ 120 ∷ hex_digit (b / 16) ∷ hex_digit (b % 16) ∷ 32 ∷ []

-- `snprintf`: what fits in front of a null.
abbrev pub snprintf : (size : ℕ) → List ℕ → Written → Option (List ℕ)
snprintf size text w = if size == 0 then some w.0 else put_all (take (size - 1) text) w >>= put_null

unfoldable pub hex_loop : (len_with_null : ℕ) → List ℕ → Written → Option (List ℕ)
unfolding put_all put_null
hex_loop len_with_null [] w = some w.0
hex_loop len_with_null (b ∷ bs) w =
    let now_len = w.1 in
    let next = snprintf (len_with_null - now_len) (hex_text b) w >>= λ result.
    hex_loop len_with_null bs (result, now_len + 5) in
    if ltb now_len len_with_null then next else some w.0

unfoldable pub hex_dump : List ℕ → Option (List ℕ)
unfolding write_into hex_loop
hex_dump sp =
    let len_with_null = 5 * length sp + 1 in
    write_into len_with_null >>= λ result. hex_loop len_with_null sp (result, 0)

-- The results of `rand` are a parameter, by their number.
unfoldable pub rand_bytes : (rand : ℕ → ℕ) → (len i : ℕ) → List ℕ
rand_bytes rand zero i = []
rand_bytes rand (suc len) i = rand i % 256 ∷ rand_bytes rand len (suc i)

unfoldable pub gen_rand_string : (rand : ℕ → ℕ) → (len : ℕ) → Option (List ℕ)
unfolding write_into put_all put_null rand_bytes
gen_rand_string rand len =
    write_into (len + 1) >>= (λ result. put_all (rand_bytes rand len 0) (result, 0)) >>= put_null
