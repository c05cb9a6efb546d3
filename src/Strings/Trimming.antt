-- ===== src/Strings/Trimming.antt =====
-- `Trim` and `GenRandString` fill a string to its end.
use cpp_code_blocks.Prelude.{
  get_or, ℕ, zero, suc, ◌+◌, ◌-◌, ◌≤◌, ◌<◌, ◌≡◌, ◌∙◌, ap, ap₂, sym, refl, false, List, [], ◌∷◌,
  ◌++◌, none, some, ltb, ◌==◌, if◌then◌else◌, ◌>>=◌, length, take, drop, length-append, length-drop,
  append_assoc, append_nil, arith, chosen, passed_over, lt→ltb,
}
use cpp_code_blocks.Packet.Bytes.{take-append, drop-append}
use cpp_code_blocks.Strings.Defs.{space, zeros, write_into, put_all}
use cpp_code_blocks.Strings.Joining.{length-zeros, nothing_left, put_all_fits}
use cpp_code_blocks.Strings.Editing.{
  put_null, skip_front, skip_back, trim, gen_rand_string, rand_bytes,
}

-- All that `put_null` leaves behind the last character.
pub put_null_end : (cs : List ℕ) (n : ℕ) → n ≡ length cs → put_null (cs, n) ≡ some cs
unfolding put_null
put_null_end cs n e = chosen (n == length cs) _ _ (ground (arith, e))

-- A string of some characters is written whole.
pub fill :
    (cs : List ℕ) (n : ℕ)
    → 0 < length cs
    → n ≡ length cs + 1
    → (write_into n >>= (λ result. put_all cs (result, 0)) >>= put_null) ≡ some cs
unfolding write_into
fill cs n some_left e =
    let room : length (zeros (n - 1)) ≡ length cs = omega (arith, e, length-zeros (n - 1)) in
    let past : drop (length cs) (zeros (n - 1)) ≡ [] =
      nothing_left (drop (length cs) (zeros (n - 1)))
        (omega (arith, length-drop (length cs) (zeros (n - 1)), room)) in
    ap (λ o. o >>= (λ result. put_all cs (result, 0)) >>= put_null)
      (chosen (ltb 1 n) _ _ (lt→ltb _ _ (omega (arith, e, some_left))))
    ∙ ap (λ o. o >>= put_null) (put_all_fits cs [] (zeros (n - 1)) (omega (arith, room)))
    ∙ ap (λ r. put_null (cs ++ r, 0 + length cs)) past
    ∙ ap (λ r. put_null (r, 0 + length cs)) (append_nil cs)
    ∙ put_null_end cs (0 + length cs) (omega arith)

abbrev pub spaces : ℕ → List ℕ
spaces zero = []
spaces (suc n) = space ∷ spaces n

length-spaces : (n : ℕ) → length (spaces n) ≡ n
length-spaces zero = refl
length-spaces (suc n) = ap suc (length-spaces n)

skip_front_lem :
    (a c : ℕ) (rest : List ℕ) → (c == space) ≡ false → skip_front (spaces a ++ c ∷ rest) ≡ a
unfolding skip_front
skip_front_lem zero c rest e = passed_over (c == space) _ _ e
skip_front_lem (suc a) c rest e = ap suc (skip_front_lem a c rest e)

get_or-append : (xs ys : List ℕ) (i : ℕ) → get_or (xs ++ ys) (length xs + i) 0 ≡ get_or ys i 0
unfolding get_or
get_or-append [] ys i = ap (λ k. get_or ys k 0) (omega arith)
get_or-append (x ∷ xs) ys i =
    let shifted : length (x ∷ xs) + i ≡ suc (length xs + i) = omega arith in
    ap (λ k. get_or (x ∷ (xs ++ ys)) k 0) shifted ∙ get_or-append xs ys i

get_or-spaces : (b i : ℕ) → i < b → get_or (spaces b) i 0 ≡ space
unfolding get_or
get_or-spaces zero i h = absurd (omega arith)
get_or-spaces (suc b) zero h = refl
get_or-spaces (suc b) (suc i) h = get_or-spaces b i (omega arith)

-- From the spaces at the end down to the last other character.
skip_back_lem :
    (ws : List ℕ) (d b n : ℕ)
    → (d == space) ≡ false
    → n ≤ b
    → skip_back (ws ++ d ∷ spaces b) (suc (length ws + n)) ≡ suc (length ws)
unfolding skip_back get_or
skip_back_lem ws d b zero e h =
    let here : get_or (ws ++ d ∷ spaces b) (length ws + 0) 0 ≡ d =
      get_or-append ws (d ∷ spaces b) 0 in
    passed_over (get_or (ws ++ d ∷ spaces b) (length ws + 0) 0 == space) _ _
      (ap (λ c. c == space) here ∙ e)
    ∙ ap suc (omega arith)
skip_back_lem ws d b (suc n) e h =
    let here : get_or (ws ++ d ∷ spaces b) (length ws + suc n) 0 ≡ space =
      get_or-append ws (d ∷ spaces b) (suc n) ∙ get_or-spaces b n (omega arith) in
    let shifted : length ws + suc n ≡ suc (length ws + n) = omega arith in
    chosen (get_or (ws ++ d ∷ spaces b) (length ws + suc n) 0 == space) _ _
      (ap (λ c. c == space) here)
    ∙ ap (skip_back (ws ++ d ∷ spaces b)) shifted
    ∙ skip_back_lem ws d b n e (omega arith)

-- `Trim` takes the spaces on both sides away where at least two characters are left, the first and the last
-- of them no spaces.
pub trim-spaces :
    (a b c d : ℕ) (mid : List ℕ)
    → (c == space) ≡ false
    → (d == space) ≡ false
    → let core = c ∷ (mid ++ d ∷ []) in trim (spaces a ++ (core ++ spaces b)) ≡ some core
unfolding trim
trim-spaces a b c d mid first last =
    let core = c ∷ (mid ++ d ∷ []) in
    let str = spaces a ++ (core ++ spaces b) in
    let ws = spaces a ++ c ∷ mid in
    let same : str ≡ ws ++ d ∷ spaces b =
      ap (λ l. spaces a ++ c ∷ l) (append_assoc mid (d ∷ []) (spaces b))
      ∙ sym (append_assoc (spaces a) (c ∷ mid) (d ∷ spaces b)) in
    let n_ws : length ws ≡ a + suc (length mid) =
      omega (arith, length-append (spaces a) (c ∷ mid), length-spaces a) in
    let n_core : length core ≡ suc (suc (length mid)) = omega (arith, length-append mid (d ∷ [])) in
    let n_str : length str ≡ suc (length ws + b) = omega (
      arith,
      length-append (spaces a) (core ++ spaces b),
      length-append core (spaces b),
      length-spaces a,
      length-spaces b,
      n_ws,
      n_core,
    ) in
    let begins : skip_front str ≡ a = skip_front_lem a c _ first in
    let ends : skip_back str (length str) ≡ suc (length ws) =
      ap₂ skip_back same n_str ∙ skip_back_lem ws d b b last (omega arith) in
    let shown = drop-append a (spaces a) (core ++ spaces b) (length-spaces a) in
    let size : suc (length ws) - a ≡ length core = omega (arith, n_ws, n_core) in
    let whole : take (suc (length ws) - a) (drop a str) ≡ core =
      ap₂ take size shown ∙ take-append (length core) core (spaces b) refl in
    ap₂
      (λ begin past.
        write_into (if ltb (begin + 1) past then past - begin + 1 else 1)
        >>= (λ result. put_all (take (past - begin) (drop begin str)) (result, 0))
        >>= put_null)
      begins ends
    ∙ ap₂ (λ n cs. write_into n >>= (λ result. put_all cs (result, 0)) >>= put_null)
        (chosen (ltb (a + 1) (suc (length ws))) _ _ (lt→ltb _ _ (omega (arith, n_ws)))) whole
    ∙ fill core (suc (length ws) - a + 1) (omega (arith, n_core)) (omega (arith, n_ws, n_core))

skip_back-spaces : (a e : ℕ) → e ≤ a → skip_back (spaces a) e ≡ 0
unfolding skip_back
skip_back-spaces a zero h = refl
skip_back-spaces a (suc e) h =
    chosen (get_or (spaces a) e 0 == space) _ _
      (ap (λ c. c == space) (get_or-spaces a e (omega arith)))
    ∙ skip_back-spaces a e (omega arith)

refuses : (str : List ℕ) → skip_back str (length str) ≤ skip_front str + 1 → trim str ≡ none
unfolding trim write_into
refuses str short =
    let begin = skip_front str in
    let past = skip_back str (length str) in
    ap
      (λ n.
        write_into n
        >>= (λ result. put_all (take (past - begin) (drop begin str)) (result, 0))
        >>= put_null)
      (passed_over (ltb (begin + 1) past) _ _ (ground (arith, short)))

-- One character that is no space, with spaces on both sides, or spaces alone: the assertion of
-- `WriteInto` fails.
pub trim_short :
    (a b c : ℕ)
    → (c == space) ≡ false
    → (trim (spaces a ++ c ∷ spaces b) ≡ none) × (trim (spaces a) ≡ none)
trim_short a b c other =
    let str = spaces a ++ c ∷ spaces b in
    let n : length str ≡ suc (length (spaces a) + b) =
      omega (arith, length-append (spaces a) (c ∷ spaces b), length-spaces b) in
    let ends = ap (skip_back str) n ∙ skip_back_lem (spaces a) c b b other (omega arith) in
    (
      refuses str (omega (arith, ends, skip_front_lem a c (spaces b) other, length-spaces a)),
      refuses (spaces a)
          (omega (arith, skip_back-spaces a (length (spaces a)) (omega (arith, length-spaces a)))),
    )

length-rand_bytes : (rand : ℕ → ℕ) (len i : ℕ) → length (rand_bytes rand len i) ≡ len
unfolding rand_bytes
length-rand_bytes rand zero i = refl
length-rand_bytes rand (suc len) i = ap suc (length-rand_bytes rand len (suc i))

-- The string has the bytes of as many results of `rand`.
pub gen_rand_string_lem :
    (rand : ℕ → ℕ) (len : ℕ) → 0 < len → gen_rand_string rand len ≡ some (rand_bytes rand len 0)
unfolding gen_rand_string
gen_rand_string_lem rand len positive =
    fill (rand_bytes rand len 0) (len + 1) (omega (arith, positive, length-rand_bytes rand len 0))
      (omega (arith, length-rand_bytes rand len 0))
