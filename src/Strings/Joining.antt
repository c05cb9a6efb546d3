-- ===== src/Strings/Joining.antt =====
-- `Join` writes its parts, each write in range.
use cpp_code_blocks.Prelude.{
  ℕ, zero, suc, ◌+◌, ◌-◌, ◌*◌, ◌≤◌, ◌<◌, ◌≡◌, ◌∙◌, ap, ap₂, sym, refl, inl, inr, List, [], ◌∷◌,
  ◌++◌, Option, none, some, ltb, ◌==◌, if◌then◌else◌, ◌>>=◌, length, drop, length-drop,
  length-append, append_assoc, append_nil, arith, Bool-cases, chosen, passed_over, lt→ltb,
}
use native.Mathlib.Nat.{suc-mul}
use native.Mathlib.Numerals.{unary_clauses}
use cpp_code_blocks.Strings.Defs.{
  zeros, write_into, put, put_all, sizes, join_loop, total_length, join,
}

pub put-append :
    (done : List ℕ) (c x : ℕ) (xs : List ℕ)
    → put (length done) c (done ++ x ∷ xs) ≡ some (done ++ c ∷ xs)
unfolding put
put-append [] c x xs = refl
put-append (d ∷ done) c x xs = ap (λ o. o >>= λ ys. some (d ∷ ys)) (put-append done c x xs)

-- Characters that fit behind what is done.
pub put_all_fits :
    (cs done rest : List ℕ)
    → length cs ≤ length rest
    → put_all cs (done ++ rest, length done)
      ≡ some (done ++ (cs ++ drop (length cs) rest), length done + length cs)
unfolding put_all
put_all_fits [] done rest fits = ap (λ n. some (done ++ rest, n)) (omega arith)
put_all_fits (c ∷ cs) done [] fits = absurd (omega (arith, fits))
put_all_fits (c ∷ cs) done (x ∷ rest) fits =
    let next = done ++ c ∷ [] in
    let grown : length next ≡ suc (length done) = omega (arith, length-append done (c ∷ [])) in
    ap (λ o. o >>= λ r. put_all cs (r, suc (length done))) (put-append done c x rest)
    ∙ ap₂ (λ r n. put_all cs (r, n)) (sym (append_assoc done (c ∷ []) rest)) (sym grown)
    ∙ put_all_fits cs next rest (omega (arith, fits))
    ∙ ap₂ (λ r n. some (r, n)) (append_assoc done (c ∷ []) (cs ++ drop (length cs) rest))
        (omega (arith, grown))

-- The parts with `str` between them.
unfoldable pub intercalate : List ℕ → List (List ℕ) → List ℕ
intercalate str [] = []
intercalate str (v ∷ []) = v
intercalate str (v ∷ w ∷ vs) = v ++ (str ++ intercalate str (w ∷ vs))

pub put_part :
    (cs done rest : List ℕ)
    → length cs ≤ length rest
    → put_all cs (done ++ rest, length done)
      ≡ some ((done ++ cs) ++ drop (length cs) rest, length (done ++ cs))
put_part cs done rest fits =
    put_all_fits cs done rest fits
    ∙ ap₂ (λ r n. some (r, n)) (sym (append_assoc done cs (drop (length cs) rest)))
        (sym (length-append done cs))

pub nothing_left : (xs : List ℕ) → length xs ≡ 0 → xs ≡ []
nothing_left [] e = refl
nothing_left (x ∷ xs) e = absurd (omega (arith, e))

chosen_join :
    (str : List ℕ) (vs : List (List ℕ)) (x : List ℕ × ℕ) (more : List ℕ × ℕ → Option (List ℕ × ℕ))
    → 0 < length vs
    → ((if ltb 0 (length vs) then put_all str x else some x) >>= more) ≡ (put_all str x >>= more)
chosen_join str vs x more some_left =
    ap (λ o. o >>= more) (chosen (ltb 0 (length vs)) _ _ (lt→ltb _ _ some_left))

join_loop-intercalate :
    (str : List ℕ) (vs : List (List ℕ)) (done rest : List ℕ)
    → length rest ≡ length (intercalate str vs)
    → (n : ℕ) × (join_loop str vs (done ++ rest, length done)
        ≡ some (done ++ intercalate str vs, n))
unfolding join_loop intercalate
join_loop-intercalate str [] done rest e =
    (length done, ap (λ r. some (done ++ r, length done)) (nothing_left rest e))
join_loop-intercalate str (v ∷ []) done rest e =
    let past : drop (length v) rest ≡ [] =
      nothing_left (drop (length v) rest) (omega (arith, length-drop (length v) rest, e)) in
    (
      length (done ++ v),
      ap (λ o. o >>= λ w. some w >>= join_loop str []) (put_part v done rest (omega (arith, e)))
          ∙ ap (λ r. some (r, length (done ++ v)))
              (ap (λ r. (done ++ v) ++ r) past ∙ append_nil (done ++ v)),
    )
join_loop-intercalate str (v ∷ w ∷ vs) done rest e =
    let tail = intercalate str (w ∷ vs) in
    let size : length rest ≡ length v + (length str + length tail) =
      omega (arith, e, length-append v (str ++ tail), length-append str tail) in
    let rest1 = drop (length v) rest in
    let rest2 = drop (length str) rest1 in
    let more = join_loop str (w ∷ vs) in
    let left1 = length-drop (length v) rest in
    let next =
      join_loop-intercalate str (w ∷ vs) ((done ++ v) ++ str) rest2
        (omega (arith, length-drop (length str) rest1, left1, size)) in
    (
      next.0,
      ap (λ o. o >>= λ x. (if ltb 0 (length (w ∷ vs)) then put_all str x else some x) >>= more)
            (put_part v done rest (omega (arith, size)))
          ∙ chosen_join str (w ∷ vs) _ more (omega arith)
          ∙ ap (λ o. o >>= more) (put_part str (done ++ v) rest1 (omega (arith, left1, size)))
          ∙ next.1
          ∙ ap (λ r. some (r, next.0))
              (append_assoc (done ++ v) str tail ∙ append_assoc done v (str ++ tail)),
    )

total_length-∷ :
    (str v : List ℕ) (vs : List (List ℕ))
    → total_length str (v ∷ vs) ≡ length vs * length str + sizes (v ∷ vs)
total_length-∷ str v vs =
    ap (λ n. n + sizes (v ∷ vs))
      (chosen (ltb 0 (suc (length vs))) _ _ (lt→ltb _ _ (omega arith))
        ∙ ap (λ n. n * length str) (omega arith))

-- The room that `Join` asks for.
total_length_lem :
    (str : List ℕ) (vs : List (List ℕ)) → total_length str vs ≡ length (intercalate str vs)
unfolding sizes intercalate
total_length_lem str [] = omega arith
total_length_lem str (v ∷ []) = total_length-∷ str v [] ∙ simp unary_clauses (omega arith)
total_length_lem str (v ∷ w ∷ vs) =
    let rest = total_length_lem str (w ∷ vs) in
    let tail = intercalate str (w ∷ vs) in
    let now = total_length-∷ str v (w ∷ vs) in
    let later = total_length-∷ str w vs in
    omega (
      arith,
      now,
      later,
      rest,
      suc-mul (length vs) (length str),
      length-append v (str ++ tail),
      length-append str tail,
    )

pub length-zeros : (n : ℕ) → length (zeros n) ≡ n
length-zeros zero = refl
length-zeros (suc n) = ap suc (length-zeros n)

-- `Join` gives the strings in order with `str` between each two, and every character is written in
-- range, whatever the strings are; only where the result is empty the assertion of `WriteInto` fails.
pub join-intercalate :
    (str : List ℕ) (vs : List (List ℕ))
    → join str vs ≡ (if length (intercalate str vs) == 0 then none else some (intercalate str vs))
unfolding join write_into
join-intercalate str vs =
    let n = length (intercalate str vs) in
    let room = total_length_lem str vs in
    elim (Bool-cases (n == 0)) [
      | inl nothing ↦
          let none_left : n ≡ 0 = ground (arith, nothing) in
          ap (λ o. o >>= λ result. join_loop str vs (result, 0) >>= λ w. some w.0)
            (passed_over (ltb 1 (total_length str vs + 1)) _ _ (ground (arith, room, none_left)))
          ∙ sym (chosen (n == 0) _ _ nothing)
      | inr something ↦
          let positive : 0 < n = ground (arith, something) in
          let loop =
            join_loop-intercalate str vs [] (zeros (total_length str vs + 1 - 1))
              (length-zeros (total_length str vs + 1 - 1) ∙ omega (arith, room)) in
          ap (λ o. o >>= λ result. join_loop str vs (result, 0) >>= λ w. some w.0)
            (chosen (ltb 1 (total_length str vs + 1)) _ _
              (lt→ltb _ _ (omega (arith, room, positive))))
          ∙ ap (λ o. o >>= λ w. some w.0) loop.1
          ∙ sym (passed_over (n == 0) _ _ something)
    ]
