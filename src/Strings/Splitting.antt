-- ===== src/Strings/Splitting.antt =====
-- `Split` takes apart what `Join` has put together.
use cpp_code_blocks.Prelude.{
  ℕ, ◌<◌, ◌≡◌, ◌∙◌, ap, sym, refl, false, List, [], ◌∷◌, ◌++◌, some, ◌==◌, length, length-append,
  append_nil, arith, chosen, passed_over,
}
use cpp_code_blocks.Strings.Defs.{
  space, is_space, blank, words, begin_words, blank_all, split, join,
}
use cpp_code_blocks.Strings.Joining.{intercalate, join-intercalate}

module _ (delim : ℕ) where
  -- No character is a space or the delimiter.
  abbrev pub IsPlain : List ℕ → Type 0
  IsPlain [] = Unit {0}
  IsPlain (c ∷ cs) = (is_space c ≡ false) × ((c == delim) ≡ false) × IsPlain cs

  abbrev pub AllWords : List (List ℕ) → Type 0
  AllWords [] = Unit {0}
  AllWords (v ∷ vs) = (0 < length v) × IsPlain v × AllWords vs

  -- A word before `rest`.
  words-plain :
      (v rest : List ℕ)
      → IsPlain v
      → words (blank_all delim (v ++ rest))
        ≡ (v ++ (words (blank_all delim rest)).0, (words (blank_all delim rest)).1)
  unfolding words
  words-plain [] rest p = refl
  words-plain (c ∷ v) rest (letter, other, p) =
      let later = words (blank_all delim (v ++ rest)) in
      let same : blank delim c ≡ c = passed_over (c == delim) _ _ other in
      ap (λ x. (words (x ∷ blank_all delim (v ++ rest)))) same
      ∙ passed_over (is_space c) _ _ letter
      ∙ ap (λ r. (c ∷ r.0, r.1)) (words-plain v rest p)

  begin_word : (v : List ℕ) (ws : List (List ℕ)) → 0 < length v → begin_words (v, ws) ≡ v ∷ ws
  begin_word v ws there = passed_over (length v == 0) _ _ (ground (arith, there))

  -- The delimiter ends a word.
  words-delim : (rest : List ℕ) → words (blank_all delim (delim ∷ rest)) ≡ ([], split rest delim)
  unfolding words split
  words-delim rest =
      ap (λ x. words (x ∷ blank_all delim rest))
        (chosen (delim == delim) space delim (ground arith))

  split-intercalate :
      (vs : List (List ℕ)) → AllWords vs → split (intercalate (delim ∷ []) vs) delim ≡ vs
  unfolding split words intercalate
  split-intercalate [] ws = refl
  split-intercalate (v ∷ []) (long, p, ws) =
      ap (λ s. begin_words (words (blank_all delim s))) (sym (append_nil v))
      ∙ ap begin_words (words-plain v [] p)
      ∙ ap (λ s. begin_words (s, [])) (append_nil v)
      ∙ begin_word v [] long
  split-intercalate (v ∷ w ∷ vs) (long, p, ws) =
      let tail = intercalate (delim ∷ []) (w ∷ vs) in
      ap begin_words (
        words-plain v (delim ∷ tail) p
        ∙ ap (λ r. (v ++ r.0, r.1)) (words-delim tail)
        ∙ ap (λ s. (s, split tail delim)) (append_nil v))
      ∙ begin_word v (split tail delim) long
      ∙ ap (λ l. v ∷ l) (split-intercalate (w ∷ vs) ws)

  not_empty :
      (vs : List (List ℕ)) → AllWords vs → 0 < length vs → 0 < length (intercalate (delim ∷ []) vs)
  unfolding intercalate
  not_empty [] ws n = absurd (omega (arith, n))
  not_empty (v ∷ []) (long, p, ws) n = long
  not_empty (v ∷ w ∷ vs) (long, p, ws) n =
      omega (arith, long, length-append v ((delim ∷ []) ++ intercalate (delim ∷ []) (w ∷ vs)))

  -- One string or more, each with a character and none with a space or the delimiter in it: `Join` with
  -- the delimiter between them fails no assertion, and `Split` at the delimiter gives them back.
  pub split-join :
      (vs : List (List ℕ))
      → AllWords vs
      → 0 < length vs
      → (s : List ℕ) × (join (delim ∷ []) vs ≡ some s) × (split s delim ≡ vs)
  split-join vs ws n =
      let s = intercalate (delim ∷ []) vs in
      let long = not_empty vs ws n in
      (
        s,
        join-intercalate (delim ∷ []) vs ∙ passed_over (length s == 0) _ _ (ground (arith, long)),
        split-intercalate vs ws,
      )
