-- ===== src/Strings/Hex.antt =====
-- `HexDump` can be read back.
use cpp_code_blocks.Prelude.{
  ℕ, zero, suc, ◌+◌, ◌-◌, ◌*◌, ◌/◌, ◌%◌, ◌≤◌, ◌<◌, ◌≡◌, ◌∙◌, ap, ap₂, sym, refl, List, [], ◌∷◌,
  ◌++◌, some, ltb, ◌==◌, if◌then◌else◌, ◌>>=◌, length, take, drop, length-append, length-drop,
  append_assoc, arith, chosen, passed_over, lt→ltb,
}
use cpp_code_blocks.Strings.Defs.{zeros, write_into, put_all}
use cpp_code_blocks.Strings.Joining.{length-zeros, nothing_left, put_all_fits, put-append}
use cpp_code_blocks.Strings.Editing.{put_null, hex_digit, hex_text, snprintf, hex_loop, hex_dump}
use cpp_code_blocks.Strings.Trimming.{put_null_end}

unfoldable pub hex_all : List ℕ → List ℕ
hex_all [] = []
hex_all (b ∷ bs) = hex_text b ++ hex_all bs

take-nil : (n : ℕ) → take {A = ℕ} n [] ≡ []
take-nil zero = refl
take-nil (suc n) = refl

length-hex_all : (bs : List ℕ) → length (hex_all bs) ≡ 5 * length bs
unfolding hex_all
length-hex_all [] = omega arith
length-hex_all (b ∷ bs) = omega (arith, length-hex_all bs)

-- A text of five characters has room.
take_text : (n b : ℕ) → 5 ≤ n → take n (hex_text b) ≡ hex_text b
take_text zero b h = absurd (omega arith)
take_text (suc zero) b h = absurd (omega arith)
take_text (suc (suc zero)) b h = absurd (omega arith)
take_text (suc (suc (suc zero))) b h = absurd (omega arith)
take_text (suc (suc (suc (suc zero)))) b h = absurd (omega arith)
take_text (suc (suc (suc (suc (suc n))))) b h = ap (λ r. hex_text b ++ r) (take-nil n)

put_null_within :
    (done rest : List ℕ)
    → (rest' : List ℕ) × (put_null (done ++ rest, length done) ≡ some (done ++ rest'))
      × (length rest' ≡ length rest)
put_null_within done [] =
    ([], put_null_end (done ++ []) (length done) (omega (arith, length-append done [])), refl)
put_null_within done (x ∷ xs) = (
  0 ∷ xs,
  unfold put_null in
      passed_over (length done == length (done ++ x ∷ xs)) _ _
        (ground (arith, length-append done (x ∷ xs)))
      ∙ put-append done 0 x xs,
  refl,
)

snprintf_lem :
    (size b : ℕ) (done rest : List ℕ)
    → 6 ≤ size
    → 5 ≤ length rest
    → (rest' : List ℕ) × (snprintf size (hex_text b) (done ++ rest, length done)
        ≡ some ((done ++ hex_text b) ++ rest'))
      × (length rest' ≡ length rest - 5)
snprintf_lem size b done rest roomy fits =
    let next = done ++ hex_text b in
    let (rest', ends, same) = put_null_within next (drop 5 rest) in
    let grown : length done + 5 ≡ length next = omega (arith, length-append done (hex_text b)) in
    (
      rest',
      passed_over (size == 0) _ _ (ground (arith, roomy))
          ∙ ap (λ t. put_all t (done ++ rest, length done) >>= put_null)
              (take_text (size - 1) b (omega (arith, roomy)))
          ∙ ap (λ o. o >>= put_null) (put_all_fits (hex_text b) done rest fits)
          ∙ ap₂ (λ r n. put_null (r, n)) (sym (append_assoc done (hex_text b) (drop 5 rest))) grown
          ∙ ends,
      omega (arith, same, length-drop 5 rest),
    )

hex_loop-hex_all :
    (bs done rest : List ℕ) (n : ℕ)
    → length rest ≡ 5 * length bs
    → n ≡ length done + 5 * length bs + 1
    → hex_loop n bs (done ++ rest, length done) ≡ some (done ++ hex_all bs)
unfolding hex_loop hex_all
hex_loop-hex_all [] done rest n fits e =
    ap (λ r. some (done ++ r)) (nothing_left rest (omega (arith, fits)))
hex_loop-hex_all (b ∷ bs) done rest n fits e =
    let next = done ++ hex_text b in
    let (rest', ends, size) =
      snprintf_lem (n - length done) b done rest (omega (arith, e)) (omega (arith, fits)) in
    let grown : length done + 5 ≡ length next = omega (arith, length-append done (hex_text b)) in
    chosen (ltb (length done) n) _ _ (lt→ltb _ _ (omega (arith, e)))
    ∙ ap (λ o. o >>= λ result. hex_loop n bs (result, length done + 5)) ends
    ∙ ap (λ k. hex_loop n bs (next ++ rest', k)) grown
    ∙ hex_loop-hex_all bs next rest' n (omega (arith, size, fits)) (omega (arith, e, grown))
    ∙ ap some (append_assoc done (hex_text b) (hex_all bs))

hex_dump_lem : (b : ℕ) (bs : List ℕ) → hex_dump (b ∷ bs) ≡ some (hex_all (b ∷ bs))
unfolding hex_dump write_into
hex_dump_lem b bs =
    let n = 5 * length (b ∷ bs) + 1 in
    ap (λ o. o >>= λ result. hex_loop n (b ∷ bs) (result, 0))
      (chosen (ltb 1 n) _ _ (lt→ltb _ _ (omega arith)))
    ∙ hex_loop-hex_all (b ∷ bs) [] (zeros (n - 1)) n (omega (arith, length-zeros (n - 1)))
        (omega arith)

abbrev pub hex_value : ℕ → ℕ
hex_value c = if ltb c 58 then c - 48 else c - 87

-- A reader of dumps: two digits between a prefix of two characters and a space.
unfoldable pub read_hex : List ℕ → List ℕ
read_hex (zero_digit ∷ x ∷ high ∷ low ∷ blank ∷ rest) =
    (hex_value high * 16 + hex_value low) ∷ read_hex rest
read_hex _ = []

abbrev pub AllBytes : List ℕ → Type 0
AllBytes [] = Unit {0}
AllBytes (b ∷ bs) = (b < 256) × AllBytes bs

hex_value-hex_digit : (d : ℕ) → d < 16 → hex_value (hex_digit d) ≡ d
hex_value-hex_digit d h = ground arith

byte_back :
    (b : ℕ) → b < 256 → hex_value (hex_digit (b / 16)) * 16 + hex_value (hex_digit (b % 16)) ≡ b
byte_back b h =
    let high = hex_value-hex_digit (b / 16) (omega arith) in
    let low = hex_value-hex_digit (b % 16) (omega arith) in
    ap₂ (λ x y. x * 16 + y) high low ∙ omega arith

read_hex-hex_all : (bs : List ℕ) → AllBytes bs → read_hex (hex_all bs) ≡ bs
unfolding read_hex hex_all
read_hex-hex_all [] all = refl
read_hex-hex_all (b ∷ bs) (byte, all) =
    ap₂ (λ x xs. x ∷ xs) (byte_back b byte) (read_hex-hex_all bs all)

-- `HexDump` of one byte or more writes a text, in range, that a reader of pairs of digits turns back into
-- the bytes.
pub read_hex-hex_dump :
    (b : ℕ) (bs : List ℕ)
    → AllBytes (b ∷ bs)
    → (text : List ℕ) × (hex_dump (b ∷ bs) ≡ some text)
      × (length text ≡ 5 * length (b ∷ bs))
      × (read_hex text ≡ b ∷ bs)
read_hex-hex_dump b bs all =
    (hex_all (b ∷ bs), hex_dump_lem b bs, length-hex_all (b ∷ bs), read_hex-hex_all (b ∷ bs) all)
