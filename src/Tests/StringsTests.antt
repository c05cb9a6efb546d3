-- ===== src/Tests/StringsTests.antt =====
-- "ab" and "c" with a comma between them.
use cpp_code_blocks.Prelude.{ℕ, ◌≡◌, refl, List, [], ◌∷◌, ◌++◌, some, length, arith}
use cpp_code_blocks.Strings.Defs.{join, split}
use cpp_code_blocks.Strings.Splitting.{split-join}
use cpp_code_blocks.Strings.Editing.{trim, hex_dump}
use cpp_code_blocks.Strings.Trimming.{spaces, trim-spaces}
use cpp_code_blocks.Strings.Hex.{read_hex, read_hex-hex_dump}

abbrev parts : List (List ℕ)
parts = (97 ∷ 98 ∷ []) ∷ (99 ∷ []) ∷ []

abbrev comma : ℕ
comma = 44

joined : join (comma ∷ []) parts ≡ some (97 ∷ 98 ∷ 44 ∷ 99 ∷ [])
unfolding join
joined = refl

split-join_example : (s : List ℕ) × (join (comma ∷ []) parts ≡ some s) × (split s comma ≡ parts)
split-join_example =
    split-join comma parts
      (omega arith, (refl, refl, (refl, refl, tt)), (omega arith, (refl, refl, tt), tt))
      (omega arith)

trim-spaces_example :
    trim (spaces 2 ++ ((97 ∷ 32 ∷ 98 ∷ []) ++ spaces 1)) ≡ some (97 ∷ 32 ∷ 98 ∷ [])
trim-spaces_example = trim-spaces 2 1 97 98 (32 ∷ []) refl refl

read_hex-hex_dump_example :
    (text : List ℕ) × (hex_dump (171 ∷ 0 ∷ []) ≡ some text)
    × (length text ≡ 10)
    × (read_hex text ≡ 171 ∷ 0 ∷ [])
read_hex-hex_dump_example = read_hex-hex_dump 171 (0 ∷ []) (omega arith, (omega arith, tt))
