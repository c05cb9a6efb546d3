-- ===== src/Game/Score/Laws.antt =====
-- The interface of the scores, and what follows from the laws of `<` for maxima, minima and the
-- window of the search.
use cpp_code_blocks.Prelude.{ℕ, ◌≡◌, Bool, true, false, ◌&&◌, ◌||◌, arith, if◌then◌else◌}
use cpp_code_blocks.Prelude.Int.{ℤ}

pub record Scores : Type 1 where
  pub Score : Type 0
  pub lt : Score → Score → Bool
  pub lt_irrefl : (a : Score) → lt a a ≡ false
  pub lt_trans : (a b c : Score) → lt a b ≡ true → lt b c ≡ true → lt a c ≡ true
  -- Two values of which neither is below the other are equal.
  pub lt_total : (a b : Score) → lt a b ≡ false → lt b a ≡ false → a ≡ b
  -- `kSmoothWeight * a + kMonoWeight * b + kEmptyWeight * c + kMaxValueWeight * d`
  pub weigh : ℤ → ℤ → ℕ → ℕ → Score
  -- -INF and INF
  pub lowest : Score
  pub highest : Score
  pub lowest-lt-highest : lt lowest highest ≡ true

module _ (scores : Scores) where
  open scores use {Score, lt, lt_irrefl, lt_trans, lt_total}

  abbrev pub Le : Score → Score → Type 0
  Le a b = lt b a ≡ false

  pub lt_asymm : (a b : Score) → lt a b ≡ true → Le a b
  lt_asymm a b h = ground (arith, lt_trans a b a, lt_irrefl a)

  pub le_lt_trans : (a b c : Score) → Le a b → lt b c ≡ true → lt a c ≡ true
  le_lt_trans a b c h k = ground (arith, lt_total a b, lt_trans a b c)

  pub lt_le_trans : (a b c : Score) → lt a b ≡ true → Le b c → lt a c ≡ true
  lt_le_trans a b c h k = ground (arith, lt_total b c, lt_trans a b c)

  pub le_le_trans : (a b c : Score) → Le a b → Le b c → Le a c
  le_le_trans a b c h k = ground (arith, le_lt_trans b c a, h)

  abbrev pub max_score : Score → Score → Score
  max_score a b = if lt a b then b else a

  abbrev pub min_score : Score → Score → Score
  min_score a b = if lt b a then b else a

  pub lt-max_score : (t a b : Score) → lt t (max_score a b) ≡ (lt t a || lt t b)
  lt-max_score t a b = ground (arith, lt_trans t a b, lt_le_trans t b a)

  pub lt-min_score : (t a b : Score) → lt t (min_score a b) ≡ (lt t a && lt t b)
  lt-min_score t a b = ground (arith, lt_trans t b a, lt_le_trans t a b)

  -- No value within the window from `a` up to `b` tells `x` from `y`.
  abbrev pub Agrees : Score → Score → Score → Score → Type 0
  Agrees a b x y = (t : Score) → Le a t → lt t b ≡ true → lt t x ≡ lt t y

  -- `x`, brought into the window.
  abbrev pub clamp : Score → Score → Score → Score
  clamp a b x = min_score (max_score a x) b

  -- A score in the window that agrees with `y` is `y`, brought into the window.
  pub Agrees-eq-clamp :
      (a b x y : Score) → lt a b ≡ true → Le a x → Le x b → Agrees a b x y → x ≡ clamp a b y
  Agrees-eq-clamp a b x y w lo hi g = ground (
    arith,
    g a (lt_irrefl a) w,
    g x lo,
    g y,
    lt_irrefl x,
    lt_irrefl y,
    lt_total x a,
    lt_total x b,
    lt_total x y,
    lt_asymm a b,
    lt_asymm a y,
    lt_le_trans y x b,
    lt_le_trans x y b,
    lt_trans x b y,
  )
