-- ===== src/Monitoring/Floats.antt =====
-- The floating-point operations of the detectors. A float is its 64-bit pattern; the interpreter's
-- arithmetic and its `statistics` module are a parameter.
use fast_api_layers.Prelude.{ℕ, Bool, List, [], ◌∷◌, if◌then◌else◌}
use fast_api_layers.Value.{Value, float, truthy}
use fast_api_layers.Effect.{Result}

-- `a > b` is `lt b a` and `a >= b` is `le b a`. Where the code divides, the divisor is no zero.
pub record Floats : Type 0 where
  pub lt : ℕ → ℕ → Bool
  pub le : ℕ → ℕ → Bool
  pub eq : ℕ → ℕ → Bool
  pub plus : ℕ → ℕ → ℕ
  pub minus : ℕ → ℕ → ℕ
  pub times : ℕ → ℕ → ℕ
  pub over : ℕ → ℕ → ℕ
  pub abs : ℕ → ℕ
  pub log : ℕ → ℕ
  -- `mean` and `pstdev` of values of which there is one at least, and `sum`
  pub mean : List ℕ → ℕ
  pub pstdev : List ℕ → ℕ
  pub sum : List ℕ → ℕ
  pub of_nat : ℕ → ℕ
  -- `int(x)` of a value that is not negative
  pub floor : ℕ → ℕ
  -- `float(v)`
  pub to_float : Value → Result ℕ

-- the literals of the code
abbrev pub zero_point : ℕ
zero_point = 0

abbrev pub one : ℕ
one = 4607182418800017408

abbrev pub half : ℕ
half = 4602678819172646912

abbrev pub one_and_half : ℕ
one_and_half = 4609434218613702656

abbrev pub two : ℕ
two = 4611686018427387904

abbrev pub millionth : ℕ
millionth = 4517329193108106637

abbrev pub billionth : ℕ
billionth = 4472406533629990549

-- `a or b` of floats
abbrev pub or_float : ℕ → ℕ → ℕ
or_float a b = if truthy (float a) then a else b

module _ ⦃f : Floats⦄ where
  -- `max(a, b)` and `min(a, b)`, which keep `a` unless `b` is beyond it
  abbrev pub max_of : ℕ → ℕ → ℕ
  max_of a b = if f.lt a b then b else a

  abbrev pub min_of : ℕ → ℕ → ℕ
  min_of a b = if f.lt b a then b else a

  -- `max(xs)` and `min(xs)` of a list that starts with `a`
  unfoldable pub max_from : ℕ → List ℕ → ℕ
  max_from a [] = a
  max_from a (x ∷ xs) = max_from (max_of a x) xs

  unfoldable pub min_from : ℕ → List ℕ → ℕ
  min_from a [] = a
  min_from a (x ∷ xs) = min_from (min_of a x) xs
