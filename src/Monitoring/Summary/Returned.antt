-- ===== src/Monitoring/Summary/Returned.antt =====
-- The summary is given whatever the rows are.
use fast_api_layers.Prelude.{
  true, ℕ, suc, ◌≤◌, ◌≡◌, refl, ap, ◌∙◌, Bool-cases, inl, inr, List, [], ◌∷◌, length,
}
use fast_api_layers.Monitoring.Floats.{Floats, half, one}
use fast_api_layers.Monitoring.Summary.{insert, sorted, q95, q99}

module _ ⦃f : Floats⦄ where
  length-insert : (a : ℕ) (xs : List ℕ) → length (insert a xs) ≡ suc (length xs)
  unfolding insert
  length-insert a [] = refl
  length-insert a (x ∷ xs) = elim (Bool-cases (f.lt x a)) [
    | inl e ↦ rw e (ap (λ n. suc n) (length-insert a xs))
    | inr e ↦ rw e
  ]

  pub length-sorted : (xs : List ℕ) → length (sorted xs) ≡ length xs
  unfolding sorted
  length-sorted [] = refl
  length-sorted (x ∷ xs) = length-insert x (sorted xs) ∙ ap (λ n. suc n) (length-sorted xs)

  -- What the arithmetic of floats promises: whole numbers up to 2 ^ 53 are exact, rounding down
  -- keeps the order, a number times a factor of at most 1 is at most the number, and the three
  -- quantiles are at most 1.
  pub record IsRounding : Type 0 where
    pub exact : (n : ℕ) → n ≤ 9007199254740992 → f.floor (f.of_nat n) ≡ n
    pub floor_mono : (a n : ℕ) → f.le a (f.of_nat n) ≡ true → f.floor a ≤ f.floor (f.of_nat n)
    pub shrinks : (n q : ℕ) → f.le q one ≡ true → f.le (f.times (f.of_nat n) q) (f.of_nat n) ≡ true
    pub half_le : f.le half one ≡ true
    pub q95_le : f.le q95 one ≡ true
    pub q99_le : f.le q99 one ≡ true
