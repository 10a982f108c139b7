-- ===== src/Monitoring/Health/Status.antt =====
-- The status of a summary against the statuses of its components.
use fast_api_layers.Prelude.{
  ℕ, String, ◌≡◌, refl, sym, ◌∙◌, ap, Bool, true, false, ◌||◌, List, [], ◌∷◌, ◌==◌, ltb,
  if◌then◌else◌, Bool-cases, inl, inr,
}
use fast_api_layers.Monitoring.Health.{ComponentHealth, any_status, deep_status}

-- how bad it is that something fails or is degraded
abbrev pub rank : Bool → Bool → ℕ
rank failing degraded = if failing then 2 else if degraded then 1 else 0

abbrev pub severity : String → ℕ
severity status = rank (status == "failing") (status == "degraded")

abbrev pub max : ℕ → ℕ → ℕ
max a b = if ltb a b then b else a

-- the severity of the worst component
abbrev pub worst : List ComponentHealth → ℕ
worst [] = 0
worst (c ∷ cs) = max (severity c.status) (worst cs)

max-rank : (f d f' d' : Bool) → max (rank f d) (rank f' d') ≡ rank (f || f') (d || d')
max-rank true true true true = refl
max-rank true true true false = refl
max-rank true true false true = refl
max-rank true true false false = refl
max-rank true false true true = refl
max-rank true false true false = refl
max-rank true false false true = refl
max-rank true false false false = refl
max-rank false true true true = refl
max-rank false true true false = refl
max-rank false true false true = refl
max-rank false true false false = refl
max-rank false false true true = refl
max-rank false false true false = refl
max-rank false false false true = refl
max-rank false false false false = refl

worst-rank :
    (cs : List ComponentHealth)
    → worst cs ≡ rank (any_status "failing" cs) (any_status "degraded" cs)
unfolding any_status
worst-rank [] = refl
worst-rank (c ∷ cs) =
    ap (λ n. max (severity c.status) n) (worst-rank cs)
    ∙ max-rank (c.status == "failing") (c.status == "degraded") (any_status "failing" cs)
        (any_status "degraded" cs)

-- `deep` takes the status of the worst component.
pub deep_status-worst : (cs : List ComponentHealth) → severity (deep_status cs) ≡ worst cs
unfolding deep_status
deep_status-worst cs =
    (elim (Bool-cases (any_status "failing" cs)) [
      | inl p ↦ rw p refl
      | inr p ↦
          rw p
            (elim (Bool-cases (any_status "degraded" cs)) [ inl q ↦ rw q refl | inr q ↦ rw q refl ])
    ])
    ∙ sym (worst-rank cs)
