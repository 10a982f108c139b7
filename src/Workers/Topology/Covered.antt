-- ===== src/Workers/Topology/Covered.antt =====
-- The workers of a role, and where their failures go.
use fast_api_layers.Prelude.{
  String, ◌≡◌, refl, Option, none, some, List, [], ◌∷◌, ◌==◌, Bool, true, false, not, ◌&&◌,
  Bool-cases, inl, inr, map,
}
use fast_api_layers.Topics.{dlq_of, lookup_topic}
use fast_api_layers.Workers.Topology.{Consumer, workers_of, workers_for, started_workers}

-- Do all members pass a test?
abbrev pub every {ℓ} : {A : Type ℓ} → (A → Bool) → List A → Bool
every test [] = true
every test (x ∷ xs) = test x && every test xs

abbrev pub is_some {ℓ} : {A : Type ℓ} → Option A → Bool
is_some none = false
is_some (some a) = true

-- Does every topic of a worker have a dead-letter topic?
abbrev pub is_covered : Consumer → Bool
is_covered c = every (λ topic. is_some (dlq_of topic)) c.topics

-- Are the texts different from each other?
abbrev pub are_distinct : List String → Bool
are_distinct [] = true
are_distinct (s ∷ ss) = every (λ t. not (t == s)) ss && are_distinct ss

-- Whichever role a process is given, every topic that one of its workers reads has a dead-letter
-- topic, and its workers have different consumer groups.
pub started_workers-covered :
    (role : String)
    → (every is_covered (started_workers role) ≡ true)
      × (are_distinct (map (λ c. c.group_id) (started_workers role)) ≡ true)
unfolding workers_for workers_of dlq_of lookup_topic
started_workers-covered role = elim (Bool-cases (role == "all")) [
  | inl p ↦ rw p (refl, refl)
  | inr p ↦ rw p (elim (Bool-cases ("projection" == role)) [
    | inl q ↦ rw q (refl, refl)
    | inr q ↦ rw q (elim (Bool-cases ("analytics" == role)) [
      | inl r ↦ rw r (refl, refl)
      | inr r ↦ rw r (elim (Bool-cases ("alerts" == role)) [
        | inl s ↦ rw s (refl, refl)
        | inr s ↦ rw s (elim (Bool-cases ("execution" == role)) [
          | inl t ↦ rw t (refl, refl)
          | inr t ↦ rw t (refl, refl)
        ])
      ])
    ])
  ])
]
