-- ===== src/Workers/Drifts/Windows.antt =====
-- The two windows that the drift detectors compare.
use fast_api_layers.Prelude.{
  ℕ, ◌+◌, ◌-◌, ◌≤◌, ◌<◌, ◌≡◌, sym, ap, ◌∙◌, false, List, ◌++◌, ltb, length, take, drop, take-add,
  take-drop, length-drop, length-take, arith,
}
use fast_api_layers.Monitoring.Floats.{Floats}
use fast_api_layers.Monitoring.Drift.{DriftDetector, evaluate_drift}
use fast_api_layers.Workers.Drifts.{drift_findings}

-- A history of 20 to 29 values is compared with itself in part: it falls into an older, a shared and
-- a newer part, of which the baseline is the older two and the current window the newer two, and the
-- shared part has as many values as the history is short of 30.
pub drift_findings-overlap :
    ⦃f : Floats⦄ (detectors : List DriftDetector) (values : List ℕ)
    → 20 ≤ length values
    → length values < 30
    → (older : List ℕ) × (shared : List ℕ) × (newer : List ℕ) × (values
        ≡ older ++ (shared ++ newer))
      × (length shared ≡ 30 - length values)
      × (drift_findings detectors values
          ≡ evaluate_drift detectors (older ++ shared) (shared ++ newer))
unfolding drift_findings
drift_findings-overlap detectors values enough few =
    let n = length values in
    let recent = drop (n - 10) values in
    let enough_values : ltb n 20 ≡ false = ground arith in
    let size : 20 ≡ (n - 10) + (30 - n) = omega arith in
    let split = take-drop (30 - n) recent in
    (
      take (n - 10) values,
      take (30 - n) recent,
      drop (30 - n) recent,
      sym (take-drop (n - 10) values) ∙ ap (λ ys. take (n - 10) values ++ ys) (sym split),
      length-take (30 - n) recent (omega (arith, length-drop (n - 10) values)),
      rw enough_values (
          ap (λ ys. evaluate_drift detectors ys recent)
            (ap (λ k. take k values) size ∙ take-add (n - 10) (30 - n) values)
          ∙ ap (λ ys. evaluate_drift detectors (take (n - 10) values ++ take (30 - n) recent) ys)
              (sym split)),
    )
