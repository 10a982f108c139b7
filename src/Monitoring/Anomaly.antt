-- ===== src/Monitoring/Anomaly.antt =====
-- app/modules/monitoring/anomaly.py: the anomaly detectors. A window has two values at least.
pub mod Local
use fast_api_layers.Prelude.{
  ℕ, suc, ◌-◌, String, Bool, Option, none, some, List, [], ◌∷◌, ◌++◌, ltb, if◌then◌else◌, length,
  drop, take,
}
use fast_api_layers.Monitoring.Floats.{Floats, one_and_half, two, millionth, or_float}

pub record AnomalyFinding : Type 0 where
  pub anomaly_type : String
  pub severity : String
  pub score : ℕ
  pub baseline_value : ℕ
  pub observed_value : ℕ
  pub reason : String

pub data Detector : Type 0 where
  threshold_rule : ℕ → String → Detector
  rolling_std : ℕ → ℕ → Detector
  z_score : ℕ → String → Detector

-- `values[-n:]`, for an `n` that is no zero
unfoldable pub last_of : ℕ → List ℕ → List ℕ
last_of n values = drop (length values - n) values

-- `values[:-1]` and `values[-1]`, where there is a last value
unfoldable pub split_last : List ℕ → Option (List ℕ × ℕ)
split_last [] = none
split_last (v ∷ vs) = elim (split_last vs) [
  | none ↦ some ([], v)
  | some (rest, observed) ↦ some (v ∷ rest, observed)
]

-- `max(3, n)`
abbrev pub at_least_three : ℕ → ℕ
at_least_three n = if ltb 3 n then n else 3

-- `if finding: findings.append(finding)`, before the findings of the later detectors
abbrev pub found {ℓ} : {A : Type ℓ} → Option A → List A → List A
found none later = later
found (some finding) later = finding ∷ later

module _ ⦃f : Floats⦄ where
  -- `ThresholdRuleDetector.detect`, of the last value
  unfoldable pub over_threshold : ℕ → String → List ℕ × ℕ → Option AnomalyFinding
  over_threshold threshold anomaly_type (baseline, observed) =
      if f.lt threshold observed
      then some (record {
        anomaly_type = anomaly_type;
        severity = "critical";
        score = f.over observed threshold;
        baseline_value = threshold;
        observed_value = observed;
        reason = "threshold_exceeded";
      })
      else none

  -- `pstdev(baseline) or 1e-6`
  abbrev pub spread : List ℕ → ℕ
  spread baseline = or_float (f.pstdev baseline) millionth

  -- the comparison of `RollingStdDetector.detect`, in its window
  unfoldable pub over_rolling_std : ℕ → List ℕ × ℕ → Option AnomalyFinding
  over_rolling_std std_multiplier (baseline, observed) =
      let baseline_mean = f.mean baseline in
      let baseline_std = spread baseline in
      if f.lt (f.plus baseline_mean (f.times baseline_std std_multiplier)) observed
      then some (record {
        anomaly_type = "error_spike";
        severity = "warning";
        score = f.over (f.minus observed baseline_mean) baseline_std;
        baseline_value = baseline_mean;
        observed_value = observed;
        reason = "rolling_std_exceeded";
      })
      else none

  -- the comparison of `ZScoreDetector.detect`
  unfoldable pub over_z_score : ℕ → String → List ℕ × ℕ → Option AnomalyFinding
  over_z_score z_threshold anomaly_type (baseline, observed) =
      let baseline_mean = f.mean baseline in
      let z = f.abs (f.over (f.minus observed baseline_mean) (spread baseline)) in
      if f.le z_threshold z
      then some (record {
        anomaly_type = anomaly_type;
        severity = if f.le (f.times z_threshold one_and_half) z then "critical" else "warning";
        score = z;
        baseline_value = baseline_mean;
        observed_value = observed;
        reason = "zscore_exceeded";
      })
      else none

  abbrev pub on_last : (List ℕ × ℕ → Option AnomalyFinding) → List ℕ → Option AnomalyFinding
  on_last compare values = elim (split_last values) [ none ↦ none | some split ↦ compare split ]

  unfoldable pub detect : Detector → List ℕ → Option AnomalyFinding
  unfolding last_of split_last over_threshold over_rolling_std over_z_score
  detect (threshold_rule threshold anomaly_type) values =
      on_last (over_threshold threshold anomaly_type) values
  detect (rolling_std window_size std_multiplier) values =
      if ltb (length values) (at_least_three window_size)
      then none
      else on_last (over_rolling_std std_multiplier) (last_of window_size values)
  detect (z_score z_threshold anomaly_type) values =
      if ltb (length values) 5 then none else on_last (over_z_score z_threshold anomaly_type) values

  -- `AnomalyDetectionService.evaluate`
  unfoldable pub evaluate : List Detector → List ℕ → List AnomalyFinding
  unfolding detect
  evaluate [] values = []
  evaluate (detector ∷ detectors) values =
      found (detect detector values) (evaluate detectors values)

-- 5000.0, 2.0 and the two thresholds of the settings
abbrev pub build_default_anomaly_detectors : ℕ → ℕ → List Detector
build_default_anomaly_detectors latency_zscore cost_zscore =
    threshold_rule 4662219572839972864 "latency_spike"
    ∷ rolling_std 10 two
    ∷ z_score latency_zscore "latency_spike"
    ∷ z_score cost_zscore "cost_spike"
    ∷ []
