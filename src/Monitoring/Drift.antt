-- ===== src/Monitoring/Drift.antt =====
-- app/modules/monitoring/drift.py: the drift detectors.
use fast_api_layers.Prelude.{
  ℕ, zero, suc, ◌+◌, String, ◌&&◌, Option, none, some, List, [], ◌∷◌, map, nat_eq, ltb,
  if◌then◌else◌, length, take,
}
use fast_api_layers.Monitoring.Anomaly.{found}
use fast_api_layers.Monitoring.Floats.{
  Floats, zero_point, one, half, one_and_half, two, millionth, billionth, or_float, max_of,
  max_from, min_of, min_from,
}

pub record DriftFinding : Type 0 where
  pub drift_type : String
  pub severity : String
  pub metric_name : String
  pub score : ℕ
  pub threshold : ℕ
  pub reason : String

pub data DriftDetector : Type 0 where
  psi jensen_shannon : ℕ → String → DriftDetector

module _ ⦃f : Floats⦄ where
  -- `sum(1 for value in values if lower <= value <= upper)`
  unfoldable pub count_between : ℕ → ℕ → List ℕ → ℕ
  count_between lower upper [] = 0
  count_between lower upper (v ∷ vs) =
      let rest = count_between lower upper vs in
      if f.le lower v && f.le v upper then suc rest else rest

  -- `max(count / len(values), 1e-6)`
  abbrev pub share : ℕ → List ℕ → ℕ
  share count values = max_of (f.over (f.of_nat count) (f.of_nat (length values))) millionth

  -- one turn of the loop of `population_stability_index`: what the bin adds
  unfoldable pub bin_psi : List ℕ → List ℕ → ℕ → ℕ → ℕ
  unfolding count_between
  bin_psi baseline current lower upper =
      let baseline_pct = share (count_between lower upper baseline) baseline in
      let current_pct = share (count_between lower upper current) current in
      f.times (f.minus current_pct baseline_pct) (f.log (f.over current_pct baseline_pct))

  -- the loop `for index in range(bins)`, with `left` bins to go, the smallest and the largest value
  -- and the width of a bin
  unfoldable pub psi_loop : List ℕ → List ℕ → ℕ → ℕ → ℕ → ℕ → ℕ → ℕ → ℕ
  psi_loop baseline current low high step index zero total = total
  psi_loop baseline current low high step index (suc left) total =
      let lower = f.plus low (f.times step (f.of_nat index)) in
      let upper = if nat_eq left 0 then high else f.plus lower step in
      psi_loop baseline current low high step (index + 1) left
        (f.plus total (bin_psi baseline current lower upper))

  unfoldable pub population_stability_index : List ℕ → List ℕ → ℕ → ℕ
  unfolding max_from min_from
  population_stability_index [] current bins = zero_point
  population_stability_index (b ∷ bs) [] bins = zero_point
  population_stability_index (b ∷ bs) (c ∷ cs) bins =
      let min_value = min_of (min_from b bs) (min_from c cs) in
      let max_value = max_of (max_from b bs) (max_from c cs) in
      if f.eq min_value max_value
      then zero_point
      else psi_loop (b ∷ bs) (c ∷ cs) min_value max_value
          (f.over (f.minus max_value min_value) (f.of_nat bins)) 0 bins zero_point

  -- the loop of `kl_divergence`, from a total
  unfoldable pub kl_from : ℕ → List ℕ → List ℕ → ℕ
  kl_from total [] qs = total
  kl_from total (p ∷ ps) [] = total
  kl_from total (p ∷ ps) (q ∷ qs) =
      let p_safe = max_of p billionth in
      let q_safe = max_of q billionth in
      kl_from (f.plus total (f.times p_safe (f.log (f.over p_safe q_safe)))) ps qs

  abbrev pub kl_divergence : List ℕ → List ℕ → ℕ
  kl_divergence p q = kl_from zero_point p q

  -- `[value / (sum(values) or 1.0) for value in values]`
  abbrev pub normalised : List ℕ → List ℕ
  normalised values = map (λ v. f.over v (or_float (f.sum values) one)) values

  unfoldable pub midpoint : List ℕ → List ℕ → List ℕ
  midpoint [] qs = []
  midpoint (p ∷ ps) [] = []
  midpoint (p ∷ ps) (q ∷ qs) = f.over (f.plus p q) two ∷ midpoint ps qs

  -- of two lists of which none is empty, cut to the shorter one
  unfoldable pub divergence_of : List ℕ → List ℕ → ℕ
  unfolding kl_from midpoint
  divergence_of p q =
      let p_norm = normalised p in
      let q_norm = normalised q in
      let middle = midpoint p_norm q_norm in
      f.plus (f.times half (kl_divergence p_norm middle))
        (f.times half (kl_divergence q_norm middle))

  unfoldable pub jensen_shannon_divergence : List ℕ → List ℕ → ℕ
  jensen_shannon_divergence [] current = zero_point
  jensen_shannon_divergence (b ∷ bs) [] = zero_point
  jensen_shannon_divergence (b ∷ bs) (c ∷ cs) =
      let size =
        if ltb (length (c ∷ cs)) (length (b ∷ bs)) then length (c ∷ cs) else length (b ∷ bs) in
      divergence_of (take size (b ∷ bs)) (take size (c ∷ cs))

  -- the end of both detectors: `factor` is what makes a score critical
  unfoldable pub drift_finding : String → String → String → ℕ → ℕ → ℕ → Option DriftFinding
  drift_finding drift_type metric_name reason factor threshold score =
      if f.le threshold score
      then some (record {
        drift_type = drift_type;
        severity = if f.le (f.times threshold factor) score then "critical" else "warning";
        metric_name = metric_name;
        score = score;
        threshold = threshold;
        reason = reason;
      })
      else none

  unfoldable pub detect_drift : DriftDetector → List ℕ → List ℕ → Option DriftFinding
  unfolding population_stability_index jensen_shannon_divergence drift_finding
  detect_drift (psi threshold drift_type) baseline current =
      drift_finding drift_type "psi" "psi_threshold_exceeded" one_and_half threshold
        (population_stability_index baseline current 10)
  -- the code multiplies by the integer 2
  detect_drift (jensen_shannon threshold drift_type) baseline current =
      drift_finding drift_type "jensen_shannon" "js_threshold_exceeded" two threshold
        (jensen_shannon_divergence baseline current)

  -- `DriftDetectionService.evaluate`
  unfoldable pub evaluate_drift : List DriftDetector → List ℕ → List ℕ → List DriftFinding
  unfolding detect_drift
  evaluate_drift [] baseline current = []
  evaluate_drift (detector ∷ detectors) baseline current =
      found (detect_drift detector baseline current) (evaluate_drift detectors baseline current)

-- 0.2, 0.1 and 0.15
abbrev pub build_default_drift_detectors : List DriftDetector
build_default_drift_detectors =
    psi 4596373779694328218 "data_drift"
    ∷ jensen_shannon 4591870180066957722 "output_drift"
    ∷ jensen_shannon 4594572339843380019 "embedding_drift"
    ∷ []
