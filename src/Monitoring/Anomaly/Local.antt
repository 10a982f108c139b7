-- ===== src/Monitoring/Anomaly/Local.antt =====
-- What a detector reads of a history.
use fast_api_layers.Prelude.{
  ℕ, ◌+◌, ◌-◌, ◌≤◌, ◌<◌, String, ◌≡◌, refl, ap, ◌∙◌, true, false, none, List, [], ◌∷◌, ◌++◌, ltb,
  length, drop, length-append, drop-append, arith,
}
use fast_api_layers.Monitoring.Floats.{Floats, two}
use fast_api_layers.Monitoring.Anomaly.{
  threshold_rule, rolling_std, z_score, found, last_of, at_least_three, on_last, over_rolling_std,
  detect, evaluate, build_default_anomaly_detectors,
}

last_of-append : (w : ℕ) (xs ys : List ℕ) → w ≤ length ys → last_of w (xs ++ ys) ≡ last_of w ys
unfolding last_of
last_of-append w xs ys le =
    let e : length (xs ++ ys) - w ≡ length xs + (length ys - w) =
      omega (arith, length-append xs ys) in
    ap (λ n. drop n (xs ++ ys)) e ∙ drop-append xs ys (length ys - w)

long-enough : (n w : ℕ) → w ≤ n → 3 ≤ n → ltb n (at_least_three w) ≡ false
long-enough n w le le3 = ground arith

module _ ⦃f : Floats⦄ where
  -- A rolling detector gives a history the verdict that it gives any end of it that has three values
  -- and the window's size at least: what is older does not matter.
  pub rolling_std-local :
      (window_size std_multiplier : ℕ) (older recent : List ℕ)
      → window_size ≤ length recent
      → 3 ≤ length recent
      → detect (rolling_std window_size std_multiplier) (older ++ recent)
        ≡ detect (rolling_std window_size std_multiplier) recent
  unfolding detect
  rolling_std-local w m older recent le le3 =
      rw
        (long-enough (length (older ++ recent)) w (omega (arith, length-append older recent))
          (omega (arith, length-append older recent)))
        (rw (long-enough (length recent) w le le3)
          (ap (on_last (over_rolling_std m)) (last_of-append w older recent le)))

  detect-short_rolling :
      (m : ℕ) (values : List ℕ)
      → ltb (length values) (at_least_three 10) ≡ true
      → detect (rolling_std 10 m) values ≡ none
  unfolding detect
  detect-short_rolling m values p = rw p refl

  detect-short_z :
      (threshold : ℕ) (kind : String) (values : List ℕ)
      → ltb (length values) 5 ≡ true
      → detect (z_score threshold kind) values ≡ none
  unfolding detect
  detect-short_z threshold kind values p = rw p refl

  -- On a history of fewer than five values the default detectors find what the threshold of 5000.0
  -- alone finds, whatever the two settings are.
  pub evaluate-short :
      (latency_zscore cost_zscore : ℕ) (values : List ℕ)
      → length values < 5
      → evaluate (build_default_anomaly_detectors latency_zscore cost_zscore) values
        ≡ evaluate (threshold_rule 4662219572839972864 "latency_spike" ∷ []) values
  unfolding evaluate
  evaluate-short latency_zscore cost_zscore values short =
      let rolling : ltb (length values) (at_least_three 10) ≡ true = ground arith in
      let z : ltb (length values) 5 ≡ true = ground arith in
      ap (found (detect (threshold_rule 4662219572839972864 "latency_spike") values)) (
        ap
          (λ o. found o (
            evaluate
              (z_score latency_zscore "latency_spike" ∷ z_score cost_zscore "cost_spike" ∷ [])
              values))
          (detect-short_rolling two values rolling)
        ∙ ap (λ o. found o (evaluate (z_score cost_zscore "cost_spike" ∷ []) values))
            (detect-short_z latency_zscore "latency_spike" values z)
        ∙ ap (λ o. found o []) (detect-short_z cost_zscore "cost_spike" values z))
