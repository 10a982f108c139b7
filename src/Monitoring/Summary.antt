-- ===== src/Monitoring/Summary.antt =====
-- app/modules/monitoring/queries.py: `percentile` and `performance_summary`.
pub mod Reproducible
pub mod Returned
use fast_api_layers.Prelude.{
  ℕ, zero, suc, ◌+◌, ◌-◌, ◌*◌, Bool, true, false, Option, none, some, List, [], ◌∷◌, length,
  if◌then◌else◌, leb, ltb, nat_eq,
}
use fast_api_layers.Effect.{Result, ok, err, external, Action, pure, lift, ◌>>=◌}
use fast_api_layers.Platform.{Host, World, utc_now}
use fast_api_layers.Monitoring.Floats.{Floats, zero_point, one, half, or_float}

-- The answers of the database to the five queries, by the start of the window: the values of the
-- steps' durations, the sum of token usage, the mean lag, and the numbers of executions and of
-- failed ones. The values are floats, which `float` leaves as they are.
pub record Samples : Type 0 where
  pub latencies : ℕ → List ℕ
  pub token_sum : ℕ → Option ℕ
  pub lag_mean : ℕ → Option ℕ
  pub executions : ℕ → Option ℕ
  pub failures : ℕ → Option ℕ

pub record PerformanceSummary : Type 0 where
  pub latency_p50_ms : ℕ
  pub latency_p95_ms : ℕ
  pub latency_p99_ms : ℕ
  pub throughput_per_minute : ℕ
  pub error_rate : ℕ
  pub token_usage_total : ℕ
  pub consumer_lag : ℕ
  pub step_duration_avg_ms : ℕ

-- `xs[i]` of an index that is not negative
unfoldable pub item_at : List ℕ → ℕ → Result ℕ
item_at [] i = err (external "IndexError")
item_at (x ∷ xs) zero = ok x
item_at (x ∷ xs) (suc i) = item_at xs i

-- `x or 0.0`, and `x or 0`
abbrev or_zero : Option ℕ → ℕ
or_zero none = zero_point
or_zero (some x) = or_float x zero_point

abbrev or_none : Option ℕ → ℕ
or_none none = 0
or_none (some n) = n

abbrev pub is_zero : ℕ → Bool
is_zero zero = true
is_zero (suc n) = false

abbrev pub q95 : ℕ
q95 = 4606732058837280358

abbrev pub q99 : ℕ
q99 = 4607092346807469998

module _ ⦃f : Floats⦄ where
  -- `sorted`, which is stable
  unfoldable pub insert : ℕ → List ℕ → List ℕ
  insert a [] = a ∷ []
  insert a (x ∷ xs) = if f.lt x a then x ∷ insert a xs else a ∷ x ∷ xs

  unfoldable pub sorted : List ℕ → List ℕ
  unfolding insert
  sorted [] = []
  sorted (x ∷ xs) = insert x (sorted xs)

  -- `a * (1 - weight) + b * weight`
  abbrev blend : Result ℕ → Result ℕ → ℕ → Result ℕ
  blend (err e) b weight = err e
  blend (ok a) (err e) weight = err e
  blend (ok a) (ok b) weight = ok (f.plus (f.times a (f.minus one weight)) (f.times b weight))

  -- the weighted mean of the two values around a position
  unfoldable pub interpolate : List ℕ → ℕ → Result ℕ
  unfolding item_at
  interpolate ordered q =
      let last = length ordered - 1 in
      let position = f.times (f.of_nat last) q in
      let lower = f.floor position in
      let upper = if leb (lower + 1) last then lower + 1 else last in
      let weight = f.minus position (f.of_nat lower) in
      blend (item_at ordered lower) (item_at ordered upper) weight

  unfoldable pub percentile : List ℕ → ℕ → Result ℕ
  unfolding sorted interpolate item_at
  percentile [] q = ok zero_point
  percentile (x ∷ xs) q =
      let ordered = sorted (x ∷ xs) in
      if nat_eq (length ordered) 1 then item_at ordered 0 else interpolate ordered q

  -- `mean`, which refuses no values, and `/`, which refuses a divisor of 0. The operands are whole
  -- numbers.
  abbrev pub mean_of : List ℕ → Result ℕ
  mean_of [] = err (external "StatisticsError")
  mean_of (x ∷ xs) = ok (f.mean (x ∷ xs))

  abbrev pub divided : ℕ → ℕ → Result ℕ
  divided a b =
      if is_zero b
      then err (external "ZeroDivisionError")
      else ok (f.over (f.of_nat a) (f.of_nat b))

  -- `mean(xs) if xs else 0.0`
  unfoldable pub average : List ℕ → Result ℕ
  average xs = if is_zero (length xs) then ok zero_point else mean_of xs

  -- `execution_total / max(window_minutes, 1)`
  unfoldable pub throughput_of : ℕ → ℕ → Result ℕ
  throughput_of execution_total window_minutes =
      divided execution_total (if ltb window_minutes 1 then 1 else window_minutes)

  -- `execution_failed / execution_total if execution_total else 0.0`
  unfoldable pub error_rate_of : ℕ → ℕ → Result ℕ
  error_rate_of execution_failed execution_total =
      if is_zero execution_total then ok zero_point else divided execution_failed execution_total

module _ ⦃h : Host⦄ ⦃f : Floats⦄ (samples : Samples) where
  unfoldable pub performance_summary : ℕ → Action World PerformanceSummary
  unfolding utc_now percentile average throughput_of error_rate_of
  performance_summary window_minutes = do
    now ← utc_now
    let window_start = now - window_minutes * 60000000
    let latency_values = samples.latencies window_start
    let execution_total = or_none (samples.executions window_start)
    let execution_failed = or_none (samples.failures window_start)
    throughput ← lift (throughput_of execution_total window_minutes)
    error_rate ← lift (error_rate_of execution_failed execution_total)
    p50 ← lift (percentile latency_values half)
    p95 ← lift (percentile latency_values q95)
    p99 ← lift (percentile latency_values q99)
    step_duration ← lift (average latency_values)
    pure (record {
      latency_p50_ms = p50;
      latency_p95_ms = p95;
      latency_p99_ms = p99;
      throughput_per_minute = throughput;
      error_rate = error_rate;
      token_usage_total = or_zero (samples.token_sum window_start);
      consumer_lag = or_zero (samples.lag_mean window_start);
      step_duration_avg_ms = step_duration;
    })
