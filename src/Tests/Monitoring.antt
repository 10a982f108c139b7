-- ===== src/Tests/Monitoring.antt =====
-- Runs of the detectors, the workers' handlers and the health checks, under an arithmetic that
-- compares the patterns of the floats as numbers.
use mathlib.Core.List.{Permᴰ}
use fast_api_layers.Prelude.{
  ◌⊎◌, ℕ, ◌+◌, ◌-◌, ◌*◌, ◌≡◌, refl, false, true, none, some, List, [], ◌∷◌, ◌++◌, map, ltb, leb,
  nat_eq, arith, length,
}
use fast_api_layers.Value.{get, text, int, dict}
use fast_api_layers.Effect.{external, ok, err}
use fast_api_layers.Events.{EventEnvelope}
use fast_api_layers.Platform.{utc_now}
use fast_api_layers.Topics.{anomaly_events_topic}
use fast_api_layers.Monitoring.Floats.{Floats}
use fast_api_layers.Monitoring.Anomaly.{threshold_rule, rolling_std, detect, evaluate}
use fast_api_layers.Monitoring.Anomaly.Local.{rolling_std-local}
use fast_api_layers.Monitoring.Drift.{build_default_drift_detectors, evaluate_drift}
use fast_api_layers.Monitoring.Health.{
  is_stale, HealthSettings, Heartbeat, Dependencies, ready, deep,
}
use fast_api_layers.Monitoring.Health.Reports.{
  ReportedAll, RaisedBy, FailingWhenRaised, ready-failing, deep-AllChecked,
}
use fast_api_layers.Workers.Anomalies.{History, anomaly_handler}
use fast_api_layers.Workers.Anomalies.Reported.{Reported, anomaly_handler-Reported}
use fast_api_layers.Workers.Drifts.{drift_findings}
use fast_api_layers.Workers.Drifts.Windows.{drift_findings-overlap}
use fast_api_layers.Workers.Heartbeat.{heartbeat_pause, heartbeat_pause-kept}
use fast_api_layers.Workers.Topology.{started_workers}
use fast_api_layers.Workers.Topology.Covered.{
  every, is_covered, are_distinct, started_workers-covered,
}
use fast_api_layers.Workers.Metrics.Uncorrelated.{
  count_all, own_correlation, Counted, count_all-Counted,
}
use fast_api_layers.Monitoring.Summary.{Samples, performance_summary}
use fast_api_layers.Monitoring.Summary.Reproducible.{IsOrdered, performance_summary-Perm}
use fast_api_layers.Tests.Fixtures.{quiet_host, fresh_world, agent_created_event}
use fast_api_layers.Tests.Registry.{fresh-ne}

instance abbrev plain_floats : Floats
plain_floats = record {
  lt = ltb;
  le = leb;
  eq = nat_eq;
  plus = λ a b. a + b;
  minus = λ a b. a - b;
  times = λ a b. a * b;
  over = λ a b. a;
  abs = λ a. a;
  log = λ a. a;
  mean = λ xs. 5;
  pstdev = λ xs. 1;
  sum = λ xs. 5;
  of_nat = λ n. n;
  floor = λ n. n;
  to_float = λ v. ok 9;
}

abbrev three_values : List ℕ
three_values = 4 ∷ 6 ∷ 90 ∷ []

rolling_std-local_example :
    detect (rolling_std 3 2) (1 ∷ 2 ∷ 4 ∷ 6 ∷ 90 ∷ []) ≡ detect (rolling_std 3 2) three_values
rolling_std-local_example =
    rolling_std-local 3 2 (1 ∷ 2 ∷ []) three_values (omega arith) (omega arith)

abbrev one_history : History
one_history = record { of_metric = λ name id limit. 6 ∷ 4 ∷ []; of_workflow = λ workflow limit. [] }

abbrev metric_event : EventEnvelope
metric_event = record agent_created_event {
  event_type = "metric.recorded";
  payload = dict (
      ("metric_name", text "latency")
      ∷ ("entity_type", text "model")
      ∷ ("entity_id", text "m1")
      ∷ ("value", int 9)
      ∷ []);
}

anomaly_handler-Reported_example :
    (es : List EventEnvelope) × ((anomaly_handler one_history
        (threshold_rule 8 "latency_spike" ∷ [])
        metric_event
        fresh_world).0
      ≡ ok tt)
    × Reported metric_event "model" "m1"
        (evaluate (threshold_rule 8 "latency_spike" ∷ []) (4 ∷ 6 ∷ 9 ∷ []))
        es
    × ((anomaly_handler one_history
          (threshold_rule 8 "latency_spike" ∷ [])
          metric_event
          fresh_world).1.published
        ≡ map (λ e. (anomaly_events_topic, e)) es)
unfolding get
anomaly_handler-Reported_example =
    anomaly_handler-Reported one_history (threshold_rule 8 "latency_spike" ∷ []) (λ n. refl)
      metric_event fresh_world refl refl refl refl refl refl

abbrev ten_values : List ℕ → List ℕ
ten_values rest = 1 ∷ 2 ∷ 3 ∷ 4 ∷ 5 ∷ 6 ∷ 7 ∷ 8 ∷ 9 ∷ 10 ∷ rest

abbrev history_of_21 : List ℕ
history_of_21 = ten_values (ten_values (11 ∷ []))

drift_findings-overlap_example :
    (older : List ℕ) × (shared : List ℕ) × (newer : List ℕ) × (history_of_21
      ≡ older ++ (shared ++ newer))
    × (length shared ≡ 9)
    × (drift_findings build_default_drift_detectors history_of_21
        ≡ evaluate_drift build_default_drift_detectors (older ++ shared) (shared ++ newer))
drift_findings-overlap_example =
    drift_findings-overlap build_default_drift_detectors history_of_21 (omega arith) (omega arith)

started_workers-covered_example :
    (every is_covered (started_workers "analytics") ≡ true)
    × (are_distinct (map (λ c. c.group_id) (started_workers "analytics")) ≡ true)
started_workers-covered_example = started_workers-covered "analytics"

abbrev probing : HealthSettings
probing = record {
  kafka_bootstrap_servers = "kafka:9092" ∷ [];
  model_probe_urls = "http://model" ∷ [];
  heartbeat_ttl_seconds = 30;
}

abbrev without_redis : Dependencies
without_redis = record {
  database_error = none;
  redis_error = some (external "redis");
  probe = λ url. ok 200;
  heartbeats = ok [];
}

-- the database is down, for `SELECT 1` and for the query of the heartbeats
abbrev without_database : Dependencies
without_database = record without_redis {
  database_error = some (external "postgresql");
  heartbeats = err (external "postgresql");
}

ready-failing_example :
    ((heartbeats : List Heartbeat) × (without_redis.heartbeats ≡ ok heartbeats)
      × FailingWhenRaised without_redis fresh_world (ready probing without_redis fresh_world))
    ⊎ RaisedBy without_redis fresh_world (ready probing without_redis fresh_world)
ready-failing_example = ready-failing probing without_redis fresh_world

ready_down : (ready probing without_database fresh_world).0 ≡ err (external "postgresql")
unfolding ready utc_now
ready_down = refl

deep-AllChecked_example :
    ((heartbeats : List Heartbeat) × (without_redis.heartbeats ≡ ok heartbeats)
      × ReportedAll fresh_world (deep probing without_redis fresh_world))
    ⊎ RaisedBy without_redis fresh_world (deep probing without_redis fresh_world)
deep-AllChecked_example = deep-AllChecked (λ n. refl) probing without_redis fresh_world

heartbeat_pause-kept_example :
    is_stale 30 16000000 (record { worker_name = "w"; last_seen_at = 1000000 }) ≡ false
unfolding heartbeat_pause
heartbeat_pause-kept_example =
    heartbeat_pause-kept 30 (record { worker_name = "w"; last_seen_at = 1000000 }) 16000000
      (omega arith) (omega arith)

abbrev execution_events : List EventEnvelope
execution_events =
    record agent_created_event {
      event_type = "execution.started";
      entity_id = "e1";
      correlation_id = "c1";
    }
    ∷ record agent_created_event {
      event_type = "execution.failed";
      entity_id = "e2";
      correlation_id = "c2";
    }
    ∷ []

count_all-Counted_example :
    Counted
      ("e1" ∷ "e2" ∷ [])
      (own_correlation fresh_world)
      fresh_world
      (count_all execution_events fresh_world)
count_all-Counted_example = count_all-Counted fresh-ne (λ n. refl) execution_events fresh_world

-- an arithmetic in which a position is never past the end
abbrev level_floats : Floats
level_floats = record plain_floats { times = λ a b. a }

abbrev some_samples : Samples
some_samples = record {
  latencies = λ start. 30 ∷ 10 ∷ 20 ∷ [];
  token_sum = λ start. none;
  lag_mean = λ start. some 2;
  executions = λ start. some 4;
  failures = λ start. some 1;
}

numbers-IsOrdered : IsOrdered ⦃f = level_floats⦄ (λ n. Unit)
numbers-IsOrdered = record {
  asym = λ a b pa pb e. ground arith;
  trans = λ a b c pa pb pc e e'. ground arith;
  connected = λ a b pa pb e e'. ground arith;
}

performance_summary-Perm_example :
    performance_summary ⦃h = quiet_host⦄ ⦃f = level_floats⦄ some_samples 60 fresh_world
    ≡ performance_summary ⦃h = quiet_host⦄ ⦃f = level_floats⦄
        (record some_samples { latencies = λ start. 10 ∷ 30 ∷ 20 ∷ [] })
        60
        fresh_world
performance_summary-Perm_example =
    performance_summary-Perm ⦃f = level_floats⦄ numbers-IsOrdered (λ xs ys p. refl) some_samples
      (λ start. 10 ∷ 30 ∷ 20 ∷ []) (λ start. Permᴰ.swap refl refl) (λ start. (tt, (tt, (tt, tt))))
      60 fresh_world
