-- ===== src/Tests/Alerting.antt =====
-- A sequence of signals.
use fast_api_layers.Prelude.{none, [], ◌∷◌}
use fast_api_layers.Alerting.{AlertSettings, Signal, cooldown}
use fast_api_layers.Alerting.Cooldown.{Spaced, sent_times, sent_times-Spaced}
use fast_api_layers.Tests.Fixtures.{quiet_host, fresh_world, agent_created_event}

abbrev usual_cooldown : AlertSettings
usual_cooldown = record { alert_cooldown_seconds = 300; default_alert_webhook = none }

abbrev slow_signal : Signal
slow_signal = record {
  signal_type = "anomaly";
  source_event = agent_created_event;
  severity = "warning";
  title = "latency";
  description = "slow";
  entity_type = "model";
  entity_id = "m1";
}

sent_times-Spaced_example :
    Spaced
      (cooldown usual_cooldown)
      none
      (sent_times usual_cooldown (slow_signal ∷ slow_signal ∷ []) none fresh_world)
sent_times-Spaced_example =
    sent_times-Spaced usual_cooldown (slow_signal ∷ slow_signal ∷ []) none fresh_world
