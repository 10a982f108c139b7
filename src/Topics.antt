-- ===== src/Topics.antt =====
-- app/messaging/topics.py: the topics and their dead-letter topics.
use fast_api_layers.Prelude.{String, Option, none, some, List, [], ◌∷◌, ◌==◌, if◌then◌else◌}

abbrev pub agent_executions_topic : String
agent_executions_topic = "agent.executions"

abbrev pub agent_steps_topic : String
agent_steps_topic = "agent.steps"

abbrev pub system_metrics_topic : String
system_metrics_topic = "system.metrics"

abbrev pub system_health_topic : String
system_health_topic = "system.health"

abbrev pub model_inference_topic : String
model_inference_topic = "model.inference"

abbrev pub cost_events_topic : String
cost_events_topic = "cost.events"

abbrev pub anomaly_events_topic : String
anomaly_events_topic = "anomaly.events"

abbrev pub drift_events_topic : String
drift_events_topic = "drift.events"

abbrev pub alerts_events_topic : String
alerts_events_topic = "alerts.events"

abbrev pub audit_events_topic : String
audit_events_topic = "audit.events"

abbrev pub registry_events_topic : String
registry_events_topic = "registry.events"

-- `TOPIC_TO_DLQ`
abbrev pub topic_to_dlq : List (String × String)
topic_to_dlq =
    (agent_executions_topic, "agent.executions.dlq")
    ∷ (agent_steps_topic, "agent.steps.dlq")
    ∷ (system_metrics_topic, "system.metrics.dlq")
    ∷ (system_health_topic, "system.health.dlq")
    ∷ (model_inference_topic, "model.inference.dlq")
    ∷ (cost_events_topic, "cost.events.dlq")
    ∷ (anomaly_events_topic, "anomaly.events.dlq")
    ∷ (drift_events_topic, "drift.events.dlq")
    ∷ (alerts_events_topic, "alerts.events.dlq")
    ∷ (audit_events_topic, "audit.events.dlq")
    ∷ (registry_events_topic, "registry.events.dlq")
    ∷ []

unfoldable pub lookup_topic : String → List (String × String) → Option String
lookup_topic topic [] = none
lookup_topic topic ((t, d) ∷ rest) = if t == topic then some d else lookup_topic topic rest

-- `TOPIC_TO_DLQ[topic]`, with `none` for a `KeyError`
unfoldable pub dlq_of : String → Option String
unfolding lookup_topic
dlq_of topic = lookup_topic topic topic_to_dlq
