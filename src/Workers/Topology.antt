-- ===== src/Workers/Topology.antt =====
-- `build_workers` of app/workers.py, and the choice of the workers in app/worker.py.
pub mod Covered
use fast_api_layers.Prelude.{String, List, [], ◌∷◌, ◌++◌, ◌==◌, map, if◌then◌else◌}
use fast_api_layers.Topics.{
  agent_executions_topic, agent_steps_topic, system_metrics_topic, system_health_topic,
  model_inference_topic, cost_events_topic, anomaly_events_topic, drift_events_topic,
  alerts_events_topic, audit_events_topic, registry_events_topic,
}

pub data Handler : Type 0 where
  to_projection to_metrics to_anomalies to_drifts to_alerts to_executions : Handler

pub record Consumer : Type 0 where
  pub name : String
  pub group_id : String
  pub topics : List String
  pub handler : Handler

-- the workers of each role
abbrev pub build_workers : List (String × List Consumer)
build_workers =
    (
      "projection",
      record {
        name = "projection-worker";
        group_id = "projection-consumers";
        topics =
            registry_events_topic ∷ agent_executions_topic ∷ agent_steps_topic
            ∷ system_metrics_topic ∷ system_health_topic ∷ cost_events_topic ∷ anomaly_events_topic
            ∷ drift_events_topic ∷ alerts_events_topic ∷ audit_events_topic ∷ [];
        handler = to_projection;
      }
          ∷ [],
    )
    ∷ (
      "analytics",
      record {
        name = "metrics-aggregation-worker";
        group_id = "metrics-aggregation-consumers";
        topics = agent_executions_topic ∷ agent_steps_topic ∷ [];
        handler = to_metrics;
      }
          ∷ record {
            name = "anomaly-worker";
            group_id = "anomaly-consumers";
            topics = system_metrics_topic ∷ cost_events_topic ∷ [];
            handler = to_anomalies;
          }
          ∷ record {
            name = "drift-worker";
            group_id = "drift-consumers";
            topics = model_inference_topic ∷ [];
            handler = to_drifts;
          }
          ∷ [],
    )
    ∷ (
      "alerts",
      record {
        name = "alert-worker";
        group_id = "alert-consumers";
        topics = anomaly_events_topic ∷ drift_events_topic ∷ [];
        handler = to_alerts;
      }
          ∷ [],
    )
    ∷ (
      "execution",
      record {
        name = "execution-worker";
        group_id = "execution-consumers";
        topics = agent_executions_topic ∷ [];
        handler = to_executions;
      }
          ∷ [],
    )
    ∷ []

-- `workers_by_role.get(role, [])`
unfoldable pub workers_of : String → List (String × List Consumer) → List Consumer
workers_of role [] = []
workers_of role ((r, workers) ∷ rest) = if r == role then workers else workers_of role rest

abbrev pub selected_roles : String → List String
selected_roles worker_role =
    if worker_role == "all" then map (λ r. r.0) build_workers else worker_role ∷ []

unfoldable pub workers_for : List String → List Consumer
unfolding workers_of
workers_for [] = []
workers_for (role ∷ roles) = workers_of role build_workers ++ workers_for roles

-- the workers that a process of a role starts
abbrev pub started_workers : String → List Consumer
started_workers worker_role = workers_for (selected_roles worker_role)
