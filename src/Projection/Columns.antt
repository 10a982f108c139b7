-- ===== src/Projection/Columns.antt =====
-- The columns of app/db/models.py, with those of the mixins of app/db/base.py, by the attribute that
-- an entity has for each.
use fast_api_layers.Prelude.{String, Bool, true, false, ◌&&◌, ◌||◌, List, [], ◌∷◌, ◌==◌}
use fast_api_layers.Value.{Fields, end, field}
use fast_api_layers.Projection.Session.{Table}

unfoldable pub columns : Table → List String
columns Table.agents =
    "id" ∷ "name" ∷ "description" ∷ "owner" ∷ "status" ∷ "tags" ∷ "created_at" ∷ "updated_at" ∷ []
columns Table.agent_versions =
    "id" ∷ "agent_id" ∷ "graph_definition_id" ∷ "version" ∷ "runtime_config" ∷ "is_active"
    ∷ "created_at" ∷ "updated_at" ∷ []
columns Table.alerts =
    "id" ∷ "severity" ∷ "dedupe_key" ∷ "source_event_id" ∷ "title" ∷ "description" ∷ "status"
    ∷ "last_sent_at" ∷ "created_at" ∷ "updated_at" ∷ []
columns Table.anomaly_reports =
    "id" ∷ "anomaly_type" ∷ "severity" ∷ "entity_type" ∷ "entity_id" ∷ "score" ∷ "baseline_value"
    ∷ "observed_value" ∷ "metadata_json" ∷ "detected_at" ∷ "status" ∷ []
columns Table.audit_events =
    "id" ∷ "actor" ∷ "action" ∷ "entity_type" ∷ "entity_id" ∷ "correlation_id" ∷ "trace_id"
    ∷ "payload" ∷ "created_at" ∷ []
columns Table.cost_records =
    "id" ∷ "execution_run_id" ∷ "agent_id" ∷ "workflow_id" ∷ "environment_id" ∷ "usd_cost"
    ∷ "token_input" ∷ "token_output" ∷ "provider" ∷ "model_name" ∷ "occurred_at" ∷ []
columns Table.deployments =
    "id" ∷ "agent_version_id" ∷ "environment_id" ∷ "model_version_id" ∷ "status" ∷ "replica_count"
    ∷ "configuration" ∷ "created_at" ∷ "updated_at" ∷ []
columns Table.drift_reports =
    "id" ∷ "drift_type" ∷ "severity" ∷ "entity_type" ∷ "entity_id" ∷ "metric_name" ∷ "score"
    ∷ "threshold" ∷ "metadata_json" ∷ "detected_at" ∷ "status" ∷ []
columns Table.environments =
    "id" ∷ "name" ∷ "description" ∷ "labels" ∷ "created_at" ∷ "updated_at" ∷ []
columns Table.execution_runs =
    "id" ∷ "deployment_id" ∷ "graph_definition_id" ∷ "status" ∷ "input_payload" ∷ "output_payload"
    ∷ "started_at" ∷ "finished_at" ∷ "correlation_id" ∷ "trace_id" ∷ "error_message" ∷ "created_at"
    ∷ "updated_at" ∷ []
columns Table.execution_steps =
    "id" ∷ "execution_run_id" ∷ "agent_name" ∷ "step_name" ∷ "status" ∷ "input_payload"
    ∷ "output_payload" ∷ "duration_ms" ∷ "token_usage_total" ∷ "started_at" ∷ "finished_at"
    ∷ "trace_id" ∷ "created_at" ∷ "updated_at" ∷ []
columns Table.graph_definitions =
    "id" ∷ "name" ∷ "description" ∷ "version" ∷ "entrypoint" ∷ "definition" ∷ "created_at"
    ∷ "updated_at" ∷ []
columns Table.health_check_results =
    "id" ∷ "component" ∷ "status" ∷ "details" ∷ "environment_id" ∷ "checked_at" ∷ []
columns Table.metric_samples =
    "id" ∷ "metric_name" ∷ "metric_type" ∷ "entity_type" ∷ "entity_id" ∷ "value" ∷ "tags"
    ∷ "sampled_at" ∷ []
columns Table.model_endpoints =
    "id" ∷ "name" ∷ "provider" ∷ "base_url" ∷ "auth_type" ∷ "status" ∷ "capabilities" ∷ "created_at"
    ∷ "updated_at" ∷ []
columns Table.model_versions =
    "id" ∷ "model_endpoint_id" ∷ "version" ∷ "model_name" ∷ "tokenizer_name" ∷ "context_window"
    ∷ "pricing" ∷ "is_default" ∷ "created_at" ∷ "updated_at" ∷ []
columns Table.tool_definitions =
    "id" ∷ "name" ∷ "description" ∷ "schema_json" ∷ "implementation_path" ∷ "created_at"
    ∷ "updated_at" ∷ []
columns Table.worker_heartbeats =
    "id" ∷ "worker_name" ∷ "role" ∷ "last_seen_at" ∷ "metadata_json" ∷ []

unfoldable pub is_among : String → List String → Bool
is_among name [] = false
is_among name (column ∷ rest) = column == name || is_among name rest

-- Has every field a column?
unfoldable pub are_columns : Table → Fields → Bool
unfolding columns is_among
are_columns table end = true
are_columns table (field name value rest) = is_among name (columns table) && are_columns table rest
