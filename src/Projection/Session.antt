-- ===== src/Projection/Session.antt =====
-- The database session that the projection works in. A row is an ORM entity, its attributes by
-- name; the rows are kept under their table and primary key. Defaults
-- that the database adds, and what the deletion of a row changes in the rows that refer to it, are
-- not part of the session; the checks of the flush are, as `violation`.
use fast_api_layers.Prelude.{
  ℕ, String, Bool, ◌&&◌, Option, none, some, List, [], ◌∷◌, ◌==◌, if◌then◌else◌,
}
use fast_api_layers.Value.{Value, text, Fields, end, field}
use fast_api_layers.Effect.{PyError, Result, ok, err, external}

-- the models of app/db/models.py that the projection writes or reads
pub data Table : Type 0 where
  agents agent_versions alerts anomaly_reports audit_events cost_records deployments : Table
  drift_reports environments execution_runs execution_steps graph_definitions : Table
  health_check_results metric_samples model_endpoints model_versions tool_definitions : Table
  worker_heartbeats : Table

-- `__tablename__`
abbrev pub table_name : Table → String
table_name agents = "agents"
table_name agent_versions = "agent_versions"
table_name alerts = "alerts"
table_name anomaly_reports = "anomaly_reports"
table_name audit_events = "audit_events"
table_name cost_records = "cost_records"
table_name deployments = "deployments"
table_name drift_reports = "drift_reports"
table_name environments = "environments"
table_name execution_runs = "execution_runs"
table_name execution_steps = "execution_steps"
table_name graph_definitions = "graph_definitions"
table_name health_check_results = "health_check_results"
table_name metric_samples = "metric_samples"
table_name model_endpoints = "model_endpoints"
table_name model_versions = "model_versions"
table_name tool_definitions = "tool_definitions"
table_name worker_heartbeats = "worker_heartbeats"

abbrev pub Entity : Type 0
Entity = String → Option Value

pub record Row : Type 0 where
  pub table : Table
  pub id : String
  pub entity : Entity

pub record Session : Type 0 where
  pub rows : List Row
  -- how often the clock was read
  pub clock : ℕ

-- What SQLAlchemy and the database decide: does a model's constructor refuse a keyword; and what does
-- the flush of the session's rows raise, for the keys that are unique, the columns that may not be
-- null and the foreign keys of app/db/models.py.
pub record Orm : Type 0 where
  pub refuses : Table → String → Bool
  pub violation : List Row → Option PyError

-- Is the row of `table'` and `id'` the one of `table` and `id`?
unfoldable pub is_row : Table → String → Table → String → Bool
is_row table id table' id' = table_name table' == table_name table && id' == id

-- `session.get(model_cls, id)`
unfoldable pub find : Table → String → List Row → Option Entity
find table id [] = none
find table id (row ∷ rows) =
    if is_row table id row.table row.id then some row.entity else find table id rows

-- The changed attributes of the entity that `session.get` found.
unfoldable pub replace : Table → String → Entity → List Row → List Row
replace table id entity [] = []
replace table id entity (row ∷ rows) =
    if is_row table id row.table row.id
    then record row { entity = entity } ∷ rows
    else row ∷ replace table id entity rows

-- `session.delete(entity)`
unfoldable pub remove : Table → String → List Row → List Row
remove table id [] = []
remove table id (row ∷ rows) =
    if is_row table id row.table row.id then remove table id rows else row ∷ remove table id rows

-- `setattr(entity, name, value)`
abbrev pub set_attr : String → Value → Entity → Entity
set_attr name value entity j = if name == j then some value else entity j

-- `for field, value in payload.items(): setattr(entity, field, value)`
unfoldable pub set_attrs : Fields → Entity → Entity
set_attrs end entity = entity
set_attrs (field name value rest) entity = set_attrs rest (set_attr name value entity)

abbrev pub blank : Entity
blank j = none

-- Identifiers are texts; a primary key of another kind is refused by the database driver.
abbrev pub identity : Value → Result String
identity (text s) = ok s
identity _ = err (external "identity")
