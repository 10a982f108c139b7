-- ===== src/Registry/Requests.antt =====
-- app/modules/registry/schemas.py: the requests of the registry's commands, after validation.
use fast_api_layers.Prelude.{ℕ, String, Bool, Option, none, some}
use fast_api_layers.Value.{Value, int, text, obj, Fields, end, field}

pub record CreateAgentRequest : Type 0 where
  pub name : String
  pub description : Option String
  pub owner : Option String
  pub tags : Fields
  pub version : String
  pub graph_definition_id : Option String
  pub runtime_config : Fields

pub record CreateModelRequest : Type 0 where
  pub name : String
  pub provider : String
  pub base_url : String
  pub auth_type : String
  pub capabilities : Fields
  pub version : String
  pub model_name : String
  pub tokenizer_name : Option String
  pub context_window : Option ℕ
  pub pricing : Fields
  pub is_default : Bool

pub record CreateGraphRequest : Type 0 where
  pub name : String
  pub description : Option String
  pub version : String
  pub entrypoint : String
  pub definition : Fields

pub record CreateDeploymentRequest : Type 0 where
  pub agent_version_id : String
  pub model_version_id : Option String
  pub environment_id : Option String
  pub environment_name : String
  pub environment_description : Option String
  pub replica_count : ℕ
  pub configuration : Fields

pub record CreateToolRequest : Type 0 where
  pub name : String
  pub description : Option String
  pub schema_definition : Fields
  pub implementation_path : String

pub record CreateEnvironmentRequest : Type 0 where
  pub name : String
  pub description : Option String
  pub labels : Fields

-- One field of `model_dump(exclude_none=True)`: left out where it is `None`.
abbrev pub present : {A : Type 0} → String → (A → Value) → Option A → Fields → Fields
present k to_value none rest = rest
present k to_value (some a) rest = field k (to_value a) rest

pub record UpdateAgentRequest : Type 0 where
  pub description : Option String
  pub owner : Option String
  pub status : Option String
  pub tags : Option Fields

-- `model_dump(exclude_none=True)`
unfoldable pub dump_update_agent : UpdateAgentRequest → Fields
dump_update_agent p =
    present "description" text p.description (
      present "owner" text p.owner (present "status" text p.status (present "tags" obj p.tags end)))

pub record UpdateModelRequest : Type 0 where
  pub provider : Option String
  pub base_url : Option String
  pub auth_type : Option String
  pub status : Option String
  pub capabilities : Option Fields

-- `model_dump(exclude_none=True)`
unfoldable pub dump_update_model : UpdateModelRequest → Fields
dump_update_model p = present "provider" text p.provider (
    present "base_url" text p.base_url (
      present "auth_type" text p.auth_type
        (present "status" text p.status (present "capabilities" obj p.capabilities end))))

pub record UpdateGraphRequest : Type 0 where
  pub description : Option String
  pub version : Option String
  pub entrypoint : Option String
  pub definition : Option Fields

-- `model_dump(exclude_none=True)`
unfoldable pub dump_update_graph : UpdateGraphRequest → Fields
dump_update_graph p = present "description" text p.description (
    present "version" text p.version
      (present "entrypoint" text p.entrypoint (present "definition" obj p.definition end)))

pub record UpdateDeploymentRequest : Type 0 where
  pub status : Option String
  pub replica_count : Option ℕ
  pub configuration : Option Fields

-- `model_dump(exclude_none=True)`
unfoldable pub dump_update_deployment : UpdateDeploymentRequest → Fields
dump_update_deployment p =
    present "status" text p.status (
      present "replica_count" int p.replica_count (present "configuration" obj p.configuration end))

pub record UpdateToolRequest : Type 0 where
  pub description : Option String
  pub schema_definition : Option Fields
  pub implementation_path : Option String

-- `model_dump(exclude_none=True, by_alias=True)`
unfoldable pub dump_update_tool : UpdateToolRequest → Fields
dump_update_tool p = present "description" text p.description (
    present "schema_json" obj p.schema_definition
      (present "implementation_path" text p.implementation_path end))

pub record UpdateEnvironmentRequest : Type 0 where
  pub description : Option String
  pub labels : Option Fields

-- `model_dump(exclude_none=True)`
unfoldable pub dump_update_environment : UpdateEnvironmentRequest → Fields
dump_update_environment p =
    present "description" text p.description (present "labels" obj p.labels end)
