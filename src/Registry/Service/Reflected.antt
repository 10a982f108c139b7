-- ===== src/Registry/Service/Reflected.antt =====
-- What a command is to do to the row of its entity.
use fast_api_layers.Prelude.{String, ◌≡◌, refl, Option, none, some, true}
use fast_api_layers.Value.{end, Value, int, obj, text, Fields}
use fast_api_layers.Platform.{Host}
use fast_api_layers.Projection.Session.{Table, Entity}
use fast_api_layers.Projection.Columns.{columns, is_among, are_columns}
use fast_api_layers.Projection.Rows.{normalise_fields}
use fast_api_layers.Projection.Rows.Written.{changed}
use fast_api_layers.Registry.Requests.{
  present, UpdateAgentRequest, UpdateModelRequest, UpdateGraphRequest, UpdateDeploymentRequest,
  UpdateToolRequest, UpdateEnvironmentRequest, dump_update_agent, dump_update_model,
  dump_update_graph, dump_update_deployment, dump_update_tool, dump_update_environment,
}
use fast_api_layers.Registry.Service.{
  Command, agent_create, agent_update, agent_delete, model_create, model_update, model_delete,
  graph_create, graph_update, graph_delete, deployment_create, deployment_update, deployment_delete,
  tool_create, tool_update, tool_delete, environment_create, environment_update, environment_delete,
}

-- the table of the entity that a command is about
abbrev pub table_of : Command → Table
table_of (agent_create _) = Table.agents
table_of (agent_update _ _) = Table.agents
table_of (agent_delete _) = Table.agents
table_of (model_create _) = Table.model_endpoints
table_of (model_update _ _) = Table.model_endpoints
table_of (model_delete _) = Table.model_endpoints
table_of (graph_create _) = Table.graph_definitions
table_of (graph_update _ _) = Table.graph_definitions
table_of (graph_delete _) = Table.graph_definitions
table_of (deployment_create _) = Table.deployments
table_of (deployment_update _ _) = Table.deployments
table_of (deployment_delete _) = Table.deployments
table_of (tool_create _) = Table.tool_definitions
table_of (tool_update _ _) = Table.tool_definitions
table_of (tool_delete _) = Table.tool_definitions
table_of (environment_create _) = Table.environments
table_of (environment_update _ _) = Table.environments
table_of (environment_delete _) = Table.environments

-- a row that has an attribute with a text
abbrev pub HasText : String → String → Option Entity → Type 0
HasText name s row = (e : Entity) × (row ≡ some e) × (e name ≡ some (text s))

-- The changes are of columns of the table, and the row has them, where there is a row.
abbrev Changed : ⦃h : Host⦄ → Table → Fields → Option Entity → Option Entity → Type 0
Changed t changes before after =
    (are_columns t (normalise_fields changes) ≡ true)
    × (after ≡ changed (normalise_fields changes) before)

-- What a command is to do to its entity's row: a creation leaves a row with the name that was asked
-- for, or for a deployment the agent version; an update sets the attributes that it gives, where
-- there is a row; a deletion leaves none.
abbrev pub Reflects : ⦃h : Host⦄ → Command → Option Entity → Option Entity → Type 0
Reflects (agent_create p) before after = HasText "name" p.name after
Reflects (agent_update _ p) before after = Changed Table.agents (dump_update_agent p) before after
Reflects (agent_delete _) before after = after ≡ none
Reflects (model_create p) before after = HasText "name" p.name after
Reflects (model_update _ p) before after =
    Changed Table.model_endpoints (dump_update_model p) before after
Reflects (model_delete _) before after = after ≡ none
Reflects (graph_create p) before after = HasText "name" p.name after
Reflects (graph_update _ p) before after =
    Changed Table.graph_definitions (dump_update_graph p) before after
Reflects (graph_delete _) before after = after ≡ none
Reflects (deployment_create p) before after = HasText "agent_version_id" p.agent_version_id after
Reflects (deployment_update _ p) before after =
    Changed Table.deployments (dump_update_deployment p) before after
Reflects (deployment_delete _) before after = after ≡ none
Reflects (tool_create p) before after = HasText "name" p.name after
Reflects (tool_update _ p) before after =
    Changed Table.tool_definitions (dump_update_tool p) before after
Reflects (tool_delete _) before after = after ≡ none
Reflects (environment_create p) before after = HasText "name" p.name after
Reflects (environment_update _ p) before after =
    Changed Table.environments (dump_update_environment p) before after
Reflects (environment_delete _) before after = after ≡ none

module _ ⦃h : Host⦄ where
  present-columns :
      {A : Type 0} (t : Table) (k : String) (to_value : A → Value) (o : Option A) (rest : Fields)
      → is_among k (columns t) ≡ true
      → are_columns t (normalise_fields rest) ≡ true
      → are_columns t (normalise_fields (present k to_value o rest)) ≡ true
  unfolding are_columns normalise_fields
  present-columns t k to_value none rest known e = e
  present-columns t k to_value (some a) rest known e = rw (known, e) refl

  pub agent_changes-columns :
      (p : UpdateAgentRequest)
      → are_columns Table.agents (normalise_fields (dump_update_agent p)) ≡ true
  unfolding dump_update_agent columns is_among are_columns normalise_fields
  agent_changes-columns p =
      let tags_on = (present "tags" (λ a. obj a) p.tags end) in
      let from_tags = present-columns Table.agents "tags" (λ a. obj a) p.tags end refl refl in
      let status_on = (present "status" (λ a. text a) p.status tags_on) in
      let from_status =
        present-columns Table.agents "status" (λ a. text a) p.status tags_on refl from_tags in
      let owner_on = (present "owner" (λ a. text a) p.owner status_on) in
      let from_owner =
        present-columns Table.agents "owner" (λ a. text a) p.owner status_on refl from_status in
      present-columns Table.agents "description" (λ a. text a) p.description owner_on refl
        from_owner

  pub model_changes-columns :
      (p : UpdateModelRequest)
      → are_columns Table.model_endpoints (normalise_fields (dump_update_model p)) ≡ true
  unfolding dump_update_model columns is_among are_columns normalise_fields
  model_changes-columns p =
      let capabilities_on = (present "capabilities" (λ a. obj a) p.capabilities end) in
      let from_capabilities =
        present-columns Table.model_endpoints "capabilities" (λ a. obj a) p.capabilities end refl
          refl in
      let status_on = (present "status" (λ a. text a) p.status capabilities_on) in
      let from_status =
        present-columns Table.model_endpoints "status" (λ a. text a) p.status capabilities_on refl
          from_capabilities in
      let auth_type_on = (present "auth_type" (λ a. text a) p.auth_type status_on) in
      let from_auth_type =
        present-columns Table.model_endpoints "auth_type" (λ a. text a) p.auth_type status_on refl
          from_status in
      let base_url_on = (present "base_url" (λ a. text a) p.base_url auth_type_on) in
      let from_base_url =
        present-columns Table.model_endpoints "base_url" (λ a. text a) p.base_url auth_type_on refl
          from_auth_type in
      present-columns Table.model_endpoints "provider" (λ a. text a) p.provider base_url_on refl
        from_base_url

  pub graph_changes-columns :
      (p : UpdateGraphRequest)
      → are_columns Table.graph_definitions (normalise_fields (dump_update_graph p)) ≡ true
  unfolding dump_update_graph columns is_among are_columns normalise_fields
  graph_changes-columns p =
      let definition_on = (present "definition" (λ a. obj a) p.definition end) in
      let from_definition =
        present-columns Table.graph_definitions "definition" (λ a. obj a) p.definition end refl
          refl in
      let entrypoint_on = (present "entrypoint" (λ a. text a) p.entrypoint definition_on) in
      let from_entrypoint =
        present-columns Table.graph_definitions "entrypoint" (λ a. text a) p.entrypoint
          definition_on refl from_definition in
      let version_on = (present "version" (λ a. text a) p.version entrypoint_on) in
      let from_version =
        present-columns Table.graph_definitions "version" (λ a. text a) p.version entrypoint_on refl
          from_entrypoint in
      present-columns Table.graph_definitions "description" (λ a. text a) p.description version_on
        refl from_version

  pub deployment_changes-columns :
      (p : UpdateDeploymentRequest)
      → are_columns Table.deployments (normalise_fields (dump_update_deployment p)) ≡ true
  unfolding dump_update_deployment columns is_among are_columns normalise_fields
  deployment_changes-columns p =
      let configuration_on = (present "configuration" (λ a. obj a) p.configuration end) in
      let from_configuration =
        present-columns Table.deployments "configuration" (λ a. obj a) p.configuration end refl
          refl in
      let replica_count_on =
        (present "replica_count" (λ a. int a) p.replica_count configuration_on) in
      let from_replica_count =
        present-columns Table.deployments "replica_count" (λ a. int a) p.replica_count
          configuration_on refl from_configuration in
      present-columns Table.deployments "status" (λ a. text a) p.status replica_count_on refl
        from_replica_count

  pub tool_changes-columns :
      (p : UpdateToolRequest)
      → are_columns Table.tool_definitions (normalise_fields (dump_update_tool p)) ≡ true
  unfolding dump_update_tool columns is_among are_columns normalise_fields
  tool_changes-columns p =
      let implementation_path_on =
        (present "implementation_path" (λ a. text a) p.implementation_path end) in
      let from_implementation_path =
        present-columns Table.tool_definitions "implementation_path" (λ a. text a)
          p.implementation_path end refl refl in
      let schema_json_on =
        (present "schema_json" (λ a. obj a) p.schema_definition implementation_path_on) in
      let from_schema_json =
        present-columns Table.tool_definitions "schema_json" (λ a. obj a) p.schema_definition
          implementation_path_on refl from_implementation_path in
      present-columns Table.tool_definitions "description" (λ a. text a) p.description
        schema_json_on refl from_schema_json

  pub environment_changes-columns :
      (p : UpdateEnvironmentRequest)
      → are_columns Table.environments (normalise_fields (dump_update_environment p)) ≡ true
  unfolding dump_update_environment columns is_among are_columns normalise_fields
  environment_changes-columns p =
      let labels_on = (present "labels" (λ a. obj a) p.labels end) in
      let from_labels =
        present-columns Table.environments "labels" (λ a. obj a) p.labels end refl refl in
      present-columns Table.environments "description" (λ a. text a) p.description labels_on refl
        from_labels
