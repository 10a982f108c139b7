-- ===== src/Registry/Environments.antt =====
-- app/modules/registry/commands.py: the commands on environments.
use fast_api_layers.Prelude.{String, [], ◌∷◌}
use fast_api_layers.Value.{text, obj, dict, optional}
use fast_api_layers.Effect.{Action, ◌>>=◌}
use fast_api_layers.Platform.{Host, World, uuid4}
use fast_api_layers.Registry.Requests.{
  CreateEnvironmentRequest, UpdateEnvironmentRequest, dump_update_environment,
}
use fast_api_layers.Registry.Commands.{CommandAccepted, registry_event, announce}

module _ ⦃h : Host⦄ where
  unfoldable pub create_environment : CreateEnvironmentRequest → Action World CommandAccepted
  create_environment p = do
    environment_id ← uuid4
    event ←
        registry_event "environment.created" environment_id
          (dict (
            (
              "environment",
              obj (
                  dict (
                    ("id", text environment_id)
                    ∷ ("name", text p.name)
                    ∷ ("description", optional p.description)
                    ∷ ("labels", obj p.labels)
                    ∷ [])),
            )
            ∷ []))
          "environment"
    announce event "environment.create" "environment" environment_id

  unfoldable pub update_environment :
      String → UpdateEnvironmentRequest → Action World CommandAccepted
  unfolding dump_update_environment
  update_environment environment_id p = do
    event ←
        registry_event "environment.updated" environment_id
          (dict (
            ("environment_id", text environment_id)
            ∷ ("changes", obj (dump_update_environment p))
            ∷ []))
          "environment"
    announce event "environment.update" "environment" environment_id

  unfoldable pub delete_environment : String → Action World CommandAccepted
  delete_environment environment_id = do
    event ←
        registry_event "environment.deleted" environment_id
          (dict (("environment_id", text environment_id) ∷ [])) "environment"
    announce event "environment.delete" "environment" environment_id
