-- ===== src/Registry/Deployments.antt =====
-- app/modules/registry/commands.py: the commands on deployments.
use fast_api_layers.Prelude.{String, [], ◌∷◌}
use fast_api_layers.Value.{int, text, obj, dict, optional}
use fast_api_layers.Effect.{Action, ◌>>=◌}
use fast_api_layers.Platform.{Host, World, uuid4}
use fast_api_layers.Platform.Context.{or_uuid}
use fast_api_layers.Registry.Requests.{
  CreateDeploymentRequest, UpdateDeploymentRequest, dump_update_deployment,
}
use fast_api_layers.Registry.Commands.{CommandAccepted, registry_event, announce}

module _ ⦃h : Host⦄ where
  unfoldable pub create_deployment : CreateDeploymentRequest → Action World CommandAccepted
  create_deployment p = do
    deployment_id ← uuid4
    environment_id ← or_uuid p.environment_id
    event ←
        registry_event "deployment.created" deployment_id
          (dict (
            (
              "environment",
              obj (
                  dict (
                    ("id", text environment_id)
                    ∷ ("name", text p.environment_name)
                    ∷ ("description", optional p.environment_description)
                    ∷ ("labels", obj (dict (("managed_by", text "workflow-platform") ∷ [])))
                    ∷ [])),
            )
            ∷ (
              "deployment",
              obj (
                  dict (
                    ("id", text deployment_id)
                    ∷ ("agent_version_id", text p.agent_version_id)
                    ∷ ("environment_id", text environment_id)
                    ∷ ("model_version_id", optional p.model_version_id)
                    ∷ ("status", text "pending")
                    ∷ ("replica_count", int p.replica_count)
                    ∷ ("configuration", obj p.configuration)
                    ∷ [])),
            )
            ∷ []))
          "deployment"
    announce event "deployment.create" "deployment" deployment_id

  unfoldable pub update_deployment : String → UpdateDeploymentRequest → Action World CommandAccepted
  unfolding dump_update_deployment
  update_deployment deployment_id p = do
    event ←
        registry_event "deployment.updated" deployment_id
          (dict (
            ("deployment_id", text deployment_id)
            ∷ ("changes", obj (dump_update_deployment p))
            ∷ []))
          "deployment"
    announce event "deployment.update" "deployment" deployment_id

  unfoldable pub delete_deployment : String → Action World CommandAccepted
  delete_deployment deployment_id = do
    event ←
        registry_event "deployment.deleted" deployment_id
          (dict (("deployment_id", text deployment_id) ∷ [])) "deployment"
    announce event "deployment.delete" "deployment" deployment_id
