-- ===== src/Registry/Models.antt =====
-- app/modules/registry/commands.py: the commands on models.
use fast_api_layers.Prelude.{String, none, some, [], ◌∷◌}
use fast_api_layers.Value.{null, bool, int, text, obj, dict, optional}
use fast_api_layers.Effect.{Action, ◌>>=◌}
use fast_api_layers.Platform.{Host, World, uuid4}
use fast_api_layers.Registry.Requests.{CreateModelRequest, UpdateModelRequest, dump_update_model}
use fast_api_layers.Registry.Commands.{CommandAccepted, registry_event, announce}

module _ ⦃h : Host⦄ where
  unfoldable pub create_model : CreateModelRequest → Action World CommandAccepted
  create_model p = do
    endpoint_id ← uuid4
    version_id ← uuid4
    event ←
        registry_event "model.registered" endpoint_id
          (dict (
            (
              "model_endpoint",
              obj (
                  dict (
                    ("id", text endpoint_id)
                    ∷ ("name", text p.name)
                    ∷ ("provider", text p.provider)
                    ∷ ("base_url", text p.base_url)
                    ∷ ("auth_type", text p.auth_type)
                    ∷ ("status", text "active")
                    ∷ ("capabilities", obj p.capabilities)
                    ∷ [])),
            )
            ∷ (
              "model_version",
              obj (
                  dict (
                    ("id", text version_id)
                    ∷ ("model_endpoint_id", text endpoint_id)
                    ∷ ("version", text p.version)
                    ∷ ("model_name", text p.model_name)
                    ∷ ("tokenizer_name", optional p.tokenizer_name)
                    ∷ ("context_window", elim p.context_window [ none ↦ null | some n ↦ int n ])
                    ∷ ("pricing", obj p.pricing)
                    ∷ ("is_default", bool p.is_default)
                    ∷ [])),
            )
            ∷ []))
          "model"
    announce event "model.register" "model_endpoint" endpoint_id

  unfoldable pub update_model : String → UpdateModelRequest → Action World CommandAccepted
  unfolding dump_update_model
  update_model model_id p = do
    event ←
        registry_event "model.updated" model_id
          (dict
            (("model_endpoint_id", text model_id) ∷ ("changes", obj (dump_update_model p)) ∷ []))
          "model"
    announce event "model.update" "model_endpoint" model_id

  unfoldable pub delete_model : String → Action World CommandAccepted
  delete_model model_id = do
    event ←
        registry_event "model.deleted" model_id (dict (("model_endpoint_id", text model_id) ∷ []))
          "model"
    announce event "model.delete" "model_endpoint" model_id
