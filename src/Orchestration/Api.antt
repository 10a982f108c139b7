-- ===== src/Orchestration/Api.antt =====
-- app/modules/orchestration/api.py
use fast_api_layers.Prelude.{ℕ, String, Option, List}
use fast_api_layers.Value.{Value}
use fast_api_layers.Effect.{Action, lift, ◌>>◌}
use fast_api_layers.Platform.{Host, World}
use fast_api_layers.Http.{Web, HttpRequest, operator, viewer, require_role}
use fast_api_layers.Http.Paging.{listing}
use fast_api_layers.ReadSide.{Database, Page}
use fast_api_layers.Registry.Commands.{CommandAccepted}
use fast_api_layers.Orchestration.Service.{Job}
use fast_api_layers.Orchestration.Start.{CreateExecutionRequest, DeploymentRow, create_execution}
use fast_api_layers.Orchestration.Queries.{list_executions, get_execution}

module _ ⦃h : Host⦄ ⦃web : Web⦄ where
  unfoldable pub post_execution :
      HttpRequest
      → (String → Option DeploymentRow)
      → CreateExecutionRequest
      → Action World (CommandAccepted × List Job)
  post_execution request load payload =
      require_role operator request >> create_execution load payload

module _ ⦃h : Host⦄ ⦃web : Web⦄ ⦃db : Database⦄ where
  unfoldable pub read_executions :
      HttpRequest → Option ℕ → Option ℕ → Option String → Option String → Action World Page
  read_executions request page page_size deployment_id status =
      listing request page page_size
        (λ page page_size. list_executions page page_size deployment_id status)

  unfoldable pub read_execution : HttpRequest → String → Action World Value
  read_execution request execution_id =
      require_role viewer request >> lift (get_execution execution_id)
