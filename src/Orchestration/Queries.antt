-- ===== src/Orchestration/Queries.antt =====
-- app/modules/orchestration/queries.py. The runs come with their steps; what `_to_dto` makes of an
-- entity and its sorted steps is the database's `model_validate` here.
use fast_api_layers.Prelude.{ℕ, String, Option}
use fast_api_layers.Value.{Value}
use fast_api_layers.Effect.{Result}
use fast_api_layers.Projection.Session.{execution_runs}
use fast_api_layers.ReadSide.{Database, Page, select, where_given, is, page_of, get_or_not_found}

module _ ⦃db : Database⦄ where
  unfoldable pub list_executions : ℕ → ℕ → Option String → Option String → Page
  list_executions page page_size deployment_id status =
      page_of
        (where_given status (is "status")
          (where_given deployment_id (is "deployment_id") (select execution_runs "started_at")))
        page page_size

  unfoldable pub get_execution : String → Result Value
  get_execution execution_id =
      get_or_not_found execution_runs execution_id "Execution run not found" "execution_id"
