-- ===== src/Alerting/Api.antt =====
-- app/modules/alerting/api.py
use fast_api_layers.Prelude.{ℕ, String, Option}
use fast_api_layers.Effect.{Action}
use fast_api_layers.Platform.{Host, World}
use fast_api_layers.Http.{Web, HttpRequest}
use fast_api_layers.Http.Paging.{listing}
use fast_api_layers.ReadSide.{Database, Page}
use fast_api_layers.Alerting.Queries.{list_alerts}

module _ ⦃h : Host⦄ ⦃web : Web⦄ ⦃db : Database⦄ where
  unfoldable pub read_alerts :
      HttpRequest → Option ℕ → Option ℕ → Option String → Option String → Action World Page
  read_alerts request page page_size severity status =
      listing request page page_size (λ page page_size. list_alerts page page_size severity status)
