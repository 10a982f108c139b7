-- ===== src/Audit/Api.antt =====
-- app/modules/audit/api.py
use fast_api_layers.Prelude.{ℕ, String, Option}
use fast_api_layers.Effect.{Action}
use fast_api_layers.Platform.{Host, World}
use fast_api_layers.Http.{Web, HttpRequest}
use fast_api_layers.Http.Paging.{listing}
use fast_api_layers.ReadSide.{Database, Page}
use fast_api_layers.Audit.Queries.{list_audit_events}

module _ ⦃h : Host⦄ ⦃web : Web⦄ ⦃db : Database⦄ where
  unfoldable pub read_audit_events :
      HttpRequest → Option ℕ → Option ℕ → Option String → Action World Page
  read_audit_events request page page_size entity_type =
      listing request page page_size
        (λ page page_size. list_audit_events page page_size entity_type)
