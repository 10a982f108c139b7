-- ===== src/Alerting/Queries.antt =====
-- app/modules/alerting/queries.py
use fast_api_layers.Prelude.{ℕ, String, Option}
use fast_api_layers.Projection.Session.{alerts}
use fast_api_layers.ReadSide.{Database, Page, select, where_given, is, page_of}

module _ ⦃db : Database⦄ where
  unfoldable pub list_alerts : ℕ → ℕ → Option String → Option String → Page
  list_alerts page page_size severity status =
      page_of
        (where_given status (is "status")
          (where_given severity (is "severity") (select alerts "created_at")))
        page page_size
