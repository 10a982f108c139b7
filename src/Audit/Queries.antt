-- ===== src/Audit/Queries.antt =====
-- app/modules/audit/queries.py
use fast_api_layers.Prelude.{ℕ, String, Option}
use fast_api_layers.Projection.Session.{audit_events}
use fast_api_layers.ReadSide.{Database, Page, select, where_given, is, page_of}

module _ ⦃db : Database⦄ where
  unfoldable pub list_audit_events : ℕ → ℕ → Option String → Page
  list_audit_events page page_size entity_type =
      page_of (where_given entity_type (is "entity_type") (select audit_events "created_at")) page
        page_size
