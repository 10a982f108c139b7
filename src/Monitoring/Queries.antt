-- ===== src/Monitoring/Queries.antt =====
-- app/modules/monitoring/queries.py: the lists.
use fast_api_layers.Prelude.{ℕ, String, Option}
use fast_api_layers.Projection.Session.{
  metric_samples, cost_records, anomaly_reports, drift_reports,
}
use fast_api_layers.ReadSide.{Database, Page, select, where_given, is, page_of}

module _ ⦃db : Database⦄ where
  unfoldable pub list_metrics : ℕ → ℕ → Option String → Option String → Option String → Page
  list_metrics page page_size metric_name entity_type entity_id =
      page_of
        (where_given entity_id (is "entity_id") (
          where_given entity_type (is "entity_type")
            (where_given metric_name (is "metric_name") (select metric_samples "sampled_at"))))
        page page_size

  unfoldable pub list_costs : ℕ → ℕ → Option String → Page
  list_costs page page_size environment_id =
      page_of (where_given environment_id (is "environment_id") (select cost_records "occurred_at"))
        page page_size

  unfoldable pub list_anomalies : ℕ → ℕ → Option String → Page
  list_anomalies page page_size severity =
      page_of (where_given severity (is "severity") (select anomaly_reports "detected_at")) page
        page_size

  unfoldable pub list_drift : ℕ → ℕ → Option String → Page
  list_drift page page_size severity =
      page_of (where_given severity (is "severity") (select drift_reports "detected_at")) page
        page_size
