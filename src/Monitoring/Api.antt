-- ===== src/Monitoring/Api.antt =====
-- app/modules/monitoring/api.py: the listings and the summary of performance.
use fast_api_layers.Prelude.{ℕ, String, Option, ◌&&◌, if◌then◌else◌, leb}
use fast_api_layers.Effect.{Action, raise, request_validation_error, ◌>>◌}
use fast_api_layers.Platform.{Host, World}
use fast_api_layers.Http.{Web, HttpRequest, viewer, require_role}
use fast_api_layers.Http.Paging.{listing, or_default}
use fast_api_layers.ReadSide.{Database, Page}
use fast_api_layers.Monitoring.Queries.{list_metrics, list_costs, list_anomalies, list_drift}
use fast_api_layers.Monitoring.Floats.{Floats}
use fast_api_layers.Monitoring.Summary.{Samples, PerformanceSummary, performance_summary}

module _ ⦃h : Host⦄ ⦃web : Web⦄ ⦃db : Database⦄ where
  unfoldable pub read_metrics :
      HttpRequest
      → Option ℕ
      → Option ℕ
      → Option String
      → Option String
      → Option String
      → Action World Page
  read_metrics request page page_size metric_name entity_type entity_id =
      listing request page page_size
        (λ page page_size. list_metrics page page_size metric_name entity_type entity_id)

  unfoldable pub read_costs : HttpRequest → Option ℕ → Option ℕ → Option String → Action World Page
  read_costs request page page_size environment_id =
      listing request page page_size (λ page page_size. list_costs page page_size environment_id)

  unfoldable pub read_anomalies :
      HttpRequest → Option ℕ → Option ℕ → Option String → Action World Page
  read_anomalies request page page_size severity =
      listing request page page_size (λ page page_size. list_anomalies page page_size severity)

  unfoldable pub read_drift : HttpRequest → Option ℕ → Option ℕ → Option String → Action World Page
  read_drift request page page_size severity =
      listing request page page_size (λ page page_size. list_drift page page_size severity)

module _ ⦃h : Host⦄ ⦃web : Web⦄ ⦃f : Floats⦄ (samples : Samples) where
  unfoldable pub get_metrics_summary : HttpRequest → Option ℕ → Action World PerformanceSummary
  get_metrics_summary request window_minutes =
      let window = or_default 60 window_minutes in
      require_role viewer request
      >> (if leb 5 window && leb window 1440
          then performance_summary samples window
          else raise request_validation_error)
