-- ===== src/ReadSide/Listings.antt =====
-- Every listing that the routers offer.
use fast_api_layers.Prelude.{ℕ, String, ◌≡◌, refl, Option}
use fast_api_layers.Effect.{Action}
use fast_api_layers.Platform.{Host, World}
use fast_api_layers.ReadSide.{Database, Page}
use fast_api_layers.Http.{Web, HttpRequest}
use fast_api_layers.Http.Paging.{listing}
use fast_api_layers.Registry.Queries.{
  list_agents, list_models, list_graphs, list_deployments, list_tools, list_environments,
}
use fast_api_layers.Orchestration.Queries.{list_executions}
use fast_api_layers.Monitoring.Queries.{list_metrics, list_costs, list_anomalies, list_drift}
use fast_api_layers.Alerting.Queries.{list_alerts}
use fast_api_layers.Audit.Queries.{list_audit_events}
use fast_api_layers.Registry.Api.Reads.{
  read_agents, read_models, read_graphs, read_deployments, read_tools, read_environments,
}
use fast_api_layers.Orchestration.Api.{read_executions}
use fast_api_layers.Monitoring.Api.{read_metrics, read_costs, read_anomalies, read_drift}
use fast_api_layers.Alerting.Api.{read_alerts}
use fast_api_layers.Audit.Api.{read_audit_events}

-- a listing with its filters
pub data Listing : Type 0 where
  of_agents of_models of_graphs of_deployments of_tools of_environments : Option String → Listing
  of_executions : Option String → Option String → Listing
  of_metrics : Option String → Option String → Option String → Listing
  of_costs of_anomalies of_drift of_audit_events : Option String → Listing
  of_alerts : Option String → Option String → Listing

module _ ⦃db : Database⦄ where
  unfoldable pub listed : Listing → ℕ → ℕ → Page
  listed (of_agents q) page page_size = list_agents page page_size q
  listed (of_models q) page page_size = list_models page page_size q
  listed (of_graphs q) page page_size = list_graphs page page_size q
  listed (of_deployments q) page page_size = list_deployments page page_size q
  listed (of_tools q) page page_size = list_tools page page_size q
  listed (of_environments q) page page_size = list_environments page page_size q
  listed (of_executions deployment_id status) page page_size =
      list_executions page page_size deployment_id status
  listed (of_metrics metric_name entity_type entity_id) page page_size =
      list_metrics page page_size metric_name entity_type entity_id
  listed (of_costs environment_id) page page_size = list_costs page page_size environment_id
  listed (of_anomalies severity) page page_size = list_anomalies page page_size severity
  listed (of_drift severity) page page_size = list_drift page page_size severity
  listed (of_audit_events entity_type) page page_size = list_audit_events page page_size entity_type
  listed (of_alerts severity status) page page_size = list_alerts page page_size severity status

module _ ⦃h : Host⦄ ⦃web : Web⦄ ⦃db : Database⦄ where
  unfoldable pub read_listing : HttpRequest → Listing → Option ℕ → Option ℕ → Action World Page
  read_listing r (of_agents q) page page_size = read_agents r page page_size q
  read_listing r (of_models q) page page_size = read_models r page page_size q
  read_listing r (of_graphs q) page page_size = read_graphs r page page_size q
  read_listing r (of_deployments q) page page_size = read_deployments r page page_size q
  read_listing r (of_tools q) page page_size = read_tools r page page_size q
  read_listing r (of_environments q) page page_size = read_environments r page page_size q
  read_listing r (of_executions deployment_id status) page page_size =
      read_executions r page page_size deployment_id status
  read_listing r (of_metrics metric_name entity_type entity_id) page page_size =
      read_metrics r page page_size metric_name entity_type entity_id
  read_listing r (of_costs environment_id) page page_size =
      read_costs r page page_size environment_id
  read_listing r (of_anomalies severity) page page_size = read_anomalies r page page_size severity
  read_listing r (of_drift severity) page page_size = read_drift r page page_size severity
  read_listing r (of_audit_events entity_type) page page_size =
      read_audit_events r page page_size entity_type
  read_listing r (of_alerts severity status) page page_size =
      read_alerts r page page_size severity status

  pub read_listing-listing :
      (r : HttpRequest) (l : Listing) (page page_size : Option ℕ) (w : World)
      → read_listing r l page page_size w ≡ listing r page page_size (listed l) w
  unfolding read_listing listed read_agents read_models read_graphs read_deployments read_tools
      read_environments read_executions read_metrics read_costs read_anomalies read_drift
      read_audit_events read_alerts
  read_listing-listing r (of_agents q) page page_size w = refl
  read_listing-listing r (of_models q) page page_size w = refl
  read_listing-listing r (of_graphs q) page page_size w = refl
  read_listing-listing r (of_deployments q) page page_size w = refl
  read_listing-listing r (of_tools q) page page_size w = refl
  read_listing-listing r (of_environments q) page page_size w = refl
  read_listing-listing r (of_executions d s) page page_size w = refl
  read_listing-listing r (of_metrics m t i) page page_size w = refl
  read_listing-listing r (of_costs e) page page_size w = refl
  read_listing-listing r (of_anomalies s) page page_size w = refl
  read_listing-listing r (of_drift s) page page_size w = refl
  read_listing-listing r (of_audit_events t) page page_size w = refl
  read_listing-listing r (of_alerts s t) page page_size w = refl
