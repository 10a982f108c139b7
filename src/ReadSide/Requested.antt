-- ===== src/ReadSide/Requested.antt =====
-- The query of each listing, said as a table, its conditions and its order.
use Prim.Native.String.{◌++◌ as append}
use fast_api_layers.Prelude.{
  ℕ, String, ◌≡◌, refl, sym, ap, ◌∙◌, Option, none, some, Bool-cases, inl, inr, List, [], ◌∷◌, ◌++◌,
  ◌==◌, if◌then◌else◌, append-nil,
}
use fast_api_layers.Value.{text, truthy}
use fast_api_layers.Projection.Session.{Table}
use fast_api_layers.ReadSide.{
  Filter, equals, ilike, any_of, in_ids, Select, where_given, Database, page_of,
}
use fast_api_layers.ReadSide.Listings.{
  Listing, of_agents, of_models, of_graphs, of_deployments, of_tools, of_environments,
  of_executions, of_metrics, of_costs, of_anomalies, of_drift, of_audit_events, of_alerts, listed,
}
use fast_api_layers.Registry.Queries.{
  list_agents, list_models, list_graphs, list_deployments, list_tools, list_environments,
}
use fast_api_layers.Orchestration.Queries.{list_executions}
use fast_api_layers.Monitoring.Queries.{list_metrics, list_costs, list_anomalies, list_drift}
use fast_api_layers.Alerting.Queries.{list_alerts}
use fast_api_layers.Audit.Queries.{list_audit_events}

-- a condition that stands only where a text that is not empty is given for it
abbrev pub when_given : Option String → (String → Filter) → List Filter
when_given none condition = []
when_given (some q) condition = if q == "" then [] else condition q ∷ []

-- the text occurs in the column, in any case of its letters
abbrev pub occurs : String → String → Filter
occurs column q = ilike column (append "%" (append q "%"))

abbrev pub equal : String → Option String → List Filter
equal column q = when_given q (λ q. equals column (text q))

abbrev rows_of : Table → String → List Filter → Select
rows_of table order_by filters = record { table = table; filters = filters; order_by = order_by }

abbrev pub requested : Listing → Select
requested (of_agents q) =
    rows_of Table.agents "created_at"
      (when_given q (λ q. any_of (occurs "name" q) (occurs "owner" q)))
requested (of_models q) =
    rows_of Table.model_endpoints "created_at"
      (when_given q (λ q. any_of (occurs "name" q) (occurs "provider" q)))
requested (of_graphs q) =
    rows_of Table.graph_definitions "created_at" (when_given q (occurs "name"))
requested (of_deployments q) = rows_of Table.deployments "created_at" (
    when_given q (λ q.
      any_of (occurs "status" q) (in_ids "environment_id" Table.environments (occurs "name" q))))
requested (of_tools q) = rows_of Table.tool_definitions "created_at" (when_given q (occurs "name"))
requested (of_environments q) =
    rows_of Table.environments "created_at" (when_given q (occurs "name"))
requested (of_executions deployment_id status) =
    rows_of Table.execution_runs "started_at"
      (equal "deployment_id" deployment_id ++ equal "status" status)
requested (of_metrics metric_name entity_type entity_id) =
    rows_of Table.metric_samples "sampled_at" (
      (equal "metric_name" metric_name ++ equal "entity_type" entity_type)
      ++ equal "entity_id" entity_id)
requested (of_costs environment_id) =
    rows_of Table.cost_records "occurred_at" (equal "environment_id" environment_id)
requested (of_anomalies severity) =
    rows_of Table.anomaly_reports "detected_at" (equal "severity" severity)
requested (of_drift severity) =
    rows_of Table.drift_reports "detected_at" (equal "severity" severity)
requested (of_audit_events entity_type) =
    rows_of Table.audit_events "created_at" (equal "entity_type" entity_type)
requested (of_alerts severity status) =
    rows_of Table.alerts "created_at" (equal "severity" severity ++ equal "status" status)

-- the query with more conditions
abbrev and_also : List Filter → Select → Select
and_also filters query = record query { filters = query.filters ++ filters }

pub where_given-when_given :
    (q : Option String) (condition : String → Filter) (query : Select)
    → where_given q condition query ≡ and_also (when_given q condition) query
unfolding where_given truthy
where_given-when_given none condition query =
    ap (λ l. record query { filters = l }) (sym (append-nil query.filters))
where_given-when_given (some q) condition query = elim (Bool-cases (q == "")) [
  | inl e ↦ rw e (ap (λ l. record query { filters = l }) (sym (append-nil query.filters)))
  | inr e ↦ rw e refl
]

pub where_given-twice :
    (q q' : Option String) (condition condition' : String → Filter) (query : Select)
    → where_given q' condition' (where_given q condition query)
      ≡ and_also (when_given q' condition') (and_also (when_given q condition) query)
where_given-twice q q' condition condition' query =
    where_given-when_given q' condition' (where_given q condition query)
    ∙ ap (and_also (when_given q' condition')) (where_given-when_given q condition query)

module _ ⦃db : Database⦄ where
  pub listed-requested :
      (l : Listing) (page page_size : ℕ)
      → listed l page page_size ≡ page_of (requested l) page page_size
  unfolding listed list_agents list_models list_graphs list_deployments list_tools list_environments
      list_executions list_metrics list_costs list_anomalies list_drift list_audit_events
      list_alerts
  listed-requested (of_agents q) page page_size =
      ap (λ query. page_of query page page_size) (where_given-when_given q _ _)
  listed-requested (of_models q) page page_size =
      ap (λ query. page_of query page page_size) (where_given-when_given q _ _)
  listed-requested (of_graphs q) page page_size =
      ap (λ query. page_of query page page_size) (where_given-when_given q _ _)
  listed-requested (of_deployments q) page page_size =
      ap (λ query. page_of query page page_size) (where_given-when_given q _ _)
  listed-requested (of_tools q) page page_size =
      ap (λ query. page_of query page page_size) (where_given-when_given q _ _)
  listed-requested (of_environments q) page page_size =
      ap (λ query. page_of query page page_size) (where_given-when_given q _ _)
  listed-requested (of_costs q) page page_size =
      ap (λ query. page_of query page page_size) (where_given-when_given q _ _)
  listed-requested (of_anomalies q) page page_size =
      ap (λ query. page_of query page page_size) (where_given-when_given q _ _)
  listed-requested (of_drift q) page page_size =
      ap (λ query. page_of query page page_size) (where_given-when_given q _ _)
  listed-requested (of_audit_events q) page page_size =
      ap (λ query. page_of query page page_size) (where_given-when_given q _ _)
  listed-requested (of_executions deployment_id status) page page_size =
      ap (λ query. page_of query page page_size) (where_given-twice deployment_id status _ _ _)
  listed-requested (of_alerts severity status) page page_size =
      ap (λ query. page_of query page page_size) (where_given-twice severity status _ _ _)
  listed-requested (of_metrics metric_name entity_type entity_id) page page_size =
      ap (λ query. page_of query page page_size)
        (where_given-when_given entity_id _ _
          ∙ ap (and_also (equal "entity_id" entity_id))
              (where_given-twice metric_name entity_type _ _ _))
