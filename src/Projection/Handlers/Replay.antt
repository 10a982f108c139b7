-- ===== src/Projection/Handlers/Replay.antt =====
-- The handlers on an event that is delivered again.
use fast_api_layers.Prelude.{String, ◌≡◌, refl, Option-cases, inl, inr, true, false, ◌==◌}
use fast_api_layers.Value.{end, null, text, get, get_or, set}
use fast_api_layers.Effect.{Action}
use fast_api_layers.Events.{EventEnvelope}
use fast_api_layers.Platform.{Host}
use fast_api_layers.Projection.Json.{parse_datetime}
use fast_api_layers.Projection.Session.{Table, Session, Orm, identity, alerts, table_name}
use fast_api_layers.Projection.Rows.{item, items_of, copy_of, upsert, upsert_alert}
use fast_api_layers.Projection.Rows.Replay.{
  Replayable, Keeps, Undisturbed, Undisturbed-lift, Replayable-lift, Keeps-lift, Replayable-then,
  upsert-Replayable, upsert-Keeps, upsert-Undisturbed, delete-Replayable, update-Replayable,
  store-Replayable,
}
use fast_api_layers.Projection.Rows.Reads.{
  Replayable-read, Keeps-read, reference, kept, known, resolve_fk_or_none-eq, is_run-eq,
  ensure-Replayable, ensure-Undisturbed,
}
use fast_api_layers.Projection.Handlers.{
  upsert_item, handle_agent_created, handle_model_registered, handle_deployment_created,
  handle_execution_started, handle_execution_finished, handle_step_completed, upsert_sample,
  handle_cost_recorded, upsert_report, handle_alert, handle_audit_recorded, handle_worker_heartbeat,
  update_item, delete_item,
}

module _ ⦃h : Host⦄ ⦃o : Orm⦄ (event : EventEnvelope) where
  pub upsert_item-Replayable : (t : Table) (k : String) → Replayable (upsert_item t k event)
  unfolding upsert_item
  upsert_item-Replayable t k =
      Replayable-lift (item k event.payload) _
        λ v. Replayable-lift (items_of v) _ λ p. upsert-Replayable t p

  upsert_item-Keeps :
      (t t' : Table) (k : String)
      → (table_name t == table_name t') ≡ false
      → Keeps t' (upsert_item t k event)
  unfolding upsert_item
  upsert_item-Keeps t t' k apart =
      Keeps-lift t' (item k event.payload) _
        λ v. Keeps-lift t' (items_of v) _ λ p. upsert-Keeps t p t' apart

  upsert_item-Undisturbed :
      (t : Table) (k : String) (m : Action Session (Unit {0}))
      → Keeps t m
      → Undisturbed (upsert_item t k event) m
  unfolding upsert_item
  upsert_item-Undisturbed t k m keeps =
      Undisturbed-lift (item k event.payload) _ m
        λ v. Undisturbed-lift (items_of v) _ m λ p. upsert-Undisturbed t p m keeps

  pub agent_created-Replayable : Replayable (handle_agent_created event)
  unfolding handle_agent_created
  agent_created-Replayable = Replayable-lift (item "agent" event.payload) _ λ a.
      Replayable-lift (item "agent_version" event.payload) _ λ v.
        Replayable-lift (items_of a) _ λ p.
          Replayable-then (upsert Table.agents p) _ (upsert-Replayable Table.agents p)
            (Replayable-lift (items_of v) _ λ q. upsert-Replayable Table.agent_versions q)
            (upsert-Undisturbed Table.agents p _ (
              Keeps-lift Table.agents (items_of v) _
                λ q. upsert-Keeps Table.agent_versions q Table.agents refl))

  pub model_registered-Replayable : Replayable (handle_model_registered event)
  unfolding handle_model_registered
  model_registered-Replayable =
      Replayable-then (upsert_item Table.model_endpoints "model_endpoint" event) _
        (upsert_item-Replayable Table.model_endpoints "model_endpoint")
        (upsert_item-Replayable Table.model_versions "model_version")
        (upsert_item-Undisturbed Table.model_endpoints "model_endpoint" _
          (upsert_item-Keeps Table.model_versions Table.model_endpoints "model_version" refl))

  pub deployment_created-Replayable : Replayable (handle_deployment_created event)
  unfolding handle_deployment_created
  deployment_created-Replayable = elim (Option-cases (get "environment" event.payload)) [
    | inl e ↦
        rw (e, handle_deployment_created) (upsert_item-Replayable Table.deployments "deployment")
    | inr (v, e) ↦
        rw (e, handle_deployment_created)
          (Replayable-lift (items_of v) _ λ p.
            Replayable-then (upsert Table.environments p) _ (upsert-Replayable Table.environments p)
              (upsert_item-Replayable Table.deployments "deployment")
              (upsert-Undisturbed Table.environments p _
                (upsert_item-Keeps Table.deployments Table.environments "deployment" refl)))
  ]

  pub execution_started-Replayable : Replayable (handle_execution_started event)
  unfolding handle_execution_started
  execution_started-Replayable = Replayable-lift (item "execution_run" event.payload) _ λ run.
      Replayable-lift (copy_of run) _ λ p.
        Replayable-lift (parse_datetime (get_or "started_at" null p)) _ λ started.
          Replayable-lift (parse_datetime (get_or "finished_at" null (set "started_at" started p)))
            _
            λ finished.
              Replayable-read Table.deployments _ (reference null kept _)
                (resolve_fk_or_none-eq Table.deployments _) _
                (λ d.
                  Replayable-read Table.graph_definitions _ (reference null kept _)
                    (resolve_fk_or_none-eq Table.graph_definitions _) _
                    (λ g. upsert-Replayable Table.execution_runs _)
                    (λ g. upsert-Keeps Table.execution_runs _ Table.graph_definitions refl))
                (λ d.
                  Keeps-read Table.graph_definitions _ (reference null kept _)
                    (resolve_fk_or_none-eq Table.graph_definitions _) _ Table.deployments
                    (λ g. upsert-Keeps Table.execution_runs _ Table.deployments refl))

  pub execution_finished-Replayable : Replayable (handle_execution_finished event)
  unfolding handle_execution_finished
  execution_finished-Replayable = Replayable-lift (item "execution_run_id" event.payload) _ λ i.
      Replayable-lift (item "status" event.payload) _ λ s.
        Replayable-lift (item "output_payload" event.payload) _ λ out.
          Replayable-lift (item "finished_at" event.payload) _ λ f.
            Replayable-lift (parse_datetime f) _ λ t. update-Replayable Table.execution_runs i _

  pub step_completed-Replayable : Replayable (handle_step_completed event)
  unfolding handle_step_completed
  step_completed-Replayable = Replayable-lift (item "execution_step" event.payload) _ λ step.
      Replayable-lift (copy_of step) _ λ p.
        Replayable-lift (parse_datetime (get_or "started_at" null p)) _ λ started.
          Replayable-lift (parse_datetime (get_or "finished_at" null (set "started_at" started p)))
            _
            λ finished.
              Replayable-lift
                (item "execution_run_id" (set "finished_at" finished (set "started_at" started p)))
                _
                λ i.
                  Replayable-then _ _ (ensure-Replayable _ _ _ end i)
                    (upsert-Replayable Table.execution_steps _)
                    (ensure-Undisturbed _ _ _ end i _
                      (upsert-Keeps Table.execution_steps _ Table.execution_runs refl))

  pub upsert_sample-Replayable : (t : Table) (k : String) → Replayable (upsert_sample t k event)
  unfolding upsert_sample
  upsert_sample-Replayable t k =
      Replayable-lift (item k (set "id" (text event.event_id) event.payload)) _
        λ date. Replayable-lift (parse_datetime date) _ λ parsed. upsert-Replayable t _

  pub cost_recorded-Replayable : Replayable (handle_cost_recorded event)
  unfolding handle_cost_recorded
  cost_recorded-Replayable =
      Replayable-lift (item "occurred_at" (set "id" (text event.event_id) event.payload)) _ λ date.
        Replayable-lift (parse_datetime date) _ λ at.
          Replayable-read Table.execution_runs _ (reference true known _) (is_run-eq _) _
            (λ b. upsert-Replayable Table.cost_records _)
            (λ b. upsert-Keeps Table.cost_records _ Table.execution_runs refl)

  pub upsert_report-Replayable : (t : Table) (k : String) → Replayable (upsert_report t k event)
  unfolding upsert_report
  upsert_report-Replayable t k = Replayable-lift (item k event.payload) _ λ report.
      Replayable-lift (copy_of report) _ λ p.
        Replayable-lift (item "detected_at" _) _
          λ date. Replayable-lift (parse_datetime date) _ λ at. upsert-Replayable t _

  pub alert-Replayable : Replayable (handle_alert event)
  unfolding handle_alert upsert_alert
  alert-Replayable = Replayable-lift (item "alert" event.payload) _ λ alert.
      Replayable-lift (copy_of alert) _ λ p.
        Replayable-lift (parse_datetime (get_or "last_sent_at" null p)) _ λ sent.
          Replayable-lift (item "id" (set "last_sent_at" sent p)) _
            λ key. Replayable-lift (identity key) _ λ i. store-Replayable alerts i _

  pub audit_recorded-Replayable : Replayable (handle_audit_recorded event)
  unfolding handle_audit_recorded
  audit_recorded-Replayable = Replayable-lift (item "actor" event.payload) _ λ actor.
      Replayable-lift (item "action" event.payload) _ λ action.
        Replayable-lift (item "entity_type" event.payload) _ λ entity_type.
          Replayable-lift (item "entity_id" event.payload) _ λ entity_id.
            Replayable-lift (item "payload" event.payload) _
              λ payload. upsert-Replayable Table.audit_events _

  pub worker_heartbeat-Replayable : Replayable (handle_worker_heartbeat event)
  unfolding handle_worker_heartbeat
  worker_heartbeat-Replayable = Replayable-lift (item "last_seen_at" _) _ λ date.
      Replayable-lift (parse_datetime date) _ λ seen. upsert-Replayable Table.worker_heartbeats _

  pub update_item-Replayable : (t : Table) (k : String) → Replayable (update_item t k event)
  unfolding update_item
  update_item-Replayable t k =
      Replayable-lift (item k event.payload) _ λ i.
        Replayable-lift (item "changes" event.payload) _ λ changes. update-Replayable t i changes

  pub delete_item-Replayable : (t : Table) (k : String) → Replayable (delete_item t k event)
  unfolding delete_item
  delete_item-Replayable t k = Replayable-lift (item k event.payload) _ λ i. delete-Replayable t i
