-- ===== src/Orchestration/Start/Consumed.antt =====
-- The two ways in which a started execution is run.
use fast_api_layers.Prelude.{
  String, ◌≡◌, refl, Option, none, List, [], ◌∷◌, ◌++◌, append_assoc, ◌+◌, if◌then◌else◌,
}
use fast_api_layers.Value.{text, datetime, dict, get, Fields}
use fast_api_layers.Effect.{Result, ok}
use fast_api_layers.Events.{EventEnvelope}
use fast_api_layers.Topics.{agent_executions_topic, audit_events_topic}
use fast_api_layers.Platform.{Host, World, uuid4, utc_now, event_envelope}
use fast_api_layers.Platform.Settled.{
  built, drawn, delivered, publish-ok, get_correlation_id-eq, get_trace_id-eq,
}
use fast_api_layers.Registry.Commands.{CommandAccepted, accepted}
use fast_api_layers.Registry.Commands.Outcome.{settled, audit_event, publish_audit_event-eq}
use fast_api_layers.Messaging.Publisher.{default_partition_key}
use fast_api_layers.Orchestration.Service.{Job, job_of}
use fast_api_layers.Orchestration.Start.{
  CreateExecutionRequest, DeploymentRow, target_of, job_for, started_payload, start_job,
  create_execution,
}

-- the reply with the jobs that are spawned, and the log
abbrev Outcome : Type 0
Outcome = Result (CommandAccepted × List Job) × List (String × EventEnvelope)

module _ ⦃h : Host⦄ where
  -- the event that starts a job at `w`
  abbrev started : CreateExecutionRequest → Job → World → EventEnvelope
  started p job w =
      built "execution.started" job.correlation_id job.trace_id "api.orchestration"
        job.execution_run_id (started_payload p job (datetime (h.now w.clock)))
        (dict (("aggregate", text "execution") ∷ [])) (record w { clock = w.clock + 1 })

  started-job_of :
      (p : CreateExecutionRequest) (job : Job) (w : World) → job_of (started p job w) ≡ ok job
  unfolding job_of started_payload get
  started-job_of p job w = refl

  started-key :
      (p : CreateExecutionRequest) (job : Job) (w : World)
      → default_partition_key (started p job w) ≡ job.execution_run_id
  unfolding default_partition_key started_payload get
  started-key p job w = refl

  start_job-eq :
      (p : CreateExecutionRequest) (job : Job) (w : World)
      → h.publish_error w.publish_calls ≡ none
      → h.publish_error (w.publish_calls + 1) ≡ none
      → (a : EventEnvelope) × (a.entity_id ≡ job.execution_run_id)
        × ◌≡◌ {A = Outcome}
            ((start_job p job w).0, (start_job p job w).1.published)
            (
              ok (
                accepted job.execution_run_id (started p job w),
                if h.in_memory then job ∷ [] else [],
              ),
              w.published
                  ++ (agent_executions_topic, started p job w) ∷ (audit_events_topic, a) ∷ [],
            )
  unfolding start_job utc_now event_envelope
  start_job-eq p job w e e' =
      let w1 = drawn (record w { clock = w.clock + 1 }) in
      let w2 = delivered agent_executions_topic (started p job w) w1 in
      (
        audit_event "execution.start" "execution_run" job.execution_run_id (started p job w).payload
            w2,
        refl,
        rw (publish-ok agent_executions_topic (started p job w) w1 e) (
            rw publish_audit_event-eq
              (rw (publish-ok _ _ (drawn (settled w2)) e') (rw append_assoc))),
      )

  -- A command whose target is found, while its two publications succeed, is accepted, and
  -- publishes `execution.started` and its audit event. That event is keyed by the execution, and
  -- the worker that consumes it runs the very job that an in-memory publisher makes the command
  -- spawn at once; another publisher makes it spawn none.
  pub create_execution-Consumed :
      (load : String → Option DeploymentRow) (p : CreateExecutionRequest)
      (target : Option String × Fields) (w : World)
      → target_of load p ≡ ok target
      → h.publish_error w.publish_calls ≡ none
      → h.publish_error (w.publish_calls + 1) ≡ none
      → (job : Job) × (e : EventEnvelope) × (a : EventEnvelope) × (job_of e ≡ ok job)
        × (default_partition_key e ≡ job.execution_run_id)
        × (a.entity_id ≡ job.execution_run_id)
        × ◌≡◌ {A = Outcome}
            ((create_execution load p w).0, (create_execution load p w).1.published)
            (
              ok (accepted job.execution_run_id e, if h.in_memory then job ∷ [] else []),
              w.published ++ (agent_executions_topic, e) ∷ (audit_events_topic, a) ∷ [],
            )
  unfolding create_execution uuid4
  create_execution-Consumed load p target w found e e' =
      let w1 = settled (record w { uuids = w.uuids + 1 }) in
      let job = job_for p target (h.uuid w.uuids) w1.correlation_id w1.trace_id in
      let (a, entity, run) = start_job-eq p job w1 e e' in
      (
        job,
        started p job w1,
        a,
        started-job_of p job w1,
        started-key p job w1,
        entity,
        rw found (rw get_correlation_id-eq (rw get_trace_id-eq run)),
      )
