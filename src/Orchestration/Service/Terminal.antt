-- ===== src/Orchestration/Service/Terminal.antt =====
-- How the run of a workflow ends: its terminal event and the audit event of that.
pub mod Twice
pub mod Gauge
use fast_api_layers.Prelude.{
  Bool, true, false, if◌then◌else◌, inl, inr, List, some, none, ℕ, String, ◌≡◌, refl, ap, ◌∙◌, true,
  Option-cases, inl, inr, Option, List, [], ◌∷◌, ◌++◌, ◌+◌, append_assoc, All, none, some,
}
use fast_api_layers.Messaging.Publisher.{default_partition_key, first_key}
use fast_api_layers.Value.{get, truthy, Value, Fields, text, datetime, obj, dict, null, end, get_or}
use fast_api_layers.Effect.{PyError, Result, ok, err, Action, continue, handle}
use fast_api_layers.Events.{EventEnvelope}
use fast_api_layers.Topics.{agent_executions_topic, audit_events_topic}
use fast_api_layers.Platform.{str, Host, World, utc_now, publish, event_envelope}
use fast_api_layers.Platform.Settled.{built, drawn, delivered, publish-ok, publish-err}
use fast_api_layers.Audit.{publish_audit_event}
use fast_api_layers.Registry.Commands.Outcome.{settled, audit_event, publish_audit_event-eq}
use fast_api_layers.Orchestration.Run.{Run, Machine, in_world}
use fast_api_layers.Orchestration.Run.Quiet.{Aside, IsQuiet, IsElsewhere}
use fast_api_layers.Orchestration.Workflow.{Engine, Follows, topology}
use fast_api_layers.Orchestration.Workflow.Elsewhere.{Runs-Aside, node_handlers-IsQuiet}
use fast_api_layers.Orchestration.Steps.Elsewhere.{step_emitter-IsQuiet}
use fast_api_layers.Orchestration.Service.{
  Job, initial_state, terminate, finish, fail, invoke_workflow, run_workflow,
}

-- What `terminate` gives and logs, by the errors of its two publications, and its publish calls.
abbrev pub concluded :
    Option PyError
    → Option PyError
    → List (String × EventEnvelope)
    → ℕ
    → EventEnvelope
    → EventEnvelope
    → Result (Unit {0}) × List (String × EventEnvelope) × ℕ
concluded (some x) _ log calls e a = (err x, log, calls + 1)
concluded none (some x) log calls e a =
    (err x, log ++ (agent_executions_topic, e) ∷ [], calls + 1 + 1)
concluded none none log calls e a =
    (ok tt, log ++ (agent_executions_topic, e) ∷ (audit_events_topic, a) ∷ [], calls + 1 + 1)

-- the reply of a run, its log and its publish calls
abbrev pub traced_out :
    Result (Unit {0}) × Run → Result (Unit {0}) × List (String × EventEnvelope) × ℕ
traced_out out = (out.0, out.1.world.published, out.1.world.publish_calls)

-- The terminal event of a job, and its audit event.
pub record Terminal ⦃h : Host⦄ (job : Job) (event_type : String) (e a : EventEnvelope)
    : Type 0 where
  pub type_eq : e.event_type ≡ event_type
  pub run_eq : e.entity_id ≡ job.execution_run_id
  pub correlation_eq : e.correlation_id ≡ job.correlation_id
  pub key_eq : default_partition_key e ≡ job.execution_run_id
  pub audit_type_eq : a.event_type ≡ "audit.recorded"
  pub audited_eq : a.entity_id ≡ job.execution_run_id

picked :
    (b : Bool) (s : String) → (elim (if b then some s else none) [ some key ↦ key | none ↦ s ]) ≡ s
picked true s = refl
picked false s = refl

module _ ⦃h : Host⦄ (job : Job) where
  ticked : World → World
  ticked w = record w { clock = w.clock + 1 }

  pub terminate-Concluded :
      (event_type action status : String) (output error : Value) (s : Run)
      → (e : EventEnvelope) × (a : EventEnvelope) × Terminal job event_type e a
        × (traced_out (terminate job event_type action status output error s)
            ≡ concluded
                (h.publish_error s.world.publish_calls)
                (h.publish_error (s.world.publish_calls + 1))
                s.world.published
                s.world.publish_calls
                e
                a)
  unfolding terminate ticked event_envelope utc_now default_partition_key first_key get str
  terminate-Concluded event_type action status output error s =
      let e =
        built event_type job.correlation_id job.trace_id "worker.orchestration" job.execution_run_id
          (dict (
            ("execution_run_id", text job.execution_run_id)
            ∷ ("status", text status)
            ∷ ("output_payload", output)
            ∷ ("finished_at", datetime (h.now s.world.clock))
            ∷ ("error_message", error)
            ∷ []))
          (dict (("aggregate", text "execution") ∷ [])) (ticked s.world) in
      let w1 = drawn (ticked s.world) in
      let w2 = delivered agent_executions_topic e w1 in
      (
        e,
        audit_event action "execution_run" job.execution_run_id e.payload w2,
        record {
          type_eq = refl;
          run_eq = refl;
          correlation_eq = refl;
          key_eq = picked (truthy (text job.execution_run_id)) job.execution_run_id;
          audit_type_eq = refl;
          audited_eq = refl;
        },
        elim (Option-cases (h.publish_error s.world.publish_calls)) [
          | inr (x, f) ↦ rw (publish-err agent_executions_topic e w1 f) (rw f refl)
          | inl f ↦ rw (publish-ok agent_executions_topic e w1 f) (
              rw f (
                rw publish_audit_event-eq
                  (elim (Option-cases (h.publish_error (s.world.publish_calls + 1))) [
                    | inr (x, f') ↦ rw (publish-err _ _ (drawn (settled w2)) f') (rw f' refl)
                    | inl f' ↦ rw (publish-ok _ _ (drawn (settled w2)) f') (rw f' (rw append_assoc))
                  ])))
        ],
      )

  abbrev pub begun : Run → Run
  begun s = record s { incs = s.incs + 1 }

  module _ ⦃m : Machine⦄ (engine : Engine) where
    pub workflow-IsQuiet : Follows engine → IsQuiet (invoke_workflow engine job)
    unfolding invoke_workflow
    workflow-IsQuiet follows s =
        Runs-Aside topology _
          (node_handlers-IsQuiet _ (
            step_emitter-IsQuiet job.execution_run_id job.model_context job.correlation_id
              job.trace_id))
          topology.start (initial_state job) s _ (follows _ (initial_state job) s)

-- the terminal event that a workflow's result calls for
abbrev pub ending : Result Fields → String
ending (ok result) = "execution.finished"
ending (err e) = "execution.failed"

-- A run that returned goes on past its handler.
landed :
    (out : Result (Unit {0}) × Run) (f : PyError → Action Run (Unit {0}))
    (log : List (String × EventEnvelope)) (calls : ℕ)
    → traced_out out ≡ (ok tt, log, calls)
    → traced_out (handle out f) ≡ (ok tt, log, calls)
landed (ok _, s) f log calls e = e
landed (err x, s) f log calls e = cc

module _ ⦃h : Host⦄ ⦃m : Machine⦄ (engine : Engine) (job : Job) where
  abbrev pub Concludes : Run → Result Fields → Result (Unit {0}) × Run → Type 0
  Concludes s result out =
      (steps : List (String × EventEnvelope)) × (e : EventEnvelope) × (a : EventEnvelope) × All
        IsElsewhere steps
      × Terminal job (ending result) e a
      × (out.0 ≡ ok tt)
      × (out.1.world.published
          ≡ s.world.published
            ++ (steps ++ (agent_executions_topic, e) ∷ (audit_events_topic, a) ∷ []))

  body-Concludes :
      ((n : ℕ) → h.publish_error n ≡ none)
      → (s : Run) (out : Result Fields × Run) → Aside s out.1
      → Concludes s out.0 (handle (continue out (finish job)) (fail job))
  unfolding finish fail
  body-Concludes fine s (ok result, s2) aside =
      let (e, a, terminal, trace) =
        terminate-Concluded job "execution.finished" "execution.finish" "succeeded"
          (get_or "final_output" (obj end) result) null s2 in
      let run =
        landed (finish job result s2) (fail job) _ _
          (rw (fine s2.world.publish_calls, fine (s2.world.publish_calls + 1)) at trace) in
      (
        aside.events,
        e,
        a,
        aside.elsewhere,
        terminal,
        ap (λ t. t.0) run,
        ap (λ t. t.1) run
            ∙ ap (λ log. log ++ (agent_executions_topic, e) ∷ (audit_events_topic, a) ∷ [])
                aside.published_eq
            ∙ append_assoc s.world.published aside.events _,
      )
  body-Concludes fine s (err x, s2) aside =
      let (e, a, terminal, trace) =
        terminate-Concluded job "execution.failed" "execution.fail" "failed" null
          (text (h.str_error x)) s2 in
      let run = rw (fine s2.world.publish_calls, fine (s2.world.publish_calls + 1)) at trace in
      (
        aside.events,
        e,
        a,
        aside.elsewhere,
        terminal,
        ap (λ t. t.0) run,
        ap (λ t. t.1) run
            ∙ ap (λ log. log ++ (agent_executions_topic, e) ∷ (audit_events_topic, a) ∷ [])
                aside.published_eq
            ∙ append_assoc s.world.published aside.events _,
      )

  -- Under an engine that runs the topology as documented, and while no publication fails, a run of
  -- a workflow returns, whatever its nodes do. The last two events that it publishes are its
  -- terminal event, which is `execution.finished` when the workflow returned and
  -- `execution.failed` when it raised, and the audit event of that; no other event of the run is on
  -- the topic of executions. The terminal event is keyed by the execution.
  pub run_workflow-Concludes :
      Follows engine
      → ((n : ℕ) → h.publish_error n ≡ none)
      → (s : Run)
      → Concludes s (invoke_workflow engine job (begun job s)).0 (run_workflow engine true job s)
  unfolding run_workflow
  run_workflow-Concludes follows fine s =
      body-Concludes fine (begun job s) (invoke_workflow engine job (begun job s))
        (workflow-IsQuiet job engine follows (begun job s))
