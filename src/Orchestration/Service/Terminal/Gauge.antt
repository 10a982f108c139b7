-- ===== src/Orchestration/Service/Terminal/Gauge.antt =====
-- The gauge `ACTIVE_EXECUTIONS` over a run.
use fast_api_layers.Prelude.{true, String, ◌≡◌, refl, ap, ◌∙◌, true, ◌+◌}
use fast_api_layers.Value.{Value}
use fast_api_layers.Effect.{PyError, Result, ok, err, Action, continue, handle}
use fast_api_layers.Topics.{agent_executions_topic}
use fast_api_layers.Platform.{Host, World, utc_now, publish, event_envelope}
use fast_api_layers.Audit.{publish_audit_event}
use fast_api_layers.Orchestration.Run.{Run, Machine, in_world}
use fast_api_layers.Orchestration.Workflow.{Engine, Follows}
use fast_api_layers.Orchestration.Service.{
  Job, terminate, finish, fail, invoke_workflow, run_workflow,
}
use fast_api_layers.Orchestration.Service.Terminal.{begun, workflow-IsQuiet}

-- The gauge is as it was after the action.
abbrev IsSteady : {A : Type 0} → Action Run A → Type 0
IsSteady m = (s : Run) → ((m s).1.incs ≡ s.incs) × ((m s).1.decs ≡ s.decs)

steady_continue :
    {A B : Type 0} (s : Run) (out : Result A × Run) (f : A → Action Run B)
    → ((out.1.incs ≡ s.incs) × (out.1.decs ≡ s.decs))
    → ((a : A) → IsSteady (f a))
    → ((continue out f).1.incs ≡ s.incs) × ((continue out f).1.decs ≡ s.decs)
steady_continue s (ok a, s1) f (i, d) g = let (i', d') = g a s1 in (i' ∙ i, d' ∙ d)
steady_continue s (err e, s1) f (i, d) g = (i, d)

steady_handle :
    {A : Type 0} (s : Run) (out : Result A × Run) (f : PyError → Action Run A)
    → ((out.1.incs ≡ s.incs) × (out.1.decs ≡ s.decs))
    → ((e : PyError) → IsSteady (f e))
    → ((handle out f).1.incs ≡ s.incs) × ((handle out f).1.decs ≡ s.decs)
steady_handle s (ok a, s1) f (i, d) g = (i, d)
steady_handle s (err e, s1) f (i, d) g = let (i', d') = g e s1 in (i' ∙ i, d' ∙ d)

IsSteady-in_world : {A : Type 0} (m : Action World A) → IsSteady (in_world m)
IsSteady-in_world m s = (refl, refl)

module _ ⦃h : Host⦄ where
  terminate-IsSteady :
      (job : Job) (event_type action status : String) (output error : Value)
      → IsSteady (terminate job event_type action status output error)
  unfolding terminate
  terminate-IsSteady job event_type action status output error s =
      steady_continue s (in_world utc_now s) _ (refl, refl)
        λ t s1.
          steady_continue s1 (in_world (event_envelope event_type _ _ _ _ _ _) s1) _ (refl, refl)
            λ e s2.
              steady_continue s2 (in_world (publish agent_executions_topic e) s2) _ (refl, refl)
                λ _ s3.
                  steady_continue s3 (in_world (publish_audit_event action _ _ _) s3) _ (refl, refl)
                    λ _ s4. (refl, refl)

  module _ ⦃m : Machine⦄ (engine : Engine) (job : Job) where
    -- Under an engine that runs the topology as documented, and whatever the workflow, its terminal
    -- event or its audit event raise, a run adds one to the gauge of running executions and takes
    -- one away again.
    pub run_workflow-IsBalanced :
        Follows engine
        → (s : Run)
        → ((run_workflow engine true job s).1.incs ≡ s.incs + 1)
          × ((run_workflow engine true job s).1.decs ≡ s.decs + 1)
    unfolding run_workflow finish fail
    run_workflow-IsBalanced follows s =
        let aside = workflow-IsQuiet job engine follows (begun job s) in
        let (i, d) =
          steady_handle (begun job s)
            (continue (invoke_workflow engine job (begun job s)) (finish job)) (fail job)
            (steady_continue (begun job s) (invoke_workflow engine job (begun job s)) (finish job)
              (aside.incs_eq, aside.decs_eq) (λ result. terminate-IsSteady job _ _ _ _ _))
            (λ e. terminate-IsSteady job _ _ _ _ _) in
        (i, ap (λ n. n + 1) d)
