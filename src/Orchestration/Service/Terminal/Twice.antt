-- ===== src/Orchestration/Service/Terminal/Twice.antt =====
-- A run whose audit event fails after its terminal event was published.
use fast_api_layers.Prelude.{
  true, List, some, none, ℕ, String, ◌≡◌, ap, ◌∙◌, true, List, [], ◌∷◌, ◌++◌, ◌+◌, append_assoc,
  none, some,
}
use fast_api_layers.Value.{Fields, text, obj, null, end, get_or}
use fast_api_layers.Effect.{PyError, Result, ok, err, handle}
use fast_api_layers.Events.{EventEnvelope}
use fast_api_layers.Topics.{agent_executions_topic, audit_events_topic}
use fast_api_layers.Platform.{Host}
use fast_api_layers.Orchestration.Run.{Run, Machine}
use fast_api_layers.Orchestration.Workflow.{Engine}
use fast_api_layers.Orchestration.Service.{Job, finish, fail, invoke_workflow, run_workflow}
use fast_api_layers.Orchestration.Service.Terminal.{
  traced_out, Terminal, terminate-Concluded, begun,
}

-- A second terminal event, after a run that raised.
crossed :
    ⦃h : Host⦄
    → (job : Job) (out : Result (Unit {0}) × Run) {x : PyError}
      (log : List (String × EventEnvelope)) (calls : ℕ)
    → traced_out out ≡ (err x, log, calls)
    → h.publish_error calls ≡ none
    → h.publish_error (calls + 1) ≡ none
    → (e : EventEnvelope) × (a : EventEnvelope) × Terminal job "execution.failed" e a
      × (traced_out (handle out (fail job)) ≡ (
        ok tt,
        log ++ (agent_executions_topic, e) ∷ (audit_events_topic, a) ∷ [],
        calls + 1 + 1,
      ))
unfolding fail
crossed job (ok _, s) log calls t p q = cc
crossed ⦃h⦄ job (err y, s) log calls t p q =
    let (e, a, terminal, trace) =
      terminate-Concluded job "execution.failed" "execution.fail" "failed" null
        (text (h.str_error y)) s in
    let log_eq : s.world.published ≡ log = ap (λ u. u.1) t in
    let calls_eq : s.world.publish_calls ≡ calls = ap (λ u. u.2) t in
    let p' : h.publish_error s.world.publish_calls ≡ none = ap h.publish_error calls_eq ∙ p in
    let q' : h.publish_error (s.world.publish_calls + 1) ≡ none =
      ap (λ n. h.publish_error (n + 1)) calls_eq ∙ q in
    (
      e,
      a,
      terminal,
      (rw (p', q') at trace)
          ∙ ap
              (λ l. (
                ok tt,
                l ++ (agent_executions_topic, e) ∷ (audit_events_topic, a) ∷ [],
                s.world.publish_calls + 1 + 1,
              ))
              log_eq
          ∙ ap
              (λ n. (
                ok tt,
                log ++ (agent_executions_topic, e) ∷ (audit_events_topic, a) ∷ [],
                n + 1 + 1,
              ))
              calls_eq,
    )

module _ ⦃h : Host⦄ ⦃m : Machine⦄ (engine : Engine) (job : Job) where
  -- When a workflow returned and its `execution.finished` was published, but the audit event of
  -- that was not, the run publishes `execution.failed` for the same execution too, if nothing
  -- fails after that: the history has two terminal events that contradict each other.
  pub run_workflow-ends_twice :
      (s s2 : Run) (result : Fields) (x : PyError)
      → invoke_workflow engine job (begun job s) ≡ (ok result, s2)
      → h.publish_error s2.world.publish_calls ≡ none
      → h.publish_error (s2.world.publish_calls + 1) ≡ some x
      → h.publish_error (s2.world.publish_calls + 1 + 1) ≡ none
      → h.publish_error (s2.world.publish_calls + 1 + 1 + 1) ≡ none
      → (finished : EventEnvelope) × (failed : EventEnvelope) × (a : EventEnvelope)
        × (b : EventEnvelope) × Terminal job "execution.finished" finished a
        × Terminal job "execution.failed" failed b
        × ((run_workflow engine true job s).1.world.published
            ≡ s2.world.published
              ++ (agent_executions_topic, finished)
                ∷ (agent_executions_topic, failed)
                ∷ (audit_events_topic, b)
                ∷ [])
  unfolding run_workflow finish
  run_workflow-ends_twice s s2 result x invoked p q p' q' =
      let (e, a, terminal, trace) =
        terminate-Concluded job "execution.finished" "execution.finish" "succeeded"
          (get_or "final_output" (obj end) result) null s2 in
      let (f, b, terminal', trace') =
        crossed job (finish job result s2) (s2.world.published ++ (agent_executions_topic, e) ∷ [])
          (s2.world.publish_calls + 1 + 1) (rw (p, q) at trace) p' q' in
      (
        e,
        f,
        a,
        b,
        terminal,
        terminal',
        rw invoked (
            ap (λ u. u.1) trace'
            ∙ append_assoc s2.world.published (((agent_executions_topic, e)) ∷ []) _),
      )
