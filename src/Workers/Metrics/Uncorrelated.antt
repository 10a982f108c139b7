-- ===== src/Workers/Metrics/Uncorrelated.antt =====
-- The identifiers of the metrics that one worker counts.
use mathlib.Core.List.{map-append}
use fast_api_layers.Prelude.{
  ℕ, ◌+◌, String, ◌≡◌, ◌≢◌, refl, sym, ap, ◌∙◌, none, List, [], ◌∷◌, ◌++◌, map, Bool-cases, inl,
  inr, All, All-append, ◌==◌, ◌||◌, if◌then◌else◌, append_assoc, append-nil,
}
use fast_api_layers.Value.{text, float, datetime, obj, dict}
use fast_api_layers.Effect.{Result, ok, Action, pure, ◌>>◌, continue}
use fast_api_layers.Events.{EventEnvelope}
use fast_api_layers.Topics.{system_metrics_topic}
use fast_api_layers.Platform.{Host, World, uuid4, utc_now, event_envelope}
use fast_api_layers.Platform.Settled.{
  correlated, traced, get_correlation_id-eq, get_trace_id-eq, built, drawn, delivered, publish-ok,
  or-keep, or-ne,
}
use fast_api_layers.Monitoring.Floats.{one}
use fast_api_layers.Workers.Metrics.{publish_counter, metrics_handler}

continue-ok :
    {S : Type 0} (r : Result (Unit {0}) × S) (k : Action S (Unit {0}))
    → r.0 ≡ ok tt
    → continue r (λ u. k) ≡ k r.1
continue-ok (r, s) k returned = rw returned

module _ ⦃h : Host⦄ where
  -- the worker on one event after another
  abbrev pub count_all : List EventEnvelope → Action World (Unit {0})
  count_all [] = pure tt
  count_all (event ∷ events) = metrics_handler event >> count_all events

  -- the correlation identifier of the process, which the first use draws
  abbrev pub own_correlation : World → String
  own_correlation w = (correlated w).correlation_id

  -- the executions that some events are counted for
  abbrev counted_id : EventEnvelope → List String
  counted_id event =
      if event.event_type == "execution.started"
        || event.event_type == "execution.finished"
        || event.event_type == "execution.failed"
      then event.entity_id ∷ []
      else []

  abbrev pub counted_ids : List EventEnvelope → List String
  counted_ids [] = []
  counted_ids (event ∷ events) = counted_id event ++ counted_ids events

  -- Metrics of the executions `ids` were published after `w`, all with one correlation, and the
  -- process keeps it.
  abbrev pub Counted : List String → String → World → Result (Unit {0}) × World → Type 0
  Counted ids c w out =
      (es : List EventEnvelope) × (out.0 ≡ ok tt)
      × (out.1.published ≡ w.published ++ map (λ e. (system_metrics_topic, e)) es)
      × (map (λ e. e.entity_id) es ≡ ids)
      × All (λ e. e.correlation_id ≡ c) es
      × (own_correlation out.1 ≡ c)

  module _ (uuid_ne : (n : ℕ) → h.uuid n ≢ "") (accepts : (n : ℕ) → h.publish_error n ≡ none) where
    -- the process after the clock is read for the sample
    abbrev sampled : World → World
    sampled w = record (traced (correlated w)) { clock = w.clock + 1 }

    abbrev counter_event : String → String → World → EventEnvelope
    counter_event metric_name entity_id w =
        built "metric.recorded" (own_correlation w) (traced (correlated w)).trace_id
          "worker.metrics" entity_id
          (dict (
            ("metric_name", text metric_name)
            ∷ ("metric_type", text "counter")
            ∷ ("entity_type", text "execution")
            ∷ ("entity_id", text entity_id)
            ∷ ("value", float one)
            ∷ ("tags", obj (dict (("source", text "metrics-aggregation-worker") ∷ [])))
            ∷ ("sampled_at", datetime (h.now w.clock))
            ∷ []))
          (dict (("aggregate", text "metric") ∷ [])) (sampled w)

    publish_counter-eq :
        (metric_name entity_id : String) (w : World)
        → publish_counter metric_name entity_id w ≡ (
          ok tt,
          delivered system_metrics_topic
              (counter_event metric_name entity_id w)
              (drawn (sampled w)),
        )
    unfolding publish_counter utc_now event_envelope uuid4
    publish_counter-eq metric_name entity_id w = rw (get_correlation_id-eq w) (
        rw (get_trace_id-eq (correlated w)) (
          publish-ok system_metrics_topic (counter_event metric_name entity_id w)
            (drawn (sampled w)) (accepts _)))

    publish_counter-Counted :
        (metric_name entity_id : String) (w : World) {c : String}
        → own_correlation w ≡ c
        → Counted (entity_id ∷ []) c w (publish_counter metric_name entity_id w)
    publish_counter-Counted metric_name entity_id w own =
        rw (publish_counter-eq metric_name entity_id w) (
          counter_event metric_name entity_id w ∷ [],
          refl,
          refl,
          refl,
          (own, tt),
          or-keep (own_correlation w) _ (or-ne w.correlation_id _ (uuid_ne w.uuids)) ∙ own,
        )

    metrics_handler-Counted :
        (event : EventEnvelope) (w : World) {c : String}
        → own_correlation w ≡ c
        → Counted (counted_id event) c w (metrics_handler event w)
    unfolding metrics_handler
    metrics_handler-Counted event w own =
        elim (Bool-cases (event.event_type == "execution.started")) [
          | inl e ↦ rw e (publish_counter-Counted "execution_started" event.entity_id w own)
          | inr e ↦ rw e (elim (Bool-cases (event.event_type == "execution.finished")) [
            | inl e1 ↦ rw e1 (publish_counter-Counted "execution_finished" event.entity_id w own)
            | inr e1 ↦ rw e1 (elim (Bool-cases (event.event_type == "execution.failed")) [
              | inl e2 ↦ rw e2 (publish_counter-Counted "execution_failed" event.entity_id w own)
              | inr e2 ↦ rw e2 ([], refl, sym (append-nil w.published), refl, tt, own)
            ])
          ])
        ]

    count_all-Counts :
        (events : List EventEnvelope) (w : World) {c : String}
        → own_correlation w ≡ c
        → Counted (counted_ids events) c w (count_all events w)
    count_all-Counts [] w own = ([], refl, sym (append-nil w.published), refl, tt, own)
    count_all-Counts (event ∷ events) w own =
        let (es, returned, log, ids, same, kept) = metrics_handler-Counted event w own in
        let (es', returned', log', ids', same', kept') =
          count_all-Counts events (metrics_handler event w).1 kept in
        rw (continue-ok (metrics_handler event w) (count_all events) returned) (
          es ++ es',
          returned',
          log'
              ∙ ap (λ l. l ++ map (λ e. (system_metrics_topic, e)) es') log
              ∙ append_assoc w.published _ _
              ∙ ap (λ l. w.published ++ l)
                  (sym (map-append (λ e. (system_metrics_topic, e)) es es')),
          map-append (λ e. e.entity_id) es es'
              ∙ ap (λ l. l ++ map (λ e. e.entity_id) es') ids
              ∙ ap (λ l. counted_id event ++ l) ids',
          All-append (λ e. e.correlation_id ≡ _) es es' same same',
          kept',
        )

    -- Where uuids are never empty and the publisher accepts every event, the metrics worker, on any
    -- events one after the other, returns and publishes on the topic of metrics one event for each
    -- execution that started, finished or failed, in their order and with the execution's id as
    -- the entity; all of them carry one correlation identifier, that of the process, which no event
    -- has a part in.
    pub count_all-Counted :
        (events : List EventEnvelope) (w : World)
        → Counted (counted_ids events) (own_correlation w) w (count_all events w)
    count_all-Counted events w = count_all-Counts events w refl
