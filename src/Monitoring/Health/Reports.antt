-- ===== src/Monitoring/Health/Reports.antt =====
-- What the health checks return and publish.
use fast_api_layers.Prelude.{
  ℕ, ◌+◌, String, ◌≡◌, refl, sym, ap, ◌∙◌, Bool, true, false, ◌||◌, Option, none, some, List, [],
  ◌∷◌, ◌++◌, map, ◌==◌, if◌then◌else◌, ◌⊎◌, inl, inr, append_assoc, append-nil,
}
use fast_api_layers.Value.{text, dict}
use fast_api_layers.Effect.{PyError, Result, ok, err, pure, continue, Result-cases}
use fast_api_layers.Events.{EventEnvelope}
use fast_api_layers.Topics.{system_health_topic}
use fast_api_layers.Platform.{Host, World, utc_now, event_envelope}
use fast_api_layers.Platform.Settled.{built, drawn, delivered, publish-ok}
use fast_api_layers.Monitoring.Health.{
  ComponentHealth, HealthSummary, HealthSettings, Heartbeat, Dependencies, any_status,
  workers_status, deep_status, ready_status, check_service, check_kafka_state, check_workers,
  component_payload, publish_health, check_components, check_models, ready, deep,
}
use fast_api_layers.Monitoring.Health.Status.{severity, worst, deep_status-worst}

workers_status-stands :
    (heartbeats : List Heartbeat) (stale : List String)
    → (workers_status heartbeats stale == "failing") ≡ false
workers_status-stands [] stale = refl
workers_status-stands (heartbeat ∷ heartbeats) [] = refl
workers_status-stands (heartbeat ∷ heartbeats) (name ∷ stale) = refl

abbrev pub raised : Option PyError → Bool
raised none = false
raised (some e) = true

module _ ⦃h : Host⦄ (settings : HealthSettings) where
  ready-outcome :
      (database redis : Option PyError) (heartbeats : List Heartbeat) (d : Dependencies) (w : World)
      → d.database_error ≡ database
      → d.redis_error ≡ redis
      → d.heartbeats ≡ ok heartbeats
      → (summary : HealthSummary) × ((ready settings d w).0 ≡ ok summary)
        × (summary.status ≡ (if raised database || raised redis then "failing" else "passing"))
  unfolding ready check_components check_service check_kafka_state check_workers ready_status
      any_status utc_now
  ready-outcome none none heartbeats d w p q r =
      rw p (rw q (rw r (_, refl, rw (workers_status-stands heartbeats _) refl)))
  ready-outcome none (some e) heartbeats d w p q r = rw p (rw q (rw r (_, refl, refl)))
  ready-outcome (some e) none heartbeats d w p q r = rw p (rw q (rw r (_, refl, refl)))
  ready-outcome (some e) (some e') heartbeats d w p q r = rw p (rw q (rw r (_, refl, refl)))

-- An event tells of a component's check.
pub record Checked ⦃h : Host⦄ (c : ComponentHealth) (e : EventEnvelope) : Type 0 where
  pub type_eq : e.event_type ≡ "health.recorded"
  pub entity_eq : e.entity_id ≡ c.component
  pub payload_eq : e.payload ≡ component_payload c

-- one event for each component, in order
abbrev pub AllChecked : ⦃h : Host⦄ → List ComponentHealth → List EventEnvelope → Type 0
AllChecked [] [] = Unit
AllChecked [] (e ∷ es) = ⊥
AllChecked (c ∷ cs) [] = ⊥
AllChecked (c ∷ cs) (e ∷ es) = Checked c e × AllChecked cs es

-- what the query of the heartbeats raised is raised, and nothing is published
abbrev pub RaisedBy : Dependencies → World → Result HealthSummary × World → Type 0
RaisedBy d w out =
    (x : PyError) × (d.heartbeats ≡ err x) × (out.0 ≡ err x) × (out.1.published ≡ w.published)

-- a summary that is failing just when the database or Redis raised; nothing is published
abbrev pub FailingWhenRaised : Dependencies → World → Result HealthSummary × World → Type 0
FailingWhenRaised d w out =
    (summary : HealthSummary) × (out.0 ≡ ok summary)
    × (summary.status
        ≡ (if raised d.database_error || raised d.redis_error then "failing" else "passing"))
    × (out.1.published ≡ w.published)

-- a summary as severe as the worst of its components, each of which is published
abbrev pub ReportedAll : ⦃h : Host⦄ → World → Result HealthSummary × World → Type 0
ReportedAll w out =
    (summary : HealthSummary) × (es : List EventEnvelope) × (out.0 ≡ ok summary)
    × (severity summary.status ≡ worst summary.components)
    × AllChecked summary.components es
    × (out.1.published ≡ w.published ++ map (λ e. (system_health_topic, e)) es)

-- a check returns, and leaves the event log as it is
abbrev Returns : {A : Type 0} → Result A × World → World → Type 0
Returns {A} out w = (a : A) × (w' : World) × (out ≡ (ok a, w')) × (w'.published ≡ w.published)

module _ ⦃h : Host⦄ where
  check_service-Returns :
      (component : String) (error : Option PyError) (w : World)
      → Returns (check_service component error w) w
  unfolding check_service utc_now
  check_service-Returns component none w = (_, _, refl, refl)
  check_service-Returns component (some e) w = (_, _, refl, refl)

  check_workers-Returns :
      (settings : HealthSettings) (heartbeats : List Heartbeat) (w : World)
      → Returns (check_workers settings (ok heartbeats) w) w
  unfolding check_workers utc_now
  check_workers-Returns settings heartbeats w = (_, _, refl, refl)

  -- the shared checks when the query of the heartbeats raises
  check_components-raised :
      (settings : HealthSettings) (d : Dependencies) (w : World) {x : PyError}
      → d.heartbeats ≡ err x
      → (w' : World) × (check_components settings d w ≡ (err x, w')) × (w'.published ≡ w.published)
  unfolding check_components check_kafka_state check_workers utc_now
  check_components-raised settings d w raises =
      let (db, w1, p, kept) = check_service-Returns "postgresql" d.database_error w in
      let (redis, w2, q, kept') = check_service-Returns "redis" d.redis_error w1 in
      rw p (rw q (rw raises (_, refl, kept' ∙ kept)))

  check_components-Returns :
      (settings : HealthSettings) (d : Dependencies) (w : World) {heartbeats : List Heartbeat}
      → d.heartbeats ≡ ok heartbeats
      → Returns (check_components settings d w) w
  unfolding check_components check_kafka_state check_workers utc_now
  check_components-Returns settings d w read =
      let (db, w1, p, kept) = check_service-Returns "postgresql" d.database_error w in
      let (redis, w2, q, kept') = check_service-Returns "redis" d.redis_error w1 in
      rw p (rw q (rw read (_, _, refl, kept' ∙ kept)))

  check_models-Returns :
      (settings : HealthSettings) (d : Dependencies) (urls : List String) (w : World)
      → Returns (check_models settings d urls w) w
  unfolding check_models utc_now
  check_models-Returns settings d [] w = (_, _, refl, refl)
  check_models-Returns settings d (url ∷ urls) w =
      let (rest, w', p, kept) =
        check_models-Returns settings d urls (record w { clock = w.clock + 1 }) in
      rw p (_, _, refl, kept)

  module _ (accepts : (n : ℕ) → h.publish_error n ≡ none) where
    abbrev health_event : ComponentHealth → World → EventEnvelope
    health_event c w =
        built "health.recorded" "health-check" "health-check" "api.health" c.component
          (component_payload c) (dict (("aggregate", text "health") ∷ [])) w

    publish_health-AllChecked :
        (cs : List ComponentHealth) (w : World)
        → let out = publish_health cs w in
          (es : List EventEnvelope) × (out.0 ≡ ok tt)
          × AllChecked cs es
          × (out.1.published ≡ w.published ++ map (λ e. (system_health_topic, e)) es)
    unfolding publish_health event_envelope
    publish_health-AllChecked [] w = ([], refl, tt, sym (append-nil w.published))
    publish_health-AllChecked (c ∷ cs) w =
        let e = health_event c w in
        let w' = delivered system_health_topic e (drawn w) in
        let (es, returned, checked, log) = publish_health-AllChecked cs w' in
        rw (publish-ok system_health_topic e (drawn w) (accepts _)) (
          e ∷ es,
          returned,
          (record { type_eq = refl; entity_eq = refl; payload_eq = refl }, checked),
          log ∙ append_assoc w.published ((system_health_topic, e) ∷ []) _,
        )

    deep-checked :
        (settings : HealthSettings) (d : Dependencies) (w : World) {heartbeats : List Heartbeat}
        → d.heartbeats ≡ ok heartbeats
        → ReportedAll w (deep settings d w)
    unfolding deep
    deep-checked settings d w read =
        let (base, w1, p, kept) = check_components-Returns settings d w read in
        let (models, w2, q, kept') = check_models-Returns settings d settings.model_probe_urls w1 in
        let (es, returned, checked, log) = publish_health-AllChecked (base ++ models) w2 in
        let x = publish_health (base ++ models) w2 in
        let whole : x ≡ (ok tt, x.1) = ap (λ r. (r, x.1)) returned in
        let summary : HealthSummary = record {
          status = deep_status (base ++ models);
          components = base ++ models;
        } in
        rw p (
          rw q (
            summary,
            es,
            ap (λ o. (continue {S = World} o (λ _. pure summary)).0) whole,
            deep_status-worst (base ++ models),
            checked,
            ap (λ o. (continue {S = World} o (λ _. pure summary)).1.published) whole
                ∙ log
                ∙ ap (λ l. l ++ map (λ e. (system_health_topic, e)) es) (kept' ∙ kept),
          ))

    -- While the publisher accepts every event: where the query of the heartbeats answers, `deep`
    -- returns, its status is as severe as the worst of its components, and it publishes one
    -- `health.recorded` for each component, in their order, with the component's name as the entity
    -- and its check as the payload, and nothing else; where the query raises, `deep` raises the same
    -- and publishes nothing, whatever the other checks found.
    pub deep-AllChecked :
        (settings : HealthSettings) (d : Dependencies) (w : World)
        → ((heartbeats : List Heartbeat) × (d.heartbeats ≡ ok heartbeats)
            × ReportedAll w (deep settings d w))
          ⊎ RaisedBy d w (deep settings d w)
    unfolding deep
    deep-AllChecked settings d w = elim (Result-cases d.heartbeats) [
      | inl (x, raises) ↦
          let (w', p, kept) = check_components-raised settings d w raises in
          inr (x, raises, rw p refl, rw p kept)
      | inr (heartbeats, read) ↦ inl (heartbeats, read, deep-checked settings d w read)
    ]

module _ ⦃h : Host⦄ where
  -- Whatever the clock says, `ready` publishes nothing, and where the query of the heartbeats
  -- answers it returns and is failing just when the database or Redis raised: neither Kafka nor the
  -- workers can make it fail. Where the query raises, `ready` raises the same and returns no summary.
  pub ready-failing :
      (settings : HealthSettings) (d : Dependencies) (w : World)
      → ((heartbeats : List Heartbeat) × (d.heartbeats ≡ ok heartbeats)
          × FailingWhenRaised d w (ready settings d w))
        ⊎ RaisedBy d w (ready settings d w)
  unfolding ready
  ready-failing settings d w = elim (Result-cases d.heartbeats) [
    | inl (x, raises) ↦
        let (w', p, kept) = check_components-raised settings d w raises in
        inr (x, raises, rw p refl, rw p kept)
    | inr (heartbeats, read) ↦
        let (summary, returned, status) =
          ready-outcome settings d.database_error d.redis_error heartbeats d w refl refl read in
        let (cs, w', p, kept) = check_components-Returns settings d w read in
        inl (heartbeats, read, (summary, returned, status, rw p kept))
  ]
