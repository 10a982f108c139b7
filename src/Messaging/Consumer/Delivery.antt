-- ===== src/Messaging/Consumer/Delivery.antt =====
-- What a worker leaves behind of a record that it goes on past.
use fast_api_layers.Prelude.{
  ℕ, suc, zero, ◌+◌, ◌<◌, String, ◌≡◌, refl, ap, sym, ◌∙◌, true, Bool-cases, Option-cases, inl, inr,
  some, List, [], ◌∷◌, ◌++◌, ◌⊎◌, eq_refl, arith, leb,
}
use fast_api_layers.Value.{text, dict}
use fast_api_layers.Effect.{PyError, Result, ok, err, Action, continue, handle}
use fast_api_layers.Events.{EventEnvelope}
use fast_api_layers.Topics.{dlq_of}
use fast_api_layers.Platform.{Host, World, event_envelope}
use fast_api_layers.Platform.Settled.{built, drawn, publish-ok, publish-err}
use fast_api_layers.Messaging.Consumer.{
  ConsumerRecord, ProcessedEvent, Worker, State, is_processed, marker, external_call, commit,
  call_handler, handle_new, attempt_once, dump_dead_letter, dlq_type, send_dead_letter, publish_dlq,
  failed, attempts, process_record,
}

marker-is_processed :
    (g : String) (event : EventEnvelope) (r : ConsumerRecord) (ps : List ProcessedEvent)
    → is_processed g event.event_id (ps ++ marker g event r ∷ []) ≡ true
unfolding is_processed
marker-is_processed g event r [] = simp eq_refl
marker-is_processed g event r (p ∷ ps) = ground (arith, marker-is_processed g event r ps)

module _ {D : Type 0} (w : Worker D) where
  commit_keeps :
      (r : ConsumerRecord) (s : State D)
      → ((commit w r s).1.processed ≡ s.processed) × ((commit w r s).1.world ≡ s.world)
  unfolding commit external_call
  commit_keeps r s = ground arith

  -- the run of a call that returned
  then_ok :
      {A B : Type 0} (out : Result A × State D) (f : A → Action (State D) B) {b : B} {s' : State D}
      → continue out f ≡ (ok b, s')
      → (a : A) × (s : State D) × (out ≡ (ok a, s)) × (f a s ≡ (ok b, s'))
  then_ok (ok a, s) f h = (a, s, refl, h)
  then_ok (err e, s) f h = cc

  call_keeps :
      (s : State D)
      → ((external_call w s).1.processed ≡ s.processed) × ((external_call w s).1.world ≡ s.world)
  unfolding external_call
  call_keeps s = ground arith

  commit_marks :
      (g i : String) (r : ConsumerRecord) (s s' : State D)
      → commit w r s ≡ (ok tt, s')
      → is_processed g i s.processed ≡ true
      → is_processed g i s'.processed ≡ true
  commit_marks g i r s s' run h = ground (arith, commit_keeps r s)

  handle_new_marks :
      (event : EventEnvelope) (r : ConsumerRecord) (s s' : State D)
      → handle_new w event r s ≡ (ok tt, s')
      → is_processed w.group_id event.event_id s'.processed ≡ true
  unfolding handle_new
  handle_new_marks event r s s' run =
      let (b, s1, _, run1) = then_ok (call_handler w event r s) _ run in
      let (_, s2, _, run2) = then_ok (external_call w s1) _ run1 in
      commit_marks _ _ r _ s' run2 (marker-is_processed w.group_id event r s2.processed)

  attempt_once_marks :
      (event : EventEnvelope) (r : ConsumerRecord) (s s' : State D)
      → attempt_once w event r s ≡ (ok tt, s')
      → is_processed w.group_id event.event_id s'.processed ≡ true
  unfolding attempt_once
  attempt_once_marks event r s s' run =
      let (_, s1, _, run1) = then_ok (external_call w s) _ run in
      elim (Bool-cases (is_processed w.group_id event.event_id s1.processed)) [
        | inr new ↦ handle_new_marks event r s1 s' (rw new at run1)
        | inl old ↦
            let (_, s2, called, run2) = then_ok (external_call w s1) _ (rw old at run1) in
            commit_marks _ _ r s2 s' run2 (ground (arith, call_keeps s1))
      ]

  module _ ⦃h : Host⦄ where
    -- The dead letter of the event is the last event that was published.
    abbrev DeadLettered : EventEnvelope → ConsumerRecord → State D → Type 0
    DeadLettered event r s =
        (before : List (String × EventEnvelope)) × (dlq_topic : String) × (dead : EventEnvelope)
        × (error : String) × (dlq_of r.topic ≡ some dlq_topic)
        × (s.world.published ≡ before ++ (dlq_topic, dead) ∷ [])
        × (dead.payload
            ≡ dump_dead_letter w (record {
              topic = r.topic;
              consumer_group = w.group_id;
              retry_count = w.max_retries;
              error = error;
              original_event = event;
            }))

    sent :
        (dlq_topic topic : String) (event : EventEnvelope) (error : String) (n : ℕ) (wd : World)
        → (send_dead_letter w dlq_topic topic event error n wd).0 ≡ ok tt
        → (dead : EventEnvelope) × ((send_dead_letter w dlq_topic topic event error n
              wd).1.published
            ≡ wd.published ++ (dlq_topic, dead) ∷ [])
          × (dead.payload
              ≡ dump_dead_letter w (record {
                topic = topic;
                consumer_group = w.group_id;
                retry_count = n;
                error = error;
                original_event = event;
              }))
    unfolding send_dead_letter event_envelope
    sent dlq_topic topic event error n wd run =
        let dead =
          built (dlq_type event.event_type) event.correlation_id event.trace_id w.name
            event.entity_id
            (dump_dead_letter w (record {
              topic = topic;
              consumer_group = w.group_id;
              retry_count = n;
              error = error;
              original_event = event;
            }))
            (dict (("dlq_topic", text dlq_topic) ∷ [])) wd in
        elim (Option-cases (h.publish_error wd.publish_calls)) [
          | inl e ↦ (dead, rw (publish-ok dlq_topic dead (drawn wd) e), refl)
          | inr (x, e) ↦
              let bad : ◌≡◌ {A = Result (Unit {0})} (err x) (ok tt) =
                rw (publish-err dlq_topic dead (drawn wd) e) at run in
              cc
        ]

    publish_dlq_delivers :
        (event : EventEnvelope) (r : ConsumerRecord) (error : String) (s s' : State D)
        → publish_dlq w r.topic event error w.max_retries s ≡ (ok tt, s')
        → DeadLettered event r s'
    unfolding publish_dlq
    publish_dlq_delivers event r error s s' run = elim (Option-cases (dlq_of r.topic)) [
      | inl e ↦ let bad = rw (e, publish_dlq) at run in cc
      | inr (t, e) ↦
          let run1 = rw (e, publish_dlq) at run in
          let (dead, published, payload) =
            sent t r.topic event error w.max_retries s.world (ap (λ out. out.0) run1) in
          (
            s.world.published,
            t,
            dead,
            error,
            e,
            sym (ap (λ out. out.1.world.published) run1) ∙ published,
            payload,
          )
    ]

    commit_delivers :
        (event : EventEnvelope) (r : ConsumerRecord) (s s' : State D)
        → commit w r s ≡ (ok tt, s')
        → DeadLettered event r s
        → DeadLettered event r s'
    commit_delivers event r s s' run (before, t, dead, error, known, published, payload) =
        (before, t, dead, error, known, ground (arith, commit_keeps r s), payload)

    last_fails :
        (n : ℕ) (event : EventEnvelope) (r : ConsumerRecord) (e : PyError)
        (next : Action (State D) (Unit {0})) (s s' : State D)
        → leb w.max_retries n ≡ true
        → n ≡ w.max_retries
        → failed w n event r e next s ≡ (ok tt, s')
        → DeadLettered event r s'
    unfolding failed
    last_fails n event r e next s s' last same run =
        let run1 = rw (last, failed, same) at run in
        let (_, s1, sent_first, run2) =
          then_ok (publish_dlq w r.topic event (h.str_error e) w.max_retries s) _ run1 in
        commit_delivers event r s1 s' run2
          (publish_dlq_delivers event r (h.str_error e) s s1 sent_first)

    -- What is known of an event when the worker goes on past its record.
    abbrev pub Delivered : EventEnvelope → ConsumerRecord → State D → Type 0
    Delivered event r s =
        (is_processed w.group_id event.event_id s.processed ≡ true) ⊎ DeadLettered event r s

    attempts_deliver :
        (left n : ℕ) (event : EventEnvelope) (r : ConsumerRecord) (s s' : State D)
        → n + left ≡ w.max_retries + 1
        → 0 < left
        → attempts w left n event r s ≡ (ok tt, s')
        → Delivered event r s'
    unfolding attempts failed
    attempts_deliver zero n event r s s' budget some_left run = absurd (omega arith)
    attempts_deliver (suc left) n event r s s' budget some_left run =
        go (attempt_once w event r s) refl run (attempts_deliver left (n + 1) event r)
      where
        go :
            (out : Result (Unit {0}) × State D)
            → attempt_once w event r s ≡ out
            → handle out (λ e. failed w n event r e (attempts w left (n + 1) event r)) ≡ (ok tt, s')
            → ((s1 s2 : State D)
                → (n + 1) + left ≡ w.max_retries + 1
                → 0 < left
                → attempts w left (n + 1) event r s1 ≡ (ok tt, s2)
                → Delivered event r s2)
            → Delivered event r s'
        go (ok _, s1) once run1 later = inl (attempt_once_marks event r s s' (once ∙ run1))
        go (err e, s1) once run1 later = elim (Bool-cases (leb w.max_retries n)) [
          | inl last ↦ inr (last_fails n event r e _ s1 s' last (ground arith) run1)
          | inr more ↦ later s1 s' (omega arith) (ground arith) (rw (more, failed) at run1)
        ]

    -- A worker with at least one attempt goes on past a record only when the event in it is marked
    -- as processed for its group, or its dead letter, with the number of attempts, was the last
    -- event published, on the dead-letter topic of the record's topic.
    pub process_record-Delivered :
        (event : EventEnvelope) (r : ConsumerRecord) (s s' : State D)
        → 0 < w.max_retries
        → w.decode r.value ≡ ok event
        → process_record w r s ≡ (ok tt, s')
        → Delivered event r s'
    unfolding process_record
    process_record-Delivered event r s s' some_attempt decoded run =
        attempts_deliver w.max_retries 1 event r s s' (omega arith) some_attempt
          (rw (decoded, process_record) at run)
