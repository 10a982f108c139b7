-- ===== src/Messaging/Consumer/Once.antt =====
-- The business state and the processed markers over the runs of a worker.
use fast_api_layers.Prelude.{
  ℕ, suc, zero, ◌+◌, String, ◌≡◌, refl, false, Bool-cases, Option-cases, inl, inr, List, [], ◌∷◌,
  ◌++◌, leb,
}
use fast_api_layers.Effect.{
  PyError, Result, ok, err, Action, modify, continue, handle, lift, ◌>>=◌, ◌>>◌,
}
use fast_api_layers.Events.{EventEnvelope}
use fast_api_layers.Topics.{dlq_of}
use fast_api_layers.Platform.{Host}
use fast_api_layers.Messaging.Consumer.{
  ConsumerRecord, ProcessedEvent, Worker, State, is_processed, marker, external_call, commit,
  call_handler, handle_new, attempt_once, publish_dlq, failed, attempts, process_record,
  process_all, restarts,
}

-- what a transaction of the worker's database covers
abbrev pub view : {D : Type 0} → State D → D × List ProcessedEvent
view s = (s.business, s.processed)

module _ {D : Type 0} (w : Worker D) where
  -- From one view to another by successful handler runs, each on an event with no marker yet, and
  -- each with its marker.
  pub data Committed (v : D × List ProcessedEvent) : D × List ProcessedEvent → Type 0 where
    here : Committed v v
    one_more :
        {u : D × List ProcessedEvent}
        → Committed v u
        → (n : ℕ) (event : EventEnvelope) (r : ConsumerRecord) (b : D)
        → w.handler n event r u.0 ≡ (ok tt, b)
        → is_processed w.group_id event.event_id u.1 ≡ false
        → Committed v (b, u.1 ++ marker w.group_id event r ∷ [])

  Committed-trans :
      {a b c : D × List ProcessedEvent} → Committed a b → Committed b c → Committed a c
  Committed-trans p here = p
  Committed-trans p (one_more q n event r b run new) =
      one_more (Committed-trans p q) n event r b run new

  abbrev IsSafe : {A : Type 0} → Action (State D) A → Type 0
  IsSafe m = (s : State D) → Committed (view s) (view (m s).1)

  module _ {A B : Type 0} where
    continue-Committed :
        (v : D × List ProcessedEvent) (out : Result A × State D) (f : A → Action (State D) B)
        → Committed v (view out.1)
        → ((a : A) → IsSafe (f a))
        → Committed v (view (continue out f).1)
    continue-Committed v (ok a, s) f c kf = Committed-trans c (kf a s)
    continue-Committed v (err e, s) f c kf = c

    IsSafe-bind :
        (m : Action (State D) A) (f : A → Action (State D) B)
        → IsSafe m
        → ((a : A) → IsSafe (f a))
        → IsSafe (m >>= f)
    IsSafe-bind m f km kf s = continue-Committed (view s) (m s) f (km s) kf

  IsSafe-lift : {A : Type 0} (r : Result A) → IsSafe (lift r)
  IsSafe-lift r s = here

  external_call-IsSafe : IsSafe (external_call w)
  unfolding external_call
  external_call-IsSafe s = elim (Option-cases (w.fault s.calls)) [
    | inl e ↦ rw (e, external_call) here
    | inr (x, e) ↦ rw (e, external_call) here
  ]

  commit-IsSafe : (r : ConsumerRecord) → IsSafe (commit w r)
  unfolding commit
  commit-IsSafe r s = elim (Bool-cases (w.assigned r.topic r.partition)) [
    | inl e ↦ rw (e, commit) (IsSafe-bind (external_call w) _ external_call-IsSafe (λ _ s'. here) s)
    | inr e ↦ rw (e, commit) here
  ]

  -- the end of `handle_new`, where the handler has returned `b`
  stored :
      (event : EventEnvelope) (r : ConsumerRecord) (b : D) (s : State D)
      → Committed (view s) (b, s.processed ++ marker w.group_id event r ∷ [])
      → Committed (view s) (
          view
            ((external_call w
                >> (modify (λ s. record s {
                  business = b;
                  processed = s.processed ++ marker w.group_id event r ∷ [];
                })
                    >> commit w r))
              s).1)
  unfolding external_call
  stored event r b s c = elim (Option-cases (w.fault s.calls)) [
    | inl e ↦ rw (e, external_call) (Committed-trans c (commit-IsSafe r _))
    | inr (x, e) ↦ rw (e, external_call) here
  ]

  handle_new-Committed :
      (event : EventEnvelope) (r : ConsumerRecord) (s : State D)
      → is_processed w.group_id event.event_id s.processed ≡ false
      → Committed (view s) (view (handle_new w event r s).1)
  unfolding handle_new call_handler
  handle_new-Committed event r s new = go (w.handler s.calls event r s.business) refl
    where
      go :
          (out : Result (Unit {0}) × D)
          → w.handler s.calls event r s.business ≡ out
          → Committed (view s) (view (handle_new w event r s).1)
      go (ok _, b) e =
          rw (e, handle_new, call_handler)
            (stored event r b (record s { calls = s.calls + 1 })
              (one_more here s.calls event r b e new))
      go (err x, b) e = rw (e, handle_new, call_handler) here

  attempt_once-IsSafe :
      (event : EventEnvelope) (r : ConsumerRecord) → IsSafe (attempt_once w event r)
  unfolding attempt_once
  attempt_once-IsSafe event r = IsSafe-bind (external_call w) _ external_call-IsSafe λ _ s.
      elim (Bool-cases (is_processed w.group_id event.event_id s.processed)) [
        | inl old ↦
            rw old (IsSafe-bind (external_call w) _ external_call-IsSafe (λ _. commit-IsSafe r) s)
        | inr new ↦ rw new (handle_new-Committed event r s new)
      ]

  module _ ⦃h : Host⦄ where
    publish_dlq-IsSafe :
        (topic : String) (event : EventEnvelope) (error : String) (n : ℕ)
        → IsSafe (publish_dlq w topic event error n)
    unfolding publish_dlq
    publish_dlq-IsSafe topic event error n s = elim (Option-cases (dlq_of topic)) [
      | inl e ↦ rw (e, publish_dlq) here
      | inr (dlq_topic, e) ↦ rw (e, publish_dlq) here
    ]

    failed-IsSafe :
        (n : ℕ) (event : EventEnvelope) (r : ConsumerRecord) (e : PyError)
        (next : Action (State D) (Unit {0}))
        → IsSafe next
        → IsSafe (failed w n event r e next)
    unfolding failed
    failed-IsSafe n event r e next safe s = elim (Bool-cases (leb w.max_retries n)) [
      | inl last ↦
          rw (last, failed)
            (IsSafe-bind (publish_dlq w r.topic event (h.str_error e) n) _
              (publish_dlq-IsSafe r.topic event (h.str_error e) n) (λ _. commit-IsSafe r) s)
      | inr more ↦ rw (more, failed) (safe s)
    ]

    handle-Committed :
        (v : D × List ProcessedEvent) (out : Result (Unit {0}) × State D)
        (f : PyError → Action (State D) (Unit {0}))
        → Committed v (view out.1)
        → ((e : PyError) → IsSafe (f e))
        → Committed v (view (handle out f).1)
    handle-Committed v (ok _, s) f c kf = c
    handle-Committed v (err e, s) f c kf = Committed-trans c (kf e s)

    attempts-IsSafe :
        (left n : ℕ) (event : EventEnvelope) (r : ConsumerRecord)
        → IsSafe (attempts w left n event r)
    unfolding attempts
    attempts-IsSafe zero n event r s = here
    attempts-IsSafe (suc left) n event r s =
        handle-Committed (view s) (attempt_once w event r s) _ (attempt_once-IsSafe event r s)
          (λ e. failed-IsSafe n event r e _ (attempts-IsSafe left (n + 1) event r))

    process_record-IsSafe : (r : ConsumerRecord) → IsSafe (process_record w r)
    unfolding process_record
    process_record-IsSafe r =
        IsSafe-bind (lift (w.decode r.value)) _ (IsSafe-lift (w.decode r.value))
          (λ event. attempts-IsSafe w.max_retries 1 event r)

    process_all-IsSafe : (rs : List ConsumerRecord) → IsSafe (process_all w rs)
    unfolding process_all
    process_all-IsSafe [] s = here
    process_all-IsSafe (r ∷ rs) s =
        IsSafe-bind (process_record w r) _ (process_record-IsSafe r) (λ _. process_all-IsSafe rs) s

    -- Over any number of runs of a worker, on any records and with any failures of the database,
    -- the broker and the handler, the business state and the markers change only together: by
    -- successful runs of the handler, each on an event that had no marker and each adding its own.
    pub restarts-Committed :
        (batches : List (List ConsumerRecord)) (s : State D)
        → Committed (view s) (view (restarts w batches s))
    unfolding restarts
    restarts-Committed [] s = here
    restarts-Committed (rs ∷ batches) s =
        Committed-trans (process_all-IsSafe rs s)
          (restarts-Committed batches (process_all w rs s).1)
