-- ===== src/Messaging/Consumer/Unique.antt =====
-- The processed markers of a worker, as keys.
use fast_api_layers.Prelude.{
  ◌||◌, ◌&&◌, String, ◌≡◌, refl, false, List, [], ◌∷◌, ◌++◌, ◌==◌, eq_iff, arith,
}
use fast_api_layers.Events.{EventEnvelope}
use fast_api_layers.Platform.{Host}
use fast_api_layers.Messaging.Consumer.{
  ConsumerRecord, ProcessedEvent, Worker, State, is_processed, marker, restarts,
}
use fast_api_layers.Messaging.Consumer.Once.{Committed, restarts-Committed, here, one_more}

-- No event has two markers of one consumer group.
abbrev pub Unique : List ProcessedEvent → Type 0
Unique [] = Unit
Unique (p ∷ ps) = (is_processed p.consumer_group p.event_id ps ≡ false) × Unique ps

is_processed-marker :
    (g i : String) (group_id : String) (event : EventEnvelope) (r : ConsumerRecord)
    (ps : List ProcessedEvent)
    → is_processed g i (ps ++ marker group_id event r ∷ [])
      ≡ (is_processed g i ps || (group_id == g && event.event_id == i))
unfolding is_processed
is_processed-marker g i group_id event r [] = ground arith
is_processed-marker g i group_id event r (p ∷ ps) =
    ground (arith, is_processed-marker g i group_id event r ps)

Unique-marker :
    (group_id : String) (event : EventEnvelope) (r : ConsumerRecord) (ps : List ProcessedEvent)
    → Unique ps
    → is_processed group_id event.event_id ps ≡ false
    → Unique (ps ++ marker group_id event r ∷ [])
unfolding is_processed
Unique-marker group_id event r [] h new = (refl, tt)
Unique-marker group_id event r (p ∷ ps) h new = (
  ground (
    arith,
    is_processed-marker p.consumer_group p.event_id group_id event r ps,
    eq_iff p.consumer_group group_id,
    eq_iff group_id p.consumer_group,
    eq_iff p.event_id event.event_id,
    eq_iff event.event_id p.event_id,
  ),
  Unique-marker group_id event r ps h.1 (ground arith),
)

Committed-Unique :
    {D : Type 0} (w : Worker D) {v u : D × List ProcessedEvent}
    → Committed w v u
    → Unique v.1
    → Unique u.1
Committed-Unique w here h = h
Committed-Unique w (one_more c n event r b run new) h =
    Unique-marker w.group_id event r _ (Committed-Unique w c h) new

-- If no event has two markers of one consumer group, then none has after any runs of the worker.
pub restarts-Unique :
    ⦃h : Host⦄
    → {D : Type 0} (w : Worker D) (batches : List (List ConsumerRecord)) (s : State D)
    → Unique s.processed
    → Unique (restarts w batches s).processed
restarts-Unique w batches s h = Committed-Unique w (restarts-Committed w batches s) h
