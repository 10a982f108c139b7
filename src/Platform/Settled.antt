-- ===== src/Platform/Settled.antt =====
-- What the context readers and the publisher return and leave behind, in one equation each.
use mathlib.Core.Option.{get_or}
use fast_api_layers.Prelude.{
  Option, Bool, false, not, none, some, [], ◌∷◌, ◌++◌, refl, ◌+◌, String, ◌≡◌, ◌≢◌, arith, eq_iff,
  Bool-cases, inl, inr, ◌==◌, if◌then◌else◌,
}
use fast_api_layers.Value.{Fields}
use fast_api_layers.Effect.{PyError, ok, err}
use fast_api_layers.Events.{EventEnvelope}
use fast_api_layers.Platform.{Host, World, publish}
use fast_api_layers.Platform.Context.{or_uuid, get_correlation_id, get_trace_id}

-- A text that is not empty is kept by `s or fresh`; a fresh one makes it non-empty.
pub or-keep : (s x : String) → s ≢ "" → (if s == "" then x else s) ≡ s
or-keep s x ne = ground (arith, eq_iff s "")

pub or-ne : (s x : String) → x ≢ "" → (if s == "" then x else s) ≢ ""
or-ne s x ne = ground (arith, eq_iff s "")

module _ ⦃h : Host⦄ where
  abbrev pub correlated : World → World
  correlated w = record w {
    correlation_id = if w.correlation_id == "" then h.uuid w.uuids else w.correlation_id;
    uuids = if w.correlation_id == "" then w.uuids + 1 else w.uuids;
  }

  abbrev pub traced : World → World
  traced w = record w {
    trace_id = if w.trace_id == "" then h.uuid w.uuids else w.trace_id;
    uuids = if w.trace_id == "" then w.uuids + 1 else w.uuids;
  }

  pub get_correlation_id-eq :
      (w : World) → get_correlation_id w ≡ (ok (correlated w).correlation_id, correlated w)
  unfolding get_correlation_id
  get_correlation_id-eq w = elim (Bool-cases (w.correlation_id == "")) [
    | inl e ↦ rw e
    | inr e ↦ rw e
  ]

  pub get_trace_id-eq : (w : World) → get_trace_id w ≡ (ok (traced w).trace_id, traced w)
  unfolding get_trace_id
  get_trace_id-eq w = elim (Bool-cases (w.trace_id == "")) [ inl e ↦ rw e | inr e ↦ rw e ]

  -- the envelope that `event_envelope` builds, and the two draws that it makes
  abbrev pub built :
      String → String → String → String → String → Fields → Fields → World → EventEnvelope
  built event_type correlation_id trace_id source entity_id payload metadata w = record {
    event_id = h.uuid w.uuids;
    event_version = "1.0";
    event_type = event_type;
    timestamp = h.now w.clock;
    correlation_id = correlation_id;
    trace_id = trace_id;
    source = source;
    entity_id = entity_id;
    payload = payload;
    metadata = metadata;
  }

  abbrev pub drawn : World → World
  drawn w = record w { uuids = w.uuids + 1; clock = w.clock + 1 }

  -- the process after one more accepted event
  abbrev pub delivered : String → EventEnvelope → World → World
  delivered topic event w = record w {
    published = w.published ++ (topic, event) ∷ [];
    publish_calls = w.publish_calls + 1;
  }

  pub publish-ok :
      (topic : String) (event : EventEnvelope) (w : World)
      → h.publish_error w.publish_calls ≡ none
      → publish topic event w ≡ (ok tt, delivered topic event w)
  unfolding publish
  publish-ok topic event w e = rw (e, publish)

  pub publish-err :
      (topic : String) (event : EventEnvelope) (w : World) {x : PyError}
      → h.publish_error w.publish_calls ≡ some x
      → publish topic event w ≡ (err x, record w { publish_calls = w.publish_calls + 1 })
  unfolding publish
  publish-err topic event w e = rw (e, publish)

  -- whether `or_uuid` draws an identifier
  abbrev pub is_given : Option String → Bool
  is_given none = false
  is_given (some value) = not (value == "")

  -- the value that `or_uuid` gives
  abbrev pub chosen : Option String → World → String
  chosen value w = if is_given value then get_or value "" else h.uuid w.uuids

  pub or_uuid-eq :
      (value : Option String) (w : World)
      → or_uuid value w ≡ (
        ok (if is_given value then get_or value "" else h.uuid w.uuids),
        record w { uuids = if is_given value then w.uuids else w.uuids + 1 },
      )
  unfolding or_uuid
  or_uuid-eq none w = refl
  or_uuid-eq (some value) w = elim (Bool-cases (value == "")) [ inl e ↦ rw e | inr e ↦ rw e ]
