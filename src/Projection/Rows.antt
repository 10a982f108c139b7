-- ===== src/Projection/Rows.antt =====
-- `_upsert`, `_delete`, `_update`, `_upsert_alert`, `_resolve_fk_or_none` and
-- `_ensure_execution_run_placeholder` of app/projections/projector.py.
pub mod Stable
pub mod Replay
pub mod Reads
pub mod Written
use fast_api_layers.Prelude.{
  List, ℕ, ◌+◌, String, Bool, ◌||◌, false, true, Option, none, some, [], ◌∷◌, ◌++◌, if◌then◌else◌,
}
use fast_api_layers.Value.{
  Value, null, text, datetime, arr, tup, obj, Fields, end, field, dict, get, get_or, set, truthy,
}
use fast_api_layers.Effect.{
  Result, ok, err, Action, pure, raise, gets, modify, lift, or_raise, key_error, type_error,
  attribute_error, ◌>>=◌, ◌>>◌,
}
use fast_api_layers.Platform.{Host, str}
use fast_api_layers.Projection.Json.{json_safe, parse_datetime}
use fast_api_layers.Projection.Session.{
  Table, alerts, execution_runs, Entity, Row, Session, Orm, find, replace, remove, set_attrs, blank,
  identity,
}

-- `payload[k]`
abbrev pub item : String → Fields → Result Value
item k d = or_raise (key_error k) (get k d)

-- `payload.items()`, which only a dictionary has
abbrev pub items_of : Value → Result Fields
items_of (obj d) = ok d
items_of _ = err attribute_error

-- `dict(value)`; a list of pairs does not occur and is refused here too.
abbrev pub copy_of : Value → Result Fields
copy_of (obj d) = ok d
copy_of _ = err type_error

module _ ⦃h : Host⦄ where
  -- `json_safe(value) if isinstance(value, (dict, list, tuple)) else value`
  unfoldable pub normalise : Value → Value
  normalise (obj d) = json_safe (obj d)
  normalise (arr items) = json_safe (arr items)
  normalise (tup items) = json_safe (tup items)
  normalise v = v

  unfoldable pub normalise_fields : Fields → Fields
  normalise_fields end = end
  normalise_fields (field k v d) = field k (normalise v) (normalise_fields d)

-- Is some keyword refused by the model's constructor?
unfoldable pub refused : (String → Bool) → Fields → Bool
refused refuses end = false
refused refuses (field k v d) = refuses k || refused refuses d

module _ ⦃o : Orm⦄ where
  -- `session.add(model_cls(**payload))`
  unfoldable pub add : Table → String → Fields → Action Session (Unit {0})
  add table id payload s = if refused (o.refuses table) payload then (err type_error, s) else (
    ok tt,
    record s {
      rows = s.rows ++ record { table = table; id = id; entity = set_attrs payload blank } ∷ [];
    },
  )

  -- Write the attributes of the entity if there is one, else add it.
  unfoldable pub store : Table → String → Fields → Action Session (Unit {0})
  unfolding add
  store table id payload s = elim (find table id s.rows) [
    | none ↦ add table id payload s
    | some entity ↦ (ok tt, record s { rows = replace table id (set_attrs payload entity) s.rows })
  ]

module _ ⦃h : Host⦄ ⦃o : Orm⦄ where
  unfoldable pub upsert : Table → Fields → Action Session (Unit {0})
  upsert table payload = do
    key ← lift (item "id" (normalise_fields payload))
    id ← lift (identity key)
    store table id (normalise_fields payload)

  unfoldable pub upsert_alert : Fields → Action Session (Unit {0})
  upsert_alert payload = do
    last_sent_at ← lift (parse_datetime (get_or "last_sent_at" null payload))
    let payload = set "last_sent_at" last_sent_at payload
    key ← lift (item "id" payload)
    id ← lift (identity key)
    store alerts id payload

unfoldable pub delete : Table → Value → Action Session (Unit {0})
delete table entity_id = do
  id ← lift (identity entity_id)
  modify (λ s. record s { rows = remove table id s.rows })

-- A missing row is ignored, before anything is asked of the changes.
unfoldable pub amend :
    ⦃h : Host⦄ → Table → String → Value → Option Entity → Action Session (Unit {0})
amend table id changes none = pure tt
amend table id changes (some entity) = do
  fields ← lift (items_of changes)
  modify (λ s. record s {
    rows = replace table id (set_attrs (normalise_fields fields) entity) s.rows;
  })

unfoldable pub update : ⦃h : Host⦄ → Table → Value → Value → Action Session (Unit {0})
unfolding amend
update table entity_id changes = do
  id ← lift (identity entity_id)
  found ← gets (λ s. find table id s.rows)
  amend table id changes found

-- The reference, if it is given and its row is there.
unfoldable pub resolve_fk_or_none : Table → Value → Action Session Value
resolve_fk_or_none table entity_id =
    if truthy entity_id
    then (do
      id ← lift (identity entity_id)
      found ← gets (λ s. find table id s.rows)
      pure (elim found [ none ↦ null | some entity ↦ entity_id ]))
    else pure null

-- `started_at or utc_now()`: a parsed date is true, and the clock is read in its absence only.
unfoldable pub or_now : ⦃h : Host⦄ → Value → Action Session Value
or_now ⦃h⦄ started_at s =
    if truthy started_at
    then (ok started_at, s)
    else (ok (datetime (h.now s.clock)), record s { clock = s.clock + 1 })

unfoldable pub placeholder : String → String → String → Value → Fields → Fields
placeholder execution_run_id correlation_id trace_id started_at input_payload = dict (
    ("id", text execution_run_id)
    ∷ ("deployment_id", null)
    ∷ ("graph_definition_id", null)
    ∷ ("status", text "running")
    ∷ ("input_payload", obj input_payload)
    ∷ ("output_payload", null)
    ∷ ("started_at", started_at)
    ∷ ("finished_at", null)
    ∷ ("correlation_id", text correlation_id)
    ∷ ("trace_id", text trace_id)
    ∷ ("error_message", null)
    ∷ [])

-- A run for a step that came before its `execution.started`.
unfoldable pub ensure_execution_run_placeholder :
    ⦃h : Host⦄ → ⦃o : Orm⦄ → Value → String → String → Value → Fields → Action Session (Unit {0})
unfolding or_now add
ensure_execution_run_placeholder execution_run_id correlation_id trace_id started_at input_payload =
    do
      id ← lift (identity execution_run_id)
      found ← gets (λ s. find execution_runs id s.rows)
      elim found [
        | some entity ↦ pure tt
        | none ↦ do
          started_at ← or_now started_at
          add execution_runs id (placeholder id correlation_id trace_id started_at input_payload)
      ]
