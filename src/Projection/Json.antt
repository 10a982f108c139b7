-- ===== src/Projection/Json.antt =====
-- `json_safe` and `parse_datetime` of app/projections/projector.py.
pub mod Safe
use Prim.Native.Char.{code}
use Prim.Native.String.{[], ◌∷◌, ◌++◌}
use fast_api_layers.Prelude.{String, none, some, nat_eq, if◌then◌else◌}
use fast_api_layers.Value.{
  Value, null, text, datetime, arr, tup, obj, Items, nil, cons, Fields, end, field,
}
use fast_api_layers.Effect.{Result, ok, err, value_error, attribute_error}
use fast_api_layers.Platform.{Host}

module _ ⦃h : Host⦄ where
  unfoldable mutual
    pub json_safe : Value → Value
    json_safe (datetime t) = text (h.isoformat t)
    json_safe (obj d) = obj (json_safe_fields d)
    json_safe (arr items) = arr (json_safe_items items)
    json_safe (tup items) = arr (json_safe_items items)
    json_safe v = v

    pub json_safe_items : Items → Items
    json_safe_items nil = nil
    json_safe_items (cons v items) = cons (json_safe v) (json_safe_items items)

    pub json_safe_fields : Fields → Fields
    json_safe_fields end = end
    json_safe_fields (field k v d) = field k (json_safe v) (json_safe_fields d)

-- `value.replace("Z", "+00:00")`
unfoldable pub replace_z : String → String
replace_z [] = []
replace_z (c ∷ s) = if nat_eq (code c) b'Z' then "+00:00" ++ replace_z s else c ∷ replace_z s

module _ ⦃h : Host⦄ where
  -- A value with no method `replace` is an `AttributeError`.
  unfoldable pub parse_datetime : Value → Result Value
  unfolding replace_z
  parse_datetime null = ok null
  parse_datetime (datetime t) = ok (datetime t)
  parse_datetime (text s) = elim (h.fromisoformat (replace_z s)) [
    | none ↦ err value_error
    | some t ↦ ok (datetime t)
  ]
  parse_datetime v = err attribute_error
