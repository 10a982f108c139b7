-- ===== src/Projection/Json/Safe.antt =====
-- What `json_safe` leaves in a value.
use fast_api_layers.Prelude.{◌≡◌, refl, ap}
use fast_api_layers.Value.{
  Value, null, bool, int, minus_int, float, text, datetime, arr, tup, obj, Items, nil, cons, Fields,
  end, field,
}
use fast_api_layers.Platform.{Host}
use fast_api_layers.Projection.Json.{json_safe, json_safe_items, json_safe_fields}

-- A value that JSON can carry: no datetime and no tuple stands in it, at any depth.
unfoldable mutual
  pub IsPlain : Value → Type 0
  IsPlain (datetime t) = ⊥
  IsPlain (tup items) = ⊥
  IsPlain (arr items) = ArePlain items
  IsPlain (obj d) = HasPlain d
  IsPlain v = Unit

  pub ArePlain : Items → Type 0
  ArePlain nil = Unit
  ArePlain (cons v items) = IsPlain v × ArePlain items

  pub HasPlain : Fields → Type 0
  HasPlain end = Unit
  HasPlain (field k v d) = IsPlain v × HasPlain d

module _ ⦃h : Host⦄ where
  mutual
    unfolding json_safe json_safe_items json_safe_fields IsPlain ArePlain HasPlain

    value-IsPlain : (v : Value) → IsPlain (json_safe v)
    value-IsPlain null = tt
    value-IsPlain (bool b) = tt
    value-IsPlain (int n) = tt
    value-IsPlain (minus_int n) = tt
    value-IsPlain (float n) = tt
    value-IsPlain (text s) = tt
    value-IsPlain (datetime t) = tt
    value-IsPlain (arr items) = items_plain items
    value-IsPlain (tup items) = items_plain items
    value-IsPlain (obj d) = fields_plain d

    items_plain : (items : Items) → ArePlain (json_safe_items items)
    items_plain nil = tt
    items_plain (cons v items) = (value-IsPlain v, items_plain items)

    fields_plain : (d : Fields) → HasPlain (json_safe_fields d)
    fields_plain end = tt
    fields_plain (field k v d) = (value-IsPlain v, fields_plain d)

  mutual
    unfolding json_safe json_safe_items json_safe_fields IsPlain ArePlain HasPlain

    value_kept : (v : Value) → IsPlain v → json_safe v ≡ v
    value_kept null p = refl
    value_kept (bool b) p = refl
    value_kept (int n) p = refl
    value_kept (minus_int n) p = refl
    value_kept (float n) p = refl
    value_kept (text s) p = refl
    value_kept (datetime t) p = absurd p
    value_kept (arr items) p = ap arr (items_kept items p)
    value_kept (tup items) p = absurd p
    value_kept (obj d) p = ap obj (fields_kept d p)

    items_kept : (items : Items) → ArePlain items → json_safe_items items ≡ items
    items_kept nil p = refl
    items_kept (cons v items) (p, ps) = rw (value_kept v p) (rw (items_kept items ps) refl)

    fields_kept : (d : Fields) → HasPlain d → json_safe_fields d ≡ d
    fields_kept end p = refl
    fields_kept (field k v d) (p, ps) = rw (value_kept v p) (rw (fields_kept d ps) refl)

  -- The value that `json_safe` gives has no datetime and no tuple at any depth, and `json_safe`
  -- changes exactly the values that have one: it leaves a value without them as it is, and so
  -- what it gave.
  pub json_safe-IsPlain :
      (v : Value)
      → IsPlain (json_safe v)
        × (json_safe (json_safe v) ≡ json_safe v)
        × ((IsPlain v → json_safe v ≡ v) × (json_safe v ≡ v → IsPlain v))
  json_safe-IsPlain v = (
    value-IsPlain v,
    value_kept (json_safe v) (value-IsPlain v),
    (value_kept v, λ e. rw e at (value-IsPlain v)),
  )
