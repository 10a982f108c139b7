-- ===== src/Projection/Rows/Written.antt =====
-- What the row operations leave under the key that they are given.
use fast_api_layers.Prelude.{
  String, Bool, true, ◌&&◌, arith, false, ◌≡◌, refl, ◌∙◌, Option, none, some, [], ◌∷◌, ◌++◌, ◌==◌,
  Option-cases, inl, inr,
}
use fast_api_layers.Value.{text, obj, Fields, end, field, get}
use fast_api_layers.Effect.{ok, continue}
use fast_api_layers.Platform.{Host}
use fast_api_layers.Projection.Session.{
  Table, table_name, Entity, Session, Orm, find, replace, set_attrs, blank,
}
use fast_api_layers.Projection.Columns.{columns, is_among, are_columns}
use fast_api_layers.Projection.Rows.{
  normalise_fields, refused, add, store, upsert, amend, update, delete,
}
use fast_api_layers.Projection.Rows.Replay.{upsert-Keeps}
use fast_api_layers.Projection.Rows.Stable.{find-added, find-replace_self, find-remove_self}

-- the entity that a row operation starts from
abbrev pub or_blank : Option Entity → Entity
or_blank none = blank
or_blank (some e) = e

-- the row after its attributes were set, where there is a row
abbrev pub changed : Fields → Option Entity → Option Entity
changed p none = none
changed p (some e) = some (set_attrs p e)

both : (a b : Bool) → (a && b) ≡ true → (a ≡ true) × (b ≡ true)
both true b e = (refl, e)
both false b e = ground arith

-- a constructor that takes the columns takes a payload of columns
refused-columns :
    (refuses : String → Bool) (t : Table) (p : Fields)
    → ((name : String) → is_among name (columns t) ≡ true → refuses name ≡ false)
    → are_columns t p ≡ true
    → refused refuses p ≡ false
unfolding refused are_columns
refused-columns refuses t end knows known = refl
refused-columns refuses t (field k v p) knows known =
    let (here, rest) = both (is_among k (columns t)) (are_columns t p) known in
    rw (knows k here) (refused-columns refuses t p knows rest)

module _ ⦃o : Orm⦄
    (knows : (t : Table) (name : String)
      → is_among name (columns t) ≡ true
      → o.refuses t name ≡ false) where
  store-written :
      (t : Table) (i : String) (p : Fields) (s : Session)
      → are_columns t p ≡ true
      → (s' : Session) × (store t i p s ≡ (ok tt, s'))
        × (find t i s'.rows ≡ some (set_attrs p (or_blank (find t i s.rows))))
  unfolding store add
  store-written t i p s known = elim (Option-cases (find t i s.rows)) [
    | inl absent ↦ (
      record s { rows = s.rows ++ record { table = t; id = i; entity = set_attrs p blank } ∷ [] },
      rw (absent, store) (rw (refused-columns (o.refuses t) t p (knows t) known) refl),
      rw absent (find-added t i (set_attrs p blank) s.rows absent),
    )
    | inr (e, present) ↦ (
      record s { rows = replace t i (set_attrs p e) s.rows },
      rw (present, store) refl,
      rw present (find-replace_self t i (set_attrs p e) e s.rows present),
    )
  ]

  pub upsert-written :
      ⦃h : Host⦄
      → (t : Table) (i : String) (p : Fields) (s : Session)
      → get "id" (normalise_fields p) ≡ some (text i)
      → are_columns t (normalise_fields p) ≡ true
      → (s' : Session) × (upsert t p s ≡ (ok tt, s'))
        × (find t i s'.rows ≡ some (set_attrs (normalise_fields p) (or_blank (find t i s.rows))))
  unfolding upsert
  upsert-written t i p s has_id known =
      let (s', stored, found) = store-written t i (normalise_fields p) s known in
      (s', rw has_id stored, found)

  -- one upsert after another, to another table
  pub upserts-written :
      ⦃h : Host⦄
      → (t t' : Table) (i i' : String) (p p' : Fields) (s : Session)
      → (table_name t' == table_name t) ≡ false
      → get "id" (normalise_fields p) ≡ some (text i)
      → get "id" (normalise_fields p') ≡ some (text i')
      → are_columns t (normalise_fields p) ≡ true
      → are_columns t' (normalise_fields p') ≡ true
      → (s' : Session) × (continue (upsert t p s) (λ _. upsert t' p') ≡ (ok tt, s'))
        × (find t i s'.rows ≡ some (set_attrs (normalise_fields p) (or_blank (find t i s.rows))))
        × (e : Entity) × (find t' i' s'.rows ≡ some (set_attrs (normalise_fields p') e))
  upserts-written t t' i i' p p' s apart has_id has_id' known known' =
      let (s1, first, found) = upsert-written t i p s has_id known in
      let (s2, second, found') = upsert-written t' i' p' s1 has_id' known' in
      let kept = upsert-Keeps t' p' t apart s1 s2 i second in
      (s2, rw first second, kept ∙ found, _, found')

pub update-written :
    ⦃h : Host⦄
    → (t : Table) (i : String) (p : Fields) (s : Session)
    → (s' : Session) × (update t (text i) (obj p) s ≡ (ok tt, s'))
      × (find t i s'.rows ≡ changed (normalise_fields p) (find t i s.rows))
unfolding update amend
update-written t i p s = elim (Option-cases (find t i s.rows)) [
  | inl absent ↦ (s, rw absent refl, rw absent refl)
  | inr (e, present) ↦ (
    record s { rows = replace t i (set_attrs (normalise_fields p) e) s.rows },
    rw present refl,
    rw present (find-replace_self t i (set_attrs (normalise_fields p) e) e s.rows present),
  )
]

pub delete-written :
    (t : Table) (i : String) (s : Session)
    → (s' : Session) × (delete t (text i) s ≡ (ok tt, s')) × (find t i s'.rows ≡ none)
unfolding delete
delete-written t i s = (_, refl, find-remove_self t i s.rows)
