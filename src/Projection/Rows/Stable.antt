-- ===== src/Projection/Rows/Stable.antt =====
-- The laws of the row operations of Projection/Session.antt.
use fast_api_layers.Prelude.{
  String, ◌≡◌, refl, fun_ext, true, false, Option, none, some, List, [], ◌∷◌, ◌++◌, ◌==◌, eq_iff,
  eq_refl, arith, if◌then◌else◌,
}
use fast_api_layers.Value.{Value, Fields, end, field}
use fast_api_layers.Projection.Session.{
  Table, table_name, Entity, Row, is_row, find, replace, remove, set_attr, set_attrs,
}

-- The last value that a payload has under a name.
final : Fields → String → Option Value
final end j = none
final (field k v rest) j = elim (final rest j) [
  | some w ↦ some w
  | none ↦ if k == j then some v else none
]

abbrev or_else : Option Value → Option Value → Option Value
or_else none o = o
or_else (some v) o = some v

set_attrs-eq : (p : Fields) (e : Entity) (j : String) → set_attrs p e j ≡ or_else (final p j) (e j)
unfolding set_attrs final
set_attrs-eq end e j = refl
set_attrs-eq (field k v rest) e j = ground (arith, set_attrs-eq rest (set_attr k v e) j)

or_else_idem : (o x : Option Value) → or_else o (or_else o x) ≡ or_else o x
or_else_idem none x = refl
or_else_idem (some v) x = refl

pub set_attrs_idem : (p : Fields) (e : Entity) → set_attrs p (set_attrs p e) ≡ set_attrs p e
set_attrs_idem p e = fun_ext (λ j. simp set_attrs-eq (or_else_idem (final p j) (e j)))

pub is_row_self : (t : Table) (i : String) → is_row t i t i ≡ true
unfolding is_row
is_row_self t i = simp eq_refl

pub is_row-table :
    (t t' : Table) (i i' : String)
    → (table_name t' == table_name t) ≡ false
    → is_row t i t' i' ≡ false
unfolding is_row
is_row-table t t' i i' h = rw h

-- A row is not that of two keys that differ.
is_row-disjoint :
    (t t' a : Table) (i i' b : String)
    → is_row t i t' i' ≡ false
    → is_row t' i' a b ≡ true
    → is_row t i a b ≡ false
unfolding is_row
is_row-disjoint t t' a i i' b h k =
    ground (arith, eq_iff (table_name a) (table_name t'), eq_iff b i')

module _ (t : Table) (i : String) where
  pub find-replace_self :
      (e x : Entity) (rows : List Row)
      → find t i rows ≡ some x
      → find t i (replace t i e rows) ≡ some e
  unfolding find replace
  find-replace_self e x [] h = cc
  find-replace_self e x (r ∷ rows) h = ground (arith, find-replace_self e x rows)

  pub replace-id :
      (e : Entity) (rows : List Row) → find t i rows ≡ some e → replace t i e rows ≡ rows
  unfolding find replace
  replace-id e [] h = refl
  replace-id e (r ∷ rows) h = ground (arith, replace-id e rows)

  pub find-append :
      (rows more : List Row) → find t i rows ≡ none → find t i (rows ++ more) ≡ find t i more
  unfolding find
  find-append [] more h = refl
  find-append (r ∷ rows) more h = ground (arith, find-append rows more)

  module _ (t' : Table) (i' : String) (apart : is_row t i t' i' ≡ false) where
    pub find-replace_ne :
        (e : Entity) (rows : List Row) → find t i (replace t' i' e rows) ≡ find t i rows
    unfolding find replace
    find-replace_ne e [] = refl
    find-replace_ne e (r ∷ rows) =
        ground (arith, find-replace_ne e rows, is_row-disjoint t t' r.table i i' r.id apart)

    pub find-remove_ne : (rows : List Row) → find t i (remove t' i' rows) ≡ find t i rows
    unfolding find remove
    find-remove_ne [] = refl
    find-remove_ne (r ∷ rows) =
        ground (arith, find-remove_ne rows, is_row-disjoint t t' r.table i i' r.id apart)

    pub find-append_ne :
        (e : Entity) (rows : List Row)
        → find t i (rows ++ record { table = t'; id = i'; entity = e } ∷ []) ≡ find t i rows
    unfolding find
    find-append_ne e [] = rw apart
    find-append_ne e (r ∷ rows) = ground (arith, find-append_ne e rows)

  pub find-remove_self : (rows : List Row) → find t i (remove t i rows) ≡ none
  unfolding find remove
  find-remove_self [] = refl
  find-remove_self (r ∷ rows) = ground (arith, find-remove_self rows)

  pub remove-id : (rows : List Row) → find t i rows ≡ none → remove t i rows ≡ rows
  unfolding find remove
  remove-id [] h = refl
  remove-id (r ∷ rows) h = ground (arith, remove-id rows)

  pub find-added :
      (e : Entity) (rows : List Row)
      → find t i rows ≡ none
      → find t i (rows ++ record { table = t; id = i; entity = e } ∷ []) ≡ some e
  unfolding find
  find-added e rows h = rw (find-append rows _ h) (rw is_row_self refl)
