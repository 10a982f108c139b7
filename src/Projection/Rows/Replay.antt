-- ===== src/Projection/Rows/Replay.antt =====
-- Row operations that run again after they succeeded.
use fast_api_layers.Prelude.{
  ℕ, String, ◌≡◌, refl, ◌∙◌, false, Option-cases, inl, inr, Option, none, some, List, ◌==◌, arith,
}
use fast_api_layers.Value.{Value, obj, Fields}
use fast_api_layers.Effect.{Result, ok, err, Action, lift, continue, ◌>>=◌, ◌>>◌}
use fast_api_layers.Platform.{Host}
use fast_api_layers.Projection.Session.{
  Table, table_name, Entity, Row, Session, Orm, is_row, find, replace, remove, set_attrs, blank,
  identity,
}
use fast_api_layers.Projection.Rows.{item, normalise_fields, store, upsert, amend, delete, update}
use fast_api_layers.Projection.Rows.Stable.{
  set_attrs_idem, is_row-table, find-replace_self, replace-id, find-added, find-replace_ne,
  find-append_ne, find-remove_self, remove-id,
}

-- After a run that succeeded, one more run succeeds and leaves the session as it is.
abbrev pub Replayable : Action Session (Unit {0}) → Type 0
Replayable m = (s s' : Session) → m s ≡ (ok tt, s') → m s' ≡ (ok tt, s')

-- A run that succeeded left every row of the table as it was.
abbrev pub Keeps : Table → Action Session (Unit {0}) → Type 0
Keeps t m = (s s' : Session) (i : String) → m s ≡ (ok tt, s') → find t i s'.rows ≡ find t i s.rows

-- The row is there, and has every attribute of the payload.
abbrev Holds : Table → String → Fields → List Row → Type 0
Holds t i p rows = (e : Entity) × (find t i rows ≡ some e) × (set_attrs p e ≡ e)

module _ ⦃o : Orm⦄ (t : Table) (i : String) (p : Fields) where
  store-Holds : (s s' : Session) → store t i p s ≡ (ok tt, s') → Holds t i p s'.rows
  unfolding store
  store-Holds s s' h = elim (Option-cases (find t i s.rows)) [
    | inl new ↦ (
      set_attrs p blank,
      ground (arith, find-added t i (set_attrs p blank) s.rows new),
      set_attrs_idem p blank,
    )
    | inr (e, old) ↦ (
      set_attrs p e,
      ground (arith, find-replace_self t i (set_attrs p e) e s.rows old),
      set_attrs_idem p e,
    )
  ]

  Holds-store : (s : Session) → Holds t i p s.rows → store t i p s ≡ (ok tt, s)
  unfolding store
  Holds-store s (e, found, same) = rw (found, store) (rw (same, replace-id t i e s.rows found))

  -- Another row of the session is left as it was.
  store-ne :
      (t' : Table) (i' : String)
      → is_row t' i' t i ≡ false
      → (s s' : Session) → store t i p s ≡ (ok tt, s')
      → find t' i' s'.rows ≡ find t' i' s.rows
  unfolding store
  store-ne t' i' apart s s' h = elim (Option-cases (find t i s.rows)) [
    | inl new ↦ ground (arith, find-append_ne t' i' t i apart (set_attrs p blank) s.rows)
    | inr (e, old) ↦ ground (arith, find-replace_ne t' i' t i apart (set_attrs p e) s.rows)
  ]

  pub store-Replayable : Replayable (store t i p)
  store-Replayable s s' h = Holds-store s' (store-Holds s s' h)

rows_of :
    {r : List Row} {c : ℕ} {s' : Session}
    → ◌≡◌ {A = Result (Unit {0}) × Session} (ok tt, record { rows = r; clock = c }) (ok tt, s')
    → r ≡ s'.rows
rows_of h = cc

-- `k` leaves a session in which `m` changes nothing, as one in which it changes nothing.
abbrev pub Undisturbed : Action Session (Unit {0}) → Action Session (Unit {0}) → Type 0
Undisturbed m k = (s s' : Session) → m s ≡ (ok tt, s) → k s ≡ (ok tt, s') → m s' ≡ (ok tt, s')

-- The rules for the steps of a handler: a read of the payload, and one operation after another.
module _ {A : Type 0} where
  pub Replayable-lift :
      (r : Result A) (f : A → Action Session (Unit {0}))
      → ((a : A) → Replayable (f a))
      → Replayable (lift r >>= f)
  Replayable-lift (ok a) f kf s s' h = kf a s s' h
  Replayable-lift (err e) f kf s s' h = cc

  pub Keeps-lift :
      (t : Table) (r : Result A) (f : A → Action Session (Unit {0}))
      → ((a : A) → Keeps t (f a))
      → Keeps t (lift r >>= f)
  Keeps-lift t (ok a) f kf s s' i h = kf a s s' i h
  Keeps-lift t (err e) f kf s s' i h = cc

  pub Undisturbed-lift :
      (r : Result A) (f : A → Action Session (Unit {0})) (k : Action Session (Unit {0}))
      → ((a : A) → Undisturbed (f a) k)
      → Undisturbed (lift r >>= f) k
  Undisturbed-lift (ok a) f k kf s s' h = kf a s s' h
  Undisturbed-lift (err e) f k kf s s' h = cc

after-ok :
    (r : Result (Unit {0}) × Session) (k : Action Session (Unit {0})) {s' : Session}
    → continue r (λ _. k) ≡ (ok tt, s')
    → (s : Session) × (r ≡ (ok tt, s)) × (k s ≡ (ok tt, s'))
after-ok (ok tt, s) k h = (s, refl, h)
after-ok (err e, s) k h = cc

module _ (m k : Action Session (Unit {0})) where
  pub Replayable-then : Replayable m → Replayable k → Undisturbed m k → Replayable (m >> k)
  Replayable-then rm rk u s s'' h =
      let (s', first, second) = after-ok (m s) k h in
      rw (u s' s'' (rm s s' first) second) (rk s' s'' second)

module _ ⦃h : Host⦄ ⦃o : Orm⦄ (t : Table) (p : Fields) where
  pub upsert-Replayable : Replayable (upsert t p)
  unfolding upsert
  upsert-Replayable =
      Replayable-lift (item "id" (normalise_fields p)) _
        λ v. Replayable-lift (identity v) _ λ i. store-Replayable t i (normalise_fields p)

  pub upsert-Keeps : (t' : Table) → (table_name t == table_name t') ≡ false → Keeps t' (upsert t p)
  unfolding upsert
  upsert-Keeps t' apart = Keeps-lift t' (item "id" (normalise_fields p)) _ λ v.
      Keeps-lift t' (identity v) _ λ i s s' i' run.
        store-ne t i (normalise_fields p) t' i' (is_row-table t' t i' i apart) s s' run

  pub upsert-Undisturbed : (k : Action Session (Unit {0})) → Keeps t k → Undisturbed (upsert t p) k
  unfolding upsert
  upsert-Undisturbed k keeps = Undisturbed-lift (item "id" (normalise_fields p)) _ k λ v.
      Undisturbed-lift (identity v) _ k λ i s s' same run.
        let (e, found, full) = store-Holds t i (normalise_fields p) s s same in
        Holds-store t i (normalise_fields p) s' (e, keeps s s' i run ∙ found, full)

-- A row that was removed stays removed.
pub delete-Replayable : (t : Table) (v : Value) → Replayable (delete t v)
unfolding delete
delete-Replayable t v = Replayable-lift (identity v) _ λ i s s' h.
    let e : remove t i s'.rows ≡ s'.rows =
      remove-id t i s'.rows (rw (← rows_of h) (find-remove_self t i s.rows)) in
    rw e

-- Attributes that were set stay set.
module _ ⦃h : Host⦄ (t : Table) (i : String) where
  amended :
      (changes : Value) (found : Option Entity) (s s' : Session)
      → find t i s.rows ≡ found
      → amend t i changes found s ≡ (ok tt, s')
      → amend t i changes (find t i s'.rows) s' ≡ (ok tt, s')
  unfolding amend
  amended changes none s s' absent run = let same : s ≡ s' = cc in rw (← same) (rw absent refl)
  amended (obj d) (some e) s s' present run =
      let p = normalise_fields d in
      let rows : replace t i (set_attrs p e) s.rows ≡ s'.rows = rows_of run in
      let found : find t i s'.rows ≡ some (set_attrs p e) =
        rw (← rows) (find-replace_self t i (set_attrs p e) e s.rows present) in
      rw found (rw (set_attrs_idem, replace-id t i (set_attrs p e) s'.rows found))
  amended changes (some e) s s' present run = cc

pub update-Replayable :
    ⦃h : Host⦄ → (t : Table) (v changes : Value) → Replayable (update t v changes)
unfolding update
update-Replayable t v changes =
    Replayable-lift (identity v) _ λ i s s' run. amended t i changes (find t i s.rows) s s' refl run
