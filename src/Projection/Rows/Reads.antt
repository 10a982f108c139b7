-- ===== src/Projection/Rows/Reads.antt =====
-- The operations that look a row up before the handler goes on: the references of a run, and the
-- run of a step.
use fast_api_layers.Prelude.{
  String, Bool, true, false, ◌≡◌, refl, fun_ext, ◌∙◌, Option-cases, inl, inr, Option, none, some,
  List, arith, if◌then◌else◌,
}
use fast_api_layers.Value.{Fields, Value, null, text, datetime, truthy}
use fast_api_layers.Effect.{Result, ok, err, Action, continue, ◌>>=◌}
use fast_api_layers.Platform.{Host}
use fast_api_layers.Projection.Session.{
  Table, execution_runs, Entity, Row, Session, Orm, find, set_attrs, blank, identity,
}
use fast_api_layers.Projection.Rows.{
  resolve_fk_or_none, placeholder, ensure_execution_run_placeholder,
}
use fast_api_layers.Projection.Handlers.{is_run}
use fast_api_layers.Projection.Rows.Stable.{find-added}
use fast_api_layers.Projection.Rows.Replay.{Replayable, Keeps, Undisturbed}

-- What a lookup of an optional reference gives, from the rows of its table alone.
pub reference :
    {A : Type 0} → A → (Value → Option Entity → A) → Value → (String → Option Entity) → Result A
reference absent given v rows =
    if truthy v
    then elim (identity v) [ ok i ↦ ok (given v (rows i)) | err e ↦ err e ]
    else ok absent

abbrev pub table_rows : Table → List Row → String → Option Entity
table_rows t rows i = find t i rows

pub kept : Value → Option Entity → Value
kept v none = null
kept v (some entity) = v

pub known : Value → Option Entity → Bool
known v none = false
known v (some entity) = true

pub resolve_fk_or_none-eq :
    (t : Table) (v : Value) (s : Session)
    → resolve_fk_or_none t v s ≡ (reference null kept v (table_rows t s.rows), s)
unfolding resolve_fk_or_none reference kept
resolve_fk_or_none-eq t v s = ground arith

pub is_run-eq :
    ⦃h : Host⦄
    → ⦃o : Orm⦄ → (v : Value) (s : Session)
    → is_run v s ≡ (reference true known v (table_rows execution_runs s.rows), s)
unfolding is_run reference known
is_run-eq v s = ground arith

-- A step that only reads the rows of `t` may stand before a handler's writes to other tables.
module _ {A : Type 0} (t : Table) (m : Action Session A)
    (read : (String → Option Entity) → Result A)
    (reads : (s : Session) → m s ≡ (read (table_rows t s.rows), s))
    (f : A → Action Session (Unit {0})) where
  pub Replayable-read :
      ((a : A) → Replayable (f a)) → ((a : A) → Keeps t (f a)) → Replayable (m >>= f)
  Replayable-read rf kf s s' h = go (read (table_rows t s.rows)) refl (rw (reads s) at h)
    where
      go :
          (r : Result A)
          → read (table_rows t s.rows) ≡ r
          → continue (r, s) f ≡ (ok tt, s')
          → continue (m s') f ≡ (ok tt, s')
      go (ok a) e run = rw (reads s') (rw (fun_ext (λ i. kf a s s' i run)) (rw e (rf a s s' run)))
      go (err x) e run = cc

  pub Keeps-read : (t' : Table) → ((a : A) → Keeps t' (f a)) → Keeps t' (m >>= f)
  Keeps-read t' kf s s' i h = go (read (table_rows t s.rows)) (rw (reads s) at h)
    where
      go : (r : Result A) → continue (r, s) f ≡ (ok tt, s') → find t' i s'.rows ≡ find t' i s.rows
      go (ok a) run = kf a s s' i run
      go (err x) run = cc

-- The run of a step: after the call it is there, and where it is there the call does nothing.
module _ ⦃h : Host⦄ ⦃o : Orm⦄ (i c tr : String) (st : Value) (input : Fields) where
  ensured :
      (s s' : Session)
      → ensure_execution_run_placeholder (text i) c tr st input s ≡ (ok tt, s')
      → (e : Entity) × (find execution_runs i s'.rows ≡ some e)
  unfolding ensure_execution_run_placeholder
  ensured s s' run = elim (Option-cases (find execution_runs i s.rows)) [
    | inr (e, old) ↦ (e, ground arith)
    | inl new ↦
        let e =
          set_attrs (placeholder i c tr (if truthy st then st else datetime (h.now s.clock)) input)
            blank in
        (e, ground (arith, find-added execution_runs i e s.rows new))
  ]

  ensure-id :
      (s : Session) (e : Entity)
      → find execution_runs i s.rows ≡ some e
      → ensure_execution_run_placeholder (text i) c tr st input s ≡ (ok tt, s)
  unfolding ensure_execution_run_placeholder
  ensure-id s e found = rw (found, ensure_execution_run_placeholder) refl

module _ ⦃h : Host⦄ ⦃o : Orm⦄ (c tr : String) (st : Value) (input : Fields) where
  pub ensure-Replayable :
      (v : Value) → Replayable (ensure_execution_run_placeholder v c tr st input)
  ensure-Replayable (text i) s s' run =
      let (e, found) = ensured i c tr st input s s' run in ensure-id i c tr st input s' e found
  ensure-Replayable _ s s' run = unfold ensure_execution_run_placeholder in cc

  pub ensure-Undisturbed :
      (v : Value) (k : Action Session (Unit {0}))
      → Keeps execution_runs k
      → Undisturbed (ensure_execution_run_placeholder v c tr st input) k
  ensure-Undisturbed (text i) k keeps s s' same run =
      let (e, found) = ensured i c tr st input s s same in
      ensure-id i c tr st input s' e (keeps s s' i run ∙ found)
  ensure-Undisturbed _ k keeps s s' same run = unfold ensure_execution_run_placeholder in cc
