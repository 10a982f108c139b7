-- ===== src/Orchestration/Run/Quiet.antt =====
-- Actions that publish nothing on the topic of executions and leave the gauge of executions alone.
use fast_api_layers.Prelude.{
  ℕ, String, ◌≡◌, refl, ap, ◌∙◌, true, false, Bool, Option-cases, inl, inr, List, [], ◌∷◌, ◌++◌,
  ◌==◌, append_assoc, append-nil, All, All-append, sym, if◌then◌else◌,
}
use fast_api_layers.Value.{Fields}
use fast_api_layers.Effect.{PyError, Result, ok, err, Action, lift, continue, handle, catch, ◌>>=◌}
use fast_api_layers.Events.{EventEnvelope}
use fast_api_layers.Topics.{agent_executions_topic}
use fast_api_layers.Platform.{Host, uuid4, utc_now, publish, event_envelope}
use fast_api_layers.Platform.Settled.{publish-ok, publish-err}
use fast_api_layers.Orchestration.Run.{Run, Machine, in_world, perf_counter, elapsed_ms, observe}

abbrev pub IsElsewhere : String × EventEnvelope → Type 0
IsElsewhere p = (p.0 == agent_executions_topic) ≡ false

-- From one state to another by publications elsewhere.
pub record Aside (s s' : Run) : Type 0 where
  pub events : List (String × EventEnvelope)
  pub published_eq : s'.world.published ≡ s.world.published ++ events
  pub elsewhere : All IsElsewhere events
  pub incs_eq : s'.incs ≡ s.incs
  pub decs_eq : s'.decs ≡ s.decs

pub Aside-same :
    (s s' : Run)
    → s'.world.published ≡ s.world.published
    → s'.incs ≡ s.incs
    → s'.decs ≡ s.decs
    → Aside s s'
Aside-same s s' p i d = record {
  events = [];
  published_eq = p ∙ sym (append-nil s.world.published);
  elsewhere = tt;
  incs_eq = i;
  decs_eq = d;
}

pub Aside-trans : {s s1 s2 : Run} → Aside s s1 → Aside s1 s2 → Aside s s2
Aside-trans {s} {s1} {s2} a b = record {
  events = a.events ++ b.events;
  published_eq =
      b.published_eq
      ∙ ap (λ xs. xs ++ b.events) a.published_eq
      ∙ append_assoc s.world.published a.events b.events;
  elsewhere = All-append IsElsewhere a.events b.events a.elsewhere b.elsewhere;
  incs_eq = b.incs_eq ∙ a.incs_eq;
  decs_eq = b.decs_eq ∙ a.decs_eq;
}

abbrev pub IsQuiet : {A : Type 0} → Action Run A → Type 0
IsQuiet m = (s : Run) → Aside s (m s).1

pub still : (s : Run) → Aside s s
still s = Aside-same s s refl refl refl

module _ {A : Type 0} where
  pub IsQuiet-lift : (r : Result A) → IsQuiet (lift r)
  IsQuiet-lift r s = still s

  Aside-continue :
      {B : Type 0} (s : Run) (out : Result A × Run) (f : A → Action Run B)
      → Aside s out.1
      → ((a : A) → IsQuiet (f a))
      → Aside s (continue out f).1
  Aside-continue s (ok a, s1) f p q = Aside-trans p (q a s1)
  Aside-continue s (err e, s1) f p q = p

  pub IsQuiet-bind :
      {B : Type 0} (m : Action Run A) (f : A → Action Run B)
      → IsQuiet m
      → ((a : A) → IsQuiet (f a))
      → IsQuiet (m >>= f)
  IsQuiet-bind m f p q s = Aside-continue s (m s) f (p s) q

  -- a read that may fail, and what follows it
  pub IsQuiet-lift_then :
      {B : Type 0} (r : Result A) (f : A → Action Run B)
      → ((a : A) → IsQuiet (f a))
      → IsQuiet (lift r >>= f)
  IsQuiet-lift_then r f q s = Aside-continue s (r, s) f (still s) q

  Aside-handle :
      (s : Run) (out : Result A × Run) (f : PyError → Action Run A)
      → Aside s out.1
      → ((e : PyError) → IsQuiet (f e))
      → Aside s (handle out f).1
  Aside-handle s (ok a, s1) f p q = p
  Aside-handle s (err e, s1) f p q = Aside-trans p (q e s1)

  pub IsQuiet-catch :
      (m : Action Run A) (f : PyError → Action Run A)
      → IsQuiet m
      → ((e : PyError) → IsQuiet (f e))
      → IsQuiet (catch m f)
  IsQuiet-catch m f p q s = Aside-handle s (m s) f (p s) q

  pub IsQuiet-if :
      (b : Bool) (m n : Action Run A) → IsQuiet m → IsQuiet n → IsQuiet (if b then m else n)
  IsQuiet-if true m n p q = p
  IsQuiet-if false m n p q = q

pub perf_counter-IsQuiet : ⦃m : Machine⦄ → IsQuiet perf_counter
unfolding perf_counter
perf_counter-IsQuiet s = Aside-same s _ refl refl refl

pub elapsed_ms-IsQuiet : ⦃m : Machine⦄ → (started : ℕ) → IsQuiet (elapsed_ms started)
unfolding elapsed_ms
elapsed_ms-IsQuiet started s = Aside-same s _ refl refl refl

pub observe-IsQuiet :
    (name : String) (labels : List String) (amount : ℕ) → IsQuiet (observe name labels amount)
unfolding observe
observe-IsQuiet name labels amount s = Aside-same s _ refl refl refl

module _ ⦃h : Host⦄ where
  pub uuid4-IsQuiet : IsQuiet (in_world uuid4)
  unfolding uuid4
  uuid4-IsQuiet s = Aside-same s _ refl refl refl

  pub utc_now-IsQuiet : IsQuiet (in_world utc_now)
  unfolding utc_now
  utc_now-IsQuiet s = Aside-same s _ refl refl refl

  pub event_envelope-IsQuiet :
      (event_type correlation_id trace_id source entity_id : String) (payload metadata : Fields)
      → IsQuiet (
          in_world
            (event_envelope event_type correlation_id trace_id source entity_id payload metadata))
  unfolding event_envelope
  event_envelope-IsQuiet event_type correlation_id trace_id source entity_id payload metadata s =
      Aside-same s _ refl refl refl

  pub publish-IsQuiet :
      (topic : String) (event : EventEnvelope)
      → (topic == agent_executions_topic) ≡ false
      → IsQuiet (in_world (publish topic event))
  publish-IsQuiet topic event other s =
      elim (Option-cases (h.publish_error s.world.publish_calls)) [
        | inl e ↦ rw (publish-ok topic event s.world e) (record {
          events = (topic, event) ∷ [];
          published_eq = refl;
          elsewhere = (other, tt);
          incs_eq = refl;
          decs_eq = refl;
        })
        | inr (x, e) ↦ rw (publish-err topic event s.world e) (Aside-same s _ refl refl refl)
      ]
