-- ===== src/Alerting/Cooldown.antt =====
-- The alerts of one key over a sequence of signals.
use fast_api_layers.Prelude.{
  ℕ, ◌+◌, ◌≤◌, ◌≡◌, refl, sym, ap, false, Bool-cases, Option-cases, inl, inr, Option, none, some,
  List, [], ◌∷◌, arith,
}
use fast_api_layers.Value.{Value, datetime, obj, get}
use fast_api_layers.Effect.{Result, ok, err}
use fast_api_layers.Events.{EventEnvelope}
use fast_api_layers.Platform.{Host, World, utc_now, uuid4, publish, event_envelope}
use fast_api_layers.Alerting.{
  AlertSettings, AlertRow, Signal, Post, cooldown, within, last_sent, alert_payload, send_alert,
  process_signal,
}

-- when the alert in an event was sent
abbrev sent_in : Option Value → Option ℕ
sent_in (some (datetime t)) = some t
sent_in _ = none

abbrev sent_of : Option Value → Option ℕ
sent_of (some (obj alert)) = sent_in (get "last_sent_at" alert)
sent_of _ = none

-- the row that the projection keeps of an alert event
abbrev pub row_of : EventEnvelope → AlertRow
row_of e = record { id = e.entity_id; last_sent_at = sent_of (get "alert" e.payload) }

abbrev After : ℕ → Option ℕ → ℕ → Type 0
After gap none t = Unit
After gap (some last) t = last + gap ≤ t

-- Each time is later than the one before it by the gap.
abbrev pub Spaced : ℕ → Option ℕ → List ℕ → Type 0
Spaced gap last [] = Unit
Spaced gap last (t ∷ ts) = After gap last t × Spaced gap (some t) ts

respaced : (gap : ℕ) {a b : Option ℕ} (ts : List ℕ) → a ≡ b → Spaced gap a ts → Spaced gap b ts
respaced gap ts e s = rw e at s

within-After :
    (gap : ℕ) (last : Option ℕ) (now : ℕ) → within gap last now ≡ false → After gap last now
within-After gap none now e = tt
within-After gap (some last) now e = ground arith

abbrev Reply : Type 0
Reply = Result (Option EventEnvelope × List Post) × World

-- Whether an alert was sent at this time, the row of the key after it, and the process.
abbrev after_signal : Option AlertRow → ℕ → Reply → Option ℕ × Option AlertRow × World
after_signal existing now (ok (some e, posts), w) = (some now, some (row_of e), w)
after_signal existing now (ok (none, posts), w) = (none, existing, w)
after_signal existing now (err x, w) = (none, existing, w)

-- when the alert of a reply was sent
abbrev seen : Reply → Option ℕ
seen (ok (some e, posts), w) = last_sent (some (row_of e))
seen _ = none

abbrev noted : Option ℕ → List ℕ → List ℕ
noted none ts = ts
noted (some t) ts = t ∷ ts

module _ ⦃h : Host⦄ (settings : AlertSettings) where
  -- The times at which the alert of one key is sent, where the row of the key is always the one
  -- that the projection keeps of the last alert event.
  abbrev pub sent_times : List Signal → Option AlertRow → World → List ℕ
  sent_times [] existing w = []
  sent_times (p ∷ ps) existing w =
      let s =
        after_signal existing (h.now w.clock) (process_signal settings (λ key. existing) p w) in
      noted s.0 (sent_times ps s.1 s.2)

  send_alert-sent :
      (existing : Option AlertRow) (p : Signal) (now : ℕ) (w : World) {e : EventEnvelope}
      {posts : List Post} {w' : World}
      → send_alert settings existing p now w ≡ (ok (some e, posts), w')
      → last_sent (some (row_of e)) ≡ some now
  unfolding send_alert event_envelope uuid4 alert_payload get publish
  send_alert-sent none p now w run = elim (Option-cases (h.publish_error w.publish_calls)) [
    | inl fine ↦ sym (ap seen (rw (fine, publish) at run))
    | inr (x, broken) ↦ let bad = rw (broken, publish) at run in cc
  ]
  send_alert-sent (some row) p now w run = elim (Option-cases (h.publish_error w.publish_calls)) [
    | inl fine ↦ sym (ap seen (rw (fine, publish) at run))
    | inr (x, broken) ↦ let bad = rw (broken, publish) at run in cc
  ]

  process_signal-sent :
      (existing : Option AlertRow) (p : Signal) (w : World) {e : EventEnvelope} {posts : List Post}
      {w' : World}
      → process_signal settings (λ key. existing) p w ≡ (ok (some e, posts), w')
      → After (cooldown settings) (last_sent existing) (h.now w.clock)
        × (last_sent (some (row_of e)) ≡ some (h.now w.clock))
  unfolding process_signal utc_now
  process_signal-sent existing p w run =
      elim (Bool-cases (within (cooldown settings) (last_sent existing) (h.now w.clock))) [
        | inl skipped ↦ let bad = rw skipped at run in cc
        | inr due ↦ (
          within-After _ (last_sent existing) _ due,
          send_alert-sent existing p (h.now w.clock) _ (rw due at run),
        )
      ]

  -- Over any sequence of signals of one key, at any times of the clock and with any failures of
  -- the publisher, an alert is sent only when the cooldown has passed since the alert before it,
  -- the one that the row at the start tells of included.
  pub sent_times-Spaced :
      (ps : List Signal) (existing : Option AlertRow) (w : World)
      → Spaced (cooldown settings) (last_sent existing) (sent_times ps existing w)
  sent_times-Spaced [] existing w = tt
  sent_times-Spaced (p ∷ ps) existing w =
      go (process_signal settings (λ key. existing) p w) refl (sent_times-Spaced ps)
    where
      go :
          (out : Reply)
          → process_signal settings (λ key. existing) p w ≡ out
          → ((row : Option AlertRow) (w' : World)
              → Spaced (cooldown settings) (last_sent row) (sent_times ps row w'))
          → let s = after_signal existing (h.now w.clock) out in
            Spaced (cooldown settings) (last_sent existing) (noted s.0 (sent_times ps s.1 s.2))
      go (ok (some e, posts), w') run later =
          let (due, told) = process_signal-sent existing p w run in
          (due, respaced _ _ told (later (some (row_of e)) w'))
      go (ok (none, posts), w') run later = later existing w'
      go (err x, w') run later = later existing w'
