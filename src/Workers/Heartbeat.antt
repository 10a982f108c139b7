-- ===== src/Workers/Heartbeat.antt =====
-- `heartbeat_loop` of app/worker.py: one turn of the loop, and the pause after it.
use Prim.Native.Nat.{◌/◌}
use Prim.Native.String.{◌++◌ as append}
use fast_api_layers.Prelude.{
  ℕ, ◌+◌, ◌*◌, ◌≤◌, ◌≡◌, String, [], ◌∷◌, ltb, false, if◌then◌else◌, arith,
}
use fast_api_layers.Value.{text, datetime, obj, dict}
use fast_api_layers.Effect.{Action, ◌>>=◌}
use fast_api_layers.Topics.{system_health_topic}
use fast_api_layers.Platform.{Host, World, utc_now, event_envelope, publish}
use fast_api_layers.Monitoring.Health.{Heartbeat, is_stale}

-- `f"{service_name}-{role}"`
unfoldable pub process_name : String → String → String
process_name service_name role = append service_name (append "-" role)

module _ ⦃h : Host⦄ where
  unfoldable pub publish_heartbeat : String → String → Action World (Unit {0})
  unfolding process_name
  publish_heartbeat service_name role = do
    last_seen_at ← utc_now
    event ←
        event_envelope "worker.heartbeat" "worker-heartbeat" "worker-heartbeat" "worker.runtime"
          (process_name service_name role)
          (dict (
            ("id", text (process_name service_name role))
            ∷ ("worker_name", text (process_name service_name role))
            ∷ ("role", text role)
            ∷ ("last_seen_at", datetime last_seen_at)
            ∷ ("metadata", obj (dict (("service_name", text service_name) ∷ [])))
            ∷ []))
          (dict (("aggregate", text "worker") ∷ []))
    publish system_health_topic event

-- `max(5, heartbeat_ttl_seconds // 2)`
unfoldable pub heartbeat_pause : ℕ → ℕ
heartbeat_pause ttl = if ltb 5 (ttl / 2) then ttl / 2 else 5

-- Where the time to live is at least 3 seconds, a heartbeat is not stale for a check within the pause
-- after it.
pub heartbeat_pause-kept :
    (ttl : ℕ) (heartbeat : Heartbeat) (checked_at : ℕ)
    → 3 ≤ ttl
    → checked_at ≤ heartbeat.last_seen_at + heartbeat_pause ttl * 1000000
    → is_stale ttl checked_at heartbeat ≡ false
unfolding heartbeat_pause
heartbeat_pause-kept ttl heartbeat checked_at le recent = ground arith
