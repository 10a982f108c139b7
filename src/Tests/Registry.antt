-- ===== src/Tests/Registry.antt =====
-- A run of a registry command.
use fast_api_layers.Prelude.{
  ℕ, zero, suc, eq_iff, arith, refl, ap, not, String, ◌≡◌, ◌≢◌, none, [], false, ◌==◌,
}
use fast_api_layers.Registry.Commands.Outcome.{Audits, expected}
use fast_api_layers.Registry.Service.{agent_delete, environment_create, execute}
use fast_api_layers.Value.{end}
use fast_api_layers.Registry.Requests.{CreateEnvironmentRequest}
use fast_api_layers.Registry.Service.Readable.{Readable, execute-Readable}
use fast_api_layers.Events.{EventEnvelope}
use fast_api_layers.Registry.Service.Audited.{execute-Announced}
use fast_api_layers.Tests.Fixtures.{quiet_host, open_orm, empty_session, fresh_world, fresh}

-- a text that is not the empty one by computation
not_empty : (s : String) → (s == "") ≡ false → s ≢ ""
not_empty s e = ground (arith, eq_iff s "")

pub fresh-ne : (n : ℕ) → fresh n ≢ ""
fresh-ne zero = not_empty "id-0" refl
fresh-ne (suc zero) = not_empty "id-1" refl
fresh-ne (suc (suc zero)) = not_empty "id-2" refl
fresh-ne (suc (suc (suc zero))) = not_empty "id-3" refl
fresh-ne (suc (suc (suc (suc n)))) = not_empty "id-4" refl

abbrev staging_request : CreateEnvironmentRequest
staging_request = record { name = "staging"; description = none; labels = end }

execute-Announced_example :
    (e : EventEnvelope) × (a : EventEnvelope) × Audits "agent.deleted" "agent.delete" "agent"
      "alice" "" "trace" e a
    × ((
      (execute (agent_delete "a1") fresh_world).0,
      (execute (agent_delete "a1") fresh_world).1.published,
    )
        ≡ expected none none [] e a)
execute-Announced_example = execute-Announced fresh-ne (agent_delete "a1") fresh_world

execute-Readable_example :
    Readable
      (environment_create staging_request)
      fresh_world
      empty_session
      (execute (environment_create staging_request) fresh_world)
execute-Readable_example =
    execute-Readable (λ n. refl) (λ t name known. ap not known) (environment_create staging_request)
      fresh_world empty_session
