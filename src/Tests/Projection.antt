-- ===== src/Tests/Projection.antt =====
-- A run of the projection.
use fast_api_layers.Prelude.{◌≡◌, refl}
use fast_api_layers.Value.{Value, get, obj, field, end, tup, cons, nil, datetime}
use fast_api_layers.Projection.Json.{json_safe}
use fast_api_layers.Projection.Json.Safe.{IsPlain, json_safe-IsPlain}
use fast_api_layers.Effect.{ok}
use fast_api_layers.Projection.Service.{apply, run_handler, lookup_method, replace_dots}
use fast_api_layers.Projection.Service.Replay.{apply-Replayable}
use fast_api_layers.Projection.Handlers.{handle_agent_created}
use fast_api_layers.Projection.Rows.{upsert, refused, store, normalise, normalise_fields}
use fast_api_layers.Projection.Columns.{columns, is_among}
use fast_api_layers.Projection.Session.{Session, find, is_row}
use fast_api_layers.Tests.Fixtures.{quiet_host, open_orm, agent_created_event, empty_session}

abbrev after_agent_created : Session
after_agent_created = (apply agent_created_event empty_session).1

apply-Replayable_example :
    apply agent_created_event after_agent_created ≡ (ok tt, after_agent_created)
unfolding apply run_handler handle_agent_created upsert lookup_method replace_dots get
    normalise_fields normalise store find refused is_row columns is_among
apply-Replayable_example =
    apply-Replayable agent_created_event empty_session after_agent_created refl

abbrev dated : Value
dated = obj (field "at" (tup (cons (datetime 5) nil)) end)

json_safe-IsPlain_example :
    IsPlain (json_safe dated)
    × (json_safe (json_safe dated) ≡ json_safe dated)
    × ((IsPlain dated → json_safe dated ≡ dated) × (json_safe dated ≡ dated → IsPlain dated))
json_safe-IsPlain_example = json_safe-IsPlain dated
