-- ===== src/Tests/Runtime.antt =====
-- The runtime of one service.
use fast_api_layers.Prelude.{◌≡◌, true, [], ◌∷◌}
use fast_api_layers.Runtime.{no_services, chosen_of, app_runtime}
use fast_api_layers.Runtime.Wired.{is_wired, app_runtime-is_wired}

app_runtime-is_wired_example :
    is_wired
      (chosen_of ("audit" ∷ "orchestration" ∷ []))
      (app_runtime (chosen_of ("audit" ∷ "orchestration" ∷ [])) no_services)
    ≡ true
app_runtime-is_wired_example = app_runtime-is_wired ("audit" ∷ "orchestration" ∷ [])
