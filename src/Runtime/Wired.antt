-- ===== src/Runtime/Wired.antt =====
-- The services that a process ends up with, against those that its routes and its workers use.
use fast_api_layers.Prelude.{String, Bool, true, false, not, ◌&&◌, ◌||◌, ◌≡◌, refl, List}
use fast_api_layers.Effect.{Result, ok, err}
use fast_api_layers.Runtime.{Services, no_services, Chosen, chosen_of, modules_or_all, app_runtime}

abbrev pub implies : Bool → Bool → Bool
implies a b = not a || b

-- Did the construction return, and is every service there that the routes of the chosen modules, or
-- the worker process, take from the runtime?
abbrev pub is_wired : Chosen → Result (Unit {0}) × Services → Bool
is_wired c (err e, s) = false
is_wired c (ok _, s) =
    implies c.registry (s.registry_commands && s.registry_queries)
    && implies c.orchestration (s.execution_commands && s.execution_queries && s.execution_gateway)
    && implies c.orchestration_command s.execution_commands
    && implies c.orchestration_query s.execution_queries
    && implies c.monitoring s.monitoring_queries
    && implies c.alerting s.alert_queries
    && implies c.audit s.audit_queries
    && implies c.workers (
        s.projector && s.anomaly_detection_service && s.drift_detection_service
        && s.alerting_service && s.execution_commands && s.execution_gateway)

-- a test of all Booleans
abbrev both : (Bool → Bool) → Bool
both test = test true && test false

both-all : (test : Bool → Bool) → both test ≡ true → (b : Bool) → test b ≡ true
both-all test p b = go (test true) (test false) refl refl p b
  where
    go :
        (x y : Bool) → test true ≡ x → test false ≡ y → (x && y) ≡ true → (b : Bool) → test b ≡ true
    go true true s t q true = s
    go true true s t q false = t
    go true false s t q b = cc
    go false y s t q b = cc

abbrev wired : Bool → Bool → Bool → Bool → Bool → Bool → Bool → Bool → Bool
wired registry orchestration command query monitoring alerting audit workers =
    let c : Chosen = record {
      registry = registry;
      orchestration = orchestration;
      orchestration_command = command;
      orchestration_query = query;
      monitoring = monitoring;
      alerting = alerting;
      audit = audit;
      workers = workers;
    } in
    is_wired c (app_runtime c no_services)

-- the same for all values of the last arguments
abbrev wired_1 : Bool → Bool → Bool → Bool → Bool → Bool → Bool → Bool
wired_1 a b c d e f g = both (wired a b c d e f g)

abbrev wired_2 : Bool → Bool → Bool → Bool → Bool → Bool → Bool
wired_2 a b c d e f = both (wired_1 a b c d e f)

abbrev wired_3 : Bool → Bool → Bool → Bool → Bool → Bool
wired_3 a b c d e = both (wired_2 a b c d e)

abbrev wired_4 : Bool → Bool → Bool → Bool → Bool
wired_4 a b c d = both (wired_3 a b c d)

abbrev wired_5 : Bool → Bool → Bool → Bool
wired_5 a b c = both (wired_4 a b c)

abbrev wired_6 : Bool → Bool → Bool
wired_6 a b = both (wired_5 a b)

abbrev wired_7 : Bool → Bool
wired_7 a = both (wired_6 a)

wired-always : both wired_7 ≡ true
unfolding app_runtime
wired-always = refl

wired-true : (a b c d e f g h : Bool) → wired a b c d e f g h ≡ true
wired-true a b c d e f g h =
    both-all (wired a b c d e f g)
      (both-all (wired_1 a b c d e f)
        (both-all (wired_2 a b c d e)
          (both-all (wired_3 a b c d)
            (both-all (wired_4 a b c)
              (both-all (wired_5 a b) (both-all (wired_6 a) (both-all wired_7 wired-always a) b) c)
              d)
            e)
          f)
        g)
      h

-- Whatever names of modules a process is started with, the construction of its runtime returns, and
-- every service is there that the routes of those modules, or the worker process, take from it.
pub app_runtime-is_wired :
    (modules : List String)
    → let c = chosen_of (modules_or_all modules) in is_wired c (app_runtime c no_services) ≡ true
app_runtime-is_wired modules =
    let c = chosen_of (modules_or_all modules) in
    wired-true c.registry c.orchestration c.orchestration_command c.orchestration_query c.monitoring
      c.alerting c.audit c.workers
