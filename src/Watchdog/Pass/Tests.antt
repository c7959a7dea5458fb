-- ===== src/Watchdog/Pass/Tests.antt =====
-- A run of the watchdog on a small world: the rdb of shard s0 is down until it is started, everything else
-- runs, and each reading of the clock takes a second.
use kdb_distributed_controlp.Prelude.{
  ◌*◌, ℕ, ◌+◌, ◌≡◌, refl, Bool, true, false, none, some, [], ◌∷◌, ok, if◌then◌else◌, str_eq, arith,
}
use kdb_distributed_controlp.Prelude.Dict.{Dict, insert, lookup}
use kdb_distributed_controlp.Prelude.Text.{strip_prefix}
use kdb_distributed_controlp.Watchdog.Flap.{
  FlapTracker, in_cooldown, cooldown_left, is_flapping, restart_count, prune, prune_deque,
  record_restart,
}
use kdb_distributed_controlp.Watchdog.Events.{Status, running, other}
use kdb_distributed_controlp.Watchdog.Machine.{Orchestrator, Machine, ◌>>=◌}
use kdb_distributed_controlp.Watchdog.Effects.{Within}
use kdb_distributed_controlp.Watchdog.Runbooks.{
  tickerplant_dependency, runs, classify, dispatch, run_restart_and_verify, attempt_loop,
}
use kdb_distributed_controlp.Watchdog.Pass.{
  Setup, heal_service, check_and_heal, rounds, snapshot, heal_all, heal_unless, probe_health,
  heal_if_failed, heal_failed, heal_as, ask_oom, run_runbook, guarded, record_outcome,
}
use kdb_distributed_controlp.Watchdog.Pass.Starts.{heal_service-Within}
use kdb_distributed_controlp.Watchdog.Pass.Recovery.{heal_service-Restarted, Restarted}
use kdb_distributed_controlp.Watchdog.Pass.Bounds.{Bounded, occurs, rounds-Bounded}

-- is the rdb up, and the time
abbrev World : Type 0
World = Bool × ℕ

abbrev test_orchestrator : Orchestrator World
test_orchestrator = record {
  status = λ s w.
      (ok (if str_eq s "rdb-s0" then (if w.0 then running else other "exited") else running), w);
  start = λ s w. (ok true, (true, w.1));
  oom_killed = none;
  sleep = λ seconds w. (w.0, w.1 + seconds);
  clock = λ w. (w.1, (w.0, w.1 + 1));
  post = λ event w. w;
}

abbrev test_setup : Setup World
test_setup = record {
  orchestrator = test_orchestrator;
  health_probe = none;
  recovery_delay_sec = some 5;
}

abbrev test_tracker : FlapTracker
test_tracker = record {
  window = 300;
  threshold = 3;
  cooldown = 600;
  restarts = λ _. [];
  cooldown_until = λ _. none;
}

abbrev test_machine : Machine World
test_machine = record {
  world = (false, 100);
  flap = test_tracker;
  in_progress = λ _. false;
  starts = [];
  reports = [];
}

abbrev test_statuses : Dict Status
test_statuses = ("tp-s0", running) ∷ ("rdb-s0", other "exited") ∷ []

heal_service-Restarted_example :
    Restarted "rdb-s0" test_machine (heal_service test_setup "rdb-s0" test_statuses test_machine).1
unfolding tickerplant_dependency strip_prefix runs lookup
heal_service-Restarted_example =
    heal_service-Restarted test_setup "rdb-s0" test_statuses test_machine "exited" refl refl
      (omega arith) refl refl

heal_service-Within_example :
    Within "rdb-s0" 3 test_machine (heal_service test_setup "rdb-s0" test_statuses test_machine).1
unfolding in_cooldown cooldown_left tickerplant_dependency strip_prefix runs lookup
heal_service-Within_example = heal_service-Within test_setup "rdb-s0" test_statuses test_machine

rounds-Bounded_example :
    Bounded
      (λ s. 2 * (3 * occurs s ("tp-s0" ∷ "rdb-s0" ∷ [])))
      test_machine
      (rounds test_setup 15 ("tp-s0" ∷ "rdb-s0" ∷ []) 2 test_machine)
rounds-Bounded_example = rounds-Bounded test_setup 15 ("tp-s0" ∷ "rdb-s0" ∷ []) 2 test_machine

-- The pass starts the rdb, once.
starts_once :
    (check_and_heal test_setup ("tp-s0" ∷ "rdb-s0" ∷ []) test_machine).1.starts ≡ "rdb-s0" ∷ []
unfolding check_and_heal snapshot heal_all heal_service heal_unless probe_health heal_if_failed
    heal_failed heal_as ask_oom run_runbook guarded record_outcome classify dispatch
    run_restart_and_verify attempt_loop in_cooldown cooldown_left is_flapping restart_count prune
    prune_deque record_restart runs lookup insert tickerplant_dependency strip_prefix ◌>>=◌
starts_once = refl
