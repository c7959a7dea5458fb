-- ===== src/Watchdog/Runbooks.antt =====
-- watchdog/runbooks.py: the failure signatures, and the remediation for each. A runbook runs on the
-- watchdog's state, the orchestrator is a parameter, and a call of it that raises ends the runbook.
pub mod Classify
pub mod Starts
use Prim.Native.String.{◌++◌ as ◌<>◌}
use kdb_distributed_controlp.Prelude.{
  ℕ, zero, suc, ◌+◌, ◌*◌, String, Bool, true, false, not, ◌&&◌, Option, none, some, List, [], ◌∷◌,
  if◌then◌else◌,
}
use kdb_distributed_controlp.Prelude.Dict.{Dict, lookup}
use kdb_distributed_controlp.Prelude.Text.{strip_prefix}
use kdb_distributed_controlp.Watchdog.Flap.{
  FlapTracker, record_restart, restart_count, is_flapping, start_cooldown,
}
use kdb_distributed_controlp.Watchdog.Events.{
  Status, running, Signature, healthy, container_down, container_unhealthy, dependency_down,
  flapping, oom_crash_loop, restart_and_verify, defer_to_dependency, escalate, escalate_oom,
  success, failure, deferred, escalated, no_detail, waiting_on, restarts_in_window,
  restarts_and_oom, RunbookResult,
}
use kdb_distributed_controlp.Watchdog.Machine.{
  Orchestrator, Machine, M, pure, raise, ◌>>=◌, ◌>>◌, with_flap, change_flap, call_status,
  call_start, call_sleep, call_clock,
}

abbrev pub recovery_check_delay_sec : ℕ
recovery_check_delay_sec = 5

abbrev pub max_restart_attempts : ℕ
max_restart_attempts = 3

abbrev pub oom_cooldown_multiplier : ℕ
oom_cooldown_multiplier = 6

abbrev pub dependent_prefixes : List String
dependent_prefixes = "wdb-" ∷ "rdb-" ∷ "idb-" ∷ []

-- the loop of `tickerplant_dependency`
unfoldable pub first_dependency : List String → String → Option String
first_dependency [] service = none
first_dependency (prefix ∷ prefixes) service = elim (strip_prefix prefix service) [
  | some rest ↦ some ("tp-" <> rest)
  | none ↦ first_dependency prefixes service
]

unfoldable pub tickerplant_dependency : String → Option String
unfolding first_dependency
tickerplant_dependency service = first_dependency dependent_prefixes service

abbrev pub is_running : Status → Bool
is_running running = true
is_running _ = false

-- `status_map.get(service) == "running"`; a missing key is not running
unfoldable pub runs : Dict Status → String → Bool
runs status_map service = elim (lookup service status_map) [
  | none ↦ false
  | some st ↦ is_running st
]

-- `healthy is False`
abbrev pub is_false : Option Bool → Bool
is_false none = false
is_false (some b) = not b

-- `dep is not None and status_map.get(dep) != "running"`
abbrev pub is_blocked : Dict Status → Option String → Bool
is_blocked status_map none = false
is_blocked status_map (some dep) = not (runs status_map dep)

-- The tracker comes back with its deque pruned if `is_flapping` was asked, at `time`.
unfoldable pub classify :
    String → Dict Status → FlapTracker → ℕ → Option Bool → Bool → Signature × FlapTracker
classify service status_map flap time probed oom =
    let up = runs status_map service in
    let unhealthy = up && is_false probed in
    if up && not unhealthy
    then (healthy, flap)
    else if is_blocked status_map (tickerplant_dependency service)
    then (dependency_down, flap)
    else let (flaps, flap') = is_flapping flap service time in
      (
        if flaps
            then (if oom then oom_crash_loop else flapping)
            else if unhealthy
            then container_unhealthy
            else container_down,
        flap',
      )

-- `restart_and_verify`'s two results
abbrev pub restarted : ℕ → RunbookResult
restarted attempt = record {
  runbook = restart_and_verify;
  attempts = attempt;
  outcome = success;
  final_status = some running;
  detail = no_detail;
}

abbrev pub gave_up : Status → RunbookResult
gave_up st = record {
  runbook = restart_and_verify;
  attempts = max_restart_attempts;
  outcome = failure;
  final_status = some st;
  detail = no_detail;
}

module _ {W : Type 0} (o : Orchestrator W) (delay : ℕ) where
  -- The `for` loop of `restart_and_verify` with the attempts that are left, and what follows it.
  unfoldable pub attempt_loop : String → ℕ → ℕ → M W RunbookResult
  attempt_loop service zero attempt = do st ← call_status o service; pure (gave_up st)
  attempt_loop service (suc left) attempt =
      let again = attempt_loop service left (attempt + 1) in
      do
        call_start o service
        call_sleep o delay
        st ← call_status o service
        if is_running st then pure (restarted attempt) else again

  unfoldable pub run_restart_and_verify : String → M W RunbookResult
  run_restart_and_verify service = do
    time ← call_clock o
    change_flap (λ f. record_restart f service time)
    attempt_loop service max_restart_attempts 1

module _ {W : Type 0} (o : Orchestrator W) where
  unfoldable pub run_defer : Dict Status → String → M W RunbookResult
  run_defer status_map service =
      let dep = tickerplant_dependency service in
      pure (record {
        runbook = defer_to_dependency;
        attempts = 0;
        outcome = deferred;
        final_status = lookup service status_map;
        detail = waiting_on dep (elim dep [ none ↦ none | some d ↦ lookup d status_map ]);
      })

  unfoldable pub run_escalate : Dict Status → String → M W RunbookResult
  run_escalate status_map service = do
    time ← call_clock o
    change_flap (λ f. start_cooldown f service none time)
    later ← call_clock o
    count ← with_flap (λ f. restart_count f service later)
    pure (record {
      runbook = escalate;
      attempts = 0;
      outcome = escalated;
      final_status = lookup service status_map;
      detail = restarts_in_window count;
    })

  unfoldable pub run_escalate_oom : Dict Status → String → M W RunbookResult
  run_escalate_oom status_map service = do
    cooldown ← with_flap (λ f. (f.cooldown * oom_cooldown_multiplier, f))
    time ← call_clock o
    change_flap (λ f. start_cooldown f service (some cooldown) time)
    later ← call_clock o
    count ← with_flap (λ f. restart_count f service later)
    pure (record {
      runbook = escalate_oom;
      attempts = 0;
      outcome = escalated;
      final_status = lookup service status_map;
      detail = restarts_and_oom count cooldown;
    })

  -- `RUNBOOKS[signature](orchestrator, service, ctx)`: the table has no entry for `healthy`.
  unfoldable pub dispatch : ℕ → Signature → Dict Status → String → M W RunbookResult
  dispatch delay healthy status_map service = raise "KeyError"
  dispatch delay container_down status_map service = run_restart_and_verify o delay service
  dispatch delay container_unhealthy status_map service = run_restart_and_verify o delay service
  dispatch delay dependency_down status_map service = run_defer status_map service
  dispatch delay flapping status_map service = run_escalate status_map service
  dispatch delay oom_crash_loop status_map service = run_escalate_oom status_map service
