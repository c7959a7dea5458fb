-- ===== src/Watchdog/Pass.antt =====
-- watchdog/watchdog.py: one healing pass over the managed services, and the rounds of the main loop.
pub mod Starts
pub mod Recovery
pub mod Bounds
mod Tests
use kdb_distributed_controlp.Prelude.{
  ℕ, zero, suc, String, Bool, true, false, Option, none, some, List, [], ◌∷◌, Result, ok,
  if◌then◌else◌,
}
use kdb_distributed_controlp.Prelude.Dict.{Dict, lookup, insert, update}
use kdb_distributed_controlp.Watchdog.Flap.{in_cooldown, is_flapping}
use kdb_distributed_controlp.Watchdog.Events.{
  Status, not_found, Signature, RunbookResult, healthy, detect_failure, auto_heal,
}
use kdb_distributed_controlp.Watchdog.Machine.{
  Exn, Orchestrator, Machine, M, pure, finally, ◌>>=◌, ◌>>◌, modify, with_flap, call_status,
  call_sleep, call_clock, ask, report,
}
use kdb_distributed_controlp.Watchdog.Runbooks.{recovery_check_delay_sec, runs, classify, dispatch}

-- `fn(service) -> bool`, which looks at the world and may raise
abbrev pub Probe : Type 0 → Type 0
Probe W = String → W → Result Exn Bool × W

abbrev pub is_not_found : Option Status → Bool
is_not_found (some not_found) = true
is_not_found _ = false

abbrev pub is_healthy : Signature → Bool
is_healthy healthy = true
is_healthy _ = false

-- The arguments of `check_and_heal`: the orchestrator, `health_probe` and `recovery_delay_sec`.
pub record Setup (W : Type 0) : Type 0 where
  pub orchestrator : Orchestrator W
  pub health_probe : Option (Probe W)
  pub recovery_delay_sec : Option ℕ

module _ {W : Type 0} (setup : Setup W) where
  open setup use {orchestrator, health_probe, recovery_delay_sec}

  abbrev pub recovery_delay : ℕ
  recovery_delay = elim recovery_delay_sec [ none ↦ recovery_check_delay_sec | some d ↦ d ]

  -- `none`: the service is fine and the loop goes on to the next. `some healthy`: heal it.
  unfoldable pub probe_health : String → Bool → M W (Option (Option Bool))
  probe_health service false = pure (some none)
  probe_health service true = elim health_probe [
    | none ↦ pure none
    | some probe ↦ do
      fine ← ask orchestrator probe service
      pure (if fine then none else some (some false))
  ]

  -- asked only of a service that is flapping
  unfoldable pub ask_oom : String → Bool → M W Bool
  ask_oom service false = pure false
  ask_oom service true = elim orchestrator.oom_killed [
    | none ↦ pure false
    | some query ↦ ask orchestrator query service
  ]

  -- the runbook, between `_in_progress.add` and the `finally` that discards
  unfoldable pub guarded : Signature → Dict Status → String → M W RunbookResult
  guarded signature status_map service = do
    modify (λ m. record m { in_progress = update m.in_progress service true })
    finally (dispatch orchestrator recovery_delay signature status_map service)
        (λ m. record m { in_progress = update m.in_progress service false })

  -- the refreshed status and the report, after the runbook
  unfoldable pub record_outcome : Dict Status → String → RunbookResult → M W (Dict Status)
  record_outcome status_map service result = do
    st ← call_status orchestrator service
    report orchestrator (auto_heal service result)
    pure (insert service st status_map)

  unfoldable pub run_runbook : Signature → Dict Status → String → M W (Dict Status)
  run_runbook signature status_map service =
      guarded signature status_map service >>= record_outcome status_map service

  -- what follows `classify`
  unfoldable pub heal_as : String → Dict Status → Option Bool → Signature → M W (Dict Status)
  heal_as service status_map probed signature = if is_healthy signature then pure status_map else do
    report orchestrator (detect_failure service (lookup service status_map) probed signature)
    run_runbook signature status_map service

  -- from the flapping check on: a service that is down or unhealthy
  unfoldable pub heal_failed : String → Dict Status → Option Bool → M W (Dict Status)
  heal_failed service status_map probed = do
    time ← call_clock orchestrator
    flaps ← with_flap (λ f. is_flapping f service time)
    oom ← ask_oom service flaps
    later ← call_clock orchestrator
    signature ← with_flap (λ f. classify service status_map f later probed oom)
    heal_as service status_map probed signature

  -- after the probe
  unfoldable pub heal_if_failed : String → Dict Status → Option (Option Bool) → M W (Dict Status)
  heal_if_failed service status_map none = pure status_map
  heal_if_failed service status_map (some probed) = heal_failed service status_map probed

  -- after the cooldown check
  unfoldable pub heal_unless : String → Dict Status → Bool → M W (Dict Status)
  heal_unless service status_map cooling =
      if cooling
      then pure status_map
      else if is_not_found (lookup service status_map)
      then pure status_map
      else do
        verdict ← probe_health service (runs status_map service)
        heal_if_failed service status_map verdict

  -- One turn of the loop of `check_and_heal`; `continue` returns the map as it is.
  unfoldable pub heal_service : String → Dict Status → M W (Dict Status)
  heal_service service status_map m =
      if m.in_progress service
      then (ok status_map, m)
      else (do
        time ← call_clock orchestrator
        cooling ← with_flap (λ f. in_cooldown f service time)
        heal_unless service status_map cooling)
          m

  unfoldable pub heal_all : List String → Dict Status → M W (Dict Status)
  heal_all [] status_map = pure status_map
  heal_all (service ∷ services) status_map =
      heal_service service status_map >>= λ status_map'. heal_all services status_map'

  -- `{s: orchestrator.status(s) for s in services}`
  unfoldable pub snapshot : List String → Dict Status → M W (Dict Status)
  snapshot [] status_map = pure status_map
  snapshot (service ∷ services) status_map = do
    st ← call_status orchestrator service
    snapshot services (insert service st status_map)

  unfoldable pub check_and_heal : List String → M W (Dict Status)
  check_and_heal services = do status_map ← snapshot services []; heal_all services status_map

  -- `main`, for a number of rounds: an exception ends only its pass.
  unfoldable pub rounds : ℕ → List String → ℕ → Machine W → Machine W
  rounds poll services zero m = m
  rounds poll services (suc n) m =
      let (_, m') = check_and_heal services m in
      let (_, m'') = call_sleep orchestrator poll m' in rounds poll services n m''
