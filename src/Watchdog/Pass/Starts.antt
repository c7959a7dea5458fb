-- ===== src/Watchdog/Pass/Starts.antt =====
-- What one healing pass of watchdog/watchdog.py may start.
use kdb_distributed_controlp.Prelude.{
  ok-injective, ℕ, ◌+◌, ◌≤◌, ◌≡◌, refl, subst, fun_ext, String, Bool, true, false, ◌||◌, Option,
  none, some, arith, if◌then◌else◌, Bool-cases, inl, inr, ◌⊎◌, eq_iff,
}
use kdb_distributed_controlp.Prelude.Dict.{Dict, lookup, update}
use kdb_distributed_controlp.Watchdog.Events.{Status, Signature, RunbookResult}
use kdb_distributed_controlp.Watchdog.Flap.{FlapTracker, in_cooldown, is_flapping}
use kdb_distributed_controlp.Watchdog.Machine.{Machine, ◌>>=◌, with_flap, call_status, call_clock}
use kdb_distributed_controlp.Watchdog.Effects.{
  Within, Within-refl, Acts, Acts-quiet, Acts-bind, Acts-then, Acts-then_post, Acts-weaken,
  Acts-pure, Acts-if,
}
use kdb_distributed_controlp.Watchdog.Runbooks.{
  runs, is_blocked, tickerplant_dependency, classify, max_restart_attempts,
}
use kdb_distributed_controlp.Watchdog.Runbooks.Classify.{classify-eq-expected}
use kdb_distributed_controlp.Watchdog.Runbooks.Starts.{restarts, start_budget, dispatch-Acts}
use kdb_distributed_controlp.Watchdog.Pass.{
  Setup, recovery_delay, is_healthy, is_not_found, probe_health, ask_oom, guarded, record_outcome,
  run_runbook, heal_as, heal_failed, heal_if_failed, heal_unless, heal_service,
}

-- The service is not being recovered already.
abbrev Idle : String → (String → Bool) → Type 0
Idle s in_progress = in_progress s ≡ false

subst-Idle : (g : String → Bool) (s j : String) → Idle s g → s ≡ j → g j ≡ false
subst-Idle g s j idle e = rw (← e) idle

-- Adding a service to the guard set and discarding it again leaves the set as it was.
update-update-Idle :
    (g : String → Bool) (s : String) → Idle s g → update (update g s true) s false ≡ g
update-update-Idle g s idle = fun_ext λ j. ground (arith, eq_iff s j, subst-Idle g s j)

abbrev pub allowed : Bool → ℕ
allowed forbidden = if forbidden then 0 else max_restart_attempts

-- A signature of a service whose tickerplant is down asks for no restart.
abbrev Respects : Bool → Signature → Type 0
Respects blocked sig = (blocked ≡ false) ⊎ (restarts sig ≡ false)

start_budget-le :
    (sig : Signature) (blocked : Bool) → Respects blocked sig → start_budget sig ≤ allowed blocked
start_budget-le sig blocked h = ground arith

module _ {W : Type 0} (setup : Setup W) (s : String) where
  open setup use {orchestrator}

  guarded-Acts :
      (sig : Signature) (map : Dict Status)
      → Acts (Idle s) s (start_budget sig) (guarded setup sig map s)
  unfolding guarded ◌>>=◌
  guarded-Acts sig map = record {
    at = λ m idle.
        let m' = record m { in_progress = update m.in_progress s true } in
        let w =
          (dispatch-Acts orchestrator (λ _. Unit {0}) (recovery_delay setup) sig map s).at m' tt in
        record {
          in_progress = rw w.in_progress (update-update-Idle m.in_progress s idle);
          times = w.times;
          at_most = w.at_most;
          starts = w.starts;
        };
  }

  pub record_outcome-Acts :
      (P : (String → Bool) → Type 0) (map : Dict Status) (result : RunbookResult)
      → Acts P s 0 (record_outcome setup map s result)
  unfolding record_outcome ◌>>=◌
  record_outcome-Acts P map result =
      Acts-then P s 0 _ _ (Acts-quiet P s (call_status orchestrator s) (λ m. (refl, refl)))
        λ st. Acts-quiet P s _ (λ m. (refl, refl))

  run_runbook-Acts :
      (sig : Signature) (map : Dict Status)
      → Acts (Idle s) s (start_budget sig) (run_runbook setup sig map s)
  unfolding run_runbook
  run_runbook-Acts sig map =
      Acts-weaken (Idle s) s (start_budget sig + 0) (start_budget sig) _ (omega arith) (
        Acts-bind (Idle s) s (start_budget sig) 0 _ _ (guarded-Acts sig map)
          (record_outcome-Acts (Idle s) map))

  ask_oom-Acts : (flaps : Bool) → Acts (Idle s) s 0 (ask_oom setup s flaps)
  unfolding ask_oom
  ask_oom-Acts flaps =
      Acts-quiet (Idle s) s (ask_oom setup s flaps) (λ m. (ground arith, ground arith))

  probe_health-Acts : (up : Bool) → Acts (Idle s) s 0 (probe_health setup s up)
  unfolding probe_health ◌>>=◌
  probe_health-Acts up =
      Acts-quiet (Idle s) s (probe_health setup s up) (λ m. (ground arith, ground arith))

  heal_as-Acts :
      (map : Dict Status) (probed : Option Bool) (blocked : Bool) (sig : Signature)
      → Respects blocked sig
      → Acts (Idle s) s (allowed blocked) (heal_as setup s map probed sig)
  unfolding heal_as
  heal_as-Acts map probed blocked sig fits =
      Acts-if (Idle s) s (allowed blocked) (is_healthy sig) _ _
        (Acts-weaken (Idle s) s 0 (allowed blocked) _ (omega arith) (Acts-pure (Idle s) s map))
        (Acts-then (Idle s) s (allowed blocked) _ _ (Acts-quiet (Idle s) s _ (λ m. (refl, refl)))
          λ _.
            Acts-weaken (Idle s) s (start_budget sig) (allowed blocked) _
              (start_budget-le sig blocked fits) (run_runbook-Acts sig map))

  classify-Respects :
      (map : Dict Status) (f : FlapTracker) (t : ℕ) (probed : Option Bool) (oom : Bool)
      → Respects (is_blocked map (tickerplant_dependency s)) (classify s map f t probed oom).0
  classify-Respects map f t probed oom = ground (arith, classify-eq-expected s map f t probed oom)

  heal_failed-Acts :
      (map : Dict Status) (probed : Option Bool)
      → Acts
          (Idle s)
          s
          (allowed (is_blocked map (tickerplant_dependency s)))
          (heal_failed setup s map probed)
  unfolding heal_failed
  heal_failed-Acts map probed =
      let blocked : Bool = is_blocked map (tickerplant_dependency s) in
      let n : ℕ = allowed blocked in
      Acts-then (Idle s) s n _ _
        (Acts-quiet (Idle s) s (call_clock orchestrator) (λ m. (refl, refl)))
        λ time.
          Acts-then (Idle s) s n _ _
            (Acts-quiet (Idle s) s (with_flap (λ f. is_flapping f s time)) (λ m. (refl, refl)))
            λ flaps. Acts-then (Idle s) s n _ _ (ask_oom-Acts flaps) λ oom.
              Acts-then (Idle s) s n _ _
                (Acts-quiet (Idle s) s (call_clock orchestrator) (λ m. (refl, refl)))
                λ later.
                  Acts-then_post (Idle s) (Respects blocked) s n _ (heal_as setup s map probed)
                    (Acts-quiet (Idle s) s (with_flap (λ f. classify s map f later probed oom))
                      (λ m. (refl, refl)))
                    (λ m sig e.
                      subst (Respects blocked) (ok-injective _ _ e)
                        (classify-Respects map m.flap later probed oom))
                    (heal_as-Acts map probed blocked)

  heal_if_failed-Acts :
      (map : Dict Status) (verdict : Option (Option Bool))
      → Acts
          (Idle s)
          s
          (allowed (is_blocked map (tickerplant_dependency s)))
          (heal_if_failed setup s map verdict)
  unfolding heal_if_failed
  heal_if_failed-Acts map none =
      Acts-weaken (Idle s) s 0 _ _ (omega arith) (Acts-pure (Idle s) s map)
  heal_if_failed-Acts map (some probed) = heal_failed-Acts map probed

  -- The tests after the in-progress guard that stand against a restart of the service.
  abbrev pub forbidden : Dict Status → Bool → Bool
  forbidden map cooling =
      cooling || is_not_found (lookup s map) || is_blocked map (tickerplant_dependency s)

  heal_unless-Acts :
      (map : Dict Status) (cooling : Bool)
      → Acts (Idle s) s (allowed (forbidden map cooling)) (heal_unless setup s map cooling)
  unfolding heal_unless
  heal_unless-Acts map true = Acts-pure (Idle s) s map
  heal_unless-Acts map false = elim (Bool-cases (is_not_found (lookup s map))) [
    | inl absent ↦ rw absent (Acts-pure (Idle s) s map)
    | inr present ↦
        rw present
          (Acts-then (Idle s) s _ _ _ (probe_health-Acts (runs map s)) (heal_if_failed-Acts map))
  ]

  -- Whether the cooldown check at the head of the turn answers true.
  abbrev pub cools : Machine W → Bool
  cools m = (in_cooldown m.flap s (orchestrator.clock m.world).0).0

  heal_service-Idle :
      (map : Dict Status) (m : Machine W)
      → Idle s m.in_progress
      → Within s (allowed (forbidden map (cools m))) m (heal_service setup s map m).1
  unfolding heal_service ◌>>=◌
  heal_service-Idle map m idle =
      let w = (orchestrator.clock m.world).1 in
      let flap' = (in_cooldown m.flap s (orchestrator.clock m.world).0).1 in
      let h = (heal_unless-Acts map (cools m)).at (record m { world = w; flap = flap' }) idle in
      rw idle (record {
        in_progress = h.in_progress;
        times = h.times;
        at_most = h.at_most;
        starts = h.starts;
      })

  -- One turn of the loop starts only its own service, at most three times, and leaves the guard set as
  -- it was, whether it returns or raises. It starts nothing if the service is being recovered already,
  -- is cooling down, is not deployed, or depends on a tickerplant that is not recorded as running.
  pub heal_service-Within :
      (map : Dict Status) (m : Machine W)
      → Within s
          (if m.in_progress s then 0 else allowed (forbidden map (cools m)))
          m
          (heal_service setup s map m).1
  heal_service-Within map m = elim (Bool-cases (m.in_progress s)) [
    | inl busy ↦ rw busy (unfold heal_service in rw busy (Within-refl s 0 m))
    | inr idle ↦ rw idle (heal_service-Idle map m idle)
  ]
