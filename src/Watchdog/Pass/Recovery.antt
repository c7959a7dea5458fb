-- ===== src/Watchdog/Pass/Recovery.antt =====
-- A service that is down for no reason that stands against it is restarted (watchdog/watchdog.py).
use kdb_distributed_controlp.Prelude.{
  ℕ, ◌+◌, ◌≤◌, ◌<◌, ◌≡◌, ap, ◌∙◌, String, Bool, false, Option, none, some, List, [], ◌∷◌, ◌++◌,
  length, replicate, replicate-add, arith, eq_refl,
}
use kdb_distributed_controlp.Prelude.Dict.{Dict, lookup}
use kdb_distributed_controlp.Watchdog.Events.{Status, other, container_down}
use kdb_distributed_controlp.Watchdog.Flap.{
  FlapTracker, prune_deque, prune, restart_count, is_flapping, in_cooldown, cooldown_left,
}
use kdb_distributed_controlp.Watchdog.Machine.{Machine, ◌>>=◌}
use kdb_distributed_controlp.Watchdog.Effects.{Acts-continue}
use kdb_distributed_controlp.Watchdog.Runbooks.{
  runs, is_blocked, tickerplant_dependency, classify, run_restart_and_verify, dispatch,
}
use kdb_distributed_controlp.Watchdog.Runbooks.Classify.{classify-eq-expected}
use kdb_distributed_controlp.Watchdog.Runbooks.Starts.{attempt_loop_starts}
use kdb_distributed_controlp.Watchdog.Pass.Starts.{record_outcome-Acts}
use kdb_distributed_controlp.Watchdog.Pass.{
  Setup, recovery_delay, guarded, record_outcome, run_runbook, heal_as, heal_failed, heal_if_failed,
  heal_unless, probe_health, ask_oom, heal_service, is_not_found,
}

length-prune_deque : (w now : ℕ) (dq : List ℕ) → length (prune_deque w now dq) ≤ length dq
unfolding prune_deque
length-prune_deque w now [] = omega arith
length-prune_deque w now (t ∷ dq) = ground (arith, length-prune_deque w now dq)

-- Fewer restarts on record than the threshold.
abbrev pub IsCalm : String → FlapTracker → Type 0
IsCalm s f = length (f.restarts s) < f.threshold

-- A calm service does not flap, at any time, and stays calm under the pruning.
IsCalm-not_flapping :
    (s : String) (f : FlapTracker) (t : ℕ)
    → IsCalm s f
    → ((is_flapping f s t).0 ≡ false) × IsCalm s (is_flapping f s t).1
unfolding is_flapping restart_count prune
IsCalm-not_flapping s f t h = rw (eq_refl s) (
  ground (arith, length-prune_deque f.window t (f.restarts s)),
  omega (arith, length-prune_deque f.window t (f.restarts s)),
)

module _ {W : Type 0} where
  -- From `m` to `m'` the service was started, at least once, and no other was.
  abbrev pub Restarted : String → Machine W → Machine W → Type 0
  Restarted s m m' = (k : ℕ) × (m'.starts ≡ replicate k s ++ s ∷ m.starts)

module _ {W : Type 0} (setup : Setup W) (s : String) (map : Dict Status) where
  open setup use {orchestrator}

  guarded-Restarted : (m : Machine W) → Restarted s m (guarded setup container_down map s m).1
  unfolding guarded dispatch run_restart_and_verify ◌>>=◌
  guarded-Restarted m =
      attempt_loop_starts orchestrator (λ _. Unit {0}) (recovery_delay setup) s 2 1 _ tt

  run_runbook-Restarted :
      (m : Machine W) → Restarted s m (run_runbook setup container_down map s m).1
  unfolding run_runbook ◌>>=◌
  run_runbook-Restarted m =
      let (r, m') = guarded setup container_down map s m in
      let (k, first) = guarded-Restarted m in
      let h =
        Acts-continue (λ _. Unit {0}) s 0 r (record_outcome setup map s)
          (λ result _. record_outcome-Acts setup s (λ _. Unit {0}) map result) m' tt in
      (
        h.times + k,
        h.starts
            ∙ ap (λ l. replicate h.times s ++ l) first
            ∙ replicate-add h.times k s (s ∷ m.starts),
      )

  heal_as-Restarted :
      (probed : Option Bool) (m : Machine W)
      → Restarted s m (heal_as setup s map probed container_down m).1
  unfolding heal_as ◌>>=◌
  heal_as-Restarted probed m = let (k, e) = run_runbook-Restarted _ in (k, e)

  -- Down, with a tickerplant that runs if it needs one.
  record IsDown : Type 0 where
    down : runs map s ≡ false
    free : is_blocked map (tickerplant_dependency s) ≡ false

  classify_down :
      (f : FlapTracker) (t : ℕ)
      → IsDown
      → IsCalm s f
      → (classify s map f t none false).0 ≡ container_down
  classify_down f t d calm =
      let (flaps, _) = IsCalm-not_flapping s f t calm in
      classify-eq-expected s map f t none false ∙ rw (d.down, d.free, flaps)

  heal_failed-Restarted :
      (m : Machine W) → IsDown → IsCalm s m.flap → Restarted s m (heal_failed setup s map none m).1
  unfolding heal_failed ask_oom ◌>>=◌
  heal_failed-Restarted m d calm =
      let (t, w) = orchestrator.clock m.world in
      let (flaps, calm') = IsCalm-not_flapping s m.flap t calm in
      let f = (is_flapping m.flap s t).1 in
      let (later, w') = orchestrator.clock w in
      let sig = classify_down f later d calm' in
      rw (flaps, ask_oom) (rw sig (let (k, e) = heal_as-Restarted none _ in (k, e)))

  runs_other : (x : String) → lookup s map ≡ some (other x) → runs map s ≡ false
  unfolding runs
  runs_other x e = rw (e, runs)

  heal_unless-Restarted :
      (m : Machine W) (x : String)
      → lookup s map ≡ some (other x)
      → is_blocked map (tickerplant_dependency s) ≡ false
      → IsCalm s m.flap
      → Restarted s m (heal_unless setup s map false m).1
  unfolding heal_unless heal_if_failed probe_health ◌>>=◌
  heal_unless-Restarted m x e free calm =
      let d : IsDown = record { down = runs_other x e; free = free } in
      rw (e, is_not_found) (rw d.down (heal_failed-Restarted m d calm))

module _ {W : Type 0} (setup : Setup W) where
  open setup use {orchestrator}

  -- A service that is deployed and not running, is not being recovered, has no cooldown, has fewer
  -- restarts on record than the threshold, and whose tickerplant, if it needs one, is recorded as
  -- running, is started by its turn of the loop, at least once, and no other service is.
  pub heal_service-Restarted :
      (s : String) (map : Dict Status) (m : Machine W) (x : String)
      → m.in_progress s ≡ false
      → m.flap.cooldown_until s ≡ none
      → IsCalm s m.flap
      → lookup s map ≡ some (other x)
      → is_blocked map (tickerplant_dependency s) ≡ false
      → Restarted s m (heal_service setup s map m).1
  unfolding heal_service in_cooldown cooldown_left ◌>>=◌
  heal_service-Restarted s map m x idle uncooled calm e free =
      let w = (orchestrator.clock m.world).1 in
      rw idle (
        rw (uncooled, cooldown_left)
          (heal_unless-Restarted setup s map (record m { world = w }) x e free calm))
