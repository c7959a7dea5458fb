-- ===== src/Watchdog/Runbooks/Starts.antt =====
-- How often each runbook of watchdog/runbooks.py calls `orchestrator.start`.
use kdb_distributed_controlp.Prelude.{
  ℕ, zero, suc, ◌+◌, ◌≡◌, refl, ◌∷◌, ◌++◌, replicate, String, Bool, true, false, arith,
  if◌then◌else◌,
}
use kdb_distributed_controlp.Prelude.Dict.{Dict}
use kdb_distributed_controlp.Watchdog.Events.{
  Status, RunbookResult, Signature, healthy, container_down, container_unhealthy, dependency_down,
  flapping, oom_crash_loop,
}
use kdb_distributed_controlp.Watchdog.Flap.{record_restart}
use kdb_distributed_controlp.Watchdog.Machine.{
  Orchestrator, Machine, M, pure, ◌>>=◌, change_flap, call_status, call_start, call_sleep,
  call_clock,
}
use kdb_distributed_controlp.Watchdog.Effects.{
  Acts, Acts-continue, Acts-quiet, Acts-bind, Acts-then, Acts-weaken, Acts-pure, Acts-if,
}
use kdb_distributed_controlp.Watchdog.Runbooks.{
  is_running, max_restart_attempts, restarted, gave_up, attempt_loop, run_restart_and_verify,
  run_defer, run_escalate, run_escalate_oom, dispatch,
}

-- The two signatures whose runbook restarts the service.
abbrev pub restarts : Signature → Bool
restarts container_down = true
restarts container_unhealthy = true
restarts _ = false

-- How often the runbook of a signature may start its service.
abbrev pub start_budget : Signature → ℕ
start_budget sig = if restarts sig then max_restart_attempts else 0

module _ {W : Type 0} (o : Orchestrator W) (P : (String → Bool) → Type 0) where
  call_status-Acts : (s : String) → Acts P s 0 (call_status o s)
  call_status-Acts s = Acts-quiet P s (call_status o s) (λ m. (refl, refl))

  call_start-Acts : (s : String) → Acts P s 1 (call_start o s)
  call_start-Acts s = record {
    at = λ m _. record { in_progress = refl; times = 1; at_most = omega arith; starts = refl };
  }

  module _ (delay : ℕ) where
    -- what follows the call of `start` in a round of the loop
    abbrev pub after_start : String → ℕ → ℕ → M W RunbookResult
    after_start s left attempt = call_sleep o delay >>= λ _. call_status o s >>= λ st.
        if is_running st
        then pure (restarted attempt)
        else attempt_loop o delay s left (attempt + 1)

    after_start-Acts :
        (s : String) (left attempt : ℕ)
        → Acts P s left (attempt_loop o delay s left (attempt + 1))
        → Acts P s left (after_start s left attempt)
    after_start-Acts s left attempt h =
        Acts-then P s left _ _ (Acts-quiet P s (call_sleep o delay) (λ m. (refl, refl))) λ _.
          Acts-then P s left _ _ (call_status-Acts s) λ st.
            Acts-if P s left (is_running st) _ _
              (Acts-weaken P s 0 left _ (omega arith) (Acts-pure P s (restarted attempt))) h

    attempt_loop-Acts :
        (s : String) (left attempt : ℕ) → Acts P s left (attempt_loop o delay s left attempt)
    unfolding attempt_loop
    attempt_loop-Acts s zero attempt =
        Acts-then P s 0 _ _ (call_status-Acts s) (λ st. Acts-pure P s (gave_up st))
    attempt_loop-Acts s (suc left) attempt = Acts-weaken P s (1 + left) (suc left) _ (omega arith) (
        Acts-bind P s 1 left _ _ (call_start-Acts s)
          λ _. after_start-Acts s left attempt (attempt_loop-Acts s left (attempt + 1)))

    -- With an attempt left the first thing that the loop does is to start the service.
    pub attempt_loop_starts :
        (s : String) (left attempt : ℕ) (m : Machine W)
        → P m.in_progress
        → (k : ℕ) × ((attempt_loop o delay s (suc left) attempt m).1.starts
            ≡ replicate k s ++ s ∷ m.starts)
    unfolding attempt_loop ◌>>=◌
    attempt_loop_starts s left attempt m p =
        let (r, w) = o.start s m.world in
        let h =
          Acts-continue P s left r (λ _. after_start s left attempt)
            (λ _ _. after_start-Acts s left attempt (attempt_loop-Acts s left (attempt + 1)))
            (record m { world = w; starts = s ∷ m.starts }) p in
        (h.times, h.starts)

    run_restart_and_verify-Acts :
        (s : String) → Acts P s max_restart_attempts (run_restart_and_verify o delay s)
    unfolding run_restart_and_verify
    run_restart_and_verify-Acts s =
        Acts-then P s 3 _ _ (Acts-quiet P s (call_clock o) (λ m. (refl, refl))) λ time.
          Acts-then P s 3 _ _
            (Acts-quiet P s (change_flap (λ f. record_restart f s time)) (λ m. (refl, refl)))
            λ _. attempt_loop-Acts s 3 1

    -- A runbook starts its own service and nothing else, at most three times, and only for the
    -- signatures `container_down` and `container_unhealthy`.
    pub dispatch-Acts :
        (sig : Signature) (map : Dict Status) (s : String)
        → Acts P s (start_budget sig) (dispatch o delay sig map s)
    unfolding dispatch run_defer run_escalate run_escalate_oom ◌>>=◌
    dispatch-Acts healthy map s = Acts-quiet P s _ (λ m. (refl, refl))
    dispatch-Acts container_down map s = run_restart_and_verify-Acts s
    dispatch-Acts container_unhealthy map s = run_restart_and_verify-Acts s
    dispatch-Acts dependency_down map s = Acts-quiet P s _ (λ m. (refl, refl))
    dispatch-Acts flapping map s = Acts-quiet P s _ (λ m. (refl, refl))
    dispatch-Acts oom_crash_loop map s = Acts-quiet P s _ (λ m. (refl, refl))
