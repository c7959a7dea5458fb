-- ===== src/FleetAgent/Tests.antt =====
-- Runs of the agent on a backend whose world is the shard count that is deployed, if any.
use kdb_distributed_controlp.Prelude.{
  ℕ, ◌≤◌, ◌≡◌, refl, true, false, Option, none, some, [], ◌∷◌, ok, err, arith, All,
}
use kdb_distributed_controlp.FleetAgent.{
  integer, absent, Desired, ReconcileResult, Backend, check_counts, provision, provision_counts,
  reconcile_from, caught, stamp,
}
use kdb_distributed_controlp.FleetAgent.Loop.{Cmd, Agent, Run, tick}
use kdb_distributed_controlp.FleetAgent.Reports.{
  ids_onto, report_ids, IsOutcome, called_for, has_reported, tick_reports,
}
use kdb_distributed_controlp.FleetAgent.Reconcile.{provision_keeps, provision_again}

abbrev done : ℕ → ReconcileResult
done n = record { is_ok = true; detail = "helm upgrade"; shard_count = none; steps = [] }

abbrev helm : Backend (Option ℕ)
helm = record {
  current_shard_count = λ w. (ok w, w);
  reconcile = λ n gw w. (ok (done n), some n);
  reconcile_spec = none;
  teardown = λ w. (ok (done 0), none);
}

abbrev three : Desired
three = record {
  components = false;
  shard_count = integer 3;
  gateway_replicas = absent;
  document = "";
}

abbrev IsSmall : Option ℕ → Type 0
IsSmall none = Unit {0}
IsSmall (some k) = k ≤ 26

provision_keeps_example : IsSmall (provision helm three (some 5)).1
provision_keeps_example =
    provision_keeps helm IsSmall (λ w inv. inv) (λ n gw w low high replicas inv. high)
      (λ run has. absurd (cc)) three (some 5) (omega arith)

provision_again_example :
    ((provision helm three (provision helm three (some 5)).1).1 ≡ (provision helm three (some 5)).1)
    × ((provision helm three (provision helm three (some 5)).1).0.is_ok ≡ true)
unfolding provision provision_counts check_counts reconcile_from caught stamp
provision_again_example =
    provision_again helm (λ w. refl) (λ n gw w r e good. refl) three (some 5) refl refl refl

abbrev scale : Cmd
scale = record { id = some 4; action = some "provision"; service = none; payload = some "three" }

abbrev mystery : Cmd
mystery = record { id = some 5; action = some "dance"; service = none; payload = none }

-- a client that hands out the two commands, and fails to report
abbrev test_agent : Agent (Option ℕ)
test_agent = record {
  heartbeat = λ status w. (ok (scale ∷ mystery ∷ []), w);
  report_result = λ r w. (err "connection reset", w);
  backend = helm;
  service_op = λ action service w. (ok (true, "done"), w);
  status_probe = λ w. (err "no kubectl", w);
  sleep = λ w. w;
  loads = λ text. ok three;
}

abbrev idle : Run (Option ℕ)
idle = record { world = none; reported = [] }

tick_reports_example :
    ((tick test_agent idle).0 ≡ ok 2)
    × (report_ids (tick test_agent idle).1.reported ≡ 5 ∷ 4 ∷ [])
    × All IsOutcome (tick test_agent idle).1.reported
    × ((tick test_agent idle).1
        ≡ has_reported test_agent (called_for test_agent (scale ∷ mystery ∷ []) none) [])
unfolding ids_onto
tick_reports_example = tick_reports test_agent idle (scale ∷ mystery ∷ []) refl tt
