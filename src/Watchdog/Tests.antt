-- ===== src/Watchdog/Tests.antt =====
-- Runs of the flap tracker, of the classification and of the order of a pass.
use kdb_distributed_controlp.Prelude.{
  ℕ, ◌≡◌, refl, String, true, false, none, some, List, [], ◌∷◌, ok, arith, if◌then◌else◌, eq_iff,
}
use kdb_distributed_controlp.Topology.{Shard, service, healed_services}
use kdb_distributed_controlp.Watchdog.Flap.{
  FlapTracker, record_restart, restart_count, is_flapping, start_cooldown, in_cooldown,
}
use kdb_distributed_controlp.Watchdog.Flap.Window.{record_all, is_flapping_history}
use kdb_distributed_controlp.Watchdog.Flap.Cooldown.{SameAt, cooldown_lifecycle, other_service}
use kdb_distributed_controlp.Watchdog.Runbooks.{tickerplant_dependency}
use kdb_distributed_controlp.Watchdog.Runbooks.Classify.{tickerplant_dependency-service}
use kdb_distributed_controlp.Watchdog.Order.{tickerplants_first, healed_services_order}

abbrev test_tracker : FlapTracker
test_tracker = record {
  window = 300;
  threshold = 3;
  cooldown = 600;
  restarts = λ _. [];
  cooldown_until = λ _. none;
}

abbrev test_times : List ℕ
test_times = 10 ∷ 200 ∷ 250 ∷ 320 ∷ []

is_flapping_history_example :
    ((restart_count (record_all test_tracker "rdb-s0" test_times) "rdb-s0" 340).0 ≡ 3)
    × ((is_flapping (record_all test_tracker "rdb-s0" test_times) "rdb-s0" 340).0 ≡ true)
is_flapping_history_example =
    is_flapping_history test_tracker "rdb-s0" test_times 340 refl
      (omega arith, (omega arith, (omega arith, (omega arith, omega arith))))

cooldown_lifecycle_example :
    let (held, g) = in_cooldown (start_cooldown test_tracker "rdb-s0" none 100) "rdb-s0" 700 in
    (held ≡ false)
    × (g.restarts "rdb-s0" ≡ (if held then [] else []))
    × (g.cooldown_until "rdb-s0" ≡ (if held then some 700 else none))
cooldown_lifecycle_example = cooldown_lifecycle test_tracker "rdb-s0" none 100 700

other_service_example :
    SameAt "tp-s0" test_tracker (record_restart test_tracker "rdb-s0" 5)
    × SameAt "tp-s0" test_tracker (restart_count test_tracker "rdb-s0" 5).1
    × SameAt "tp-s0" test_tracker (is_flapping test_tracker "rdb-s0" 5).1
    × SameAt "tp-s0" test_tracker (start_cooldown test_tracker "rdb-s0" (some 7) 5)
    × SameAt "tp-s0" test_tracker (in_cooldown test_tracker "rdb-s0" 5).1
other_service_example =
    other_service test_tracker "rdb-s0" "tp-s0" (some 7) 5 (ground (arith, eq_iff "rdb-s0" "tp-s0"))

abbrev test_shard : Shard
test_shard = record { index = 1; id = "s1"; lo = 78; hi = 90 }

tickerplant_dependency-service_example :
    (tickerplant_dependency "wdb-s1" ≡ some "tp-s1")
    × (tickerplant_dependency "rdb-s1" ≡ some "tp-s1")
    × (tickerplant_dependency "idb-s1" ≡ some "tp-s1")
    × (tickerplant_dependency "tp-s1" ≡ none)
    × (tickerplant_dependency "hdb-s1" ≡ none)
    × (tickerplant_dependency "gateway" ≡ none)
unfolding service
tickerplant_dependency-service_example = tickerplant_dependency-service test_shard

healed_services_order_example :
    (names : List String) × (healed_services 3 ≡ ok names) × (tickerplants_first [] names ≡ true)
healed_services_order_example = healed_services_order 3 (omega arith) (omega arith)
