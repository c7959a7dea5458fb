-- ===== src/Watchdog/Order.antt =====
-- The order in which `check_and_heal` (watchdog/watchdog.py) visits the services that
-- `topology.healed_services` lists: a tickerplant before the processes that depend on it.
use kdb_distributed_controlp.Prelude.{
  ℕ, zero, suc, ◌≤◌, ◌≡◌, refl, String, Bool, true, false, ◌&&◌, none, some, List, [], ◌∷◌, Result,
  ok, err, arith, passes_below, passes_below-at,
}
use kdb_distributed_controlp.Prelude.Dict.{insert}
use kdb_distributed_controlp.Prelude.Text.{decimal, strip_prefix}
use kdb_distributed_controlp.Topology.{
  TopologyError, validate, letter_at, range_loop, letter_ranges, number_shards, shards, service,
  add_tiers, add_shards, shard_services, healed_services,
}
use kdb_distributed_controlp.Topology.Services.{contains}
use kdb_distributed_controlp.Watchdog.Runbooks.{tickerplant_dependency}

-- Each service whose tickerplant is `d` stands behind `d`; `seen` holds what stands before.
abbrev pub tickerplants_first : List String → List String → Bool
tickerplants_first seen [] = true
tickerplants_first seen (x ∷ xs) =
    elim (tickerplant_dependency x) [ none ↦ true | some d ↦ contains seen d ]
    && tickerplants_first (x ∷ seen) xs

abbrev is_ordered : Result TopologyError (List String) → Bool
is_ordered (ok names) = tickerplants_first [] names
is_ordered (err _) = false

ordered : ℕ → Bool
ordered k = is_ordered (healed_services (suc k))

ordered_table : passes_below ordered 26 ≡ true
unfolding passes_below ordered healed_services shard_services shards letter_ranges validate
    range_loop letter_at number_shards decimal add_shards add_tiers insert service
    tickerplant_dependency strip_prefix
ordered_table = refl

is_ordered_sound :
    (r : Result TopologyError (List String))
    → is_ordered r ≡ true
    → (names : List String) × (r ≡ ok names) × (tickerplants_first [] names ≡ true)
is_ordered_sound (ok names) h = (names, refl, h)
is_ordered_sound (err e) h = absurd (cc)

-- For every shard count from 1 to 26 the pass visits the tickerplant of a service before the service.
pub healed_services_order :
    (n : ℕ)
    → 1 ≤ n
    → n ≤ 26
    → (names : List String) × (healed_services n ≡ ok names) × (tickerplants_first [] names ≡ true)
unfolding ordered
healed_services_order zero low high = absurd (omega arith)
healed_services_order (suc k) low high =
    is_ordered_sound (healed_services (suc k)) (passes_below-at ordered 26 k high ordered_table)
