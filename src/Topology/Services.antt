-- ===== src/Topology/Services.antt =====
-- The names of the services that control-api/app/topology.py derives, for every shard count.
use Prim.Native.String.{◌++◌ as ◌<>◌}
use kdb_distributed_controlp.Prelude.{
  ℕ, zero, suc, ◌≤◌, ◌≡◌, refl, String, Bool, true, false, not, ◌&&◌, ◌||◌, List, [], ◌∷◌, Result,
  ok, err, arith, str_eq, eq_iff, ◌++◌, passes_below, passes_below-at,
}
use kdb_distributed_controlp.Prelude.Dict.{Dict, keys, insert}
use kdb_distributed_controlp.Prelude.Text.{decimal}
use kdb_distributed_controlp.Topology.{
  Shard, TopologyError, validate, letter_at, range_loop, letter_ranges, number_shards, shards,
  service, add_tiers, add_shards, shard_services, healed_services, managed_services, add_names,
}

abbrev pub contains : List String → String → Bool
contains [] s = false
contains (x ∷ xs) s = str_eq x s || contains xs s

-- No name stands twice.
abbrev pub distinct : List String → Bool
distinct [] = true
distinct (x ∷ xs) = not (contains xs x) && distinct xs

abbrev same_texts : List String → List String → Bool
same_texts [] [] = true
same_texts [] (y ∷ ys) = false
same_texts (x ∷ xs) [] = false
same_texts (x ∷ xs) (y ∷ ys) = str_eq x y && same_texts xs ys

same_texts→eq : (xs ys : List String) → same_texts xs ys ≡ true → xs ≡ ys
same_texts→eq [] [] h = refl
same_texts→eq [] (y ∷ ys) h = cc
same_texts→eq (x ∷ xs) [] h = cc
same_texts→eq (x ∷ xs) (y ∷ ys) h = ground (arith, eq_iff x y, same_texts→eq xs ys)

-- the processes of a shard in boot order, by its id, and those of some shards, with the gateway
abbrev pub processes_of : String → List String
processes_of id =
    ("tp-" <> id) ∷ ("wdb-" <> id) ∷ ("rdb-" <> id) ∷ ("idb-" <> id) ∷ ("hdb-" <> id) ∷ []

abbrev pub names_of : List Shard → List String
names_of [] = "gateway" ∷ []
names_of (s ∷ ss) = processes_of s.id ++ names_of ss

-- What is checked of the three results.
abbrev Checked : List Shard → List String → Dict String → Type 0
Checked ss names out =
    (names ≡ names_of ss)
    × (keys out ≡ names ++ "bpipe-sim" ∷ "crims-sim" ∷ [])
    × (distinct (keys out) ≡ true)

abbrev check :
    Result TopologyError (List Shard)
    → Result TopologyError (List String)
    → Result TopologyError (Dict String)
    → Bool
check (ok ss) (ok names) (ok out) =
    same_texts names (names_of ss)
    && (same_texts (keys out) (names ++ "bpipe-sim" ∷ "crims-sim" ∷ []) && distinct (keys out))
check _ _ _ = false

check_sound :
    (p : Result TopologyError (List Shard)) (r : Result TopologyError (List String))
    (q : Result TopologyError (Dict String))
    → check p r q ≡ true
    → (ss : List Shard) × (names : List String) × (out : Dict String) × (p ≡ ok ss)
      × (r ≡ ok names)
      × (q ≡ ok out)
      × Checked ss names out
check_sound (ok ss) (ok names) (ok out) h = (
  ss,
  names,
  out,
  refl,
  refl,
  refl,
  ground (
    arith,
    same_texts→eq names (names_of ss),
    same_texts→eq (keys out) (names ++ "bpipe-sim" ∷ "crims-sim" ∷ []),
  ),
)
check_sound (ok ss) (ok names) (err e) h = absurd (cc)
check_sound (ok ss) (err e) q h = absurd (cc)
check_sound (err e) r q h = absurd (cc)

checks : ℕ → Bool
checks k = check (shards (suc k)) (healed_services (suc k)) (managed_services (suc k))

checks_table : passes_below checks 26 ≡ true
unfolding passes_below checks healed_services managed_services shard_services shards letter_ranges
    validate range_loop letter_at number_shards decimal add_shards add_tiers add_names insert
    service
checks_table = refl

-- For every shard count from 1 to 26 the watchdog heals, for each shard in turn, its tickerplant, wdb, rdb, idb
-- and hdb, in this order and named by the process and the shard's id, and then the gateway; the orchestrator
-- manages these and the two feed simulators, in this order and with no name twice.
pub services_of_shards :
    (n : ℕ)
    → 1 ≤ n
    → n ≤ 26
    → (ss : List Shard) × (names : List String) × (out : Dict String) × (shards n ≡ ok ss)
      × (healed_services n ≡ ok names)
      × (managed_services n ≡ ok out)
      × (names ≡ names_of ss)
      × (keys out ≡ names ++ "bpipe-sim" ∷ "crims-sim" ∷ [])
      × (distinct (keys out) ≡ true)
unfolding checks
services_of_shards zero low high = absurd (omega arith)
services_of_shards (suc k) low high =
    let (ss, names, out, p, r, q, c) =
      check_sound (shards (suc k)) (healed_services (suc k)) (managed_services (suc k))
        (passes_below-at checks 26 k high checks_table) in
    (ss, names, out, p, r, q, c.0, c.1, c.2)
