-- ===== src/Watchdog/Runbooks/Classify.antt =====
-- `classify` and `tickerplant_dependency` of watchdog/runbooks.py: which signature an observation gets.
use Prim.Native.String.{◌++◌ as ◌<>◌}
use kdb_distributed_controlp.Topology.{Shard, service, tickerplant, wdb, rdb, idb, hdb}
use kdb_distributed_controlp.Prelude.{
  ℕ, ◌≡◌, refl, ◌∙◌, String, Bool, true, false, not, ◌&&◌, Option, none, some, List, [], ◌∷◌, arith,
}
use kdb_distributed_controlp.Prelude.Dict.{Dict}
use kdb_distributed_controlp.Prelude.Text.{
  strip_prefix, differ, strip_prefix-append_self, strip_prefix-differ,
}
use kdb_distributed_controlp.Watchdog.Events.{
  Status, Signature, healthy, container_down, container_unhealthy, dependency_down, flapping,
  oom_crash_loop,
}
use kdb_distributed_controlp.Watchdog.Flap.{FlapTracker, is_flapping}
use kdb_distributed_controlp.Watchdog.Runbooks.{
  first_dependency, tickerplant_dependency, runs, is_false, is_blocked, classify,
}

-- Not running, or running and reported unhealthy by the probe.
abbrev pub failing : Dict Status → String → Option Bool → Bool
failing map s probed = not (runs map s && not (is_false probed))

-- The signature as a table over the three questions, in their order of precedence.
abbrev pub expected : (failing blocked flaps up oom : Bool) → Signature
expected false blocked flaps up oom = healthy
expected true true flaps up oom = dependency_down
expected true false true up true = oom_crash_loop
expected true false true up false = flapping
expected true false false true oom = container_unhealthy
expected true false false false oom = container_down

pub classify-eq-expected :
    (s : String) (map : Dict Status) (f : FlapTracker) (t : ℕ) (probed : Option Bool) (oom : Bool)
    → (classify s map f t probed oom).0
      ≡ expected
          (failing map s probed)
          (is_blocked map (tickerplant_dependency s))
          (is_flapping f s t).0
          (runs map s)
          oom
unfolding classify
classify-eq-expected s map f t probed oom = ground arith

first_dependency_found :
    (p s rest : String) (ps : List String)
    → strip_prefix p s ≡ some rest
    → first_dependency (p ∷ ps) s ≡ some ("tp-" <> rest)
unfolding first_dependency
first_dependency_found p s rest ps e = rw (e, first_dependency)

first_dependency_next :
    (p s : String) (ps : List String)
    → strip_prefix p s ≡ none
    → first_dependency (p ∷ ps) s ≡ first_dependency ps s
unfolding first_dependency
first_dependency_next p s ps e = rw (e, first_dependency)

-- A name that begins with `q`, which the three prefixes differ from, has no dependency.
no_dependency :
    (q id : String)
    → differ "wdb-" q ≡ true
    → differ "rdb-" q ≡ true
    → differ "idb-" q ≡ true
    → tickerplant_dependency (q <> id) ≡ none
unfolding tickerplant_dependency
no_dependency q id w r i =
    first_dependency_next "wdb-" (q <> id) ("rdb-" ∷ "idb-" ∷ [])
      (strip_prefix-differ "wdb-" q id w)
    ∙ first_dependency_next "rdb-" (q <> id) ("idb-" ∷ []) (strip_prefix-differ "rdb-" q id r)
    ∙ first_dependency_next "idb-" (q <> id) [] (strip_prefix-differ "idb-" q id i)

-- A shard's wdb, rdb and idb depend on the tickerplant of the same shard; its tickerplant, its hdb and
-- the gateway depend on none.
pub tickerplant_dependency-service :
    (s : Shard)
    → (tickerplant_dependency (service s wdb) ≡ some (service s tickerplant))
      × (tickerplant_dependency (service s rdb) ≡ some (service s tickerplant))
      × (tickerplant_dependency (service s idb) ≡ some (service s tickerplant))
      × (tickerplant_dependency (service s tickerplant) ≡ none)
      × (tickerplant_dependency (service s hdb) ≡ none)
      × (tickerplant_dependency "gateway" ≡ none)
unfolding tickerplant_dependency differ service strip_prefix
tickerplant_dependency-service s = (
  first_dependency_found "wdb-" ("wdb-" <> s.id) s.id ("rdb-" ∷ "idb-" ∷ [])
      (strip_prefix-append_self "wdb-" s.id),
  first_dependency_next "wdb-" ("rdb-" <> s.id) ("rdb-" ∷ "idb-" ∷ [])
        (strip_prefix-differ "wdb-" "rdb-" s.id refl)
      ∙ first_dependency_found "rdb-" ("rdb-" <> s.id) s.id ("idb-" ∷ [])
          (strip_prefix-append_self "rdb-" s.id),
  first_dependency_next "wdb-" ("idb-" <> s.id) ("rdb-" ∷ "idb-" ∷ [])
        (strip_prefix-differ "wdb-" "idb-" s.id refl)
      ∙ first_dependency_next "rdb-" ("idb-" <> s.id) ("idb-" ∷ [])
          (strip_prefix-differ "rdb-" "idb-" s.id refl)
      ∙ first_dependency_found "idb-" ("idb-" <> s.id) s.id []
          (strip_prefix-append_self "idb-" s.id),
  no_dependency "tp-" s.id refl refl refl,
  no_dependency "hdb-" s.id refl refl refl,
  refl,
)
