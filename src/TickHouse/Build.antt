-- ===== src/TickHouse/Build.antt =====
-- `validate_spec` of control-api/app/tickhouse.py. The gateway's settings are left out: no code of the file looks
-- into them.
use Prim.Native.Char.{code}
use Prim.Native.String.{count}
use kdb_distributed_controlp.Prelude.{
  ℕ, zero, suc, ◌+◌, ◌-◌, String, Bool, true, false, not, ◌&&◌, ◌||◌, Option, none, some, List, [],
  ◌∷◌, ◌++◌, if◌then◌else◌, ◌==◌, leb, str_eq,
}
use kdb_distributed_controlp.Prelude.Dict.{Dict, lookup}
use kdb_distributed_controlp.Prelude.Text.{str_strip}
use kdb_distributed_controlp.TickHouse.Spec.{
  ComponentSpec, ShardRange, EodConfig, TickHouseSpec, elem,
}
use kdb_distributed_controlp.TickHouse.Hardware.{clouds, os_types, profiles, required_components}

-- a problem that `validate_spec` reports
pub data Problem : Type 0 where
  bad_name bad_location bad_os bad_profile no_shards : Problem
  no_symbols_in : String → Problem
  assigned_twice : String → String → String → Problem
  overlaps : String → Problem
  missing_component : String → Problem
  missing_idb : Problem
  missing_target : String → Problem
  bad_eod_hour bad_idb_retention bad_rdb_retention bad_hdb_retention : Problem

abbrev pub report_if : Bool → Problem → List Problem
report_if b p = if b then p ∷ [] else []

abbrev name_start : ℕ → Bool
name_start c = leb b'a' c && leb c b'z'

abbrev name_end : ℕ → Bool
name_end c = name_start c || (leb b'0' c && leb c b'9')

-- what follows the first character: letters, digits and dashes, and no dash at the end
unfoldable pub name_tail : String → Bool
name_tail String.[] = false
name_tail (String.◌∷◌ c s) =
    let rest = name_tail s in
    elim s [
      | String.[] ↦ name_end (code c)
      | String.◌∷◌ d t ↦ (name_end (code c) || code c == b'-') && rest
    ]

-- `_NAME_RE`, of a name that has no line break at its end
unfoldable pub valid_name : String → Bool
unfolding name_tail
valid_name String.[] = false
valid_name (String.◌∷◌ c s) =
    name_start (code c) && (leb 2 (count s) && (leb (count s) 39 && name_tail s))

-- the letter-range policy: `sorted(shards, key=lo)`, which keeps equal ones in their order
unfoldable pub insert_range : ShardRange → List ShardRange → List ShardRange
insert_range s [] = s ∷ []
insert_range s (t ∷ ts) = if leb (code s.lo) (code t.lo) then s ∷ t ∷ ts else t ∷ insert_range s ts

unfoldable pub sort_ranges : List ShardRange → List ShardRange
unfolding insert_range
sort_ranges [] = []
sort_ranges (s ∷ ss) = insert_range s (sort_ranges ss)

abbrev pub has_letter : ℕ → ShardRange → Bool
has_letter c s = leb (code s.lo) c && leb c (code s.hi)

-- `c in covered`, of the letters of the ranges before
unfoldable pub covered_by : ℕ → List ShardRange → Bool
covered_by c [] = false
covered_by c (s ∷ before) = has_letter c s || covered_by c before

-- `any(c in covered for c in rng)`: n letters from c on
unfoldable pub any_covered : ℕ → ℕ → List ShardRange → Bool
unfolding covered_by
any_covered zero c before = false
any_covered (suc n) c before = covered_by c before || any_covered n (c + 1) before

unfoldable pub overlap_problems : List ShardRange → List ShardRange → List Problem
unfolding any_covered
overlap_problems before [] = []
overlap_problems before (s ∷ ss) =
    report_if (any_covered (code s.hi + 1 - code s.lo) (code s.lo) before) (overlaps s.label)
    ++ overlap_problems (s ∷ before) ss

-- the explicit-symbols policy: the shard that had each symbol last
unfoldable pub symbol_problems : String → List String → Dict String → List Problem × Dict String
symbol_problems label [] seen = ([], seen)
symbol_problems label (x ∷ xs) seen =
    let (later, seen') = symbol_problems label xs ((x, label) ∷ seen) in
    elim (lookup x seen) [
      | none ↦ (later, seen')
      | some other ↦ (assigned_twice x other label ∷ later, seen')
    ]

abbrev no_symbols_problem : ShardRange → List Problem
no_symbols_problem s = elim s.symbols [ [] ↦ no_symbols_in s.label ∷ [] | x ∷ xs ↦ [] ]

unfoldable pub explicit_problems : List ShardRange → Dict String → List Problem
unfolding symbol_problems
explicit_problems [] seen = []
explicit_problems (s ∷ ss) seen =
    let (found, seen') = symbol_problems s.label s.symbols seen in
    no_symbols_problem s ++ (found ++ explicit_problems ss seen')

unfoldable pub shard_problems : TickHouseSpec → List Problem
unfolding explicit_problems overlap_problems sort_ranges
shard_problems spec =
    if str_eq spec.sharding_policy "explicit-symbols"
    then explicit_problems spec.shards []
    else overlap_problems [] (sort_ranges spec.shards)

-- `config_fields`
unfoldable pub config_fields : String → List String
config_fields cloud =
    if str_eq cloud "aws"
    then "region" ∷ "vpc_id" ∷ "subnet_ids" ∷ "eks_cluster" ∷ "namespace" ∷ "storage_class"
      ∷ "ingress_class" ∷ []
    else if str_eq cloud "azure"
    then "subscription_id" ∷ "resource_group" ∷ "location" ∷ "aks_cluster" ∷ "namespace"
      ∷ "storage_class" ∷ "ingress_class" ∷ []
    else if str_eq cloud "gcp"
    then "project_id" ∷ "region" ∷ "gke_cluster" ∷ "namespace" ∷ "storage_class" ∷ "ingress_class"
      ∷ []
    else if str_eq cloud "onprem"
    then "compose_project_dir" ∷ []
    else []

abbrev blank_value : Option String → Bool
blank_value none = true
blank_value (some v) = str_eq (str_strip v) ""

unfoldable pub target_problems : Dict String → List String → List Problem
target_problems target [] = []
target_problems target (f ∷ fields) =
    report_if (blank_value (lookup f target)) (missing_target f) ++ target_problems target fields

unfoldable pub has_component : String → List ComponentSpec → Bool
has_component name [] = false
has_component name (c ∷ cs) = str_eq c.type_name name || has_component name cs

unfoldable pub component_problems : List String → List ComponentSpec → List Problem
unfolding has_component
component_problems [] components = []
component_problems (name ∷ names) components =
    report_if (not (has_component name components)) (missing_component name)
    ++ component_problems names components

abbrev is_within : Option ℕ → (ℕ → Bool) → Bool
is_within none test = false
is_within (some n) test = test n

unfoldable pub eod_problems : EodConfig → List Problem
eod_problems eod =
    report_if (not (is_within eod.eod_hour_utc (λ n. leb n 23))) bad_eod_hour
    ++ (report_if (not (is_within eod.idb_retention_days (λ n. leb 1 n))) bad_idb_retention
        ++ (report_if (not (is_within eod.rdb_retention_min (λ n. leb 1 n))) bad_rdb_retention
            ++ report_if (not (is_within eod.hdb_retention_days (λ n. true))) bad_hdb_retention))

abbrev pub no_shards_given : List ShardRange → Bool
no_shards_given [] = true
no_shards_given (s ∷ ss) = false

-- the problems of `validate_spec` before and after those of the shards
unfoldable pub choice_problems : TickHouseSpec → List Problem
unfolding valid_name
choice_problems spec =
    report_if (not (valid_name spec.name)) bad_name
    ++ (report_if (not (elem spec.location clouds)) bad_location
        ++ (report_if (not (elem spec.os os_types)) bad_os
            ++ report_if (not (elem spec.profile profiles)) bad_profile))

unfoldable pub setup_problems : TickHouseSpec → List Problem
unfolding component_problems target_problems eod_problems
setup_problems spec =
    component_problems required_components spec.components
    ++ (report_if (spec.idb_enabled && not (has_component "idb" spec.components)) missing_idb
        ++ (target_problems spec.target_config (config_fields spec.location)
            ++ eod_problems spec.eod_config))

unfoldable pub validate_spec : TickHouseSpec → List Problem
unfolding choice_problems shard_problems setup_problems
validate_spec spec =
    choice_problems spec
    ++ (report_if (no_shards_given spec.shards) no_shards
        ++ (shard_problems spec ++ setup_problems spec))
