-- ===== src/TickHouse/Auto.antt =====
-- `auto_spec` of control-api/app/tickhouse.py, and `to_provision_payload`, what the fleet agent gets of a
-- specification.
use Prim.Native.String.{◌++◌ as ◌<>◌}
use kdb_distributed_controlp.Prelude.{
  ◌≡◌, refl, ap, ℕ, String, Bool, true, false, not, Option, none, some, List, [], ◌∷◌,
  if◌then◌else◌, str_eq, map, length, Result, ok, err, ◌>>=◌,
}
use kdb_distributed_controlp.Prelude.Dict.{Dict}
use kdb_distributed_controlp.TickHouse.Spec.{
  Unicode, ComponentSpec, ShardRange, EodConfig, default_eod_config, TickHouseSpec, SpecError,
  Assignment, parse_shard_ranges, parse_explicit_shards,
}
use kdb_distributed_controlp.TickHouse.Hardware.{auto_hardware}

-- the keys of `eod_config` that are given
pub record EodChoices : Type 0 where
  pub eod_hour_utc : Option (Option ℕ)
  pub idb_retention_days : Option (Option ℕ)
  pub rdb_retention_min : Option (Option ℕ)
  pub hdb_retention_days : Option (Option ℕ)

-- the high-level choices of `auto_spec`
pub record Choices : Type 0 where
  pub name : String
  pub location : String
  pub os : String
  pub profile : String
  pub shard_ranges : String
  pub idb : Bool
  pub ldap_ref : String
  pub sharding_policy : String
  pub shard_symbols : List Assignment
  pub target_config : Dict String
  pub eod_config : EodChoices

abbrev pub component_types : Bool → List String
component_types true =
    "feedhandler" ∷ "logger" ∷ "tickerplant" ∷ "rdb" ∷ "idb" ∷ "hdb" ∷ "gateway" ∷ []
component_types false = "feedhandler" ∷ "logger" ∷ "tickerplant" ∷ "rdb" ∷ "hdb" ∷ "gateway" ∷ []

unfoldable pub build_components :
    String → String → String → List String → Result SpecError (List ComponentSpec)
unfolding auto_hardware
build_components profile location os [] = ok []
build_components profile location os (ct ∷ types) =
    let rest = build_components profile location os types in
    elim (auto_hardware profile location os ct) [
      | err e ↦ err e
      | ok hw ↦ elim rest [
        | err e ↦ err e
        | ok cs ↦
            ok
              (record { type_name = ct; per_shard = not (str_eq ct "gateway"); hardware = hw } ∷ cs)
      ]
    ]

unfoldable pub build_shards : Unicode → Choices → Result SpecError (List ShardRange)
unfolding parse_shard_ranges parse_explicit_shards
build_shards u c =
    if str_eq c.sharding_policy "explicit-symbols"
    then parse_explicit_shards u c.shard_symbols
    else parse_shard_ranges u c.shard_ranges

abbrev or_default : Option (Option ℕ) → Option ℕ → Option ℕ
or_default none default = default
or_default (some v) default = v

-- `{**DEFAULT_EOD_CONFIG, **(eod_config or {})}`
abbrev merge_eod : EodChoices → EodConfig
merge_eod c = record {
  eod_hour_utc = or_default c.eod_hour_utc default_eod_config.eod_hour_utc;
  idb_retention_days = or_default c.idb_retention_days default_eod_config.idb_retention_days;
  rdb_retention_min = or_default c.rdb_retention_min default_eod_config.rdb_retention_min;
  hdb_retention_days = or_default c.hdb_retention_days default_eod_config.hdb_retention_days;
}

unfoldable pub auto_spec : Unicode → Choices → Result SpecError TickHouseSpec
unfolding build_shards build_components
auto_spec u c = do
  shards ← build_shards u c
  components ← build_components c.profile c.location c.os (component_types c.idb)
  ok (record {
    name = c.name;
    location = c.location;
    os = c.os;
    profile = c.profile;
    shards = shards;
    components = components;
    ldap_ref = c.ldap_ref;
    idb_enabled = c.idb;
    sharding_policy = c.sharding_policy;
    target_config = c.target_config;
    eod_config = merge_eod c.eod_config;
  })

-- `ShardRange.id`
abbrev shard_id : Unicode → ShardRange → String
shard_id u s = "s" <> (u.lower (String.◌∷◌ s.lo String.[]) <> u.lower (String.◌∷◌ s.hi String.[]))

pub record ShardRow : Type 0 where
  pub id : String
  pub shard : ShardRange

abbrev shard_rows : Unicode → List ShardRange → List ShardRow
shard_rows u = map (λ s. record { id = shard_id u s; shard = s })

-- a specification as its JSON text holds it
pub record SpecDict : Type 0 where
  pub name : String
  pub location : String
  pub os : String
  pub profile : String
  pub shards : List ShardRow
  pub components : List ComponentSpec
  pub ldap_ref : String
  pub idb_enabled : Bool
  pub sharding_policy : String
  pub target_config : Dict String
  pub eod_config : EodConfig

unfoldable pub spec_to_dict : Unicode → TickHouseSpec → SpecDict
spec_to_dict u spec = record {
  name = spec.name;
  location = spec.location;
  os = spec.os;
  profile = spec.profile;
  shards = shard_rows u spec.shards;
  components = spec.components;
  ldap_ref = spec.ldap_ref;
  idb_enabled = spec.idb_enabled;
  sharding_policy = spec.sharding_policy;
  target_config = spec.target_config;
  eod_config = spec.eod_config;
}

unfoldable pub spec_from_dict : SpecDict → TickHouseSpec
spec_from_dict d = record {
  name = d.name;
  location = d.location;
  os = d.os;
  profile = d.profile;
  shards = map {A = ShardRow} (λ r. r.shard) d.shards;
  components = d.components;
  ldap_ref = d.ldap_ref;
  idb_enabled = d.idb_enabled;
  sharding_policy = d.sharding_policy;
  target_config = d.target_config;
  eod_config = d.eod_config;
}

shards_kept :
    (u : Unicode) (ss : List ShardRange) → map {A = ShardRow} (λ r. r.shard) (shard_rows u ss) ≡ ss
shards_kept u [] = refl
shards_kept u (s ∷ ss) = ap (λ l. s ∷ l) (shards_kept u ss)

-- The dictionary gives the specification back.
pub spec_from_dict-spec_to_dict :
    (u : Unicode) (spec : TickHouseSpec) → spec_from_dict (spec_to_dict u spec) ≡ spec
unfolding spec_from_dict spec_to_dict
spec_from_dict-spec_to_dict u spec =
    ap (λ ss. record spec { shards = ss }) (shards_kept u spec.shards)

pub record ProvisionPayload : Type 0 where
  pub tickhouse : String
  pub location : String
  pub os : String
  pub profile : String
  pub shard_count : ℕ
  pub sharding_policy : String
  pub shards : List ShardRow
  pub components : List ComponentSpec
  pub ldap_ref : String
  pub idb_enabled : Bool
  pub target_config : Dict String
  pub eod_config : EodConfig

unfoldable pub to_provision_payload : Unicode → TickHouseSpec → ProvisionPayload
to_provision_payload u spec = record {
  tickhouse = spec.name;
  location = spec.location;
  os = spec.os;
  profile = spec.profile;
  shard_count = length spec.shards;
  sharding_policy = spec.sharding_policy;
  shards = shard_rows u spec.shards;
  components = spec.components;
  ldap_ref = spec.ldap_ref;
  idb_enabled = spec.idb_enabled;
  target_config = spec.target_config;
  eod_config = spec.eod_config;
}
