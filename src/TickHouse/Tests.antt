-- ===== src/TickHouse/Tests.antt =====
-- Specifications (control-api/app/tickhouse.py) on concrete choices.
use Prim.Native.Char.{code}
use kdb_distributed_controlp.Prelude.{
  List, ◌≡◌, refl, ◌≤◌, String, true, none, some, [], ◌∷◌, length, ok, err,
}
use kdb_distributed_controlp.FleetAgent.{integer, valid_count}
use kdb_distributed_controlp.TickHouse.Spec.{
  Unicode, TickHouseSpec, bad_range, out_of_order, parse_shard_ranges, parse_explicit_shards, elem,
  default_eod_config,
}
use kdb_distributed_controlp.TickHouse.Ascii.{is_letter, is_ascii, IsStandard}
use kdb_distributed_controlp.TickHouse.Hardware.{suggest_shard_count}
use kdb_distributed_controlp.TickHouse.Build.{validate_spec, overlaps, config_fields}
use kdb_distributed_controlp.TickHouse.Auto.{Choices, auto_spec, build_components, component_types}
use kdb_distributed_controlp.Prelude.Text.{str_strip, str_upper, str_lower, decimal}
use kdb_distributed_controlp.Prelude.Dict.{lookup}
use kdb_distributed_controlp.Prelude.Exec.{◌>>=◌, ◌>>◌}
use kdb_distributed_controlp.Fleet.Store.{
  Agent, onprem, online, Db, CurrentUser, tenant_admin, find_agent,
}
use kdb_distributed_controlp.Accounts.Store.{admin_scope}
use kdb_distributed_controlp.TickHouse.Router.{HouseDb, create_tickhouse, provision_house}
use kdb_distributed_controlp.TickHouse.Histories.{HouseRequest, creates, is_plain, serve_houses}
use kdb_distributed_controlp.TickHouse.Queued.{IsQueued, provision_house-IsQueued}
use kdb_distributed_controlp.TickHouse.Disjoint.{owners}
use kdb_distributed_controlp.TickHouse.Accepted.{auto_spec-valid_count}

-- Python on ASCII texts; other characters are no letters here and stay as they are
abbrev python : Unicode
python = record {
  upper = str_upper;
  lower = str_lower;
  strip = str_strip;
  isalpha = λ c. is_letter (code c);
}

python-IsStandard : IsStandard python
python-IsStandard = record {
  upper = λ s plain. refl;
  strip = λ s plain. refl;
  isalpha = λ c small. refl;
}

abbrev choices : String → Choices
choices ranges = record {
  name = "acme-emea";
  location = "onprem";
  os = "ubuntu-22.04";
  profile = "balanced";
  shard_ranges = ranges;
  idb = true;
  ldap_ref = "";
  sharding_policy = "letter-range";
  shard_symbols = [];
  target_config = ("compose_project_dir", "/srv/acme") ∷ [];
  eod_config = record {
    eod_hour_utc = some (some 21);
    idb_retention_days = none;
    rdb_retention_min = none;
    hdb_retention_days = none;
  };
}

abbrev acme : TickHouseSpec
acme = record {
  name = "acme-emea";
  location = "onprem";
  os = "ubuntu-22.04";
  profile = "balanced";
  shards =
      record { label = "A-D"; lo = "A"; hi = "D"; symbols = [] }
      ∷ record { label = "X-X"; lo = "X"; hi = "X"; symbols = [] }
      ∷ [];
  components = elim (build_components "balanced" "onprem" "ubuntu-22.04" (component_types true)) [
    | ok cs ↦ cs
    | err e ↦ []
  ];
  ldap_ref = "";
  idb_enabled = true;
  sharding_policy = "letter-range";
  target_config = ("compose_project_dir", "/srv/acme") ∷ [];
  eod_config = record default_eod_config { eod_hour_utc = some 21 };
}

acme_made : auto_spec python (choices "a-d, x") ≡ ok acme
unfolding auto_spec str_strip str_upper elem
acme_made = refl

acme_valid : validate_spec acme ≡ []
unfolding validate_spec str_strip elem build_components config_fields lookup
acme_valid = refl

acme_bad_range : parse_shard_ranges python "a-d, e-5" ≡ err (bad_range "e-5")
unfolding parse_shard_ranges str_strip str_upper
acme_bad_range = refl

acme_reversed : parse_shard_ranges python "d-a" ≡ err (out_of_order "d-a")
unfolding parse_shard_ranges str_strip str_upper
acme_reversed = refl

acme_overlap :
    validate_spec (record acme {
      shards =
          record { label = "D-F"; lo = "D"; hi = "F"; symbols = [] }
          ∷ record { label = "A-D"; lo = "A"; hi = "D"; symbols = [] }
          ∷ [];
    })
    ≡ overlaps "D-F" ∷ []
unfolding validate_spec str_strip elem build_components config_fields lookup
acme_overlap = refl

explicit_labels :
    parse_explicit_shards python (
      record { label = none; symbols = "aapl" ∷ " " ∷ [] }
      ∷ record { label = some "fx"; symbols = "eurusd" ∷ [] }
      ∷ [])
    ≡ ok (
        record { label = "shard-1"; lo = "A"; hi = "A"; symbols = "AAPL" ∷ [] }
        ∷ record { label = "fx"; lo = "B"; hi = "B"; symbols = "EURUSD" ∷ [] }
        ∷ [])
unfolding parse_explicit_shards str_strip str_upper decimal
explicit_labels = refl

suggested :
    (suggest_shard_count (some 4001) (some 1200) ≡ 3) × (suggest_shard_count none (some 50000) ≡ 26)
unfolding suggest_shard_count
suggested = (refl, refl)

auto_spec-valid_count_example :
    (owners 66 acme.shards ≤ 1)
    × (valid_count (integer (length acme.shards)) ≡ some (length acme.shards))
unfolding is_ascii
auto_spec-valid_count_example =
    auto_spec-valid_count python python-IsStandard (choices "a-d, x") acme 66 refl refl acme_made
      acme_valid

abbrev boss : CurrentUser
boss = record { user_id = 1; email = "boss@acme"; role = tenant_admin; tenant_id = some 7 }

abbrev site_agent : Agent
site_agent = record {
  id = 3;
  tenant_id = 7;
  name = "site";
  environment = onprem;
  status = online;
  enrollment_token = "t";
  agent_secret_hash = none;
  last_heartbeat = none;
  last_reported_status = "{}";
}

abbrev fleet : Db
fleet = record {
  agents = site_agent ∷ [];
  commands = [];
  next_agent = 4;
  next_command = 5;
  audit = [];
}

abbrev no_houses : HouseDb
no_houses = record { houses = []; next_house = 1; fleet = fleet }

abbrev created_house : List HouseRequest
created_house = creates (choices "a-d, x") boss ∷ []

provision_house_done :
    (provision_house python 1 3 boss (serve_houses python created_house no_houses)).0 ≡ ok (1, 5)
unfolding provision_house serve_houses create_tickhouse ◌>>=◌ ◌>>◌ validate_spec str_strip str_upper
    elem config_fields lookup admin_scope build_components decimal find_agent
provision_house_done = refl

provision_house-IsQueued_example :
    IsQueued python 1 3 5 boss
      (serve_houses python created_house no_houses)
      (provision_house python 1 3 boss (serve_houses python created_house no_houses)).1
unfolding is_ascii is_plain
provision_house-IsQueued_example =
    provision_house-IsQueued python python-IsStandard created_house no_houses 1 3 boss 1 5
      (refl, tt) refl provision_house_done
