-- ===== src/TickHouse/Router.antt =====
-- The endpoints of control-api/app/routers/tickhouse.py that keep and provision TickHouses. A row holds the
-- dictionary that its `spec_json` encodes. The attachment of a feed handler is left out.
use kdb_distributed_controlp.Prelude.{
  ℕ, ◌+◌, String, Bool, true, false, Option, none, some, List, [], ◌∷◌, ◌++◌, if◌then◌else◌, ◌==◌,
  str_eq, length, Result, ok, err,
}
use kdb_distributed_controlp.Prelude.Text.{decimal}
use Prim.Native.String.{◌++◌ as ◌<>◌}
use kdb_distributed_controlp.Prelude.Exec.{
  Exec, pure, gets, or_raise, modify, require, lift, ◌>>=◌, ◌>>◌,
}
use kdb_distributed_controlp.Fleet.Store.{
  environment_value, CommandStatus, queued, success, failure, CurrentUser, AuditEvent, Command,
  spec_of, Db, HttpError, http, find_agent, find_command,
}
use kdb_distributed_controlp.Accounts.Store.{tenant_scope, admin_scope}
use kdb_distributed_controlp.TickHouse.Spec.{Unicode, TickHouseSpec, SpecError, unknown_component}
use kdb_distributed_controlp.TickHouse.Build.{Problem, validate_spec}
use kdb_distributed_controlp.TickHouse.Auto.{
  Choices, SpecDict, spec_to_dict, spec_from_dict, auto_spec, to_provision_payload,
}

pub data HouseStatus : Type 0 where
  defined provisioning running failed : HouseStatus

-- a row of the table `TickHouse`
pub record House : Type 0 where
  pub id : ℕ
  pub tenant_id : ℕ
  pub name : String
  pub location : String
  pub os : String
  pub profile : String
  pub spec_json : SpecDict
  pub status : HouseStatus
  pub agent_id : Option ℕ
  pub last_command_id : Option ℕ

-- the table of TickHouses, and the tables of the fleet
pub record HouseDb : Type 0 where
  pub houses : List House
  pub next_house : ℕ
  pub fleet : Db

abbrev pub HouseHandler : Type 0 → Type 0
HouseHandler A = Exec HttpError HouseDb A

unfoldable pub find_house : ℕ → List House → Option House
find_house id [] = none
find_house id (h ∷ rows) = if h.id == id then some h else find_house id rows

-- a changed row, written back by its id
unfoldable pub put_house : House → List House → List House
put_house v [] = []
put_house v (h ∷ rows) = if h.id == v.id then v ∷ rows else h ∷ put_house v rows

unfoldable pub drop_house : ℕ → List House → List House
drop_house id [] = []
drop_house id (h ∷ rows) = if h.id == id then rows else h ∷ drop_house id rows

abbrev pub with_houses : (List House → List House) → HouseDb → HouseDb
with_houses f db = record db { houses = f db.houses }

-- `log_event`
unfoldable pub with_event : AuditEvent → HouseDb → HouseDb
with_event e db = record db { fleet = record db.fleet { audit = e ∷ db.fleet.audit } }

abbrev event : CurrentUser → String → String → String → ℕ → AuditEvent
event user action target detail tenant = record {
  actor = user.email;
  action = action;
  target = target;
  detail = detail;
  tenant_id = some tenant;
}

-- `_load`
unfoldable pub load : ℕ → ℕ → List House → Result HttpError House
unfolding find_house
load id tenant rows = elim (find_house id rows) [
  | none ↦ err (http 404)
  | some h ↦ if h.tenant_id == tenant then ok h else err (http 404)
]

-- `_build`, of a request with no end-of-day settings; a `ValueError` is a 400, a `KeyError` a 500
abbrev status_of : SpecError → ℕ
status_of (unknown_component name) = 500
status_of _ = 400

abbrev pub built : Choices → Choices
built c = record c {
  eod_config = record {
    eod_hour_utc = none;
    idb_retention_days = none;
    rdb_retention_min = none;
    hdb_retention_days = none;
  };
}

unfoldable pub build : Unicode → Choices → Result HttpError TickHouseSpec
unfolding auto_spec
build u c = elim (auto_spec u (built c)) [ err e ↦ err (http (status_of e)) | ok spec ↦ ok spec ]

abbrev pub is_clean : List Problem → Bool
is_clean [] = true
is_clean (p ∷ ps) = false

abbrev pub new_house : Unicode → ℕ → ℕ → TickHouseSpec → House
new_house u id tenant spec = record {
  id = id;
  tenant_id = tenant;
  name = spec.name;
  location = spec.location;
  os = spec.os;
  profile = spec.profile;
  spec_json = spec_to_dict u spec;
  status = defined;
  agent_id = none;
  last_command_id = none;
}

abbrev pub add_house : House → HouseDb → HouseDb
add_house h db = record db { houses = db.houses ++ h ∷ []; next_house = db.next_house + 1 }

abbrev created_detail : TickHouseSpec → String
created_detail spec =
    spec.location <> ("/" <> (spec.profile <> ("/" <> (decimal (length spec.shards) <> " shards"))))

-- `preview`
unfoldable pub preview :
    Unicode → Choices → CurrentUser → HouseHandler (TickHouseSpec × List Problem)
unfolding build validate_spec
preview u c user = do
  tenant ← lift (tenant_scope user)
  spec ← lift (build u c)
  pure (spec, validate_spec spec)

unfoldable pub create_tickhouse : Unicode → Choices → CurrentUser → HouseHandler House
unfolding build validate_spec with_event
create_tickhouse u c user = do
  tenant ← lift (admin_scope user)
  spec ← lift (build u c)
  require (is_clean (validate_spec spec)) (http 400)
  id ← gets (λ db. db.next_house)
  modify (add_house (new_house u id tenant spec))
  modify (with_event (event user "tickhouse_created" spec.name (created_detail spec) tenant))
  pure (new_house u id tenant spec)

unfoldable pub houses_of : ℕ → List House → List House
houses_of tenant [] = []
houses_of tenant (h ∷ rows) =
    let rest = houses_of tenant rows in if h.tenant_id == tenant then h ∷ rest else rest

unfoldable pub list_tickhouses : CurrentUser → HouseHandler (List House)
unfolding houses_of
list_tickhouses user = do tenant ← lift (tenant_scope user); gets (λ db. houses_of tenant db.houses)

unfoldable pub get_tickhouse : ℕ → CurrentUser → HouseHandler House
unfolding load
get_tickhouse id user = do
  tenant ← lift (tenant_scope user)
  found ← gets (λ db. load id tenant db.houses)
  lift found

unfoldable pub delete_tickhouse : ℕ → CurrentUser → HouseHandler (Unit {0})
unfolding load drop_house with_event
delete_tickhouse id user = do
  tenant ← lift (admin_scope user)
  found ← gets (λ db. load id tenant db.houses)
  row ← lift found
  modify (with_houses (drop_house id))
  modify (with_event (event user "tickhouse_deleted" row.name "" tenant))

-- the command that `provision` queues
abbrev pub spec_command : Unicode → ℕ → House → ℕ → ℕ → Command
spec_command u tenant row agent_id id = record {
  id = id;
  tenant_id = tenant;
  agent_id = agent_id;
  action = "provision";
  service = "tickhouse";
  payload = spec_of (to_provision_payload u (spec_from_dict row.spec_json)) row.id;
  status = queued;
  result_detail = "";
  dispatched_at = none;
  completed_at = none;
}

unfoldable pub queue_command : Command → HouseDb → HouseDb
queue_command cmd db = record db {
  fleet = record db.fleet {
    commands = db.fleet.commands ++ cmd ∷ [];
    next_command = db.fleet.next_command + 1;
  };
}

abbrev pub as_provisioning : House → ℕ → ℕ → House
as_provisioning row agent_id cmd_id = record row {
  status = provisioning;
  agent_id = some agent_id;
  last_command_id = some cmd_id;
}

-- `provision`, which answers with the TickHouse's id and the command's
unfoldable pub provision_house : Unicode → ℕ → ℕ → CurrentUser → HouseHandler (ℕ × ℕ)
unfolding load put_house queue_command with_event
provision_house u id agent_id user = do
  tenant ← lift (admin_scope user)
  found ← gets (λ db. load id tenant db.houses)
  row ← lift found
  seen ← gets (λ db. find_agent agent_id db.fleet.agents)
  agent ← or_raise seen (http 404)
  require (agent.tenant_id == tenant) (http 404)
  require (str_eq (environment_value agent.environment) row.location) (http 400)
  cmd_id ← gets (λ db. db.fleet.next_command)
  modify (queue_command (spec_command u tenant row agent_id cmd_id))
  modify (with_houses (put_house (as_provisioning row agent_id cmd_id)))
  modify (
      with_event (
        event user "tickhouse_provision_requested" (row.name <> (" (" <> (row.location <> ")")))
          ("agent=" <> agent.name) tenant))
  pure (row.id, cmd_id)

-- what the agent's result makes of the status
unfoldable pub reflected : HouseStatus → CommandStatus → HouseStatus
reflected provisioning success = running
reflected provisioning failure = failed
reflected s _ = s

abbrev pub last_command : House → List Command → Option Command
last_command row commands = elim row.last_command_id [
  | none ↦ none
  | some c ↦ find_command c commands
]

abbrev status_seen : Option Command → Option (CommandStatus × String)
status_seen none = none
status_seen (some c) = some (c.status, c.result_detail)

unfoldable pub refreshed : House → List Command → House
unfolding reflected
refreshed row commands = elim (last_command row commands) [
  | none ↦ row
  | some cmd ↦ record row { status = reflected row.status cmd.status }
]

-- `status`, which answers with the row's status, and the last command's with its detail; an id is never 0
unfoldable pub tickhouse_status :
    ℕ → CurrentUser → HouseHandler (HouseStatus × Option (CommandStatus × String))
unfolding load put_house refreshed
tickhouse_status id user = do
  tenant ← lift (tenant_scope user)
  found ← gets (λ db. load id tenant db.houses)
  row ← lift found
  commands ← gets (λ db. db.fleet.commands)
  modify (with_houses (put_house (refreshed row commands)))
  pure ((refreshed row commands).status, status_seen (last_command row commands))
