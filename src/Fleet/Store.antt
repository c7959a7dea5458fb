-- ===== src/Fleet/Store.antt =====
-- The tables that control-api/app/routers/fleet.py works on (control-api/app/models.py), and the
-- queries that it makes of them. A table is a list of rows in the order of their ids; a new row gets
-- the next id. Times are numbers (seconds), JSON texts are texts.
use kdb_distributed_controlp.Prelude.{
  ℕ, String, Bool, true, false, Option, none, some, List, [], ◌∷◌, if◌then◌else◌, ◌==◌, str_eq,
}
use kdb_distributed_controlp.Topology.{ShardsDoc}
use kdb_distributed_controlp.TickHouse.Auto.{ProvisionPayload}

pub data AgentEnvironment : Type 0 where
  aws azure gcp onprem : AgentEnvironment

abbrev pub environment_value : AgentEnvironment → String
environment_value aws = "aws"
environment_value azure = "azure"
environment_value gcp = "gcp"
environment_value onprem = "onprem"

pub data AgentStatus : Type 0 where
  pending online offline revoked : AgentStatus

pub data CommandStatus : Type 0 where
  queued dispatched success failure : CommandStatus

pub data UserRole : Type 0 where
  platform_admin tenant_admin functional_user quant_analyst : UserRole

pub record CurrentUser : Type 0 where
  pub user_id : ℕ
  pub email : String
  pub role : UserRole
  pub tenant_id : Option ℕ

pub record Agent : Type 0 where
  pub id : ℕ
  pub tenant_id : ℕ
  pub name : String
  pub environment : AgentEnvironment
  pub status : AgentStatus
  pub enrollment_token : String
  pub agent_secret_hash : Option String
  pub last_heartbeat : Option ℕ
  pub last_reported_status : String

-- The desired topology of a `provision` command.
pub record Desired : Type 0 where
  pub shard_count : ℕ
  pub topology : ShardsDoc
  pub services : List String
  pub gateway_replicas : Option ℕ

-- A JSON payload: "{}", a topology with its note, or a TickHouse's specification with the TickHouse's id.
pub data Payload : Type 0 where
  empty : Payload
  provision_of : Desired → String → Payload
  spec_of : ProvisionPayload → ℕ → Payload

pub record Command : Type 0 where
  pub id : ℕ
  pub tenant_id : ℕ
  pub agent_id : ℕ
  pub action : String
  pub service : String
  pub payload : Payload
  pub status : CommandStatus
  pub result_detail : String
  pub dispatched_at : Option ℕ
  pub completed_at : Option ℕ

-- What `log_event` of control-api/app/db.py writes.
pub record AuditEvent : Type 0 where
  pub actor : String
  pub action : String
  pub target : String
  pub detail : String
  pub tenant_id : Option ℕ

pub record Db : Type 0 where
  pub agents : List Agent
  pub commands : List Command
  pub next_agent : ℕ
  pub next_command : ℕ
  pub audit : List AuditEvent

-- `HTTPException`, by its status code
pub data HttpError : Type 0 where
  http : ℕ → HttpError

-- `session.get(Agent, id)`
unfoldable pub find_agent : ℕ → List Agent → Option Agent
find_agent id [] = none
find_agent id (a ∷ rows) = if a.id == id then some a else find_agent id rows

-- `select(Agent).where(Agent.enrollment_token == token)).first()`
unfoldable pub find_token : String → List Agent → Option Agent
find_token token [] = none
find_token token (a ∷ rows) =
    if str_eq a.enrollment_token token then some a else find_token token rows

-- a changed row, written back by its id
unfoldable pub put_agent : Agent → List Agent → List Agent
put_agent b [] = []
put_agent b (a ∷ rows) = if a.id == b.id then b ∷ rows else a ∷ put_agent b rows

unfoldable pub find_command : ℕ → List Command → Option Command
find_command id [] = none
find_command id (c ∷ cs) = if c.id == id then some c else find_command id cs

unfoldable pub put_command : Command → List Command → List Command
put_command d [] = []
put_command d (c ∷ cs) = if c.id == d.id then d ∷ cs else c ∷ put_command d cs

abbrev pub is_queued : CommandStatus → Bool
is_queued queued = true
is_queued _ = false

abbrev pub is_revoked : AgentStatus → Bool
is_revoked revoked = true
is_revoked _ = false
