-- ===== src/Fleet/Router.antt =====
-- The endpoints of control-api/app/routers/fleet.py. `now` is what `datetime.utcnow()` returns, in
-- seconds; the enrollment token and the agent secret that the library draws are arguments.
use Prim.Native.Nat.{Ordering}
use Prim.Native.String.{◌++◌ as ◌<>◌, compare}
use kdb_distributed_controlp.Prelude.{
  ℕ, zero, suc, ◌+◌, ◌-◌, String, Bool, true, false, not, ◌&&◌, ◌||◌, Option, none, some, List, [],
  ◌∷◌, ◌++◌, map, if◌then◌else◌, ◌==◌, str_eq, ltb, leb, is_some, Result, ok, err, take,
}
use kdb_distributed_controlp.Prelude.Int.{ℤ, pos, negsuc}
use kdb_distributed_controlp.Prelude.Dict.{keys}
use kdb_distributed_controlp.Prelude.Text.{decimal}
use kdb_distributed_controlp.Prelude.Exec.{
  Exec, pure, raise, gets, or_raise, modify, require, ◌>>=◌, ◌>>◌,
}
use kdb_distributed_controlp.Topology.{TopologyError, max_shards, shards_json, managed_services}
use kdb_distributed_controlp.Fleet.Store.{
  AgentEnvironment, environment_value, AgentStatus, pending, online, offline, queued, dispatched,
  success, failure, UserRole, tenant_admin, CurrentUser, Agent, Desired, Payload, empty,
  provision_of, Command, Db, HttpError, http, find_agent, find_token, put_agent, find_command,
  put_command, is_queued, is_revoked,
}

abbrev pub Handler : Type 0 → Type 0
Handler A = Exec HttpError Db A

-- `require_tenant_scope` of auth.py, which gives the tenant's id
unfoldable pub require_tenant_scope : CurrentUser → Handler ℕ
require_tenant_scope user = or_raise user.tenant_id (http 400)

abbrev pub is_tenant_admin : UserRole → Bool
is_tenant_admin tenant_admin = true
is_tenant_admin _ = false

-- `require_admin` of auth.py
unfoldable pub require_admin : CurrentUser → Handler ℕ
unfolding require_tenant_scope
require_admin user = do
  tenant ← require_tenant_scope user
  require (is_tenant_admin user.role) (http 403)
  pure tenant

unfoldable pub log_event : String → String → String → String → Option ℕ → Handler (Unit {0})
log_event actor action target detail tenant = modify (λ db. record db {
  audit =
      record {
        actor = actor;
        action = action;
        target = target;
        detail = detail;
        tenant_id = tenant;
      }
      ∷ db.audit;
})

-- `_load_agent_for_tenant`, which `enqueue_command` has written out
unfoldable pub load_agent_for_tenant : ℕ → ℕ → Handler Agent
load_agent_for_tenant agent_id tenant = do
  found ← gets (λ db. find_agent agent_id db.agents)
  agent ← or_raise found (http 404)
  require (agent.tenant_id == tenant) (http 404)
  pure agent

-- `session.add(Command(…))`: a new row, queued
unfoldable pub add_command : ℕ → ℕ → String → String → Payload → Handler Command
add_command tenant agent_id action service payload db =
    let cmd : Command = record {
      id = db.next_command;
      tenant_id = tenant;
      agent_id = agent_id;
      action = action;
      service = service;
      payload = payload;
      status = queued;
      result_detail = "";
      dispatched_at = none;
      completed_at = none;
    } in
    (ok cmd, record db { commands = db.commands ++ cmd ∷ []; next_command = db.next_command + 1 })

unfoldable pub create_agent : String → String → AgentEnvironment → CurrentUser → Handler Agent
unfolding require_admin log_event
create_agent token name environment user = do
  tenant ← require_admin user
  id ← gets (λ db. db.next_agent)
  let agent : Agent = record {
    id = id;
    tenant_id = tenant;
    name = name;
    environment = environment;
    status = pending;
    enrollment_token = token;
    agent_secret_hash = none;
    last_heartbeat = none;
    last_reported_status = "{}";
  }
  modify (λ db. record db { agents = db.agents ++ agent ∷ []; next_agent = db.next_agent + 1 })
  log_event user.email "create_agent" name ("environment=" <> environment_value environment)
      (some tenant)
  pure agent

unfoldable pub enqueue_command : ℕ → String → String → CurrentUser → Handler Command
unfolding require_admin load_agent_for_tenant add_command log_event
enqueue_command agent_id action service user = do
  tenant ← require_admin user
  require (str_eq action "start" || str_eq action "stop" || str_eq action "restart") (http 400)
  agent ← load_agent_for_tenant agent_id tenant
  cmd ← add_command tenant agent_id action service empty
  log_event user.email "enqueue_command" (agent.name <> "/" <> service) action (some tenant)
  pure cmd

-- Python's `sorted` on texts
unfoldable pub insert_sorted : String → List String → List String
insert_sorted x [] = x ∷ []
insert_sorted x (y ∷ ys) = elim (compare x y) [
  | Ordering.gt ↦ y ∷ insert_sorted x ys
  | _ ↦ x ∷ y ∷ ys
]

unfoldable pub sort_texts : List String → List String
unfolding insert_sorted
sort_texts [] = []
sort_texts (x ∷ xs) = insert_sorted x (sort_texts xs)

-- `_desired_topology`
unfoldable pub desired_topology : ℕ → Option ℕ → Result TopologyError Desired
desired_topology n replicas = elim (shards_json n) [
  | err e ↦ err e
  | ok doc ↦ elim (managed_services n) [
    | err e ↦ err e
    | ok services ↦ ok (record {
      shard_count = n;
      topology = doc;
      services = sort_texts (keys services);
      gateway_replicas = replicas;
    })
  ]
]

-- An exception of `topology` that the endpoint does not catch is a 500.
abbrev pub or_500 : {A : Type 0} → Result TopologyError A → Handler A
or_500 (ok a) = pure a
or_500 (err _) = raise (http 500)

-- `gateway_replicas is not None and gateway_replicas < 1`
abbrev pub bad_replicas : Option ℕ → Bool
bad_replicas none = false
bad_replicas (some m) = ltb m 1

-- `f"{agent.name} ({agent.environment.value})"`
abbrev pub place : Agent → String
place agent = agent.name <> " (" <> environment_value agent.environment <> ")"

abbrev pub provision_detail : ℕ → Option ℕ → String
provision_detail n none = "shards=" <> decimal n
provision_detail n (some m) = "shards=" <> decimal n <> ", gateway_replicas=" <> decimal m

unfoldable pub provision : ℕ → ℕ → Option ℕ → String → CurrentUser → Handler Command
unfolding require_admin load_agent_for_tenant add_command log_event
provision agent_id shard_count replicas note user = do
  tenant ← require_admin user
  require (leb 1 shard_count && leb shard_count max_shards) (http 400)
  require (not (bad_replicas replicas)) (http 400)
  agent ← load_agent_for_tenant agent_id tenant
  desired ← or_500 (desired_topology shard_count replicas)
  cmd ← add_command tenant agent_id "provision" "data-plane" (provision_of desired note)
  log_event user.email "provision_requested" (place agent) (provision_detail shard_count replicas)
      (some tenant)
  pure cmd

unfoldable pub deprovision : ℕ → CurrentUser → Handler Command
unfolding require_admin load_agent_for_tenant add_command log_event
deprovision agent_id user = do
  tenant ← require_admin user
  agent ← load_agent_for_tenant agent_id tenant
  cmd ← add_command tenant agent_id "deprovision" "data-plane" empty
  log_event user.email "deprovision_requested" (place agent) "" (some tenant)
  pure cmd

-- The agent's side of the API. `hash_password` and `verify_password` (bcrypt) are parameters.
pub record Passwords : Type 0 where
  pub hash_password : String → String
  pub verify_password : String → String → Bool

-- `datetime.utcnow() - a.last_heartbeat > HEARTBEAT_OFFLINE_AFTER` of an online agent
abbrev pub heartbeat_offline_after : ℕ
heartbeat_offline_after = 30

unfoldable pub reported_status : ℕ → Agent → AgentStatus
reported_status now a = elim a.status [
  | online ↦ elim a.last_heartbeat [
    | none ↦ online
    | some t ↦ if ltb heartbeat_offline_after (now - t) then offline else online
  ]
  | other ↦ other
]

unfoldable pub agents_of : ℕ → List Agent → List Agent
agents_of tenant [] = []
agents_of tenant (a ∷ rows) =
    let rest = agents_of tenant rows in if a.tenant_id == tenant then a ∷ rest else rest

unfoldable pub list_agents : ℕ → CurrentUser → Handler (List Agent)
unfolding require_tenant_scope agents_of reported_status
list_agents now user = do
  tenant ← require_tenant_scope user
  agents ← gets (λ db. agents_of tenant db.agents)
  pure (map {A = Agent} (λ a. record a { status = reported_status now a }) agents)

-- the rows of an agent and a tenant, newest first
unfoldable pub commands_of : ℕ → ℕ → List Command → List Command → List Command
commands_of agent_id tenant [] newest = newest
commands_of agent_id tenant (c ∷ rows) newest =
    commands_of agent_id tenant rows
      (if c.agent_id == agent_id && c.tenant_id == tenant then c ∷ newest else newest)

-- `.limit(min(limit, 200))` on SQLite, the default database, which reads a negative limit as none
abbrev pub limited : ℤ → List Command → List Command
limited (pos n) rows = take (if leb n 200 then n else 200) rows
limited (negsuc n) rows = rows

unfoldable pub list_agent_commands : ℕ → ℤ → CurrentUser → Handler (List Command)
unfolding require_tenant_scope load_agent_for_tenant commands_of
list_agent_commands agent_id limit user = do
  tenant ← require_tenant_scope user
  agent ← load_agent_for_tenant agent_id tenant
  gets (λ db. limited limit (commands_of agent_id tenant db.commands []))

-- The first `limit` queued commands of the agent, now dispatched, and the table after it.
unfoldable pub dispatch_queued : ℕ → ℕ → ℕ → List Command → List Command × List Command
dispatch_queued agent_id now limit [] = ([], [])
dispatch_queued agent_id now zero (c ∷ rows) = ([], c ∷ rows)
dispatch_queued agent_id now (suc limit) (c ∷ rows) =
    let sent : List Command × List Command =
      let (queue, rest) = dispatch_queued agent_id now limit rows in
      let d = record c { status = dispatched; dispatched_at = some now } in (d ∷ queue, d ∷ rest) in
    let left : List Command × List Command =
      let (queue, rest) = dispatch_queued agent_id now (suc limit) rows in (queue, c ∷ rest) in
    if c.agent_id == agent_id && is_queued c.status then sent else left

module _ (p : Passwords) where
  open p use {hash_password, verify_password}

  unfoldable pub enroll : String → String → ℕ → Handler (ℕ × String)
  unfolding log_event
  enroll token secret now = do
    found ← gets (λ db. find_token token db.agents)
    agent ← or_raise found (http 404)
    require (not (is_some agent.agent_secret_hash)) (http 409)
    modify (λ db. record db {
      agents =
          put_agent
            (record agent {
              agent_secret_hash = some (hash_password secret);
              status = online;
              last_heartbeat = some now;
            })
            db.agents;
    })
    log_event ("agent:" <> decimal agent.id) "agent_enrolled" agent.name "" (some agent.tenant_id)
    pure (agent.id, secret)

  -- `_authenticate_agent`: an agent that has not enrolled is unknown
  unfoldable pub authenticate_agent : ℕ → String → Handler Agent
  authenticate_agent agent_id secret = do
    found ← gets (λ db. find_agent agent_id db.agents)
    agent ← or_raise found (http 401)
    stored ← or_raise agent.agent_secret_hash (http 401)
    require (not (is_revoked agent.status)) (http 403)
    require (verify_password secret stored) (http 401)
    pure agent

  unfoldable pub heartbeat : ℕ → String → String → ℕ → Handler (List Command)
  unfolding authenticate_agent
  heartbeat agent_id secret service_status now = do
    agent ← authenticate_agent agent_id secret
    modify (λ db. record db {
      agents =
          put_agent
            (record agent {
              status = online;
              last_heartbeat = some now;
              last_reported_status = service_status;
            })
            db.agents;
    })
    (λ db.
        let (queue, rows) = dispatch_queued agent_id now 10 db.commands in
        (ok queue, record db { commands = rows }))

  unfoldable pub report_command_result : ℕ → ℕ → String → String → String → ℕ → Handler (Unit {0})
  unfolding authenticate_agent log_event
  report_command_result agent_id command_id secret outcome detail now = do
    agent ← authenticate_agent agent_id secret
    found ← gets (λ db. find_command command_id db.commands)
    cmd ← or_raise found (http 404)
    require (cmd.agent_id == agent.id) (http 404)
    modify (λ db. record db {
      commands =
          put_command
            (record cmd {
              status = if str_eq outcome "success" then success else failure;
              result_detail = detail;
              completed_at = some now;
            })
            db.commands;
    })
    log_event ("agent:" <> decimal agent.id) ("command_" <> outcome)
        (agent.name <> "/" <> cmd.service) (cmd.action <> ": " <> detail) (some agent.tenant_id)
