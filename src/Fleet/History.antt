-- ===== src/Fleet/History.antt =====
-- Histories of requests to control-api/app/routers/fleet.py: every endpoint that writes, in any order, from empty
-- tables.
use kdb_distributed_controlp.Prelude.{
  ℕ, ◌+◌, ◌≤◌, ◌≡◌, String, Option, some, List, [], ◌∷◌, ◌++◌, if◌then◌else◌, ltb, arith, Result,
  ok, err,
}
use kdb_distributed_controlp.Prelude.Exec.{◌>>=◌, ◌>>◌, Stays}
use kdb_distributed_controlp.Fleet.Store.{
  AgentEnvironment, CurrentUser, Command, Payload, Db, HttpError,
}
use kdb_distributed_controlp.Fleet.Router.{
  require_tenant_scope, require_admin, log_event, add_command, create_agent, enqueue_command,
  provision, deprovision, Passwords, enroll, authenticate_agent, heartbeat, report_command_result,
}
use kdb_distributed_controlp.Fleet.Effects.{
  enqueue_command-Stays, provision-Stays, deprovision-Stays,
}
use kdb_distributed_controlp.Fleet.Delivery.{
  queued_with, with_id, dispatch_conserves, queued_with-put, queued_with-add, with_id-append,
}

-- A command of this id is still to be handed out: it is queued, or not yet made.
unfoldable pub to_come : ℕ → Db → ℕ
unfolding queued_with
to_come id db = queued_with id db.commands + (if ltb id db.next_command then 0 else 1)

abbrev pub NoMore : ℕ → Db → Db → Type 0
NoMore id db db' = to_come id db' ≤ to_come id db

pub add_command-NoMore :
    (id tenant agent_id : ℕ) (action service : String) (payload : Payload)
    → (db : Db) → NoMore id db (add_command tenant agent_id action service payload db).1
unfolding to_come queued_with add_command
add_command-NoMore id tenant agent_id action service payload db = rw queued_with-add (ground arith)

-- A request to an endpoint that writes; `now` and the drawn secrets are what the library gives.
pub data Request : Type 0 where
  create : String → String → AgentEnvironment → CurrentUser → Request
  enqueue : ℕ → String → String → CurrentUser → Request
  provision_to : ℕ → ℕ → Option ℕ → String → CurrentUser → Request
  deprovision_at : ℕ → CurrentUser → Request
  enroll_with : String → String → ℕ → Request
  heartbeat_of : ℕ → String → String → ℕ → Request
  result_of : ℕ → ℕ → String → String → String → ℕ → Request

abbrev pub handed : Result HttpError (List Command) → List Command
handed (ok cs) = cs
handed (err _) = []

-- the commands that the request hands to an agent, and the tables after it
unfoldable pub serve : Passwords → Request → Db → List Command × Db
serve p (create token name environment user) db =
    ([], (create_agent token name environment user db).1)
serve p (enqueue agent_id action service user) db =
    ([], (enqueue_command agent_id action service user db).1)
serve p (provision_to agent_id n replicas note user) db =
    ([], (provision agent_id n replicas note user db).1)
serve p (deprovision_at agent_id user) db = ([], (deprovision agent_id user db).1)
serve p (enroll_with token secret now) db = ([], (enroll p token secret now db).1)
serve p (heartbeat_of agent_id secret status now) db =
    let (r, db') = heartbeat p agent_id secret status now db in (handed r, db')
serve p (result_of agent_id command_id secret outcome detail now) db =
    ([], (report_command_result p agent_id command_id secret outcome detail now db).1)

-- all that a history of requests hands out
unfoldable pub serve_all : Passwords → List Request → Db → List Command × Db
unfolding serve
serve_all p [] db = ([], db)
serve_all p (r ∷ rs) db =
    let (cs, db') = serve p r db in let (ds, last) = serve_all p rs db' in (cs ++ ds, last)

abbrev pub no_rows : Db
no_rows = record { agents = []; commands = []; next_agent = 1; next_command = 1; audit = [] }

module _ (id : ℕ) where
  le_refl : (db : Db) → NoMore id db db
  le_refl db = omega arith

  le_trans : (a b c : Db) → NoMore id a b → NoMore id b c → NoMore id a c
  le_trans a b c h k = omega arith

  log_event-NoMore :
      (actor action target detail : String) (tenant : Option ℕ)
      → Stays (NoMore id) (log_event actor action target detail tenant)
  unfolding to_come log_event
  log_event-NoMore actor action target detail tenant = record { at = λ db. omega arith }

  create_agent-NoMore :
      (token name : String) (environment : AgentEnvironment) (user : CurrentUser)
      → Stays (NoMore id) (create_agent token name environment user)
  unfolding create_agent require_admin require_tenant_scope log_event to_come ◌>>=◌ ◌>>◌
  create_agent-NoMore token name environment user = record { at = λ db. ground arith }

  added :
      (user : CurrentUser) (tenant agent_id : ℕ) (action service : String) (payload : Payload)
      → user.tenant_id ≡ some tenant
      → Stays (NoMore id) (add_command tenant agent_id action service payload)
  added user tenant agent_id action service payload own = record {
    at = add_command-NoMore id tenant agent_id action service payload;
  }

  module _ (p : Passwords) where
    enroll-NoMore :
        (token secret : String) (now : ℕ) → Stays (NoMore id) (enroll p token secret now)
    unfolding enroll log_event to_come ◌>>=◌ ◌>>◌
    enroll-NoMore token secret now = record { at = λ db. ground arith }

    report-NoMore :
        (agent_id command_id : ℕ) (secret outcome detail : String) (now : ℕ)
        → Stays (NoMore id) (report_command_result p agent_id command_id secret outcome detail now)
    unfolding report_command_result authenticate_agent log_event to_come ◌>>=◌ ◌>>◌
    report-NoMore agent_id command_id secret outcome detail now = record {
      at = λ db. grind (arith, queued_with-put id);
    }

    heartbeat_conserves :
        (agent_id : ℕ) (secret status : String) (now : ℕ) (db : Db)
        → with_id id (handed (heartbeat p agent_id secret status now db).0)
            + to_come id (heartbeat p agent_id secret status now db).1
          ≡ to_come id db
    unfolding heartbeat authenticate_agent to_come with_id ◌>>=◌ ◌>>◌
    heartbeat_conserves agent_id secret status now db =
        ground (arith, dispatch_conserves agent_id now 10 id db.commands)

    serve_conserves :
        (r : Request) (db : Db)
        → with_id id (serve p r db).0 + to_come id (serve p r db).1 ≤ to_come id db
    unfolding serve with_id
    serve_conserves (create token name environment user) db =
        omega (arith, (create_agent-NoMore token name environment user).at db)
    serve_conserves (enqueue agent_id action service user) db = omega (
      arith,
      (enqueue_command-Stays (NoMore id) le_refl le_trans log_event-NoMore user (added user)
            agent_id action service).at
          db,
    )
    serve_conserves (provision_to agent_id n replicas note user) db = omega (
      arith,
      (provision-Stays (NoMore id) le_refl le_trans log_event-NoMore user (added user) agent_id n
            replicas note).at
          db,
    )
    serve_conserves (deprovision_at agent_id user) db = omega (
      arith,
      (deprovision-Stays (NoMore id) le_refl le_trans log_event-NoMore user (added user)
            agent_id).at
          db,
    )
    serve_conserves (enroll_with token secret now) db =
        omega (arith, (enroll-NoMore token secret now).at db)
    serve_conserves (heartbeat_of agent_id secret status now) db =
        omega (arith, heartbeat_conserves agent_id secret status now db)
    serve_conserves (result_of agent_id command_id secret outcome detail now) db =
        omega (arith, (report-NoMore agent_id command_id secret outcome detail now).at db)

    serve_all_conserves :
        (rs : List Request) (db : Db)
        → with_id id (serve_all p rs db).0 + to_come id (serve_all p rs db).1 ≤ to_come id db
    unfolding serve_all with_id
    serve_all_conserves [] db = omega arith
    serve_all_conserves (r ∷ rs) db =
        let (cs, db') = serve p r db in
        rw with_id-append (omega (arith, serve_conserves r db, serve_all_conserves rs db'))

    -- However the requests to the fleet endpoints are ordered, from empty tables, no command is
    -- handed to an agent twice: its id occurs at most once in all that the heartbeats return.
    pub delivered_at_most_once : (rs : List Request) → with_id id (serve_all p rs no_rows).0 ≤ 1
    unfolding to_come queued_with
    delivered_at_most_once rs = ground (arith, serve_all_conserves rs no_rows)
