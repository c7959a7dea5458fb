-- ===== src/TickHouse/Queued.antt =====
-- `provision` of control-api/app/routers/tickhouse.py after any history of requests.
use kdb_distributed_controlp.Prelude.{
  ℕ, ◌≡◌, refl, sym, ap, ◌∙◌, subst, true, some, List, [], ◌∷◌, ◌++◌, All, ◌==◌, ==_iff, str_eq,
  Result, ok, err,
}
use kdb_distributed_controlp.Prelude.Exec.{
  lift_rule, gets_rule, modify_rule, or_raise_rule, require_rule,
}
use kdb_distributed_controlp.Fleet.Store.{
  environment_value, queued, CurrentUser, Agent, AuditEvent, Command, spec_of, HttpError,
  find_agent,
}
use kdb_distributed_controlp.Accounts.Store.{admin_scope}
use kdb_distributed_controlp.Accounts.Admins.{admin_scope-ok}
use kdb_distributed_controlp.TickHouse.Spec.{Unicode}
use kdb_distributed_controlp.TickHouse.Ascii.{IsStandard}
use kdb_distributed_controlp.TickHouse.Auto.{spec_from_dict, to_provision_payload}
use kdb_distributed_controlp.TickHouse.Router.{
  House, HouseDb, find_house, put_house, load, provision_house, spec_command, queue_command,
  as_provisioning, with_event, with_houses,
}
use kdb_distributed_controlp.TickHouse.Histories.{
  IsAdmitted, Fits, AreFit, find_house-Fits, put_house-Fits, load-found, is_plain, HouseRequest,
  creates, deletes, provisions, asks_status, fleet_becomes, serve_house, serve_houses,
  create_tickhouse-AreFit, delete_tickhouse-AreFit, tickhouse_status-AreFit,
}

-- What an accepted `provision` did: the caller's own TickHouse goes to an agent of the same tenant in its
-- location, as a queued command; the count of the payload is admitted, or its shards are given by symbols.
pub record IsQueued (u : Unicode) (id agent_id cmd_id : ℕ) (user : CurrentUser) (db db' : HouseDb)
    : Type 0 where
  pub row : House
  pub found : find_house id db.houses ≡ some row
  pub own : user.tenant_id ≡ some row.tenant_id
  pub agent : Agent
  pub known : find_agent agent_id db.fleet.agents ≡ some agent
  pub mine : agent.tenant_id ≡ row.tenant_id
  pub there : str_eq (environment_value agent.environment) row.location ≡ true
  pub cmd : Command
  pub last : db'.fleet.commands ≡ db.fleet.commands ++ cmd ∷ []
  pub numbered : cmd.id ≡ cmd_id
  pub addressed : (cmd.agent_id ≡ agent_id) × (cmd.tenant_id ≡ row.tenant_id)
  pub waiting : cmd.status ≡ queued
  pub payload : cmd.payload ≡ spec_of (to_provision_payload u (spec_from_dict row.spec_json)) row.id
  pub houses : db'.houses ≡ put_house (as_provisioning row agent_id cmd_id) db.houses
  pub admitted :
      IsAdmitted
        (to_provision_payload u (spec_from_dict row.spec_json)).sharding_policy
        (to_provision_payload u (spec_from_dict row.spec_json)).shard_count

-- the outcome of an accepted request
AnswersWith : (ℕ → HouseDb → Type 0) → Result HttpError (ℕ × ℕ) → HouseDb → Type 0
AnswersWith Q (ok (id, cmd_id)) db = Q cmd_id db
AnswersWith Q (err e) db = Unit {0}

module _ (u : Unicode) (id agent_id : ℕ) (user : CurrentUser) (db : HouseDb)
    (fit : All Fits db.houses) where
  provision_house-AreFit : AreFit (provision_house u id agent_id user db)
  unfolding provision_house AreFit with_event queue_command Fits
  provision_house-AreFit =
      lift_rule AreFit _ _ db (λ e. fit)
        λ tenant scope. gets_rule AreFit _ _ db (
          lift_rule AreFit _ _ db (λ e. fit)
            λ row found. gets_rule AreFit _ _ db (
              or_raise_rule AreFit _ _ _ db fit λ agent known.
                require_rule AreFit _ _ _ db fit λ mine. require_rule AreFit _ _ _ db fit λ there.
                  gets_rule AreFit _ _ db (
                    modify_rule AreFit _ _ db (
                      modify_rule AreFit _ _ _ (
                        modify_rule AreFit _ _ _ (
                          put_house-Fits (as_provisioning row agent_id db.fleet.next_command)
                            db.houses
                            (find_house-Fits id db.houses row fit
                              (load-found id tenant db.houses row found).0)
                            fit))))))

  Q : ℕ → HouseDb → Type 0
  Q cmd_id db' = IsQueued u id agent_id cmd_id user db db'

  P : Result HttpError (ℕ × ℕ) × HouseDb → Type 0
  P r = AnswersWith Q r.0 r.1

  queued_row :
      (tenant : ℕ) (row : House) (agent : Agent)
      → admin_scope user ≡ ok tenant
      → load id tenant db.houses ≡ ok row
      → find_agent agent_id db.fleet.agents ≡ some agent
      → (agent.tenant_id == tenant) ≡ true
      → str_eq (environment_value agent.environment) row.location ≡ true
      → (e : AuditEvent)
      → Q db.fleet.next_command (
          with_event e (
            with_houses
              (put_house (as_provisioning row agent_id db.fleet.next_command))
              (queue_command (spec_command u tenant row agent_id db.fleet.next_command) db)))
  unfolding Q with_event queue_command Fits to_provision_payload
  queued_row tenant row agent scope found known mine there e =
      let (stored, held) = load-found id tenant db.houses row found in
      record {
        row = row;
        found = stored;
        own = admin_scope-ok user tenant scope ∙ ap (λ t. some t) (sym held);
        agent = agent;
        known = known;
        mine = (==_iff agent.tenant_id tenant).0 mine ∙ sym held;
        there = there;
        cmd = spec_command u tenant row agent_id db.fleet.next_command;
        last = refl;
        numbered = refl;
        addressed = (refl, sym held);
        waiting = refl;
        payload = refl;
        houses = refl;
        admitted = find_house-Fits id db.houses row fit stored;
      }

  provision_house-AnswersWith : P (provision_house u id agent_id user db)
  unfolding provision_house with_event queue_command Fits AnswersWith P Q to_provision_payload
  provision_house-AnswersWith =
      lift_rule P _ _ db (λ e. tt)
        λ tenant scope. gets_rule P _ _ db (
          lift_rule P _ _ db (λ e. tt)
            λ row found. gets_rule P _ _ db (
              or_raise_rule P _ _ _ db tt λ agent known. require_rule P _ _ _ db tt λ mine.
                require_rule P _ _ _ db tt λ there. gets_rule P _ _ db (
                  modify_rule P _ _ db (
                    modify_rule P _ _ _ (
                      modify_rule P _ _ _
                        (queued_row tenant row agent scope found known mine there _))))))

serve_house-Fits :
    (u : Unicode)
    → IsStandard u
    → (r : HouseRequest) (db : HouseDb) → is_plain r ≡ true
    → All Fits db.houses
    → All Fits (serve_house u r db).houses
unfolding serve_house AreFit is_plain
serve_house-Fits u std (creates c user) db plain fit =
    create_tickhouse-AreFit u std c user db plain fit
serve_house-Fits u std (deletes id user) db plain fit = delete_tickhouse-AreFit id user db fit
serve_house-Fits u std (provisions id agent_id user) db plain fit =
    provision_house-AreFit u id agent_id user db fit
serve_house-Fits u std (asks_status id user) db plain fit = tickhouse_status-AreFit id user db fit
serve_house-Fits u std (fleet_becomes fleet) db plain fit = fit

serve_houses-Fits :
    (u : Unicode)
    → IsStandard u
    → (rs : List HouseRequest) (db : HouseDb) → All (λ r. is_plain r ≡ true) rs
    → All Fits db.houses
    → All Fits (serve_houses u rs db).houses
unfolding serve_houses
serve_houses-Fits u std [] db plain fit = fit
serve_houses-Fits u std (r ∷ rs) db (here, later) fit =
    serve_houses-Fits u std rs (serve_house u r db) later (serve_house-Fits u std r db here fit)

-- After any history of requests to create, delete, provision and look up TickHouses, from an empty table, with
-- any changes to the fleet's tables in between: an accepted `provision` has put one command at the end of the
-- queue, for an agent of the caller's own tenant in the TickHouse's location, with the stored specification as
-- its payload, and has marked the TickHouse as provisioning with that command. The agent's check of a shard
-- count passes on the payload, unless its shards are given by symbols. The shard ranges of the requests must be
-- ASCII texts, on which Python's text functions are standard.
pub provision_house-IsQueued :
    (u : Unicode)
    → IsStandard u
    → (rs : List HouseRequest) (db : HouseDb) (id agent_id : ℕ) (user : CurrentUser)
      (row_id cmd_id : ℕ)
    → All (λ r. is_plain r ≡ true) rs
    → db.houses ≡ []
    → (provision_house u id agent_id user (serve_houses u rs db)).0 ≡ ok (row_id, cmd_id)
    → IsQueued u id agent_id cmd_id user
        (serve_houses u rs db)
        (provision_house u id agent_id user (serve_houses u rs db)).1
unfolding AnswersWith P Q
provision_house-IsQueued u std rs db id agent_id user row_id cmd_id plain empty done =
    let now = serve_houses u rs db in
    let fit = serve_houses-Fits u std rs db plain (subst (All Fits) (sym empty) tt) in
    subst
      (λ o. AnswersWith (Q u id agent_id user now fit) o (provision_house u id agent_id user now).1)
      done (provision_house-AnswersWith u id agent_id user now fit)
