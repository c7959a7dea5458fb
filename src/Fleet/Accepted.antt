-- ===== src/Fleet/Accepted.antt =====
-- A provision command goes from the control plane (`provision` of control-api/app/routers/fleet.py) to
-- the agent (`Provisioner.provision` of fleet_agent/provisioner.py): both check the counts.
use kdb_distributed_controlp.Prelude.{
  ℕ, ◌≤◌, ◌≡◌, refl, String, Bool, true, false, not, ◌&&◌, Option, none, some, List, [], ◌∷◌, ◌++◌,
  leb, arith, Result, ok, err, ok-injective, ap, ◌==◌, ==_iff, Bool-cases, Option-cases, inl, inr,
  sym, ◌∙◌,
}
use kdb_distributed_controlp.Prelude.Exec.{pure, require, ◌>>=◌, ◌>>◌}
use kdb_distributed_controlp.Topology.{TopologyError, max_shards}
use kdb_distributed_controlp.Fleet.Store.{
  Agent, Command, queued, tenant_admin, CurrentUser, Desired, Payload, provision_of, Db, HttpError,
  find_agent,
}
use kdb_distributed_controlp.Fleet.Router.{
  Handler, require_admin, require_tenant_scope, is_tenant_admin, load_agent_for_tenant, log_event,
  add_command, desired_topology, or_500, bad_replicas, provision,
}
use kdb_distributed_controlp.FleetAgent.{Field, absent, integer, check_counts}
use kdb_distributed_controlp.FleetAgent

-- The desired state as the agent reads it from the command's JSON; a topology has no components.
unfoldable pub received : Desired → FleetAgent.Desired
received d = record {
  components = false;
  shard_count = integer d.shard_count;
  gateway_replicas = elim d.gateway_replicas [ none ↦ absent | some m ↦ integer m ];
  document = "";
}

desired_topology-counts :
    (n : ℕ) (replicas : Option ℕ) (d : Desired)
    → desired_topology n replicas ≡ ok d
    → (d.shard_count ≡ n) × (d.gateway_replicas ≡ replicas)
unfolding desired_topology
desired_topology-counts n replicas d h = ground arith

check_counts-received :
    (n : ℕ) (replicas : Option ℕ) (d : Desired)
    → d.shard_count ≡ n
    → d.gateway_replicas ≡ replicas
    → (leb 1 n && leb n max_shards) ≡ true
    → not (bad_replicas replicas) ≡ true
    → check_counts (received d) ≡ ok (n, replicas)
unfolding check_counts received
check_counts-received n replicas d same alike counts positive = ground arith

count_bounds : (n : ℕ) → (leb 1 n && leb n max_shards) ≡ true → (1 ≤ n) × (n ≤ 26)
count_bounds n h = ground arith

-- A step of a handler that ends well has passed, and the rest runs.
module _ {A : Type 0} (db : Db) (result : A) where
  require-ok :
      (b : Bool) (e : HttpError) (k : Handler A)
      → ((require b e >> k) db).0 ≡ ok result
      → (b ≡ true) × ((require b e >> k) db ≡ k db)
  unfolding ◌>>=◌ ◌>>◌
  require-ok true e k done = (refl, refl)
  require-ok false e k done = absurd (cc)

  or_500-ok :
      {B : Type 0} (r : Result TopologyError B) (f : B → Handler A)
      → ((or_500 r >>= f) db).0 ≡ ok result
      → (b : B) × (r ≡ ok b) × ((or_500 r >>= f) db ≡ f b db)
  unfolding ◌>>=◌
  or_500-ok (ok b) f done = (b, refl, refl)
  or_500-ok (err e) f done = absurd (cc)

  admin-ok :
      (user : CurrentUser) (f : ℕ → Handler A)
      → ((require_admin user >>= f) db).0 ≡ ok result
      → (t : ℕ) × (user.role ≡ tenant_admin)
        × (user.tenant_id ≡ some t)
        × ((require_admin user >>= f) db ≡ f t db)
  unfolding require_admin require_tenant_scope ◌>>=◌ ◌>>◌
  admin-ok user f done = elim (Option-cases user.tenant_id) [
    | inl e ↦ absurd (cc (rw e at done))
    | inr (t, e) ↦ elim (Bool-cases (is_tenant_admin user.role)) [
      | inl admin ↦ (t, ground arith, e, rw (e, admin) refl)
      | inr other ↦ absurd (cc (rw (e, other) at done))
    ]
  ]

  load-ok :
      (agent_id tenant : ℕ) (f : Agent → Handler A)
      → ((load_agent_for_tenant agent_id tenant >>= f) db).0 ≡ ok result
      → (a : Agent) × (find_agent agent_id db.agents ≡ some a)
        × (a.tenant_id ≡ tenant)
        × ((load_agent_for_tenant agent_id tenant >>= f) db ≡ f a db)
  unfolding load_agent_for_tenant ◌>>=◌ ◌>>◌
  load-ok agent_id tenant f done = elim (Option-cases (find_agent agent_id db.agents)) [
    | inl e ↦ absurd (cc (rw e at done))
    | inr (a, e) ↦ elim (Bool-cases (a.tenant_id == tenant)) [
      | inl same ↦ (a, e, (==_iff a.tenant_id tenant).0 same, rw (e, same) refl)
      | inr other ↦ absurd (cc (rw (e, other) at done))
    ]
  ]

pub record IsQueuedAs (tenant agent : ℕ) (act served : String) (spec : Payload)
    (before after : List Command) (cmd : Command) : Type 0 where
  pub agent_id : cmd.agent_id ≡ agent
  pub action : cmd.action ≡ act
  pub service : cmd.service ≡ served
  pub tenant_id : cmd.tenant_id ≡ tenant
  pub status : cmd.status ≡ queued
  pub payload : cmd.payload ≡ spec
  pub last : after ≡ before ++ cmd ∷ []

add_command-ok :
    (db : Db) (cmd : Command) (tenant agent_id : ℕ) (action service : String) (payload : Payload)
    (actor event target detail : String) (at : Option ℕ)
    → let run =
        (add_command tenant agent_id action service payload >>= λ c.
        log_event actor event target detail at >> pure c)
          db in
      run.0 ≡ ok cmd
      → IsQueuedAs tenant agent_id action service payload db.commands run.1.commands cmd
unfolding add_command log_event ◌>>=◌ ◌>>◌
add_command-ok db cmd tenant agent_id action service payload actor event target detail at done =
    let same = ok-injective _ cmd done in
    record {
      agent_id = ap (λ c. c.agent_id) (sym same);
      action = ap (λ c. c.action) (sym same);
      service = ap (λ c. c.service) (sym same);
      tenant_id = ap (λ c. c.tenant_id) (sym same);
      status = ap (λ c. c.status) (sym same);
      payload = ap (λ c. c.payload) (sym same);
      last = ap (λ c. db.commands ++ c ∷ []) same;
    }

abbrev first : {A : Type 0} → Result HttpError A × Db → Result HttpError A
first r = r.0

-- A provision request that is answered with a command comes from a tenant administrator, asks for 1 to
-- 26 shards, and has put the command at the end of the queue, to provision the data plane, addressed to the
-- requested agent, which is of the administrator's tenant. The agent's own check of the payload passes, with
-- the counts that were requested.
pub provision_accepted :
    (agent_id n : ℕ) (replicas : Option ℕ) (note : String) (user : CurrentUser) (db : Db)
    (cmd : Command)
    → (provision agent_id n replicas note user db).0 ≡ ok cmd
    → (agent : Agent) × (find_agent agent_id db.agents ≡ some agent)
      × (user.role ≡ tenant_admin)
      × (user.tenant_id ≡ some agent.tenant_id)
      × (cmd.tenant_id ≡ agent.tenant_id)
      × (cmd.agent_id ≡ agent_id)
      × (cmd.action ≡ "provision")
      × (cmd.service ≡ "data-plane")
      × (cmd.status ≡ queued)
      × ((provision agent_id n replicas note user db).1.commands ≡ db.commands ++ cmd ∷ [])
      × (desired : Desired) × (cmd.payload ≡ provision_of desired note)
      × (check_counts (received desired) ≡ ok (n, replicas))
      × (1 ≤ n)
      × (n ≤ 26)
unfolding provision
provision_accepted agent_id n replicas note user db cmd done =
    let (tenant, role, own, s1) = admin-ok db cmd user _ done in
    let (counts, s2) = require-ok db cmd _ _ _ (ap first (sym s1) ∙ done) in
    let (positive, s3) = require-ok db cmd _ _ _ (ap first (sym (s1 ∙ s2)) ∙ done) in
    let (agent, found, mine, s4) =
      load-ok db cmd agent_id tenant _ (ap first (sym (s1 ∙ s2 ∙ s3)) ∙ done) in
    let (desired, made, s5) =
      or_500-ok db cmd (desired_topology n replicas) _
        (ap first (sym (s1 ∙ s2 ∙ s3 ∙ s4)) ∙ done) in
    let all = s1 ∙ s2 ∙ s3 ∙ s4 ∙ s5 in
    let row = add_command-ok db cmd tenant agent_id _ _ _ _ _ _ _ _ (ap first (sym all) ∙ done) in
    let (count_same, replicas_same) = desired_topology-counts n replicas desired made in
    let bounds = count_bounds n counts in
    (
      agent,
      found,
      role,
      own ∙ ap (λ t. some t) (sym mine),
      row.tenant_id ∙ sym mine,
      row.agent_id,
      row.action,
      row.service,
      row.status,
      ap (λ r. r.1.commands) all ∙ row.last,
      desired,
      row.payload,
      check_counts-received n replicas desired count_same replicas_same counts positive,
      bounds.0,
      bounds.1,
    )
