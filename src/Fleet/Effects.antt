-- ===== src/Fleet/Effects.antt =====
-- What each endpoint of control-api/app/routers/fleet.py may do to the tables: it makes a step of any
-- reflexive and transitive relation that its writes respect.
use kdb_distributed_controlp.Prelude.{
  ℕ, ◌≡◌, String, Bool, Option, some, [], ◌∷◌, ◌++◌, ◌==◌, Result, ok, err, Bool-cases,
  Option-cases, inl, inr,
}
use kdb_distributed_controlp.Prelude.Exec.{
  pure, require, ◌>>=◌, ◌>>◌, Stays, Stays-bind, Stays-then,
}
use kdb_distributed_controlp.Topology.{TopologyError}
use kdb_distributed_controlp.Fleet.Store.{
  Agent, AgentEnvironment, CurrentUser, Payload, empty, Db, HttpError, find_agent,
}
use kdb_distributed_controlp.Fleet.Router.{
  Handler, require_tenant_scope, is_tenant_admin, require_admin, log_event, load_agent_for_tenant,
  add_command, create_agent, enqueue_command, desired_topology, or_500, provision, deprovision,
}

module _ (R : Db → Db → Type 0) (stay : (s : Db) → R s s)
    (join : (s t u : Db) → R s t → R t u → R s u) where
  admin-Stays :
      {A : Type 0} (user : CurrentUser) (f : ℕ → Handler A)
      → ((t : ℕ) → user.tenant_id ≡ some t → Stays R (f t))
      → Stays R (require_admin user >>= f)
  unfolding require_admin require_tenant_scope ◌>>=◌ ◌>>◌
  admin-Stays user f h = record {
    at = λ s. elim (Option-cases user.tenant_id) [
      | inl e ↦ rw e (stay s)
      | inr (t, e) ↦ rw e (elim (Bool-cases (is_tenant_admin user.role)) [
        | inl pass ↦ rw pass ((h t e).at s)
        | inr fail ↦ rw fail (stay s)
      ])
    ];
  }

  load-Stays :
      {A : Type 0} (agent_id tenant : ℕ) (f : Agent → Handler A)
      → ((a : Agent) → Stays R (f a))
      → Stays R (load_agent_for_tenant agent_id tenant >>= f)
  unfolding load_agent_for_tenant ◌>>=◌ ◌>>◌
  load-Stays agent_id tenant f h = record {
    at = λ s. elim (Option-cases (find_agent agent_id s.agents)) [
      | inl e ↦ rw e (stay s)
      | inr (a, e) ↦ rw e (elim (Bool-cases (a.tenant_id == tenant)) [
        | inl pass ↦ rw pass ((h a).at s)
        | inr fail ↦ rw fail (stay s)
      ])
    ];
  }

  require-Stays :
      {A : Type 0} (b : Bool) (e : HttpError) (k : Handler A)
      → Stays R k
      → Stays R (require b e >> k)
  require-Stays b e k h = Stays-then R join (require b e) k (record { at = stay }) h

  or_500-Stays : {A : Type 0} (r : Result TopologyError A) → Stays R (or_500 r)
  or_500-Stays (ok a) = record { at = stay }
  or_500-Stays (err e) = record { at = stay }

  module _
      (audited : (actor action target detail : String) (tenant : Option ℕ)
        → Stays R (log_event actor action target detail tenant))
      (user : CurrentUser) where
    logged :
        {A : Type 0} (a : A) (actor action target detail : String) (tenant : Option ℕ)
        → Stays R (log_event actor action target detail tenant >> pure a)
    logged a actor action target detail tenant =
        Stays-then R join (log_event actor action target detail tenant) (pure a)
          (audited actor action target detail tenant) (record { at = stay })

    module _
        (added : (tenant agent_id : ℕ) (action service : String) (payload : Payload)
          → user.tenant_id ≡ some tenant
          → Stays R (add_command tenant agent_id action service payload)) where
      pub enqueue_command-Stays :
          (agent_id : ℕ) (action service : String)
          → Stays R (enqueue_command agent_id action service user)
      unfolding enqueue_command
      enqueue_command-Stays agent_id action service = admin-Stays user _ (λ tenant own.
          require-Stays _ _ _ (
            load-Stays agent_id tenant _ (λ agent.
              Stays-bind R join _ _ (added tenant agent_id action service empty own)
                (λ cmd. logged cmd _ _ _ _ _))))

      pub provision-Stays :
          (agent_id n : ℕ) (replicas : Option ℕ) (note : String)
          → Stays R (provision agent_id n replicas note user)
      unfolding provision
      provision-Stays agent_id n replicas note = admin-Stays user _ (λ tenant own.
          require-Stays _ _ _ (
            require-Stays _ _ _ (
              load-Stays agent_id tenant _ (λ agent.
                Stays-bind R join _ _ (or_500-Stays (desired_topology n replicas)) (λ desired.
                  Stays-bind R join _ _ (added tenant agent_id _ _ _ own)
                    (λ cmd. logged cmd _ _ _ _ _))))))

      pub deprovision-Stays : (agent_id : ℕ) → Stays R (deprovision agent_id user)
      unfolding deprovision
      deprovision-Stays agent_id = admin-Stays user _ (λ tenant own.
          load-Stays agent_id tenant _ (λ agent.
            Stays-bind R join _ _ (added tenant agent_id _ _ _ own) (λ cmd. logged cmd _ _ _ _ _)))

    pub create_agent-Stays :
        (token name : String) (environment : AgentEnvironment)
        → ((a : Agent) (n : ℕ)
            → user.tenant_id ≡ some a.tenant_id
            → (db : Db) → R db (record db { agents = db.agents ++ a ∷ []; next_agent = n }))
        → Stays R (create_agent token name environment user)
    unfolding create_agent
    create_agent-Stays token name environment grown = admin-Stays user _ (λ tenant own.
        Stays-bind R join _ _ (record { at = stay })
          (λ id.
            Stays-then R join _ _ (record { at = λ db. grown _ _ own db }) (logged _ _ _ _ _ _)))
