-- ===== src/Fleet/Isolation.antt =====
-- Tenants are kept apart (`require_admin`, `_load_agent_for_tenant` and the endpoints of
-- control-api/app/routers/fleet.py that use them).
use kdb_distributed_controlp.Prelude.{
  ℕ, ◌≡◌, Result, some, List, [], ◌∷◌, ◌++◌, if◌then◌else◌, ◌==◌,
}
use kdb_distributed_controlp.Fleet.Store.{Agent, Command, CurrentUser, Db, HttpError, find_agent}
use kdb_distributed_controlp.Fleet.Router.{agents_of}

unfoldable pub owned : ℕ → List Command → List Command
owned tenant [] = []
owned tenant (c ∷ rows) =
    let rest = owned tenant rows in if c.tenant_id == tenant then c ∷ rest else rest

-- The agents and commands of a tenant are the same rows.
unfoldable pub Untouched : ℕ → Db → Db → Type 0
unfolding owned agents_of
Untouched tenant db db' =
    (agents_of tenant db'.agents ≡ agents_of tenant db.agents)
    × (owned tenant db'.commands ≡ owned tenant db.commands)

-- No command is added, or one that is addressed to an agent of the caller's own tenant.
pub data KeepsToOwn (user : CurrentUser) (db db' : Db) : Type 0 where
  adds_none : db'.commands ≡ db.commands → KeepsToOwn user db db'
  adds_own :
      (cmd : Command) (agent : Agent)
      → db'.commands ≡ db.commands ++ cmd ∷ []
      → find_agent cmd.agent_id db.agents ≡ some agent
      → user.tenant_id ≡ some agent.tenant_id
      → KeepsToOwn user db db'

module _ (user : CurrentUser) (db : Db) where
  Q : Result HttpError Command × Db → Type 0
  Q r = KeepsToOwn user db r.1
