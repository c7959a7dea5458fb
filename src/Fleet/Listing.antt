-- ===== src/Fleet/Listing.antt =====
-- What `list_agent_commands` of control-api/app/routers/fleet.py shows.
use kdb_distributed_controlp.Prelude.{ℕ, ◌+◌, ◌≡◌, min, ◌&&◌, List, [], ◌∷◌, if◌then◌else◌, ◌==◌}
use kdb_distributed_controlp.Prelude.Int.{ℤ, pos, negsuc}
use kdb_distributed_controlp.Fleet.Store.{Command}

abbrev pub IsOf : ℕ → ℕ → Command → Type 0
IsOf agent_id tenant c = (c.agent_id ≡ agent_id) × (c.tenant_id ≡ tenant)

-- how many rows of the table are an agent's and a tenant's
unfoldable pub rows_of : ℕ → ℕ → List Command → ℕ
rows_of agent_id tenant [] = 0
rows_of agent_id tenant (c ∷ rows) =
    (if c.agent_id == agent_id && c.tenant_id == tenant then 1 else 0)
    + rows_of agent_id tenant rows

-- how many of k rows a limit shows
abbrev pub shown_of : ℤ → ℕ → ℕ
shown_of (pos n) k = min (min n 200) k
shown_of (negsuc n) k = k
