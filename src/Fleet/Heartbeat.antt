-- ===== src/Fleet/Heartbeat.antt =====
-- One heartbeat (`heartbeat` of control-api/app/routers/fleet.py) of an authenticated agent.
use kdb_distributed_controlp.Prelude.{
  ℕ, ◌-◌, ◌≡◌, refl, String, List, arith, ok, min, length, All, map, take,
}
use kdb_distributed_controlp.Prelude.Exec.{◌>>=◌, ◌>>◌}
use kdb_distributed_controlp.Fleet.Store.{Agent, Command, Db}
use kdb_distributed_controlp.Fleet.Router.{
  Passwords, authenticate_agent, heartbeat, dispatch_queued,
}
use kdb_distributed_controlp.Fleet.Delivery.{
  queued_for, ids, IsSentTo, queue_of, as_dispatched, Delivered, dispatch_queue, dispatch-Delivered,
  dispatch_length, dispatch_left, dispatch_sent, ids-dispatch,
}

module _ (p : Passwords) where
  -- Reading the agent changes nothing.
  authenticate_agent-reads :
      (agent_id : ℕ) (secret : String) (db : Db) → (authenticate_agent p agent_id secret db).1 ≡ db
  unfolding authenticate_agent ◌>>=◌ ◌>>◌
  authenticate_agent-reads agent_id secret db = ground arith

  -- A heartbeat of an authenticated agent returns the first 10 rows of its queue, in their order, or all of
  -- them, as they stand in the table but marked as dispatched at that time. Exactly these rows are written so
  -- in the table of commands, and every other row stays; the agent's queue is that much shorter afterwards.
  pub heartbeat_delivers :
      (agent_id : ℕ) (secret status : String) (now : ℕ) (db : Db) (agent : Agent)
      → (authenticate_agent p agent_id secret db).0 ≡ ok agent
      → (sent : List Command) × ((heartbeat p agent_id secret status now db).0 ≡ ok sent)
        × All (IsSentTo agent_id) sent
        × (length sent ≡ min 10 (queued_for agent_id db.commands))
        × (queued_for agent_id (heartbeat p agent_id secret status now db).1.commands
            ≡ queued_for agent_id db.commands - 10)
        × (ids (heartbeat p agent_id secret status now db).1.commands ≡ ids db.commands)
        × (sent ≡ map (as_dispatched now) (take 10 (queue_of agent_id db.commands)))
        × Delivered agent_id now sent db.commands
            (heartbeat p agent_id secret status now db).1.commands
  unfolding heartbeat ◌>>=◌ ◌>>◌
  heartbeat_delivers agent_id secret status now db agent known =
      rw (authenticate_agent-reads agent_id secret db, known)
        (
          (dispatch_queued agent_id now 10 db.commands).0,
          refl,
          dispatch_sent agent_id now 10 db.commands,
          dispatch_length agent_id now 10 db.commands,
          dispatch_left agent_id now 10 db.commands,
          ids-dispatch agent_id now 10 db.commands,
          dispatch_queue agent_id now 10 db.commands,
          dispatch-Delivered agent_id now 10 db.commands,
        )
