-- ===== src/FleetAgent/Loop.antt =====
-- The heartbeat loop and command dispatch of fleet_agent/agent.py. `report_result` calls are also kept in
-- a list, newest first, for the theorems.
use Prim.Native.String.{◌++◌ as ◌<>◌}
use kdb_distributed_controlp.Prelude.{
  ℕ, zero, suc, String, Bool, ◌||◌, Option, none, some, List, [], ◌∷◌, if◌then◌else◌, str_eq,
  length, Result, ok, err,
}
use kdb_distributed_controlp.Prelude.Exec.{Exec}
use kdb_distributed_controlp.FleetAgent.{
  Desired, ReconcileResult, summary, Backend, provision, deprovision,
}

-- The command as the control plane sends it; a missing key is `none`.
pub record Cmd : Type 0 where
  pub id : Option ℕ
  pub action : Option String
  pub service : Option String
  pub payload : Option String

pub record Report : Type 0 where
  pub id : ℕ
  pub outcome : String
  pub detail : String

pub record Agent (W : Type 0) : Type 0 where
  pub heartbeat : String → Exec String W (List Cmd)
  pub report_result : Report → Exec String W (Unit {0})
  pub backend : Backend W
  pub service_op : String → String → Exec String W (Bool × String)
  pub status_probe : Exec String W String
  pub sleep : W → W
  -- `json.loads` and the lookup of "desired" in its result
  pub loads : String → Result String Desired

pub record Run (W : Type 0) : Type 0 where
  pub world : W
  pub reported : List Report

abbrev pub outcome_of : Bool → String
outcome_of b = if b then "success" else "failure"

abbrev pub text_or : String → Option String → String
text_or d none = d
text_or d (some s) = s

-- `cmd.get("payload") or "{}"`
abbrev pub payload_text : Option String → String
payload_text none = "{}"
payload_text (some s) = if str_eq s "" then "{}" else s

abbrev pub agent_error : String → String × String
agent_error exc = ("failure", "agent error: " <> exc)

abbrev pub reconciled : ReconcileResult → String × String
reconciled r = (outcome_of r.is_ok, summary r)

module _ {W : Type 0} (agent : Agent W) where
  open agent use {heartbeat, report_result, backend, service_op, status_probe, sleep, loads}

  unfoldable pub handle_provision : Result String Desired → W → (String × String) × W
  handle_provision (err exc) w = (agent_error exc, w)
  handle_provision (ok desired) w = let (r, w') = provision backend desired w in (reconciled r, w')

  unfoldable pub operated : Result String (Bool × String) → String × String
  operated (ok (done, detail)) = (outcome_of done, detail)
  operated (err exc) = agent_error exc

  unfoldable pub handle_action : String → Cmd → W → (String × String) × W
  unfolding handle_provision operated
  handle_action action cmd w =
      if str_eq action "provision"
      then handle_provision (loads (payload_text cmd.payload)) w
      else if str_eq action "deprovision"
      then (let (r, w') = deprovision backend w in (reconciled r, w'))
      else if str_eq action "start" || str_eq action "stop" || str_eq action "restart"
      then (let (r, w') = service_op action (text_or "" cmd.service) w in (operated r, w'))
      else (("failure", "unknown action: " <> action), w)

  -- the outcome and the detail to report; an exception is a failure
  unfoldable pub handle_command : Cmd → W → (String × String) × W
  unfolding handle_action
  handle_command cmd w = elim cmd.action [
    | none ↦ (("failure", "unknown action: None"), w)
    | some action ↦ handle_action action cmd w
  ]

  -- `cmd["id"]` raises on a command without an id; the exception is logged.
  unfoldable pub report_outcome : Option ℕ → String × String → Run W → Run W
  report_outcome none result s = s
  report_outcome (some id) (outcome, detail) s =
      let r : Report = record { id = id; outcome = outcome; detail = detail } in
      record s { world = (report_result r s.world).1; reported = r ∷ s.reported }

  unfoldable pub handle_all : List Cmd → Run W → Run W
  unfolding handle_command report_outcome
  handle_all [] s = s
  handle_all (cmd ∷ cmds) s =
      let (result, w) = handle_command cmd s.world in
      handle_all cmds (report_outcome cmd.id result (record s { world = w }))

  -- `status = {}` if the probe raised
  abbrev pub probed : Result String String → String
  probed (ok status) = status
  probed (err exc) = "{}"

  -- The number of commands handled, or the exception of the heartbeat.
  unfoldable pub tick : Run W → Result String ℕ × Run W
  unfolding handle_all
  tick s =
      let (status, w) = status_probe s.world in
      let (pulled, w') = heartbeat (probed status) w in
      elim pulled [
        | err exc ↦ (err exc, record s { world = w' })
        | ok commands ↦ (ok (length commands), handle_all commands (record s { world = w' }))
      ]

  -- `run(max_cycles=n)`: an exception of a cycle is logged, and it sleeps between two cycles.
  unfoldable pub run : ℕ → Run W → Run W
  unfolding tick
  run zero s = s
  run (suc zero) s = (tick s).1
  run (suc (suc n)) s = run (suc n) (let (r, s') = tick s in record s' { world = sleep s'.world })
