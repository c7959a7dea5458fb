-- ===== src/Watchdog/Events.antt =====
-- The values that the watchdog classifies, reports and returns: the text constants of
-- watchdog/runbooks.py as enumerations, and the dictionaries that the runbooks return.
use kdb_distributed_controlp.Prelude.{ℕ, String, Bool, Option}

-- what `orchestrator.status` returns
pub data Status : Type 0 where
  running : Status
  not_found : Status
  other : String → Status

pub data Signature : Type 0 where
  healthy container_down container_unhealthy dependency_down flapping oom_crash_loop : Signature

pub data Runbook : Type 0 where
  restart_and_verify defer_to_dependency escalate escalate_oom : Runbook

pub data Outcome : Type 0 where
  success failure deferred escalated detected : Outcome

-- What the `detail` text of a runbook's result is built from.
pub data Detail : Type 0 where
  no_detail : Detail
  waiting_on : Option String → Option Status → Detail
  restarts_in_window : ℕ → Detail
  restarts_and_oom : ℕ → ℕ → Detail

-- The dictionary that a runbook returns. `final_status` is `none` for the text "unknown".
pub record RunbookResult : Type 0 where
  pub runbook : Runbook
  pub attempts : ℕ
  pub outcome : Outcome
  pub final_status : Option Status
  pub detail : Detail

-- An audit event: `detect_failure` and `auto_heal` of one service, with what their texts are built of.
pub data Report : Type 0 where
  detect_failure : String → Option Status → Option Bool → Signature → Report
  auto_heal : String → RunbookResult → Report
