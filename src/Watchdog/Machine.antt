-- ===== src/Watchdog/Machine.antt =====
-- The state of watchdog/watchdog.py and the effects of its functions: the orchestrator, the clock and
-- the control API are a record of operations on an abstract world `W`. A call may raise; what was done
-- before stays done. `starts` and `reports` list, newest first, the calls of `orchestrator.start` and
-- the audit events.
use kdb_distributed_controlp.Prelude.{ℕ, String, Bool, Option, List, ◌∷◌, Result, ok, err}
use kdb_distributed_controlp.Watchdog.Flap.{FlapTracker}
use kdb_distributed_controlp.Watchdog.Events.{Status, Report}

-- An exception, by its text.
abbrev pub Exn : Type 0
Exn = String

-- The backends of the orchestrator, `time` and `requests`. `oom_killed` is `none` where the backend
-- has no such method. Reading the clock is a step of the world, so that time may pass in between.
-- `post` has no result: `report` ignores a failure.
pub record Orchestrator (W : Type 0) : Type 0 where
  pub status : String → W → Result Exn Status × W
  pub start : String → W → Result Exn Bool × W
  pub oom_killed : Option (String → W → Result Exn Bool × W)
  pub sleep : ℕ → W → W
  pub clock : W → ℕ × W
  pub post : Report → W → W

pub record Machine (W : Type 0) : Type 0 where
  pub world : W
  pub flap : FlapTracker
  pub in_progress : String → Bool
  pub starts : List String
  pub reports : List Report

abbrev pub M : Type 0 → Type 0 → Type 0
M W A = Machine W → Result Exn A × Machine W

module _ {W A : Type 0} where
  abbrev pub pure : A → M W A
  pure a m = (ok a, m)

  abbrev pub raise : Exn → M W A
  raise e m = (err e, m)

  -- `try: … finally: …`
  abbrev pub finally : M W A → (Machine W → Machine W) → M W A
  finally act cleanup m = let (r, m') = act m in (r, cleanup m')

module _ {W A B : Type 0} where
  abbrev pub continue : Result Exn A → (A → M W B) → M W B
  continue (ok a) f m = f a m
  continue (err e) f m = (err e, m)

  infixl 5 ◌>>=◌ ◌>>◌
  unfoldable pub ◌>>=◌ : M W A → (A → M W B) → M W B
  ◌>>=◌ act f m = let (r, m') = act m in continue r f m'

  abbrev pub ◌>>◌ : M W A → M W B → M W B
  a >> b = a >>= λ _. b

module _ {W : Type 0} where
  abbrev pub modify : (Machine W → Machine W) → M W (Unit {0})
  modify f m = (ok tt, f m)

  -- A method of the tracker that has a result.
  abbrev pub with_flap : {A : Type 0} → (FlapTracker → A × FlapTracker) → M W A
  with_flap f m = let (a, flap') = f m.flap in (ok a, record m { flap = flap' })

  -- A method of the tracker that has none.
  abbrev pub change_flap : (FlapTracker → FlapTracker) → M W (Unit {0})
  change_flap f m = (ok tt, record m { flap = f m.flap })

module _ {W : Type 0} (o : Orchestrator W) where
  abbrev pub call_status : String → M W Status
  call_status service m = let (r, w) = o.status service m.world in (r, record m { world = w })

  abbrev pub call_start : String → M W Bool
  call_start service m =
      let (r, w) = o.start service m.world in
      (r, record m { world = w; starts = service ∷ m.starts })

  abbrev pub call_sleep : ℕ → M W (Unit {0})
  call_sleep seconds m = (ok tt, record m { world = o.sleep seconds m.world })

  -- `self._clock()`
  abbrev pub call_clock : M W ℕ
  call_clock m = let (t, w) = o.clock m.world in (ok t, record m { world = w })

  -- A query of the world that may raise: the health probe and `oom_killed`.
  abbrev pub ask : (String → W → Result Exn Bool × W) → String → M W Bool
  ask query service m = let (r, w) = query service m.world in (r, record m { world = w })

  -- `report` of watchdog.py: an unreachable control API never blocks healing.
  abbrev pub report : Report → M W (Unit {0})
  report event m = (ok tt, record m { world = o.post event m.world; reports = event ∷ m.reports })
