-- ===== src/Watchdog/Flap.antt =====
-- watchdog/flap.py: restarts in a sliding window for each service, and an escalation cooldown. Times
-- are natural numbers (ticks of the monotonic clock); each method takes what `self._clock()` returns
-- at its call. Where a duration would be negative, `-` gives 0, which passes the same tests.
use kdb_distributed_controlp.Prelude.{
  ℕ, ◌+◌, ◌-◌, String, Bool, true, false, Option, none, some, List, [], ◌∷◌, ◌++◌, length, ltb, leb,
  if◌then◌else◌, str_eq,
}
use kdb_distributed_controlp.Prelude.Dict.{Table, update}
pub mod Window
pub mod Cooldown

pub record FlapTracker : Type 0 where
  pub window : ℕ
  pub threshold : ℕ
  pub cooldown : ℕ
  pub restarts : Table (List ℕ)
  pub cooldown_until : Table (Option ℕ)

-- `FlapTracker.__init__`
unfoldable pub new_tracker : ℕ → ℕ → ℕ → FlapTracker
new_tracker window threshold cooldown = record {
  window = window;
  threshold = threshold;
  cooldown = cooldown;
  restarts = λ _. [];
  cooldown_until = λ _. none;
}

-- the `while` loop of `_prune`, over the deque from its left end
unfoldable pub prune_deque : ℕ → ℕ → List ℕ → List ℕ
prune_deque window now [] = []
prune_deque window now (t ∷ dq) = if ltb window (now - t) then prune_deque window now dq else t ∷ dq

unfoldable pub prune : FlapTracker → String → ℕ → FlapTracker
prune f service now = record f {
  restarts = update f.restarts service (prune_deque f.window now (f.restarts service));
}

unfoldable pub record_restart : FlapTracker → String → ℕ → FlapTracker
record_restart f service now =
    prune (record f { restarts = update f.restarts service (f.restarts service ++ now ∷ []) })
      service now

unfoldable pub restart_count : FlapTracker → String → ℕ → ℕ × FlapTracker
restart_count f service now = let g = prune f service now in (length (g.restarts service), g)

unfoldable pub is_flapping : FlapTracker → String → ℕ → Bool × FlapTracker
is_flapping f service now =
    let (count, g) = restart_count f service now in (leb g.threshold count, g)

unfoldable pub start_cooldown : FlapTracker → String → Option ℕ → ℕ → FlapTracker
start_cooldown f service cooldown_sec now =
    let duration : ℕ = elim cooldown_sec [ none ↦ f.cooldown | some d ↦ d ] in
    record f { cooldown_until = update f.cooldown_until service (some (now + duration)) }

-- what `in_cooldown` does with `self._cooldown_until.get(service)`
unfoldable pub cooldown_left : FlapTracker → String → ℕ → Option ℕ → Bool × FlapTracker
cooldown_left f service now none = (false, f)
cooldown_left f service now (some until) = if ltb now until then (true, f) else (
  false,
  record f {
    cooldown_until = update f.cooldown_until service none;
    restarts = update f.restarts service [];
  },
)

unfoldable pub in_cooldown : FlapTracker → String → ℕ → Bool × FlapTracker
in_cooldown f service now = cooldown_left f service now (f.cooldown_until service)
