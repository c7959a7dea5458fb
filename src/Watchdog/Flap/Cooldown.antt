-- ===== src/Watchdog/Flap/Cooldown.antt =====
-- The escalation cooldown of watchdog/flap.py, and that services do not disturb one another.
use kdb_distributed_controlp.Prelude.{
  ℕ, ◌+◌, ◌≡◌, ◌≢◌, refl, String, false, Option, none, some, [], ltb, if◌then◌else◌, str_eq, arith,
  eq_refl, eq_iff,
}
use kdb_distributed_controlp.Watchdog.Flap.{
  FlapTracker, prune, record_restart, restart_count, is_flapping, start_cooldown, cooldown_left,
  in_cooldown,
}

-- The duration that `start_cooldown` uses.
abbrev pub duration : FlapTracker → Option ℕ → ℕ
duration f none = f.cooldown
duration f (some d) = d

-- After `start_cooldown` at `now`, `in_cooldown` answers true exactly before the end of the cooldown.
-- While it lasts the history is kept; once it is over both the cooldown and the history are gone.
pub cooldown_lifecycle :
    (f : FlapTracker) (s : String) (d : Option ℕ) (now later : ℕ)
    → let (held, g) = in_cooldown (start_cooldown f s d now) s later in
      (held ≡ ltb later (now + duration f d))
      × (g.restarts s ≡ (if held then f.restarts s else []))
      × (g.cooldown_until s ≡ (if held then some (now + duration f d) else none))
unfolding in_cooldown start_cooldown cooldown_left
cooldown_lifecycle f s none now later = rw (eq_refl, cooldown_left) (ground (arith, eq_refl s))
cooldown_lifecycle f s (some d) now later = rw (eq_refl, cooldown_left) (ground (arith, eq_refl s))

-- What the tracker holds for one service.
abbrev pub SameAt : String → FlapTracker → FlapTracker → Type 0
SameAt s f g = (g.restarts s ≡ f.restarts s) × (g.cooldown_until s ≡ f.cooldown_until s)

in_cooldown-other :
    (f : FlapTracker) (s other : String) (now : ℕ)
    → str_eq s other ≡ false
    → SameAt other f (in_cooldown f s now).1
unfolding in_cooldown cooldown_left
in_cooldown-other f s other now apart = ground arith

-- A restart, a count, a cooldown or a cooldown check of one service changes nothing of another.
pub other_service :
    (f : FlapTracker) (s other : String) (d : Option ℕ) (now : ℕ)
    → s ≢ other
    → SameAt other f (record_restart f s now)
      × SameAt other f (restart_count f s now).1
      × SameAt other f (is_flapping f s now).1
      × SameAt other f (start_cooldown f s d now)
      × SameAt other f (in_cooldown f s now).1
unfolding record_restart restart_count is_flapping prune start_cooldown
other_service f s other d now ne =
    let apart : str_eq s other ≡ false = ground (arith, eq_iff s other) in
    (
      rw apart (refl, refl),
      rw apart (refl, refl),
      rw apart (refl, refl),
      rw apart (refl, refl),
      in_cooldown-other f s other now apart,
    )
