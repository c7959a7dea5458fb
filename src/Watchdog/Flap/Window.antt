-- ===== src/Watchdog/Flap/Window.antt =====
-- The sliding window of watchdog/flap.py: what `_prune` keeps, and `restart_count` against the whole
-- history of restarts.
use kdb_distributed_controlp.Prelude.{
  ℕ, ◌+◌, ◌≤◌, ◌≡◌, refl, ap, String, List, [], ◌∷◌, ◌++◌, length, leb, if◌then◌else◌, arith,
  Bool-cases, inl, inr, eq_refl, ◌∙◌,
}
use mathlib.Core.List.{append-nil, append_assoc}
use kdb_distributed_controlp.Watchdog.Flap.{
  FlapTracker, prune_deque, prune, record_restart, restart_count, is_flapping,
}

-- Rising timestamps, from `lo` to at most `hi`.
abbrev pub Ascending : ℕ → List ℕ → ℕ → Type 0
Ascending lo [] hi = lo ≤ hi
Ascending lo (t ∷ dq) hi = (lo ≤ t) × Ascending t dq hi

-- The timestamps of a history that lie in the window before `now`: a filter, wherever they stand.
abbrev pub recent : ℕ → ℕ → List ℕ → List ℕ
recent window now [] = []
recent window now (t ∷ log) =
    let rest = recent window now log in if leb now (t + window) then t ∷ rest else rest

Ascending-snoc :
    (lo : ℕ) (dq : List ℕ) (hi x : ℕ) → Ascending lo dq hi → hi ≤ x → Ascending lo (dq ++ x ∷ []) x
Ascending-snoc lo [] hi x h le = omega arith
Ascending-snoc lo (t ∷ dq) hi x h le = (h.0, Ascending-snoc t dq hi x h.1 le)

Ascending-lower :
    (lo lo' : ℕ) (dq : List ℕ) (hi : ℕ) → lo ≤ lo' → Ascending lo' dq hi → Ascending lo dq hi
Ascending-lower lo lo' [] hi le h = omega arith
Ascending-lower lo lo' (t ∷ dq) hi le h = (omega arith, h.1)

Ascending-recent :
    (window now lo : ℕ) (dq : List ℕ) (hi : ℕ)
    → Ascending lo dq hi
    → Ascending lo (recent window now dq) hi
Ascending-recent window now lo [] hi h = h
Ascending-recent window now lo (t ∷ dq) hi h = elim (Bool-cases (leb now (t + window))) [
  | inl new ↦ rw new (h.0, Ascending-recent window now t dq hi h.1)
  | inr old ↦ rw old (Ascending-lower lo t _ hi h.0 (Ascending-recent window now t dq hi h.1))
]

-- From the first timestamp in the window on, all are.
recent_all :
    (window now t : ℕ) (dq : List ℕ) (hi : ℕ)
    → Ascending t dq hi
    → now ≤ t + window
    → recent window now dq ≡ dq
recent_all window now t [] hi h le = refl
recent_all window now t (u ∷ dq) hi h le = ground (arith, recent_all window now u dq hi h.1)

-- On rising timestamps the loop from the left end is the filter.
pub prune_deque-eq-recent :
    (window now lo : ℕ) (dq : List ℕ) (hi : ℕ)
    → Ascending lo dq hi
    → prune_deque window now dq ≡ recent window now dq
unfolding prune_deque
prune_deque-eq-recent window now lo [] hi h = refl
prune_deque-eq-recent window now lo (t ∷ dq) hi h =
    ground (arith, prune_deque-eq-recent window now t dq hi h.1, recent_all window now t dq hi h.1)

-- What a later filter drops need not have been kept by an earlier one.
recent-recent :
    (window now later : ℕ) (log more : List ℕ)
    → now ≤ later
    → recent window later (recent window now log ++ more) ≡ recent window later (log ++ more)
recent-recent window now later [] more le = refl
recent-recent window now later (t ∷ log) more le =
    ground (arith, recent-recent window now later log more le)

kept :
    (window now later : ℕ) (log : List ℕ)
    → now ≤ later
    → recent window later (recent window now log) ≡ recent window later log
kept window now later log le =
    rw (append-nil, append-nil) at (recent-recent window now later log [] le)

-- `record_restart` at each of the times, in order.
unfoldable pub record_all : FlapTracker → String → List ℕ → FlapTracker
record_all f service [] = f
record_all f service (t ∷ times) = record_all (record_restart f service t) service times

-- The deque of a service holds what is recent, as of `k`, in the history `log`.
record Holds (f : FlapTracker) (service : String) (log : List ℕ) (k : ℕ) : Type 0 where
  ascending : Ascending 0 log k
  deque : f.restarts service ≡ recent f.window k log

record_restart-Holds :
    (f : FlapTracker) (service : String) (log : List ℕ) (k x : ℕ)
    → Holds f service log k
    → k ≤ x
    → Holds (record_restart f service x) service (log ++ x ∷ []) x
unfolding record_restart prune
record_restart-Holds f service log k x h le = record {
  ascending = Ascending-snoc 0 log k x h.ascending le;
  deque =
      rw (eq_refl, h.deque)
        (prune_deque-eq-recent f.window x 0 (recent f.window k log ++ x ∷ []) x (
            Ascending-snoc 0 (recent f.window k log) k x
              (Ascending-recent f.window k 0 log k h.ascending) le)
          ∙ recent-recent f.window k x log (x ∷ []) le);
}

window-record_restart :
    (f : FlapTracker) (service : String) (x : ℕ) → (record_restart f service x).window ≡ f.window
unfolding record_restart prune
window-record_restart f service x = refl

threshold-record_restart :
    (f : FlapTracker) (service : String) (x : ℕ)
    → (record_restart f service x).threshold ≡ f.threshold
unfolding record_restart prune
threshold-record_restart f service x = refl

record_all-Holds :
    (f : FlapTracker) (service : String) (log : List ℕ) (k : ℕ) (times : List ℕ) (hi : ℕ)
    → Holds f service log k
    → Ascending k times hi
    → (last : ℕ) × (last ≤ hi) × Holds (record_all f service times) service (log ++ times) last
unfolding record_all
record_all-Holds f service log k [] hi h up = (k, up, rw append-nil h)
record_all-Holds f service log k (t ∷ times) hi h up =
    let (last, le, holds) =
      record_all-Holds (record_restart f service t) service (log ++ t ∷ []) t times hi
        (record_restart-Holds f service log k t h up.0) up.1 in
    (last, le, rw append_assoc at holds)

record_all-settings :
    (f : FlapTracker) (service : String) (times : List ℕ)
    → ((record_all f service times).window ≡ f.window)
      × ((record_all f service times).threshold ≡ f.threshold)
unfolding record_all
record_all-settings f service [] = (refl, refl)
record_all-settings f service (t ∷ times) =
    let (w, h) = record_all-settings (record_restart f service t) service times in
    (w ∙ window-record_restart f service t, h ∙ threshold-record_restart f service t)

-- After restarts of a service at rising times, starting from an empty deque, `restart_count` at a
-- later time is the number of those restarts that are at most `window` old, and `is_flapping` answers
-- whether that number is at least `threshold`.
pub is_flapping_history :
    (f : FlapTracker) (service : String) (times : List ℕ) (now : ℕ)
    → f.restarts service ≡ []
    → Ascending 0 times now
    → ((restart_count (record_all f service times) service now).0
        ≡ length (recent f.window now times))
      × ((is_flapping (record_all f service times) service now).0
          ≡ leb f.threshold (length (recent f.window now times)))
unfolding restart_count is_flapping prune
is_flapping_history f service times now fresh up =
    let (last, le, h) =
      record_all-Holds f service [] 0 times now (record { ascending = omega arith; deque = fresh })
        up in
    let g = record_all f service times in
    let (w, th) = record_all-settings f service times in
    let e : prune_deque g.window now (g.restarts service) ≡ recent f.window now times =
      rw (h.deque) (
        prune_deque-eq-recent g.window now 0 (recent g.window last times) last
          (Ascending-recent g.window last 0 times last h.ascending)
        ∙ kept g.window last now times le
        ∙ ap (λ v. recent v now times) w) in
    (rw (eq_refl, e), rw (eq_refl, e, th))
