-- ===== src/Watchdog/Pass/Bounds.antt =====
-- What any number of rounds of the main loop of watchdog/watchdog.py may start, service by service.
use mathlib.Core.List.{append_assoc}
use kdb_distributed_controlp.Prelude.{
  ℕ, zero, suc, ◌+◌, ◌*◌, ◌≤◌, ◌≡◌, refl, ap, ◌∙◌, sym, String, List, [], ◌∷◌, ◌++◌, Result, ok,
  err, replicate, arith, if◌then◌else◌, str_eq,
}
use kdb_distributed_controlp.Prelude.Dict.{Dict, insert}
use kdb_distributed_controlp.Watchdog.Events.{Status}
use kdb_distributed_controlp.Watchdog.Machine.{Exn, Machine, M, continue, ◌>>=◌}
use kdb_distributed_controlp.Watchdog.Pass.{
  Setup, heal_service, heal_all, snapshot, check_and_heal, rounds,
}
use kdb_distributed_controlp.Watchdog.Pass.Starts.{heal_service-Within}

-- how often a name stands in a list
unfoldable pub occurs : String → List String → ℕ
occurs s [] = 0
occurs s (x ∷ xs) = (if str_eq x s then 1 else 0) + occurs s xs

occurs-append : (s : String) (xs ys : List String) → occurs s (xs ++ ys) ≡ occurs s xs + occurs s ys
unfolding occurs
occurs-append s [] ys = omega arith
occurs-append s (x ∷ xs) ys = omega (arith, occurs-append s xs ys)

occurs-replicate : (s x : String) (k : ℕ) → occurs s (replicate k x) ≡ (if str_eq x s then k else 0)
unfolding occurs
occurs-replicate s x zero = ground arith
occurs-replicate s x (suc k) = ground (arith, occurs-replicate s x k)

module _ {W : Type 0} where
  -- From `m` to `m'` each name was started at most so many times, and the guard set is the same.
  pub record Bounded (most : String → ℕ) (m m' : Machine W) : Type 0 where
    pub in_progress : m'.in_progress ≡ m.in_progress
    pub started : List String
    pub starts : m'.starts ≡ started ++ m.starts
    pub at_most : (s : String) → occurs s started ≤ most s

  Bounded-refl : (most : String → ℕ) (m : Machine W) → Bounded most m m
  unfolding occurs
  Bounded-refl most m = record {
    in_progress = refl;
    started = [];
    starts = refl;
    at_most = λ s. omega arith;
  }

  Bounded-trans :
      (first later most : String → ℕ) (a b c : Machine W)
      → ((s : String) → first s + later s ≤ most s)
      → Bounded first a b
      → Bounded later b c
      → Bounded most a c
  Bounded-trans first later most a b c fits f g = record {
    in_progress = g.in_progress ∙ f.in_progress;
    started = g.started ++ f.started;
    starts =
        g.starts
        ∙ ap (λ l. g.started ++ l) f.starts
        ∙ sym (append_assoc g.started f.started a.starts);
    at_most =
        λ s. omega (arith, occurs-append s g.started f.started, f.at_most s, g.at_most s, fits s);
  }

  -- What is not one of the fields may differ.
  Bounded-from :
      (most : String → ℕ) (a b c : Machine W)
      → b.in_progress ≡ a.in_progress
      → b.starts ≡ a.starts
      → Bounded most b c
      → Bounded most a c
  Bounded-from most a b c guards starts h = record {
    in_progress = h.in_progress ∙ guards;
    started = h.started;
    starts = h.starts ∙ ap (λ l. h.started ++ l) starts;
    at_most = h.at_most;
  }

-- three for each time that the name stands in the list
abbrev pub three_each : List String → String → ℕ
three_each services s = 3 * occurs s services

times_step : (n k : ℕ) → k + n * k ≤ suc n * k
times_step n k = omega arith

module _ {W : Type 0} (setup : Setup W) where
  heal_service-Bounded :
      (s : String) (map : Dict Status) (m : Machine W)
      → Bounded (λ x. if str_eq s x then 3 else 0) m (heal_service setup s map m).1
  heal_service-Bounded s map m =
      let w = heal_service-Within setup s map m in
      record {
        in_progress = w.in_progress;
        started = replicate w.times s;
        starts = w.starts;
        at_most = λ x. ground (arith, occurs-replicate x s w.times, w.at_most);
      }

  continue-Bounded :
      {A : Type 0} (most : String → ℕ) (r : Result Exn A) (f : A → M W (Dict Status))
      → ((map : A) (m : Machine W) → Bounded most m (f map m).1)
      → (m : Machine W) → Bounded most m (continue r f m).1
  continue-Bounded most (ok map) f h m = h map m
  continue-Bounded most (err e) f h m = Bounded-refl most m

  heal_all-Bounded :
      (services : List String) (map : Dict Status) (m : Machine W)
      → Bounded (three_each services) m (heal_all setup services map m).1
  unfolding heal_all occurs ◌>>=◌
  heal_all-Bounded [] map m = Bounded-refl _ m
  heal_all-Bounded (s ∷ services) map m =
      let (r, m') = heal_service setup s map m in
      Bounded-trans (λ x. if str_eq s x then 3 else 0) (three_each services)
        (three_each (s ∷ services)) m m' _ (λ x. ground arith) (heal_service-Bounded s map m)
        (continue-Bounded (three_each services) r (heal_all setup services)
          (heal_all-Bounded services) m')

  snapshot-Bounded :
      (todo : List String) (map : Dict Status) (m : Machine W)
      → Bounded (λ s. 0) m (snapshot setup todo map m).1
  unfolding snapshot ◌>>=◌
  snapshot-Bounded [] map m = Bounded-refl _ m
  snapshot-Bounded (s ∷ todo) map m =
      let (r, w) = setup.orchestrator.status s m.world in
      Bounded-from _ m (record m { world = w }) _ refl refl
        (continue-Bounded _ r (λ st. snapshot setup todo (insert s st map))
          (λ st. snapshot-Bounded todo (insert s st map)) (record m { world = w }))

  check_and_heal-Bounded :
      (services : List String) (m : Machine W)
      → Bounded (three_each services) m (check_and_heal setup services m).1
  unfolding check_and_heal ◌>>=◌
  check_and_heal-Bounded services m =
      let (r, m') = snapshot setup services [] m in
      Bounded-trans (λ s. 0) (three_each services) _ m m' _ (λ s. omega arith)
        (snapshot-Bounded services [] m)
        (continue-Bounded (three_each services) r (heal_all setup services)
          (heal_all-Bounded services) m')

  -- Any number of rounds of the main loop, with an exception ending only its own pass, calls `start` for a
  -- service at most three times for each round and each time that it stands in the list of services, so
  -- never for a service that is not in the list, and leaves the guard set as it was.
  pub rounds-Bounded :
      (poll : ℕ) (services : List String) (n : ℕ) (m : Machine W)
      → Bounded (λ s. n * (3 * occurs s services)) m (rounds setup poll services n m)
  unfolding rounds
  rounds-Bounded poll services zero m = Bounded-refl _ m
  rounds-Bounded poll services (suc n) m =
      let m' = (check_and_heal setup services m).1 in
      let m'' = record m' { world = setup.orchestrator.sleep poll m'.world } in
      Bounded-trans (three_each services) (λ s. n * (3 * occurs s services)) _ m m' _
        (λ s. times_step n (3 * occurs s services)) (check_and_heal-Bounded services m)
        (Bounded-from _ m' m'' _ refl refl (rounds-Bounded poll services n m''))
