-- ===== src/TickHouse/Histories.antt =====
-- Histories of requests to control-api/app/routers/tickhouse.py, between which the fleet's tables change in any
-- way: what is stored has passed `validate_spec`, so what is queued passes the agent's check.
use kdb_distributed_controlp.Prelude.{
  sym, Bool, ℕ, ◌≡◌, refl, ap, ◌∙◌, subst, String, true, some, List, [], ◌∷◌, All, All-append,
  arith, ◌==◌, inl, inr, Bool-cases, str_eq, length, Result, ok,
}
use kdb_distributed_controlp.Prelude.Exec.{lift_rule, gets_rule, modify_rule, require_rule}
use kdb_distributed_controlp.Fleet.Store.{CurrentUser, AuditEvent, Command, Db, HttpError}
use kdb_distributed_controlp.FleetAgent.{integer, valid_count}
use kdb_distributed_controlp.TickHouse.Spec.{Unicode, TickHouseSpec}
use kdb_distributed_controlp.TickHouse.Ascii.{is_ascii, IsStandard}
use kdb_distributed_controlp.TickHouse.Build.{Problem, validate_spec}
use kdb_distributed_controlp.TickHouse.Auto.{
  spec_from_dict, spec_from_dict-spec_to_dict, Choices, auto_spec,
}
use kdb_distributed_controlp.TickHouse.Accepted.{auto_spec-valid_count, auto_spec-shards}
use kdb_distributed_controlp.TickHouse.Router.{
  House, HouseDb, find_house, put_house, drop_house, load, build, built, is_clean, new_house,
  create_tickhouse, delete_tickhouse, provision_house, tickhouse_status, refreshed, with_event,
}

-- The shards are given by symbols, or the fleet agent's check of the shard count passes.
pub data IsAdmitted (policy : String) (count : ℕ) : Type 0 where
  by_symbols : str_eq policy "explicit-symbols" ≡ true → IsAdmitted policy count
  counted : valid_count (integer count) ≡ some count → IsAdmitted policy count

unfoldable pub Fits : House → Type 0
Fits h =
    IsAdmitted (spec_from_dict h.spec_json).sharding_policy
      (length (spec_from_dict h.spec_json).shards)

auto_spec-IsAdmitted :
    (u : Unicode)
    → IsStandard u
    → (c : Choices) (spec : TickHouseSpec) → is_ascii c.shard_ranges ≡ true
    → auto_spec u c ≡ ok spec
    → validate_spec spec ≡ []
    → IsAdmitted spec.sharding_policy (length spec.shards)
auto_spec-IsAdmitted u std c spec plain made clean =
    elim (Bool-cases (str_eq c.sharding_policy "explicit-symbols")) [
      | inl symbols ↦
          by_symbols
            (ap (λ p. str_eq p "explicit-symbols") (auto_spec-shards u c spec made).1 ∙ symbols)
      | inr ranges ↦ counted (auto_spec-valid_count u std c spec 0 plain ranges made clean).1
    ]

new_house-Fits :
    (u : Unicode) (id tenant : ℕ) (spec : TickHouseSpec)
    → IsAdmitted spec.sharding_policy (length spec.shards)
    → Fits (new_house u id tenant spec)
unfolding Fits
new_house-Fits u id tenant spec admitted =
    subst (λ t. IsAdmitted t.sharding_policy (length t.shards))
      (sym (spec_from_dict-spec_to_dict u spec)) admitted

build-made :
    (u : Unicode) (c : Choices) (spec : TickHouseSpec)
    → build u c ≡ ok spec
    → auto_spec u (built c) ≡ ok spec
unfolding build
build-made u c spec done = ground arith

is_clean-nil : (ps : List Problem) → is_clean ps ≡ true → ps ≡ []
is_clean-nil [] clean = refl
is_clean-nil (p ∷ ps) clean = absurd (cc)

pub find_house-Fits :
    (id : ℕ) (rows : List House) (h : House) → All Fits rows → find_house id rows ≡ some h → Fits h
unfolding find_house
find_house-Fits id [] h fit found = absurd (cc)
find_house-Fits id (k ∷ rows) h (here, later) found = elim (Bool-cases (k.id == id)) [
  | inl same ↦ let same_row : k ≡ h = ground arith in subst Fits same_row here
  | inr other ↦ find_house-Fits id rows h later (ground arith)
]

pub put_house-Fits :
    (v : House) (rows : List House) → Fits v → All Fits rows → All Fits (put_house v rows)
unfolding put_house
put_house-Fits v [] fit rest = tt
put_house-Fits v (h ∷ rows) fit (here, later) = elim (Bool-cases (h.id == v.id)) [
  | inl same ↦ rw same (fit, later)
  | inr other ↦ rw other (here, put_house-Fits v rows fit later)
]

drop_house-Fits : (id : ℕ) (rows : List House) → All Fits rows → All Fits (drop_house id rows)
unfolding drop_house
drop_house-Fits id [] rest = tt
drop_house-Fits id (h ∷ rows) (here, later) = elim (Bool-cases (h.id == id)) [
  | inl same ↦ rw same later
  | inr other ↦ rw other (here, drop_house-Fits id rows later)
]

pub load-found :
    (id tenant : ℕ) (rows : List House) (h : House)
    → load id tenant rows ≡ ok h
    → (find_house id rows ≡ some h) × (h.tenant_id ≡ tenant)
unfolding load
load-found id tenant rows h done = ground arith

refreshed-Fits : (h : House) (commands : List Command) → Fits h → Fits (refreshed h commands)
unfolding Fits refreshed
refreshed-Fits h commands fit = ground arith

-- A request to the endpoints that write, or whatever else happens to the fleet's tables.
pub data HouseRequest : Type 0 where
  creates : Choices → CurrentUser → HouseRequest
  deletes : ℕ → CurrentUser → HouseRequest
  provisions : ℕ → ℕ → CurrentUser → HouseRequest
  asks_status : ℕ → CurrentUser → HouseRequest
  fleet_becomes : Db → HouseRequest

unfoldable pub serve_house : Unicode → HouseRequest → HouseDb → HouseDb
serve_house u (creates c user) db = (create_tickhouse u c user db).1
serve_house u (deletes id user) db = (delete_tickhouse id user db).1
serve_house u (provisions id agent_id user) db = (provision_house u id agent_id user db).1
serve_house u (asks_status id user) db = (tickhouse_status id user db).1
serve_house u (fleet_becomes fleet) db = record db { fleet = fleet }

-- a request whose shard ranges, if it has any, are an ASCII text
unfoldable pub is_plain : HouseRequest → Bool
is_plain (creates c user) = is_ascii c.shard_ranges
is_plain _ = true

unfoldable pub serve_houses : Unicode → List HouseRequest → HouseDb → HouseDb
unfolding serve_house
serve_houses u [] db = db
serve_houses u (r ∷ rs) db = serve_houses u rs (serve_house u r db)

-- every stored specification is admitted
unfoldable pub AreFit : {A : Type 0} → Result HttpError A × HouseDb → Type 0
AreFit r = All Fits r.1.houses

with_event-houses : (e : AuditEvent) (db : HouseDb) → (with_event e db).houses ≡ db.houses
unfolding with_event
with_event-houses e db = refl

pub create_tickhouse-AreFit :
    (u : Unicode)
    → IsStandard u
    → (c : Choices) (user : CurrentUser) (db : HouseDb) → is_ascii c.shard_ranges ≡ true
    → All Fits db.houses
    → AreFit (create_tickhouse u c user db)
unfolding create_tickhouse AreFit with_event
create_tickhouse-AreFit u std c user db plain fit =
    lift_rule AreFit _ _ db (λ e. fit)
      λ tenant scope.
        lift_rule AreFit _ _ db (λ e. fit)
          λ spec made. require_rule AreFit _ _ _ db fit λ clean. gets_rule AreFit _ _ db (
            modify_rule AreFit _ _ db (
              modify_rule AreFit _ _ _ (
                All-append Fits db.houses (new_house u db.next_house tenant spec ∷ []) fit (
                  new_house-Fits u db.next_house tenant spec (
                      auto_spec-IsAdmitted u std (built c) spec plain (build-made u c spec made)
                        (is_clean-nil (validate_spec spec) clean)),
                  tt,
                ))))

pub delete_tickhouse-AreFit :
    (id : ℕ) (user : CurrentUser) (db : HouseDb)
    → All Fits db.houses
    → AreFit (delete_tickhouse id user db)
unfolding delete_tickhouse AreFit with_event
delete_tickhouse-AreFit id user db fit =
    lift_rule AreFit _ _ db (λ e. fit)
      λ tenant scope. gets_rule AreFit _ _ db (
        lift_rule AreFit _ _ db (λ e. fit)
          λ row found. modify_rule AreFit _ _ db (drop_house-Fits id db.houses fit))

pub tickhouse_status-AreFit :
    (id : ℕ) (user : CurrentUser) (db : HouseDb)
    → All Fits db.houses
    → AreFit (tickhouse_status id user db)
unfolding tickhouse_status AreFit
tickhouse_status-AreFit id user db fit =
    lift_rule AreFit _ _ db (λ e. fit)
      λ tenant scope. gets_rule AreFit _ _ db (
        lift_rule AreFit _ _ db (λ e. fit)
          λ row found. gets_rule AreFit _ _ db (
            modify_rule AreFit _ _ db (
              put_house-Fits (refreshed row db.fleet.commands) db.houses
                (refreshed-Fits row db.fleet.commands (
                  find_house-Fits id db.houses row fit
                    (load-found id tenant db.houses row found).0))
                fit)))
