-- ===== src/FleetAgent.antt =====
-- The agent inside a customer's cluster: the reconcile core (fleet_agent/provisioner.py) and the heartbeat
-- loop (fleet_agent/agent.py). The backend, the control-plane client, the service operation, the status
-- probe and JSON are parameters; each call of one may raise, with a text. A call changes the world, of any
-- type `W`.
mod Tests
pub mod Loop
pub mod Reconcile
pub mod Reports
use Prim.Native.String.{◌++◌ as ◌<>◌}
use kdb_distributed_controlp.Prelude.{
  ℕ, zero, suc, ◌+◌, String, Bool, true, false, ◌&&◌, ◌||◌, Option, none, some, List, [], ◌∷◌, ◌++◌,
  if◌then◌else◌, ◌==◌, str_eq, leb, ltb, length, is_some, Result, ok, err,
}
use kdb_distributed_controlp.Prelude.Text.{decimal}
use kdb_distributed_controlp.Prelude.Exec.{Exec}

abbrev pub max_shards : ℕ
max_shards = 26

-- What `desired.get(k)` gives: nothing or None, an int (`negative n` is -(n + 1)), or another value by its
-- representation.
pub data Field : Type 0 where
  absent : Field
  integer : ℕ → Field
  negative : ℕ → Field
  other : String → Field

unfoldable pub show_field : Field → String
show_field absent = "None"
show_field (integer n) = decimal n
show_field (negative n) = "-" <> decimal (n + 1)
show_field (other s) = s

-- `payload["desired"]`: is `components` given, the two numbers, and the whole text, which a backend that
-- takes full specs renders.
pub record Desired : Type 0 where
  pub components : Bool
  pub shard_count : Field
  pub gateway_replicas : Field
  pub document : String

pub record ReconcileResult : Type 0 where
  pub is_ok : Bool
  pub detail : String
  pub shard_count : Option ℕ
  pub steps : List String

-- `ReconcileResult(ok=False, detail=…, shard_count=…)`
abbrev pub failed : Option ℕ → String → ReconcileResult
failed n detail = record { is_ok = false; detail = detail; shard_count = n; steps = [] }

unfoldable pub summary : ReconcileResult → String
summary r = elim r.shard_count [
  | none ↦ r.detail
  | some n ↦
      if r.is_ok then "reconciled to " <> (decimal n <> (" shards: " <> r.detail)) else r.detail
]

-- `DataPlaneBackend`; a backend without `reconcile_spec` has none.
pub record Backend (W : Type 0) : Type 0 where
  pub current_shard_count : Exec String W (Option ℕ)
  pub reconcile : ℕ → Option ℕ → Exec String W ReconcileResult
  pub reconcile_spec : Option (Desired → Exec String W ReconcileResult)
  pub teardown : Exec String W ReconcileResult

-- `if result.shard_count is None: result.shard_count = n`
unfoldable pub stamp : ℕ → ReconcileResult → ReconcileResult
stamp n r = if is_some r.shard_count then r else record r { shard_count = some n }

-- an exception that a call of the backend raised is a failed reconcile
unfoldable pub caught :
    (String → ReconcileResult)
    → (ReconcileResult → ReconcileResult)
    → Result String ReconcileResult
    → ReconcileResult
caught on_raise on_result (ok r) = on_result r
caught on_raise on_result (err exc) = on_raise exc

-- the checks of `provision` before the backend is asked: the counts, or the refusal
unfoldable pub check_counts : Desired → Result String (ℕ × Option ℕ)
check_counts d = elim d.shard_count [
  | integer n ↦
      if leb 1 n && leb n max_shards
      then elim d.gateway_replicas [
        | absent ↦ ok (n, none)
        | integer m ↦
            if ltb m 1
            then err ("gatewayReplicas " <> (decimal m <> " must be a positive integer"))
            else ok (n, some m)
        | bad ↦ err ("gatewayReplicas " <> (show_field bad <> " must be a positive integer"))
      ]
      else err ("shardCount " <> (decimal n <> " out of range 1..26"))
  | negative n ↦ err ("shardCount " <> (show_field (negative n) <> " out of range 1..26"))
  | _ ↦ err "provision payload missing integer shardCount"
]

-- `isinstance(n, int) and 1 <= n <= MAX_SHARDS`
unfoldable pub valid_count : Field → Option ℕ
valid_count (integer n) = if leb 1 n && leb n max_shards then some n else none
valid_count _ = none

abbrev pub already : Option ℕ → ℕ → Option ℕ → Bool
already (some k) n none = k == n
already _ n _ = false

module _ {W : Type 0} (backend : Backend W) where
  open backend use {current_shard_count, reconcile, reconcile_spec, teardown}

  unfoldable pub provision_spec : Desired → W → ReconcileResult × W
  unfolding show_field valid_count caught stamp
  provision_spec d w = elim (valid_count d.shard_count) [
    | none ↦
        (failed none ("tickhouse shardCount " <> (show_field d.shard_count <> " out of range")), w)
    | some n ↦ elim reconcile_spec [
      | none ↦ (failed none "backend does not support full-spec provisioning", w)
      | some run ↦
          let (r, w') = run d w in
          (caught (λ exc. failed (some n) ("spec reconcile raised: " <> exc)) (stamp n) r, w')
    ]
  ]

  -- the end of `provision`, with the count that the backend runs
  unfoldable pub reconcile_from : ℕ → Option ℕ → Result String (Option ℕ) → W → ReconcileResult × W
  unfolding caught stamp
  reconcile_from n gw (err exc) w = (failed none ("could not read current state: " <> exc), w)
  reconcile_from n gw (ok current) w =
      if already current n gw
      then (
        record {
          is_ok = true;
          detail = "already at " <> (decimal n <> " shards, no change");
          shard_count = some n;
          steps = "no-op" ∷ [];
        },
        w,
      )
      else (let (r, w') = reconcile n gw w in
          (caught (λ exc. failed (some n) ("reconcile raised: " <> exc)) (stamp n) r, w'))

  unfoldable pub provision_counts : Result String (ℕ × Option ℕ) → W → ReconcileResult × W
  unfolding reconcile_from
  provision_counts (err detail) w = (failed none detail, w)
  provision_counts (ok (n, gw)) w =
      let (current, w') = current_shard_count w in reconcile_from n gw current w'

  unfoldable pub provision : Desired → W → ReconcileResult × W
  unfolding provision_spec provision_counts check_counts
  provision d w = if d.components then provision_spec d w else provision_counts (check_counts d) w

  unfoldable pub deprovision : W → ReconcileResult × W
  unfolding caught
  deprovision w =
      let (r, w') = teardown w in
      (caught (λ exc. failed none ("teardown raised: " <> exc)) (λ r. r) r, w')
