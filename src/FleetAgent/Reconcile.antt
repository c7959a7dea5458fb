-- ===== src/FleetAgent/Reconcile.antt =====
-- What `Provisioner.provision` of fleet_agent/provisioner.py asks of its backend, and where it ends.
use Prim.Native.String.{◌++◌ as ◌<>◌}
use kdb_distributed_controlp.Prelude.{
  ℕ, ◌≤◌, ◌≡◌, refl, ◌∙◌, String, true, false, Option, none, some, inl, inr, ==_iff, arith, Result,
  ok, err, Bool-cases, Option-cases, ap,
}
use kdb_distributed_controlp.FleetAgent.{
  Field, absent, integer, Desired, ReconcileResult, Backend, already, failed, caught, stamp,
  check_counts, valid_count, provision_spec, reconcile_from, provision_counts, provision,
}

-- the gateway replicas are left alone or at least one
abbrev pub IsReplicas : Option ℕ → Type 0
IsReplicas none = Unit {0}
IsReplicas (some m) = 1 ≤ m

abbrev pub AreBounded : Result String (ℕ × Option ℕ) → Type 0
AreBounded (ok (n, gw)) = (1 ≤ n) × (n ≤ 26) × IsReplicas gw
AreBounded (err detail) = Unit {0}

check_counts_bounds : (d : Desired) → AreBounded (check_counts d)
unfolding check_counts
check_counts_bounds d = ground arith

valid_count_bounds : (f : Field) (n : ℕ) → valid_count f ≡ some n → (1 ≤ n) × (n ≤ 26)
unfolding valid_count
valid_count_bounds f n h = ground arith

already-some : (o : Option ℕ) (n : ℕ) (gw : Option ℕ) → already o n gw ≡ true → o ≡ some n
already-some o n gw h = ground arith

caught_ok :
    (n : ℕ) (gw : Option ℕ) (r : Result String ReconcileResult)
    → (caught (λ exc. failed (some n) ("reconcile raised: " <> exc)) (stamp n) r).is_ok ≡ true
    → (x : ReconcileResult) × (r ≡ ok x) × (x.is_ok ≡ true)
unfolding caught stamp
caught_ok n gw (ok r) h = (r, refl, ground arith)
caught_ok n gw (err exc) h = absurd (cc)

check_counts_integer :
    (d : Desired) (n : ℕ) (gw : Option ℕ) → check_counts d ≡ ok (n, gw) → d.shard_count ≡ integer n
unfolding check_counts
check_counts_integer d n gw h = ground arith

check_counts_replicas :
    (d : Desired) (n : ℕ) (gw : Option ℕ)
    → d.gateway_replicas ≡ absent
    → check_counts d ≡ ok (n, gw)
    → gw ≡ none
unfolding check_counts
check_counts_replicas d n gw alone h = ground arith

provision-plain :
    {W : Type 0} (backend : Backend W) (d : Desired) (w : W)
    → d.components ≡ false
    → provision backend d w ≡ provision_counts backend (check_counts d) w
unfolding provision
provision-plain backend d w plain = simp plain refl

module _ {W : Type 0} (backend : Backend W) where
  open backend use {current_shard_count, reconcile, reconcile_spec, teardown}

  module _ (Inv : W → Type 0) (reads : (w : W) → Inv w → Inv (current_shard_count w).1)
      (sets : (n : ℕ) (gw : Option ℕ) (w : W)
        → 1 ≤ n
        → n ≤ 26
        → IsReplicas gw
        → Inv w
        → Inv (reconcile n gw w).1)
      (specs : (run : Desired → W → Result String ReconcileResult × W)
        → reconcile_spec ≡ some run
        → (d : Desired) (n : ℕ) (w : W) → valid_count d.shard_count ≡ some n
        → 1 ≤ n
        → n ≤ 26
        → Inv w
        → Inv (run d w).1) where
    reconcile_from-keeps :
        (n : ℕ) (gw : Option ℕ) (current : Result String (Option ℕ)) (w : W)
        → AreBounded (ok (n, gw))
        → Inv w
        → Inv (reconcile_from backend n gw current w).1
    unfolding reconcile_from
    reconcile_from-keeps n gw (err exc) w bounded inv = inv
    reconcile_from-keeps n gw (ok current) w bounded inv =
        elim (Bool-cases (already current n gw)) [
          | inl same ↦ rw same inv
          | inr apart ↦ rw apart (sets n gw w bounded.0 bounded.1 bounded.2 inv)
        ]

    provision_counts-keeps :
        (counts : Result String (ℕ × Option ℕ)) (w : W)
        → AreBounded counts
        → Inv w
        → Inv (provision_counts backend counts w).1
    unfolding provision_counts
    provision_counts-keeps (err detail) w bounded inv = inv
    provision_counts-keeps (ok (n, gw)) w bounded inv =
        reconcile_from-keeps n gw (current_shard_count w).0 (current_shard_count w).1 bounded
          (reads w inv)

    provision_spec-keeps : (d : Desired) (w : W) → Inv w → Inv (provision_spec backend d w).1
    unfolding provision_spec
    provision_spec-keeps d w inv = elim (Option-cases (valid_count d.shard_count)) [
      | inl out ↦ rw (out, provision_spec) inv
      | inr (n, valid) ↦
          let bounds = valid_count_bounds d.shard_count n valid in
          rw (valid, provision_spec)
            (elim (Option-cases reconcile_spec) [
              | inl lacks ↦ rw lacks inv
              | inr (run, has) ↦ rw has (specs run has d n w valid bounds.0 bounds.1 inv)
            ])
    ]

    -- What holds of the world, is kept when the backend reads its count, and is kept when the backend is
    -- asked for 1 to 26 shards, at least one gateway replica if any, and a spec of 1 to 26 shards, is kept
    -- by `provision` on every payload: it asks for nothing else.
    pub provision_keeps : (d : Desired) (w : W) → Inv w → Inv (provision backend d w).1
    unfolding provision
    provision_keeps d w inv = elim (Bool-cases d.components) [
      | inl spec ↦ simp spec (provision_spec-keeps d w inv)
      | inr counts ↦
          simp counts (provision_counts-keeps (check_counts d) w (check_counts_bounds d) inv)
    ]

  module _ (reads : (w : W) → (current_shard_count w).1 ≡ w)
      (sets : (n : ℕ) (gw : Option ℕ) (w : W) (r : ReconcileResult)
        → (reconcile n gw w).0 ≡ ok r
        → r.is_ok ≡ true
        → (current_shard_count (reconcile n gw w).1).0 ≡ ok (some n)) where
    reconcile_from-reaches :
        (n : ℕ) (gw : Option ℕ) (w : W) (current : Result String (Option ℕ))
        → (current_shard_count w).0 ≡ current
        → (reconcile_from backend n gw current w).0.is_ok ≡ true
        → (current_shard_count (reconcile_from backend n gw current w).1).0 ≡ ok (some n)
    unfolding reconcile_from caught stamp
    reconcile_from-reaches n gw w (err exc) now done = absurd (cc)
    reconcile_from-reaches n gw w (ok current) now done = elim (Bool-cases (already current n gw)) [
      | inl same ↦ rw same (now ∙ ap (λ k. ok k) (already-some current n gw same))
      | inr apart ↦ rw apart (
          let (r, e, good) = caught_ok n gw (reconcile n gw w).0 (rw apart at done) in
          sets n gw w r e good)
    ]

    counts_reach :
        (counts : Result String (ℕ × Option ℕ)) (w : W)
        → (provision_counts backend counts w).0.is_ok ≡ true
        → (n : ℕ) × (gw : Option ℕ) × (counts ≡ ok (n, gw))
          × ((current_shard_count (provision_counts backend counts w).1).0 ≡ ok (some n))
    unfolding provision_counts
    counts_reach (err detail) w done = absurd (cc)
    counts_reach (ok (n, gw)) w done = (
      n,
      gw,
      refl,
      reconcile_from-reaches n gw (current_shard_count w).1 (current_shard_count w).0
          (ap (λ v. (current_shard_count v).0) (reads w)) done,
    )

    again :
        (n : ℕ) (w : W)
        → (current_shard_count w).0 ≡ ok (some n)
        → ((provision_counts backend (ok (n, none)) w).1 ≡ w)
          × ((provision_counts backend (ok (n, none)) w).0.is_ok ≡ true)
    unfolding provision_counts reconcile_from
    again n w now = rw (now, reads w, (==_iff n n).1 refl) (refl, refl)

    -- Where reading the count changes nothing and a reconcile that reports ok leaves its count to be read:
    -- a payload without components and gateway replicas that was provisioned with success is, sent again,
    -- a success that changes nothing.
    pub provision_again :
        (d : Desired) (w : W)
        → d.components ≡ false
        → d.gateway_replicas ≡ absent
        → (provision backend d w).0.is_ok ≡ true
        → ((provision backend d (provision backend d w).1).1 ≡ (provision backend d w).1)
          × ((provision backend d (provision backend d w).1).0.is_ok ≡ true)
    provision_again d w plain alone done =
        let same = provision-plain backend d w plain in
        let (n, gw, counts, now) = counts_reach (check_counts d) w (rw same at done) in
        let kept = check_counts_replicas d n gw alone counts in
        rw (provision-plain backend d (provision backend d w).1 plain, counts, kept)
          (again n (provision backend d w).1 (rw same now))
