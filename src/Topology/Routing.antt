-- ===== src/Topology/Routing.antt =====
-- `shard_of` of control-api/app/topology.py: a symbol goes to the one shard that owns its letter.
use kdb_distributed_controlp.Prelude.{
  ℕ, zero, suc, ◌+◌, ◌≤◌, ◌<◌, ◌≡◌, refl, inl, inr, List, [], ◌∷◌, ok, String, arith, Bool-cases,
  some, get_elem?, leb, ap,
}
use Prim.Native.String.{◌++◌ as ◌<>◌}
use kdb_distributed_controlp.Prelude.Text.{decimal}
use kdb_distributed_controlp.Topology.{Shard, number_shards, shards, first_letter, owner, shard_of}
use kdb_distributed_controlp.Topology.Ranges.{Tiles, letter_ranges-Tiles}

abbrev pub OwnsLetter : Shard → ℕ → Type 0
OwnsLetter s c = (s.lo ≤ c) × (c ≤ s.hi)

-- Shard `k` of the list owns the letter, and no other does.
pub record IsOwner (c : ℕ) (ss : List Shard) (k : ℕ) (s : Shard) : Type 0 where
  pub at : get_elem? ss k ≡ some s
  pub owns : OwnsLetter s c
  pub only : (j : ℕ) (t : Shard) → get_elem? ss j ≡ some t → OwnsLetter t c → j ≡ k

-- A shard of a tiling that begins at `a` begins at `a` or later.
lo_of_Tiles :
    (a b i : ℕ) (rs : List (ℕ × ℕ)) (j : ℕ) (t : Shard)
    → Tiles a b rs
    → get_elem? (number_shards i rs) j ≡ some t
    → a ≤ t.lo
unfolding number_shards
lo_of_Tiles a b i [] j t h e = cc
lo_of_Tiles a b i ((lo, hi) ∷ rs) zero t h e = ground arith
lo_of_Tiles a b i ((lo, hi) ∷ rs) (suc j) t h e =
    omega (arith, lo_of_Tiles (suc hi) b (i + 1) rs j t h.2 e)

first_letter_bounds : (sym : String) (c : ℕ) → first_letter sym ≡ some c → (65 ≤ c) × (c ≤ 90)
unfolding first_letter
first_letter_bounds String.[] c h = cc
first_letter_bounds (String.◌∷◌ ch sym) c h = ground (arith, first_letter_bounds sym c)

only_head :
    (c : ℕ) (s : Shard) (ss : List Shard)
    → s.lo ≤ c
    → c ≤ s.hi
    → ((j : ℕ) (t : Shard) → get_elem? ss j ≡ some t → s.hi < t.lo)
    → (j : ℕ) (t : Shard) → get_elem? (s ∷ ss) j ≡ some t
    → OwnsLetter t c
    → j ≡ 0
only_head c s ss low high later zero t e o = refl
only_head c s ss low high later (suc j) t e o = absurd (omega (arith, later j t e))

only_tail :
    (c : ℕ) (s : Shard) (ss : List Shard) (k : ℕ)
    → s.hi < c
    → ((j : ℕ) (t : Shard) → get_elem? ss j ≡ some t → OwnsLetter t c → j ≡ k)
    → (j : ℕ) (t : Shard) → get_elem? (s ∷ ss) j ≡ some t
    → OwnsLetter t c
    → j ≡ suc k
only_tail c s ss k past only zero t e o = absurd (ground arith)
only_tail c s ss k past only (suc j) t e o = ap suc (only j t e o)

owner_of_Tiles :
    (a b i c : ℕ) (rs : List (ℕ × ℕ))
    → Tiles a b rs
    → a ≤ c
    → c < b
    → (k : ℕ) × (s : Shard) × IsOwner c (number_shards i rs) k s
      × (owner c (number_shards i rs) ≡ s.id)
unfolding number_shards owner
owner_of_Tiles a b i c [] h low high = absurd (omega arith)
owner_of_Tiles a b i c ((lo, hi) ∷ rs) h low high = elim (Bool-cases (leb c hi)) [
  | inl first ↦
      let s : Shard = record { index = i; id = "s" <> decimal i; lo = lo; hi = hi } in
      (
        0,
        s,
        record {
          at = refl;
          owns = ground arith;
          only =
              only_head c s (number_shards (i + 1) rs) (omega arith) (ground arith)
                (λ j t e. lo_of_Tiles (suc hi) b (i + 1) rs j t h.2 e);
        },
        ground arith,
      )
  | inr later ↦
      let s : Shard = record { index = i; id = "s" <> decimal i; lo = lo; hi = hi } in
      let (k, t, own, id) = owner_of_Tiles (suc hi) b (i + 1) c rs h.2 (ground arith) high in
      (
        suc k,
        t,
        record {
          at = own.at;
          owns = own.owns;
          only = only_tail c s (number_shards (i + 1) rs) k (ground arith) own.only;
        },
        rw later (ground (arith, id)),
      )
]

-- `shard_of` a symbol with a first letter, at 1 to 26 shards, is the id of a shard of `shards n` whose
-- range holds that letter, and no other shard of the list holds it.
pub shard_of-IsOwner :
    (sym : String) (n c : ℕ)
    → 1 ≤ n
    → n ≤ 26
    → first_letter sym ≡ some c
    → (ss : List Shard) × (k : ℕ) × (s : Shard) × (shards n ≡ ok ss)
      × IsOwner c ss k s
      × (shard_of sym n ≡ ok s.id)
unfolding shard_of shards
shard_of-IsOwner sym n c low high e =
    let (rs, run, _, tiles, _) = letter_ranges-Tiles n low high in
    let (b1, b2) = first_letter_bounds sym c e in
    let (k, s, own, id) = owner_of_Tiles 65 91 0 c rs tiles b1 (omega arith) in
    (number_shards 0 rs, k, s, rw run, own, rw (e, shard_of) (rw run (ap (λ i. ok i) id)))
