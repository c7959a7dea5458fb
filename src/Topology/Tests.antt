-- ===== src/Topology/Tests.antt =====
-- Runs of the topology on small shard counts.
use kdb_distributed_controlp.Prelude.{
  ℕ, ◌≡◌, refl, String, true, List, [], ◌∷◌, ◌++◌, ok, err, length, All, arith, inr,
}
use kdb_distributed_controlp.Prelude.Dict.{Dict, keys}
use kdb_distributed_controlp.Prelude.Text.{decimal}
use kdb_distributed_controlp.Topology.{
  Shard, too_many_shards, validate, letter_at, range_loop, letter_ranges, number_shards, shards,
  first_letter, owner, shard_of, healed_services, managed_services,
}
use kdb_distributed_controlp.Topology.Ranges.{
  Tiles, IsEven, letter_ranges-Tiles, letter_ranges_refused,
}
use kdb_distributed_controlp.Topology.Routing.{IsOwner, shard_of-IsOwner}
use kdb_distributed_controlp.Topology.Services.{distinct, names_of, services_of_shards}

letter_ranges_four : letter_ranges 4 ≡ ok ((65, 71) ∷ (72, 78) ∷ (79, 84) ∷ (85, 90) ∷ [])
unfolding letter_ranges validate range_loop letter_at
letter_ranges_four = refl

shard_of_lower : shard_of "vod.l" 4 ≡ ok "s3"
unfolding shard_of first_letter owner shards number_shards decimal letter_ranges validate range_loop
    letter_at
shard_of_lower = refl

letter_ranges-Tiles_example :
    (rs : List (ℕ × ℕ)) × (letter_ranges 4 ≡ ok rs)
    × (length rs ≡ 4)
    × Tiles 65 91 rs
    × All (IsEven 6) rs
letter_ranges-Tiles_example = letter_ranges-Tiles 4 (omega arith) (omega arith)

letter_ranges_refused_example : letter_ranges 27 ≡ err too_many_shards
letter_ranges_refused_example = letter_ranges_refused 27 (inr (omega arith))

shard_of-IsOwner_example :
    (ss : List Shard) × (k : ℕ) × (s : Shard) × (shards 4 ≡ ok ss)
    × IsOwner 86 ss k s
    × (shard_of "vod.l" 4 ≡ ok s.id)
unfolding first_letter
shard_of-IsOwner_example = shard_of-IsOwner "vod.l" 4 86 (omega arith) (omega arith) refl

services_of_shards_example :
    (ss : List Shard) × (names : List String) × (out : Dict String) × (shards 2 ≡ ok ss)
    × (healed_services 2 ≡ ok names)
    × (managed_services 2 ≡ ok out)
    × (names ≡ names_of ss)
    × (keys out ≡ names ++ "bpipe-sim" ∷ "crims-sim" ∷ [])
    × (distinct (keys out) ≡ true)
services_of_shards_example = services_of_shards 2 (omega arith) (omega arith)
