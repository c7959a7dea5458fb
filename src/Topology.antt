-- ===== src/Topology.antt =====
-- control-api/app/topology.py (the copies in watchdog/ and data-plane/feeds/ are the same bytes):
-- the shards, the letters each owns, and the names of the services derived from the shard count.
-- A shard count is a natural number, so the integers below 1 are all 0 here. A letter is its code.
pub mod Ranges
pub mod Routing
pub mod Services
mod Tests
use kdb_distributed_controlp.Prelude.{
  ℕ, zero, suc, ◌+◌, ◌-◌, ◌/◌, ◌%◌, String, Bool, true, false, ◌&&◌, Option, none, some, List, [],
  ◌∷◌, ◌++◌, map, ◌==◌, Result, ok, err, ◌>>=◌, ltb, leb, str_eq, if◌then◌else◌,
}
use Prim.Native.Char.{code}
use Prim.Native.String.{◌++◌ as ◌<>◌}
use kdb_distributed_controlp.Prelude.Dict.{Dict, lookup, insert, keys}
use kdb_distributed_controlp.Prelude.Text.{decimal, upper}

-- `ValueError` of `_validate` by its two messages, and Python's `IndexError`
pub data TopologyError : Type 0 where
  not_positive too_many_shards index_error : TopologyError

abbrev pub max_shards : ℕ
max_shards = 26

pub data Tier : Type 0 where
  tickerplant wdb rdb idb hdb gateway : Tier

abbrev pub tier_name : Tier → String
tier_name tickerplant = "tickerplant"
tier_name wdb = "wdb"
tier_name rdb = "rdb"
tier_name idb = "idb"
tier_name hdb = "hdb"
tier_name gateway = "gateway"

-- `TIER_PORTS`
abbrev pub tier_ports : Tier → ℕ
tier_ports tickerplant = 5010
tier_ports rdb = 5020
tier_ports idb = 5030
tier_ports wdb = 5040
tier_ports gateway = 5050
tier_ports hdb = 5060

-- `SHARD_TIERS`: the five processes of a shard, in dependency order
abbrev pub shard_tiers : List Tier
shard_tiers = tickerplant ∷ wdb ∷ rdb ∷ idb ∷ hdb ∷ []

abbrev pub feed_services : List String
feed_services = "bpipe-sim" ∷ "crims-sim" ∷ []

unfoldable pub validate : ℕ → Result TopologyError (Unit {0})
validate n =
    if ltb n 1 then err not_positive else if ltb max_shards n then err too_many_shards else ok tt

pub record Shard : Type 0 where
  pub index : ℕ
  pub id : String
  pub lo : ℕ
  pub hi : ℕ

-- `Shard.service`
unfoldable pub service : Shard → Tier → String
service s tickerplant = ("tp" <> "-") <> s.id
service s tier = (tier_name tier <> "-") <> s.id

-- `ALPHABET[i]`, for an index from 0
unfoldable pub letter_at : ℕ → Result TopologyError ℕ
letter_at i = if ltb i max_shards then ok (b'A' + i) else err index_error

-- The loop of `letter_ranges` with the rounds that are left; `size` is never 0, so the truncated
-- `idx + size - 1` is Python's.
unfoldable pub range_loop : ℕ → ℕ → ℕ → ℕ → ℕ → Result TopologyError (List (ℕ × ℕ))
range_loop base extra zero i idx = ok []
range_loop base extra (suc rounds) i idx =
    let size = base + (if ltb i extra then 1 else 0) in
    letter_at idx >>= λ lo. letter_at (idx + size - 1) >>= λ hi.
    range_loop base extra rounds (i + 1) (idx + size) >>= λ rest. ok ((lo, hi) ∷ rest)

unfoldable pub letter_ranges : ℕ → Result TopologyError (List (ℕ × ℕ))
letter_ranges n = validate n >>= λ _. range_loop (max_shards / n) (max_shards % n) n 0 0

-- `enumerate` from `i`
unfoldable pub number_shards : ℕ → List (ℕ × ℕ) → List Shard
number_shards i [] = []
number_shards i ((a, b) ∷ rs) =
    record { index = i; id = "s" <> decimal i; lo = a; hi = b } ∷ number_shards (i + 1) rs

unfoldable pub shards : ℕ → Result TopologyError (List Shard)
shards n = letter_ranges n >>= λ rs. ok (number_shards 0 rs)

-- `next((ch for ch in sym.upper() if ch in ALPHABET), None)`
unfoldable pub first_letter : String → Option ℕ
first_letter String.[] = none
first_letter (String.◌∷◌ ch sym) =
    let c = upper (code ch) in if leb b'A' c && leb c b'Z' then some c else first_letter sym

-- the loop of `shard_of`, and its fallback
unfoldable pub owner : ℕ → List Shard → String
owner c [] = "s0"
owner c (s ∷ ss) = if leb s.lo c && leb c s.hi then s.id else owner c ss

unfoldable pub shard_of : String → ℕ → Result TopologyError String
shard_of sym n = elim (first_letter sym) [
  | none ↦ ok "s0"
  | some c ↦ shards n >>= λ ss. ok (owner c ss)
]

unfoldable pub gateway_host : Shard → Tier → String
gateway_host s tier = service s tier <> ":" <> decimal (tier_ports tier)

-- the inner and the outer loop of `shard_services`
unfoldable pub add_tiers : Shard → List Tier → Dict Tier → Dict Tier
add_tiers s [] out = out
add_tiers s (tier ∷ tiers) out = add_tiers s tiers (insert (service s tier) tier out)

unfoldable pub add_shards : List Shard → Dict Tier → Dict Tier
add_shards [] out = out
add_shards (s ∷ ss) out = add_shards ss (add_tiers s shard_tiers out)

unfoldable pub shard_services : ℕ → Result TopologyError (Dict Tier)
shard_services n = shards n >>= λ ss. ok (add_shards ss [])

unfoldable pub healed_services : ℕ → Result TopologyError (List String)
healed_services n = shard_services n >>= λ out. ok (keys out ++ "gateway" ∷ [])

-- `{name: name}` for each name, then each feed
unfoldable pub add_names : List String → Dict String → Dict String
add_names [] out = out
add_names (name ∷ names) out = add_names names (insert name name out)

unfoldable pub managed_services : ℕ → Result TopologyError (Dict String)
managed_services n = shard_services n >>= λ out.
    ok (add_names feed_services (insert "gateway" "gateway" (add_names (keys out) [])))

-- One shard in the document of `shards_json`.
pub record ShardDoc : Type 0 where
  pub id : String
  pub label : String
  pub lo : ℕ
  pub hi : ℕ
  pub tp : String
  pub rdb_host : String
  pub idb_host : String
  pub wdb_host : String
  pub hdb_host : String

pub record ShardsDoc : Type 0 where
  pub shard_count : ℕ
  pub gateway_port : ℕ
  pub shard_docs : List ShardDoc

-- the text of a letter
unfoldable pub letter : ℕ → String → String
letter c String.[] = ""
letter c (String.◌∷◌ ch rest) = if code ch == c then String.◌∷◌ ch "" else letter c rest

abbrev pub alphabet : String
alphabet = "ABCDEFGHIJKLMNOPQRSTUVWXYZ"

-- `Shard.label`
unfoldable pub label : Shard → String
label s =
    if s.lo == s.hi
    then letter s.lo alphabet
    else letter s.lo alphabet <> "-" <> letter s.hi alphabet

unfoldable pub shard_doc : Shard → ShardDoc
shard_doc s = record {
  id = s.id;
  label = label s;
  lo = s.lo;
  hi = s.hi;
  tp = gateway_host s tickerplant;
  rdb_host = gateway_host s rdb;
  idb_host = gateway_host s idb;
  wdb_host = gateway_host s wdb;
  hdb_host = gateway_host s hdb;
}

unfoldable pub shards_json : ℕ → Result TopologyError ShardsDoc
shards_json n = shards n >>= λ ss.
    ok
      (record { shard_count = n; gateway_port = tier_ports gateway; shard_docs = map shard_doc ss })
