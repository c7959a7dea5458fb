-- ===== src/TickHouse/Accepted.antt =====
-- From `auto_spec` and `validate_spec` of control-api/app/tickhouse.py to the shard count that the agent's
-- `_valid_count` (fleet_agent/provisioner.py) admits.
use Prim.Native.Char.{Char, code}
use Prim.Native.String.{char_at}
use kdb_distributed_controlp.Prelude.{
  true, ℕ, ◌+◌, ◌-◌, ◌≤◌, ◌<◌, ◌≡◌, refl, ap, ◌∙◌, subst, String, false, ◌&&◌, Option, none, some,
  List, [], ◌∷◌, ◌++◌, arith, leb, ◌==◌, length, All, Bool-cases, inl, inr, Result, ok, err, str_eq,
  passes_below, passes_below-at,
}
use kdb_distributed_controlp.Prelude.Text.{str_strip, str_upper, upper_char, str_strip}
use kdb_distributed_controlp.FleetAgent.{integer, valid_count}
use kdb_distributed_controlp.TickHouse.Spec.{
  Unicode, ShardRange, TickHouseSpec, SpecError, one_letter, ends_of, split_dash, parse_part,
  parse_parts, parse_shard_ranges, split_comma,
}
use kdb_distributed_controlp.TickHouse.Ascii.{
  is_ascii, IsAscii, AreAscii, IsStandard, str_strip-is_ascii, split_comma-IsAscii,
  split_dash-AreAscii,
}
use kdb_distributed_controlp.TickHouse.Build.{
  report_if, shard_problems, choice_problems, setup_problems, no_shards, validate_spec,
  no_shards_given,
}
use kdb_distributed_controlp.TickHouse.Auto.{Choices, build_shards, auto_spec}
use kdb_distributed_controlp.TickHouse.Disjoint.{
  append-nil, report_if-nil, owners, overlap_problems-disjoint, Lettered, disjoint-length,
}

abbrev IsCapital : Option Char → Type 0
IsCapital none = Unit {0}
IsCapital (some c) = (65 ≤ code c) × (code c ≤ 90)

capital_at : (k : ℕ) → k < 26 → code (char_at "ABCDEFGHIJKLMNOPQRSTUVWXYZ" k) ≡ 65 + k
unfolding passes_below
capital_at k small =
    let seen =
      passes_below-at (λ j. code (char_at "ABCDEFGHIJKLMNOPQRSTUVWXYZ" j) == 65 + j) 26 k small
        refl in
    ground (arith, seen)

-- no capital form is a small letter
upper_char_bounds : (c : Char) → 97 ≤ code (upper_char c) → 122 < code (upper_char c)
upper_char_bounds c above = elim (Bool-cases (leb b'a' (code c) && leb (code c) b'z')) [
  | inl small ↦ absurd (grind (arith, capital_at (code c - 97)))
  | inr other ↦ ground arith
]

upper_char_ascii : (c : Char) → code c < 128 → code (upper_char c) < 128
upper_char_ascii c small = elim (Bool-cases (leb b'a' (code c) && leb (code c) b'z')) [
  | inl letter ↦ grind (arith, capital_at (code c - 97))
  | inr other ↦ ground arith
]

abbrev IsLettered : Result SpecError ShardRange → Type 0
IsLettered (err e) = Unit {0}
IsLettered (ok s) = Lettered s

abbrev AreLettered : Result SpecError (List ShardRange) → Type 0
AreLettered (err e) = Unit {0}
AreLettered (ok ss) = All Lettered ss

module _ (u : Unicode) (std : IsStandard u) where
  one_letter_bounds :
      (d : Char)
      → (97 ≤ code d → 122 < code d)
      → code d < 128
      → IsCapital (one_letter u (String.◌∷◌ d String.[]))
  unfolding one_letter
  one_letter_bounds d gap small = rw (std.isalpha d small) (ground arith)

  one_letter-str_upper : (s : String) → is_ascii s ≡ true → IsCapital (one_letter u (str_upper s))
  unfolding one_letter str_upper is_ascii
  one_letter-str_upper String.[] h = tt
  one_letter-str_upper (String.◌∷◌ c String.[]) h =
      one_letter_bounds (upper_char c) (upper_char_bounds c) (upper_char_ascii c (ground arith))
  one_letter-str_upper (String.◌∷◌ c (String.◌∷◌ d s)) h = tt

  one_letter-end : (s : String) → is_ascii s ≡ true → IsCapital (one_letter u (u.upper (u.strip s)))
  one_letter-end s h =
      let stripped = str_strip-is_ascii s h in
      rw (std.strip s h, std.upper (str_strip s) stripped)
        (one_letter-str_upper (str_strip s) stripped)

  ends_of-one_letter :
      (part : String) (cut : Option (String × String))
      → is_ascii part ≡ true
      → AreAscii cut
      → IsCapital (one_letter u (ends_of u part cut).0)
        × IsCapital (one_letter u (ends_of u part cut).1)
  ends_of-one_letter part none h tt = (one_letter-end part h, one_letter-end part h)
  ends_of-one_letter part (some (a, b)) h (first, last) =
      (one_letter-end a first, one_letter-end b last)

  parse_part-IsLettered : (part : String) → is_ascii part ≡ true → IsLettered (parse_part u part)
  unfolding parse_part
  parse_part-IsLettered part h =
      let (first, last) =
        ends_of-one_letter part (split_dash part) h (split_dash-AreAscii part h) in
      ground arith

  parse_parts-AreLettered :
      (parts : List String) → All IsAscii parts → AreLettered (parse_parts u parts)
  unfolding parse_parts
  parse_parts-AreLettered [] h = tt
  parse_parts-AreLettered (p ∷ parts) (here, later) =
      let same = std.strip p here in
      let part : IsLettered (parse_part u (u.strip p)) =
        parse_part-IsLettered (u.strip p) (rw same (str_strip-is_ascii p here)) in
      let rest = parse_parts-AreLettered parts later in ground arith

  parse_shard_ranges-AreLettered :
      (text : String) → is_ascii text ≡ true → AreLettered (parse_shard_ranges u text)
  unfolding parse_shard_ranges
  parse_shard_ranges-AreLettered text h =
      let parts = parse_parts-AreLettered (split_comma text) (split_comma-IsAscii text h) in
      ground arith

validate_spec-shards :
    (spec : TickHouseSpec)
    → validate_spec spec ≡ []
    → (no_shards_given spec.shards ≡ false) × (shard_problems spec ≡ [])
unfolding validate_spec
validate_spec-shards spec clean =
    let (_, later) = append-nil (choice_problems spec) _ clean in
    let (some_given, last) =
      append-nil (report_if (no_shards_given spec.shards) no_shards)
        (shard_problems spec ++ setup_problems spec) later in
    (report_if-nil _ _ some_given, (append-nil (shard_problems spec) (setup_problems spec) last).0)

pub auto_spec-shards :
    (u : Unicode) (c : Choices) (spec : TickHouseSpec)
    → auto_spec u c ≡ ok spec
    → (build_shards u c ≡ ok spec.shards) × (spec.sharding_policy ≡ c.sharding_policy)
unfolding auto_spec
auto_spec-shards u c spec made = ground arith

no_shards_given-length : (ss : List ShardRange) → no_shards_given ss ≡ false → 1 ≤ length ss
no_shards_given-length [] given = absurd (cc)
no_shards_given-length (s ∷ ss) given = omega arith

build_shards-Lettered :
    (u : Unicode)
    → IsStandard u
    → (c : Choices) (ss : List ShardRange) → is_ascii c.shard_ranges ≡ true
    → str_eq c.sharding_policy "explicit-symbols" ≡ false
    → build_shards u c ≡ ok ss
    → All Lettered ss
unfolding build_shards
build_shards-Lettered u std c ss plain ranges built =
    let parsed = parse_shard_ranges-AreLettered u std c.shard_ranges plain in
    let read : parse_shard_ranges u c.shard_ranges ≡ ok ss = ground arith in
    subst AreLettered read parsed

shard_problems-owners :
    (spec : TickHouseSpec) (letter : ℕ)
    → str_eq spec.sharding_policy "explicit-symbols" ≡ false
    → shard_problems spec ≡ []
    → owners letter spec.shards ≤ 1
unfolding shard_problems
shard_problems-owners spec letter ranges sound =
    overlap_problems-disjoint letter spec.shards (ground arith)

valid_count-within : (n : ℕ) → 1 ≤ n → n ≤ 26 → valid_count (integer n) ≡ some n
unfolding valid_count
valid_count-within n some_given few = ground arith

-- A specification that `auto_spec` builds under the letter-range policy, from ranges in an ASCII text, and that
-- `validate_spec` passes gives no letter to two shards, and the count of its shards is one that the fleet
-- agent's check of a requested shard count admits, where Python's text functions are standard on ASCII.
pub auto_spec-valid_count :
    (u : Unicode)
    → IsStandard u
    → (c : Choices) (spec : TickHouseSpec) (letter : ℕ) → is_ascii c.shard_ranges ≡ true
    → str_eq c.sharding_policy "explicit-symbols" ≡ false
    → auto_spec u c ≡ ok spec
    → validate_spec spec ≡ []
    → (owners letter spec.shards ≤ 1)
      × (valid_count (integer (length spec.shards)) ≡ some (length spec.shards))
auto_spec-valid_count u std c spec letter plain ranges made clean =
    let (built, policy) = auto_spec-shards u c spec made in
    let (given, sound) = validate_spec-shards spec clean in
    let ranged = ap (λ p. str_eq p "explicit-symbols") policy ∙ ranges in
    let single = λ (l : ℕ). shard_problems-owners spec l ranged sound in
    (
      single letter,
      valid_count-within (length spec.shards) (no_shards_given-length spec.shards given) (
          disjoint-length spec.shards (build_shards-Lettered u std c spec.shards plain ranges built)
            single),
    )
