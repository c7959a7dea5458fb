-- ===== src/TickHouse/Spec.antt =====
-- The specification's data (control-api/app/tickhouse.py) and the reading of shard ranges. What Python knows of
-- letters, cases and blanks is a parameter.
use Prim.Native.Char.{Char, code}
use Prim.Native.String.{◌++◌ as ◌<>◌, char_at}
use kdb_distributed_controlp.Prelude.{
  ℕ, ◌+◌, ◌%◌, String, Bool, false, ◌||◌, Option, none, some, List, [], ◌∷◌, if◌then◌else◌, ◌==◌,
  ltb, str_eq, Result, ok, err,
}
use kdb_distributed_controlp.Prelude.Text.{decimal}
use kdb_distributed_controlp.Prelude.Dict.{Dict}

pub record HardwareSpec : Type 0 where
  pub cloud : String
  pub os : String
  pub instance_type : String
  pub vcpus : ℕ
  pub memory_gb : ℕ
  pub disk_gb : ℕ
  pub disk_tier : String
  pub nic : String
  pub tuning : List String
  pub cpuset : String
  pub numa_node : String

pub record ComponentSpec : Type 0 where
  pub type_name : String
  pub per_shard : Bool
  pub hardware : HardwareSpec

pub record ShardRange : Type 0 where
  pub label : String
  pub lo : Char
  pub hi : Char
  pub symbols : List String

-- `eod_config`; `none` is a value that is not a whole number from 0 on
pub record EodConfig : Type 0 where
  pub eod_hour_utc : Option ℕ
  pub idb_retention_days : Option ℕ
  pub rdb_retention_min : Option ℕ
  pub hdb_retention_days : Option ℕ

abbrev pub default_eod_config : EodConfig
default_eod_config = record {
  eod_hour_utc = some 0;
  idb_retention_days = some 5;
  rdb_retention_min = some 2;
  hdb_retention_days = some 0;
}

pub record TickHouseSpec : Type 0 where
  pub name : String
  pub location : String
  pub os : String
  pub profile : String
  pub shards : List ShardRange
  pub components : List ComponentSpec
  pub ldap_ref : String
  pub idb_enabled : Bool
  pub sharding_policy : String
  pub target_config : Dict String
  pub eod_config : EodConfig

-- `ValueError` and `KeyError` of the functions that build a specification
pub data SpecError : Type 0 where
  bad_range : String → SpecError
  out_of_order : String → SpecError
  no_ranges no_assignments : SpecError
  no_symbols : String → SpecError
  unknown_profile unknown_cloud unknown_component : String → SpecError

-- `x in xs`
unfoldable pub elem : String → List String → Bool
elem x [] = false
elem x (y ∷ ys) = str_eq x y || elem x ys

-- `s.split(",")`
unfoldable pub split_comma : String → List String
split_comma String.[] = "" ∷ []
split_comma (String.◌∷◌ c s) =
    let rest = split_comma s in
    if code c == b',' then "" ∷ rest else elim rest [ [] ↦ [] | t ∷ ts ↦ String.◌∷◌ c t ∷ ts ]

-- `s.split("-", 1)`, if there is a dash
unfoldable pub split_dash : String → Option (String × String)
split_dash String.[] = none
split_dash (String.◌∷◌ c s) =
    let rest = split_dash s in
    if code c == b'-'
    then some ("", s)
    else elim rest [ none ↦ none | some (a, b) ↦ some (String.◌∷◌ c a, b) ]

-- `str.upper`, `str.lower` and `str.strip`, and `str.isalpha` of a text of one character.
pub record Unicode : Type 0 where
  pub upper : String → String
  pub lower : String → String
  pub strip : String → String
  pub isalpha : Char → Bool

-- an entry of `shard_symbols`
pub record Assignment : Type 0 where
  pub label : Option String
  pub symbols : List String

-- `a.get("label") or f"shard-{i+1}"`
abbrev pub label_or : Option String → ℕ → String
label_or none i = "shard-" <> decimal (i + 1)
label_or (some l) i = if str_eq l "" then "shard-" <> decimal (i + 1) else l

-- `a.get("label", i)` in the error's text
abbrev pub label_shown : Option String → ℕ → String
label_shown none i = decimal i
label_shown (some l) i = l

module _ (u : Unicode) where
  open u use {upper, strip, isalpha}

  -- a text that is one letter
  unfoldable pub one_letter : String → Option Char
  one_letter (String.◌∷◌ c String.[]) = if isalpha c then some c else none
  one_letter _ = none

  -- the two ends of a range: the part's, or the part itself twice
  abbrev pub ends_of : String → Option (String × String) → String × String
  ends_of part none = (upper (strip part), upper (strip part))
  ends_of part (some (a, b)) = (upper (strip a), upper (strip b))

  unfoldable pub parse_part : String → Result SpecError ShardRange
  unfolding split_dash one_letter
  parse_part part =
      let (a, b) = ends_of part (split_dash part) in
      elim (one_letter a) [
        | none ↦ err (bad_range part)
        | some lo ↦ elim (one_letter b) [
          | none ↦ err (bad_range part)
          | some hi ↦
              if ltb (code hi) (code lo)
              then err (out_of_order part)
              else ok (record { label = a <> "-" <> b; lo = lo; hi = hi; symbols = [] })
        ]
      ]

  unfoldable pub parse_parts : List String → Result SpecError (List ShardRange)
  unfolding parse_part
  parse_parts [] = ok []
  parse_parts (p ∷ parts) =
      let rest = parse_parts parts in
      if str_eq (strip p) "" then rest else elim (parse_part (strip p)) [
        | err e ↦ err e
        | ok s ↦ elim rest [ err e ↦ err e | ok ss ↦ ok (s ∷ ss) ]
      ]

  unfoldable pub parse_shard_ranges : String → Result SpecError (List ShardRange)
  unfolding split_comma parse_parts
  parse_shard_ranges spec = elim (parse_parts (split_comma spec)) [
    | err e ↦ err e
    | ok [] ↦ err no_ranges
    | ok (s ∷ ss) ↦ ok (s ∷ ss)
  ]

  -- `[s.strip().upper() for s in symbols if s.strip()]`
  unfoldable pub clean_symbols : List String → List String
  clean_symbols [] = []
  clean_symbols (s ∷ ss) =
      let rest = clean_symbols ss in if str_eq (strip s) "" then rest else upper (strip s) ∷ rest

  unfoldable pub explicit_from : ℕ → List Assignment → Result SpecError (List ShardRange)
  unfolding clean_symbols
  explicit_from i [] = ok []
  explicit_from i (a ∷ rows) =
      let rest = explicit_from (i + 1) rows in
      elim (clean_symbols a.symbols) [
        | [] ↦ err (no_symbols (label_shown a.label i))
        | x ∷ xs ↦ elim rest [
          | err e ↦ err e
          | ok ss ↦ ok (
              record {
                label = label_or a.label i;
                lo = char_at "ABCDEFGHIJKLMNOPQRSTUVWXYZ" (i % 26);
                hi = char_at "ABCDEFGHIJKLMNOPQRSTUVWXYZ" (i % 26);
                symbols = x ∷ xs;
              }
              ∷ ss)
        ]
      ]

  unfoldable pub parse_explicit_shards : List Assignment → Result SpecError (List ShardRange)
  unfolding explicit_from
  parse_explicit_shards rows = elim (explicit_from 0 rows) [
    | err e ↦ err e
    | ok [] ↦ err no_assignments
    | ok (s ∷ ss) ↦ ok (s ∷ ss)
  ]
