-- ===== src/TickHouse/Ascii.antt =====
-- ASCII texts, what Python does to them, and that the pieces of one (control-api/app/tickhouse.py) are ASCII
-- again.
use Prim.Native.Char.{Char, code}
use kdb_distributed_controlp.Prelude.{
  ℕ, ◌≡◌, ◌<◌, refl, String, Bool, true, ◌&&◌, ◌||◌, Option, none, some, leb, ltb, All, Bool-cases,
  inl, inr, arith,
}
use kdb_distributed_controlp.Prelude.Text.{
  blank, rstrip_onto, str_upper, str_lstrip, str_rstrip, str_strip,
}
use kdb_distributed_controlp.TickHouse.Spec.{Unicode, split_comma, split_dash}

unfoldable pub is_ascii : String → Bool
is_ascii String.[] = true
is_ascii (String.◌∷◌ c s) = ltb (code c) 128 && is_ascii s

abbrev pub is_letter : ℕ → Bool
is_letter c = (leb b'A' c && leb c b'Z') || (leb b'a' c && leb c b'z')

-- Python on ASCII texts: `upper` turns the small letters into capitals, `strip` takes the ASCII blanks off both
-- ends, and a character is a letter if it is one of the 52.
pub record IsStandard (u : Unicode) : Type 0 where
  pub upper : (s : String) → is_ascii s ≡ true → u.upper s ≡ str_upper s
  pub strip : (s : String) → is_ascii s ≡ true → u.strip s ≡ str_strip s
  pub isalpha : (c : Char) → code c < 128 → u.isalpha c ≡ is_letter (code c)

str_lstrip-is_ascii : (s : String) → is_ascii s ≡ true → is_ascii (str_lstrip s) ≡ true
unfolding is_ascii str_lstrip
str_lstrip-is_ascii String.[] h = refl
str_lstrip-is_ascii (String.◌∷◌ c s) h = ground (arith, str_lstrip-is_ascii s)

rstrip_onto-is_ascii :
    (c : Char) (t : String) → code c < 128 → is_ascii t ≡ true → is_ascii (rstrip_onto c t) ≡ true
unfolding is_ascii
rstrip_onto-is_ascii c String.[] small h = elim (Bool-cases (blank c)) [
  | inl off ↦ rw off refl
  | inr kept ↦ rw kept (ground arith)
]
rstrip_onto-is_ascii c (String.◌∷◌ d t) small h = ground arith

str_rstrip-is_ascii : (s : String) → is_ascii s ≡ true → is_ascii (str_rstrip s) ≡ true
unfolding is_ascii str_rstrip
str_rstrip-is_ascii String.[] h = refl
str_rstrip-is_ascii (String.◌∷◌ c s) h =
    rstrip_onto-is_ascii c (str_rstrip s) (ground arith) (str_rstrip-is_ascii s (ground arith))

pub str_strip-is_ascii : (s : String) → is_ascii s ≡ true → is_ascii (str_strip s) ≡ true
unfolding str_strip
str_strip-is_ascii s h = str_rstrip-is_ascii (str_lstrip s) (str_lstrip-is_ascii s h)

abbrev pub IsAscii : String → Type 0
IsAscii s = is_ascii s ≡ true

pub split_comma-IsAscii : (s : String) → is_ascii s ≡ true → All IsAscii (split_comma s)
unfolding is_ascii split_comma
split_comma-IsAscii String.[] h = (refl, tt)
split_comma-IsAscii (String.◌∷◌ c s) h = ground (arith, split_comma-IsAscii s)

abbrev pub AreAscii : Option (String × String) → Type 0
AreAscii none = Unit {0}
AreAscii (some (a, b)) = (is_ascii a ≡ true) × (is_ascii b ≡ true)

pub split_dash-AreAscii : (s : String) → is_ascii s ≡ true → AreAscii (split_dash s)
unfolding is_ascii split_dash
split_dash-AreAscii String.[] h = tt
split_dash-AreAscii (String.◌∷◌ c s) h = ground (arith, split_dash-AreAscii s)
