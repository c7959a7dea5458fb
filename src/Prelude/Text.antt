-- ===== src/Prelude/Text.antt =====
-- Python's text operations that the program uses: `str(n)` of a small number, `startswith` with the
-- slice behind the prefix, and `upper` on ASCII letters (other characters stay as they are).
use Prim.Native.Nat.{ℕ, zero, suc, ◌-◌, ◌/◌, ◌%◌}
use Prim.Native.Char.{code}
use Prim.Native.Char.{Char}
use Prim.Native.String.{String, ◌++◌, char_at}
use Prim.Native.String.append
use mathlib.Core.Path.{◌≡◌, refl, sym, ap, ap₂, ◌∙◌}
use mathlib.Core.Bool.{Bool, true, false, ◌&&◌, ◌||◌}
use native.Mathlib.Omega.{arith}
use mathlib.Core.Option.{Option, none, some, some-injective}
use text.Mathlib.TextEquality.{Char-path}
use kdb_distributed_controlp.Prelude.Tests.{ltb, leb, ◌==◌, if◌then◌else◌, Bool-cases, ==_iff}
use mathlib.Core.Logic.{inl, inr}

digit : ℕ → String
digit n =
    if n == 0
    then "0"
    else if n == 1
    then "1"
    else if n == 2
    then "2"
    else if n == 3
    then "3"
    else if n == 4
    then "4"
    else if n == 5
    then "5"
    else if n == 6
    then "6"
    else if n == 7
    then "7"
    else if n == 8
    then "8"
    else "9"

-- The fuel is more than the number of digits.
digits_fuel : ℕ → ℕ → String
digits_fuel zero n = digit n
digits_fuel (suc f) n =
    let rest = digits_fuel f (n / 10) in if ltb n 10 then digit n else rest ++ digit (n % 10)

-- `str(n)`
unfoldable pub decimal : ℕ → String
unfolding digit digits_fuel
decimal n = digits_fuel n n

-- `s[len(p):] if s.startswith(p)`
unfoldable pub strip_prefix : String → String → Option String
strip_prefix String.[] s = some s
strip_prefix (String.◌∷◌ c p) String.[] = none
strip_prefix (String.◌∷◌ c p) (String.◌∷◌ d s) = if code c == code d then strip_prefix p s else none

abbrev pub upper : ℕ → ℕ
upper c = if leb b'a' c && leb c b'z' then c - 32 else c

abbrev pub upper_char : Char → Char
upper_char c =
    if leb b'a' (code c) && leb (code c) b'z'
    then char_at "ABCDEFGHIJKLMNOPQRSTUVWXYZ" (code c - b'a')
    else c

abbrev lower_char : Char → Char
lower_char c =
    if leb b'A' (code c) && leb (code c) b'Z'
    then char_at "abcdefghijklmnopqrstuvwxyz" (code c - b'A')
    else c

-- `s.upper()` and `s.lower()`
unfoldable pub str_upper : String → String
str_upper String.[] = String.[]
str_upper (String.◌∷◌ c s) = String.◌∷◌ (upper_char c) (str_upper s)

unfoldable pub str_lower : String → String
str_lower String.[] = String.[]
str_lower (String.◌∷◌ c s) = String.◌∷◌ (lower_char c) (str_lower s)

-- Python's whitespace among the ASCII characters
abbrev pub blank : Char → Bool
blank c =
    code c == 32 || (leb 9 (code c) && leb (code c) 13) || (leb 28 (code c) && leb (code c) 31)

unfoldable pub str_lstrip : String → String
str_lstrip String.[] = String.[]
str_lstrip (String.◌∷◌ c s) = let rest = str_lstrip s in if blank c then rest else String.◌∷◌ c s

-- a character before a text whose blanks at the end are gone
abbrev pub rstrip_onto : Char → String → String
rstrip_onto c String.[] = if blank c then String.[] else String.◌∷◌ c String.[]
rstrip_onto c (String.◌∷◌ d t) = String.◌∷◌ c (String.◌∷◌ d t)

unfoldable pub str_rstrip : String → String
str_rstrip String.[] = String.[]
str_rstrip (String.◌∷◌ c s) = rstrip_onto c (str_rstrip s)

-- `s.strip()`
unfoldable pub str_strip : String → String
unfolding str_lstrip str_rstrip
str_strip s = str_rstrip (str_lstrip s)

-- What is left behind a prefix gives the text back.
pub strip_prefix-append : (p s r : String) → strip_prefix p s ≡ some r → s ≡ p ++ r
unfolding strip_prefix
strip_prefix-append String.[] s r h = some-injective _ _ h ∙ sym (append.nil r)
strip_prefix-append (String.◌∷◌ c p) String.[] r h = cc
strip_prefix-append (String.◌∷◌ c p) (String.◌∷◌ d s) r h = elim (Bool-cases (code c == code d)) [
  | inl same ↦
      ap₂ String.◌∷◌ (Char-path d c (sym ((==_iff (code c) (code d)).0 same)))
        (strip_prefix-append p s r (rw same at h))
      ∙ sym (append.cons c p r)
  | inr other ↦ absurd (cc (rw other at h))
]

pub strip_prefix-append_self : (p s : String) → strip_prefix p (p ++ s) ≡ some s
unfolding strip_prefix
strip_prefix-append_self String.[] s = ap (λ (t : String). some t) (append.nil s)
strip_prefix-append_self (String.◌∷◌ c p) s =
    rw append.cons (rw ((==_iff (code c) (code c)).1 refl) (strip_prefix-append_self p s))

-- Two texts differ at a place that both have.
unfoldable pub differ : String → String → Bool
differ String.[] q = false
differ (String.◌∷◌ c p) String.[] = false
differ (String.◌∷◌ c p) (String.◌∷◌ d q) = if code c == code d then differ p q else true

pub strip_prefix-differ : (p q s : String) → differ p q ≡ true → strip_prefix p (q ++ s) ≡ none
unfolding strip_prefix differ
strip_prefix-differ String.[] q s h = absurd (cc)
strip_prefix-differ (String.◌∷◌ c p) String.[] s h = absurd (cc)
strip_prefix-differ (String.◌∷◌ c p) (String.◌∷◌ d q) s h =
    rw append.cons (ground (arith, strip_prefix-differ p q s))
