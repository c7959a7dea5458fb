-- ===== src/Licensing.antt =====
-- control-api/app/licensing.py: licence keys. HMAC-SHA256 with the product's secret and base32 are parameters.
-- A key is the list of its ASCII codes, bytes are numbers below 256, and a date is the number of
-- days since 2020-01-01 (an earlier date does not fit in a key: `mint` raises `struct.error` for it).
pub mod Keys
pub mod Signed
mod Tests
use kdb_distributed_controlp.Prelude.{
  ℕ, zero, suc, ◌+◌, ◌-◌, ◌*◌, ◌/◌, ◌%◌, String, Bool, true, false, not, ◌&&◌, ◌||◌, Option, none,
  some, List, [], ◌∷◌, ◌++◌, if◌then◌else◌, ◌==◌, leb, ltb, length, take, drop, str_eq, Result, ok,
  err,
}
use kdb_distributed_controlp.Prelude.Text.{upper}

pub data Edition : Type 0 where
  trial standard enterprise unknown : Edition

-- `EDITIONS` and `EDITION_IDS`
abbrev pub edition_of : ℕ → Edition
edition_of n =
    if n == 0 then trial else if n == 1 then standard else if n == 2 then enterprise else unknown

abbrev pub edition_id : Edition → Option ℕ
edition_id trial = some 0
edition_id standard = some 1
edition_id enterprise = some 2
edition_id unknown = none

pub data MintError : Type 0 where
  unknown_edition struct_error : MintError

abbrev pub trial_days : ℕ
trial_days = 30

pub data Reason : Type 0 where
  fine no_key not_32 not_base32 wrong_length bad_signature : Reason
  unsupported_version : ℕ → Reason
  expired_on : ℕ → Reason

-- The days that remain, or those since the expiry.
pub data Remaining : Type 0 where
  left : ℕ → Remaining
  overdue : ℕ → Remaining

pub record LicenseInfo : Type 0 where
  pub valid : Bool
  pub reason : Reason
  pub edition : Option Edition
  pub issued : Option ℕ
  pub expiry : Option ℕ
  pub days_remaining : Remaining

-- `hmac.new(_secret(), payload, sha256).digest()`, `b32encode` and `b32decode`
pub record Library : Type 0 where
  pub hmac : List ℕ → List ℕ
  pub b32encode : List ℕ → List ℕ
  pub b32decode : List ℕ → Option (List ℕ)

-- `struct.pack(">BBHHH", …)`
unfoldable pub pack : ℕ → ℕ → ℕ → ℕ → ℕ → Option (List ℕ)
pack version edition issued expiry flags =
    if ltb version 256 && ltb edition 256 && ltb issued 65536 && ltb expiry 65536 && ltb flags 65536
    then some (
        version
        ∷ edition
        ∷ issued / 256
        ∷ issued % 256
        ∷ expiry / 256
        ∷ expiry % 256
        ∷ flags / 256
        ∷ flags % 256
        ∷ [])
    else none

pub record Payload : Type 0 where
  pub version : ℕ
  pub edition : ℕ
  pub issued_days : ℕ
  pub expiry_days : ℕ

-- `struct.unpack` of eight bytes; the flags are not used
unfoldable pub unpack : List ℕ → Option Payload
unpack (v ∷ e ∷ i1 ∷ i0 ∷ x1 ∷ x0 ∷ f1 ∷ f0 ∷ []) =
    some (record {
      version = v;
      edition = e;
      issued_days = i1 * 256 + i0;
      expiry_days = x1 * 256 + x0;
    })
unpack _ = none

-- Python's whitespace among the ASCII characters
abbrev pub is_space : ℕ → Bool
is_space c = c == 32 || (leb 9 c && leb c 13) || (leb 28 c && leb c 31)

unfoldable pub lstrip : List ℕ → List ℕ
lstrip [] = []
lstrip (c ∷ cs) = let rest = lstrip cs in if is_space c then rest else c ∷ cs

unfoldable pub rstrip : List ℕ → List ℕ
rstrip [] = []
rstrip (c ∷ cs) =
    let rest = rstrip cs in
    elim rest [ [] ↦ (if is_space c then [] else c ∷ []) | d ∷ ds ↦ c ∷ d ∷ ds ]

-- `.replace("-", "").replace(" ", "").upper()`
unfoldable pub squeeze : List ℕ → List ℕ
squeeze [] = []
squeeze (c ∷ cs) = let rest = squeeze cs in if c == 45 || c == 32 then rest else upper c ∷ rest

unfoldable pub normalize : List ℕ → List ℕ
unfolding lstrip rstrip squeeze
normalize key = squeeze (rstrip (lstrip key))

abbrev pub same_bytes : List ℕ → List ℕ → Bool
same_bytes [] [] = true
same_bytes [] (y ∷ ys) = false
same_bytes (x ∷ xs) [] = false
same_bytes (x ∷ xs) (y ∷ ys) = x == y && same_bytes xs ys

abbrev pub invalid : Reason → LicenseInfo
invalid reason = record {
  valid = false;
  reason = reason;
  edition = none;
  issued = none;
  expiry = none;
  days_remaining = left 0;
}

-- the end of `validate`, with the payload
unfoldable pub check_dates : Payload → ℕ → LicenseInfo
check_dates p today =
    if not (p.version == 1)
    then invalid (unsupported_version p.version)
    else (let late = ltb p.expiry_days today in
        record {
          valid = not late;
          reason = if late then expired_on p.expiry_days else fine;
          edition = some (edition_of p.edition);
          issued = some p.issued_days;
          expiry = some p.expiry_days;
          days_remaining =
              if late then overdue (today - p.expiry_days) else left (p.expiry_days - today);
        })

module _ (library : Library) where
  open library use {hmac, b32encode, b32decode}

  abbrev pub sign : List ℕ → List ℕ
  sign payload = take 12 (hmac payload)

  unfoldable pub mint_payload : Option (List ℕ) → Result MintError (List ℕ)
  mint_payload none = err struct_error
  mint_payload (some payload) = ok (b32encode (payload ++ sign payload))

  unfoldable pub mint : Edition → ℕ → ℕ → ℕ → Result MintError (List ℕ)
  unfolding mint_payload pack
  mint edition valid_days issued flags = elim (edition_id edition) [
    | none ↦ err unknown_edition
    | some id ↦ mint_payload (pack 1 id issued (issued + valid_days) flags)
  ]

  unfoldable pub mint_trial : ℕ → Result MintError (List ℕ)
  mint_trial issued = mint trial trial_days issued 0

  -- from the signature check on
  unfoldable pub check_raw : List ℕ → ℕ → LicenseInfo
  unfolding check_dates unpack
  check_raw raw today =
      if not (length raw == 20)
      then invalid wrong_length
      else if not (same_bytes (drop 8 raw) (sign (take 8 raw)))
      then invalid bad_signature
      else elim (unpack (take 8 raw)) [ none ↦ invalid wrong_length | some p ↦ check_dates p today ]

  unfoldable pub check_key : List ℕ → ℕ → LicenseInfo
  unfolding check_raw
  check_key key today =
      if not (length key == 32)
      then invalid not_32
      else elim (b32decode key) [ none ↦ invalid not_base32 | some raw ↦ check_raw raw today ]

  unfoldable pub validate : List ℕ → ℕ → LicenseInfo
  unfolding check_key normalize
  validate [] today = invalid no_key
  validate (c ∷ cs) today = check_key (normalize (c ∷ cs)) today
