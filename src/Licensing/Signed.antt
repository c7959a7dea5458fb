-- ===== src/Licensing/Signed.antt =====
-- Only signed licence keys are accepted (control-api/app/licensing.py).
use kdb_distributed_controlp.Prelude.{
  ℕ, ◌≤◌, ◌≡◌, refl, true, some, List, [], ◌∷◌, length, take, drop, arith, Option-cases, inl, inr,
}
use kdb_distributed_controlp.Licensing.{
  Library, Payload, unpack, normalize, same_bytes, check_dates, sign, check_raw, check_key,
  validate,
}

same_bytes→eq : (xs ys : List ℕ) → same_bytes xs ys ≡ true → xs ≡ ys
same_bytes→eq [] [] h = refl
same_bytes→eq [] (y ∷ ys) h = cc
same_bytes→eq (x ∷ xs) [] h = cc
same_bytes→eq (x ∷ xs) (y ∷ ys) h = ground (arith, same_bytes→eq xs ys)

module _ (library : Library) where
  -- The bytes of a key that is accepted on a day.
  pub record IsSigned (raw : List ℕ) (today : ℕ) : Type 0 where
    pub size : length raw ≡ 20
    pub signature : drop 8 raw ≡ sign library (take 8 raw)
    pub fields : Payload
    pub unpacked : unpack (take 8 raw) ≡ some fields
    pub version : fields.version ≡ 1
    pub current : today ≤ fields.expiry_days

  check_raw-IsSigned :
      (raw : List ℕ) (today : ℕ) → (check_raw library raw today).valid ≡ true → IsSigned raw today
  unfolding check_raw check_dates
  check_raw-IsSigned raw today good = elim (Option-cases (unpack (take 8 raw))) [
    | inl short ↦ absurd (ground arith)
    | inr (fields, unpacked) ↦ record {
      size = ground arith;
      signature = same_bytes→eq _ _ (ground arith);
      fields = fields;
      unpacked = unpacked;
      version = ground arith;
      current = ground arith;
    }
  ]

  check_key-IsSigned :
      (key : List ℕ) (today : ℕ)
      → (check_key library key today).valid ≡ true
      → (raw : List ℕ) × (library.b32decode key ≡ some raw) × IsSigned raw today
  unfolding check_key
  check_key-IsSigned key today good = elim (Option-cases (library.b32decode key)) [
    | inl bad ↦ absurd (ground arith)
    | inr (raw, decoded) ↦ (raw, decoded, check_raw-IsSigned raw today (ground arith))
  ]

  -- A key that is accepted was signed: its letters, with spaces and dashes taken out, decode to 20 bytes
  -- whose last 12 are the signature of the first 8, which hold version 1 and an expiry that is not over.
  pub validate-IsSigned :
      (key : List ℕ) (today : ℕ)
      → (validate library key today).valid ≡ true
      → (raw : List ℕ) × (library.b32decode (normalize key) ≡ some raw) × IsSigned raw today
  unfolding validate
  validate-IsSigned [] today good = absurd (cc)
  validate-IsSigned (c ∷ cs) today good = check_key-IsSigned (normalize (c ∷ cs)) today good
