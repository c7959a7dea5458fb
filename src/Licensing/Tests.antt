-- ===== src/Licensing/Tests.antt =====
-- Keys over a base32 of the least significant digit first, and a checksum for the digest.
use kdb_distributed_controlp.Prelude.{
  ℕ, zero, suc, ◌+◌, ◌-◌, ◌*◌, ◌/◌, ◌%◌, ◌<◌, ◌≡◌, refl, ap, true, some, List, [], ◌∷◌,
  if◌then◌else◌, ltb, leb, length, take, subst, arith, ok,
}
use kdb_distributed_controlp.Licensing.{
  standard, Library, pack, mint_payload, mint, normalize, validate,
}
use kdb_distributed_controlp.Licensing.Signed.{IsSigned, validate-IsSigned}
use kdb_distributed_controlp.Licensing.Keys.{is_base32, AreBase32, AreBytes, info, mint_validates}

digits256 : ℕ → ℕ → List ℕ
digits256 zero n = []
digits256 (suc w) n = n % 256 ∷ digits256 w (n / 256)

value256 : List ℕ → ℕ
value256 [] = 0
value256 (d ∷ ds) = d + 256 * value256 ds

-- the letter of a digit below 32, and back
abbrev letter32 : ℕ → ℕ
letter32 d = if ltb d 26 then d + 65 else d + 24

abbrev unletter32 : ℕ → ℕ
unletter32 c = if leb 65 c then c - 65 else c - 24

letters : ℕ → ℕ → List ℕ
letters zero n = []
letters (suc w) n = letter32 (n % 32) ∷ letters w (n / 32)

number : List ℕ → ℕ
number [] = 0
number (c ∷ cs) = unletter32 c + 32 * number cs

power : ℕ → ℕ → ℕ
power b zero = 1
power b (suc w) = b * power b w

unletter32-letter32 : (d : ℕ) → d < 32 → unletter32 (letter32 d) ≡ d
unletter32-letter32 d h = ground arith

number-letters : (w n : ℕ) → n < power 32 w → number (letters w n) ≡ n
unfolding number letters power
number-letters zero n h = omega arith
number-letters (suc w) n h =
    omega
      (arith, number-letters w (n / 32) (omega arith), unletter32-letter32 (n % 32) (omega arith))

digits-value : (bs : List ℕ) (w : ℕ) → length bs ≡ w → AreBytes bs → digits256 w (value256 bs) ≡ bs
unfolding digits256 value256
digits-value [] zero e h = refl
digits-value [] (suc w) e h = absurd (omega arith)
digits-value (b ∷ bs) zero e h = absurd (omega arith)
digits-value (b ∷ bs) (suc w) e h =
    let low : (b + 256 * value256 bs) % 256 ≡ b = omega (arith, h.0) in
    let high : (b + 256 * value256 bs) / 256 ≡ value256 bs = omega (arith, h.0) in
    rw (low, high, digits-value bs w (omega (arith, e)) h.1) refl

value-bound : (bs : List ℕ) (w : ℕ) → length bs ≡ w → AreBytes bs → value256 bs < power 256 w
unfolding power value256
value-bound [] zero e h = omega arith
value-bound [] (suc w) e h = absurd (omega arith)
value-bound (b ∷ bs) zero e h = absurd (omega arith)
value-bound (b ∷ bs) (suc w) e h = omega (arith, h.0, value-bound bs w (omega (arith, e)) h.1)

same_power : power 256 20 ≡ power 32 32
unfolding power
same_power = refl

letters-AreBase32 : (w n : ℕ) → AreBase32 (letters w n)
unfolding letters
letters-AreBase32 zero n = tt
letters-AreBase32 (suc w) n = (letter (n % 32) (omega arith), letters-AreBase32 w (n / 32))
  where
    letter : (d : ℕ) → d < 32 → is_base32 (letter32 d) ≡ true
    letter d h = ground arith

length-letters : (w n : ℕ) → length (letters w n) ≡ w
unfolding letters
length-letters zero n = refl
length-letters (suc w) n = ap suc (length-letters w (n / 32))

-- 32 bytes that depend on every byte of the payload
digest : List ℕ → List ℕ
digest payload = digits256 32 (value256 payload * 77777 + 12345)

digest-bytes : (w n : ℕ) → (length (digits256 w n) ≡ w) × AreBytes (digits256 w n)
unfolding digits256
digest-bytes zero n = (refl, tt)
digest-bytes (suc w) n =
    let (size, bytes) = digest-bytes w (n / 256) in (ap suc size, (omega arith, bytes))

digest-laws : (payload : List ℕ) → (length (digest payload) ≡ 32) × AreBytes (digest payload)
unfolding digest
digest-laws payload = digest-bytes 32 (value256 payload * 77777 + 12345)

abbrev test_library : Library
test_library = record {
  hmac = digest;
  b32encode = λ raw. letters 32 (value256 raw);
  b32decode = λ key. some (digits256 20 (number key));
}

round_trip :
    (raw : List ℕ)
    → length raw ≡ 20
    → AreBytes raw
    → digits256 20 (number (letters 32 (value256 raw))) ≡ raw
round_trip raw size bytes =
    rw
      (number-letters 32 (value256 raw)
        (subst (λ b. value256 raw < b) same_power (value-bound raw 20 size bytes)))
      (digits-value raw 20 size bytes)

-- minted for a year on day 2000
abbrev test_key : List ℕ
test_key = letters 32 (
    value256
      (1 ∷ 1 ∷ 7 ∷ 208 ∷ 9 ∷ 61 ∷ 0 ∷ 0 ∷ take 12 (digest (1 ∷ 1 ∷ 7 ∷ 208 ∷ 9 ∷ 61 ∷ 0 ∷ 0 ∷ []))))

test_key_minted : mint test_library standard 365 2000 0 ≡ ok test_key
unfolding mint mint_payload pack digest
test_key_minted = refl

test_key_accepted : (validate test_library test_key 2300).valid ≡ true
test_key_accepted =
    ap (λ i. i.valid)
      (mint_validates test_library digest-laws
        (λ raw size bytes. (length-letters 32 _, letters-AreBase32 32 _))
        (λ raw size bytes. ap (λ r. some r) (round_trip raw size bytes)) standard 365 2000 0 2300
        test_key test_key_minted)

mint_validates_example : validate test_library test_key 2400 ≡ info standard 2000 2365 2400
mint_validates_example =
    mint_validates test_library digest-laws
      (λ raw size bytes. (length-letters 32 _, letters-AreBase32 32 _))
      (λ raw size bytes. ap (λ r. some r) (round_trip raw size bytes)) standard 365 2000 0 2400
      test_key test_key_minted

validate-IsSigned_example :
    (raw : List ℕ) × (test_library.b32decode (normalize test_key) ≡ some raw)
    × IsSigned test_library raw 2300
validate-IsSigned_example = validate-IsSigned test_library test_key 2300 test_key_accepted
