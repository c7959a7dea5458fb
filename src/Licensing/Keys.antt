-- ===== src/Licensing/Keys.antt =====
-- Minted licence keys validate (control-api/app/licensing.py).
use kdb_distributed_controlp.Prelude.{
  ℕ, zero, suc, ◌+◌, ◌-◌, ◌*◌, ◌/◌, ◌%◌, ◌<◌, ◌≡◌, refl, ap, sym, ◌∙◌, Bool, true, ◌&&◌, ◌||◌, some,
  List, [], ◌∷◌, ◌++◌, if◌then◌else◌, leb, ltb, length, length-append, take, drop, min, All,
  All-append, arith, ok, ok-injective, Option-cases, Bool-cases, inl, inr, subst,
}
use mathlib.Core.Option.{some-injective}
use kdb_distributed_controlp.Licensing.{
  Edition, edition_of, edition_id, fine, expired_on, left, overdue, LicenseInfo, Library, pack,
  Payload, unpack, lstrip, rstrip, squeeze, normalize, same_bytes, check_dates, sign, mint_payload,
  mint, check_raw, check_key, validate,
}

-- A to Z and 2 to 7
abbrev pub is_base32 : ℕ → Bool
is_base32 c = (leb 65 c && leb c 90) || (leb 50 c && leb c 55)

abbrev pub AreBase32 : List ℕ → Type 0
AreBase32 cs = All (λ c. is_base32 c ≡ true) cs

lstrip-eq : (cs : List ℕ) → AreBase32 cs → lstrip cs ≡ cs
unfolding lstrip
lstrip-eq [] h = refl
lstrip-eq (c ∷ cs) h = ground arith

rstrip-eq : (cs : List ℕ) → AreBase32 cs → rstrip cs ≡ cs
unfolding rstrip
rstrip-eq [] h = refl
rstrip-eq (c ∷ cs) h = rw (rstrip-eq cs h.1) (ground arith)

squeeze-eq : (cs : List ℕ) → AreBase32 cs → squeeze cs ≡ cs
unfolding squeeze
squeeze-eq [] h = refl
squeeze-eq (c ∷ cs) h = rw (squeeze-eq cs h.1) (ground arith)

normalize-eq : (cs : List ℕ) → AreBase32 cs → normalize cs ≡ cs
unfolding normalize
normalize-eq cs h = rw (lstrip-eq cs h, rstrip-eq cs h) (squeeze-eq cs h)

same_bytes_self : (xs : List ℕ) → same_bytes xs xs ≡ true
same_bytes_self [] = refl
same_bytes_self (x ∷ xs) = ground (arith, same_bytes_self xs)

length-take : (n : ℕ) (xs : List ℕ) → length (take n xs) ≡ min n (length xs)
length-take zero xs = omega arith
length-take (suc n) [] = omega arith
length-take (suc n) (x ∷ xs) = omega (arith, length-take n xs)

high_low : (n : ℕ) → n / 256 * 256 + n % 256 ≡ n
high_low n = omega arith

edition_of_id :
    (edition : Edition) (id : ℕ) → edition_id edition ≡ some id → edition_of id ≡ edition
edition_of_id edition id h = ground arith

abbrev pub AreBytes : List ℕ → Type 0
AreBytes bs = All (λ b. b < 256) bs

AreBytes-take : (n : ℕ) (bs : List ℕ) → AreBytes bs → AreBytes (take n bs)
AreBytes-take zero bs h = tt
AreBytes-take (suc n) [] h = tt
AreBytes-take (suc n) (b ∷ bs) h = (h.0, AreBytes-take n bs h.1)

-- What `pack` gives: eight bytes, which `unpack` reads as the fields, and which a signature behind
-- them does not disturb.
pub record IsPacked (fields : Payload) (payload : List ℕ) : Type 0 where
  pub bytes : AreBytes payload
  pub size : length payload ≡ 8
  pub front : (rest : List ℕ) → take 8 (payload ++ rest) ≡ payload
  pub back : (rest : List ℕ) → drop 8 (payload ++ rest) ≡ rest
  pub fields_read : unpack payload ≡ some fields

Payload-eq :
    (v e i i' x x' : ℕ)
    → i ≡ i'
    → x ≡ x'
    → ◌≡◌ {A = Payload}
        (record { version = v; edition = e; issued_days = i; expiry_days = x })
        (record { version = v; edition = e; issued_days = i'; expiry_days = x' })
Payload-eq v e i i' x x' p q = cc

pack-IsPacked :
    (version edition issued expiry flags : ℕ) (payload : List ℕ)
    → pack version edition issued expiry flags ≡ some payload
    → IsPacked
        (record {
          version = version;
          edition = edition;
          issued_days = issued;
          expiry_days = expiry;
        })
        payload
unfolding pack unpack
pack-IsPacked version edition issued expiry flags payload h =
    elim (Bool-cases (
      ltb version 256
      && ltb edition 256
      && ltb issued 65536
      && ltb expiry 65536
      && ltb flags 65536)) [
        | inr bad ↦ absurd (cc (rw bad at h))
        | inl fits ↦ subst (IsPacked _) (some-injective _ _ (rw fits at h)) (record {
          bytes = ground arith;
          size = refl;
          front = λ rest. refl;
          back = λ rest. refl;
          fields_read =
              ap (λ p. some p)
                (Payload-eq version edition _ issued _ expiry (high_low issued) (high_low expiry));
        })
      ]

validate-base32 :
    (library : Library) (key : List ℕ) (today : ℕ)
    → length key ≡ 32
    → AreBase32 key
    → validate library key today ≡ check_key library key today
unfolding validate
validate-base32 library [] today long letters = absurd (omega arith)
validate-base32 library (c ∷ cs) today long letters = rw (normalize-eq (c ∷ cs) letters) refl

-- What `validate` answers for a good key.
abbrev pub info : Edition → ℕ → ℕ → ℕ → LicenseInfo
info edition issued expiry today = record {
  valid = leb today expiry;
  reason = if leb today expiry then fine else expired_on expiry;
  edition = some edition;
  issued = some issued;
  expiry = some expiry;
  days_remaining = if leb today expiry then left (expiry - today) else overdue (today - expiry);
}

check_dates-info :
    (edition : Edition) (id issued expiry today : ℕ)
    → edition_id edition ≡ some id
    → check_dates
        (record { version = 1; edition = id; issued_days = issued; expiry_days = expiry })
        today
      ≡ info edition issued expiry today
unfolding check_dates
check_dates-info edition id issued expiry today known =
    let same = edition_of_id edition id known in ground arith

module _ (library : Library)
    (digests : (payload : List ℕ)
      → (length (library.hmac payload) ≡ 32) × AreBytes (library.hmac payload))
    (encodes : (raw : List ℕ)
      → length raw ≡ 20
      → AreBytes raw
      → (length (library.b32encode raw) ≡ 32) × AreBase32 (library.b32encode raw))
    (decodes : (raw : List ℕ)
      → length raw ≡ 20
      → AreBytes raw
      → library.b32decode (library.b32encode raw) ≡ some raw) where
  length-sign : (payload : List ℕ) → length (sign library payload) ≡ 12
  length-sign payload = omega (arith, length-take 12 (library.hmac payload), (digests payload).0)

  check_raw-signed :
      (fields : Payload) (payload : List ℕ) (today : ℕ)
      → IsPacked fields payload
      → check_raw library (payload ++ sign library payload) today ≡ check_dates fields today
  unfolding check_raw
  check_raw-signed fields payload today packed =
      let sig = sign library payload in
      let size : length (payload ++ sig) ≡ 20 =
        omega (arith, length-append payload sig, packed.size, length-sign payload) in
      rw (size, packed.front sig, packed.back sig, same_bytes_self sig, packed.fields_read) refl

  check_key-signed :
      (fields : Payload) (payload : List ℕ) (today : ℕ)
      → IsPacked fields payload
      → validate library (library.b32encode (payload ++ sign library payload)) today
        ≡ check_dates fields today
  unfolding check_key
  check_key-signed fields payload today packed =
      let sig = sign library payload in
      let size : length (payload ++ sig) ≡ 20 =
        omega (arith, length-append payload sig, packed.size, length-sign payload) in
      let bytes = All-append _ payload sig packed.bytes (AreBytes-take 12 _ (digests payload).1) in
      let (long, letters) = encodes (payload ++ sig) size bytes in
      validate-base32 library (library.b32encode (payload ++ sig)) today long letters
      ∙ rw (long, decodes (payload ++ sig) size bytes)
          (check_raw-signed fields payload today packed)

  -- A minted key validates: where the digest has 32 bytes and base32 turns 20 bytes into 32 of its letters
  -- and back, the key that `mint` returns is valid up to and including the day `issued + valid_days`, with
  -- the edition, the dates and the days that are left, and is refused as expired on any later day.
  pub mint_validates :
      (edition : Edition) (valid_days issued flags today : ℕ) (key : List ℕ)
      → mint library edition valid_days issued flags ≡ ok key
      → validate library key today ≡ info edition issued (issued + valid_days) today
  unfolding mint mint_payload
  mint_validates edition valid_days issued flags today key made =
      elim (Option-cases (edition_id edition)) [
        | inl none_such ↦ absurd (cc (rw (none_such, mint) at made))
        | inr (id, known) ↦ elim (Option-cases (pack 1 id issued (issued + valid_days) flags)) [
          | inl overflow ↦ absurd (cc (rw (known, overflow, mint) at made))
          | inr (payload, packed) ↦
              let same = ok-injective _ _ (rw (known, packed, mint) at made) in
              rw (sym same) (
                check_key-signed _ payload today
                  (pack-IsPacked 1 id issued (issued + valid_days) flags payload packed)
                ∙ check_dates-info edition id issued (issued + valid_days) today known)
        ]
      ]
