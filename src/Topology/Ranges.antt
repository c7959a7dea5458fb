-- ===== src/Topology/Ranges.antt =====
-- `letter_ranges` and `shards` of control-api/app/topology.py: the ranges tile the alphabet.
use kdb_distributed_controlp.Prelude.{
  ℕ, zero, suc, ◌+◌, ◌-◌, ◌*◌, ◌/◌, ◌%◌, ◌≤◌, ◌<◌, ◌≡◌, refl, ap, subst, ◌⊎◌, List, [], ◌∷◌, ok,
  err, length, All, arith, ltb, if◌then◌else◌,
}
use kdb_distributed_controlp.Topology.{
  not_positive, too_many_shards, validate, letter_at, range_loop, letter_ranges,
}

-- The ranges follow one another without a gap from `a` up to, and without, `b`.
abbrev pub Tiles : ℕ → ℕ → List (ℕ × ℕ) → Type 0
Tiles a b [] = a ≡ b
Tiles a b ((lo, hi) ∷ rs) = (lo ≡ a) × (lo ≤ hi) × Tiles (suc hi) b rs

-- A range has `base` letters, or one more.
abbrev pub IsEven : ℕ → ℕ × ℕ → Type 0
IsEven base (lo, hi) = (suc hi ≡ lo + base) ⊎ (suc hi ≡ lo + base + 1)

abbrev pub Good : ℕ → ℕ → ℕ → List (ℕ × ℕ) → Type 0
Good base idx rounds rs = (length rs ≡ rounds) × Tiles (65 + idx) 91 rs × All (IsEven base) rs

letter_at-ok : (i : ℕ) → i < 26 → letter_at i ≡ ok (65 + i)
unfolding letter_at
letter_at-ok i h = ground arith

abbrev round_size : ℕ → ℕ → ℕ → ℕ
round_size base extra i = base + (if ltb i extra then 1 else 0)

module _ (base extra : ℕ) (pos : 0 < base) where
  -- one round of the loop, when the letters are there and the rest is
  range_loop-suc :
      (r i idx : ℕ) (rs : List (ℕ × ℕ))
      → idx + round_size base extra i ≤ 26
      → range_loop base extra r (i + 1) (idx + round_size base extra i) ≡ ok rs
      → range_loop base extra (suc r) i idx
        ≡ ok ((65 + idx, 65 + (idx + round_size base extra i - 1)) ∷ rs)
  unfolding range_loop
  range_loop-suc r i idx rs fits rest =
      rw (letter_at-ok idx (omega arith))
        (rw (letter_at-ok (idx + round_size base extra i - 1) (omega arith)) (rw rest))

  Good-cons :
      (r i idx : ℕ) (rs : List (ℕ × ℕ))
      → Good base (idx + round_size base extra i) r rs
      → Good base idx (suc r) ((65 + idx, 65 + (idx + round_size base extra i - 1)) ∷ rs)
  Good-cons r i idx rs g =
      let e : 65 + (idx + round_size base extra i)
          ≡ suc (65 + (idx + round_size base extra i - 1)) =
        ground arith in
      (ap suc g.0, (refl, ground arith, subst (λ k. Tiles k 91 rs) e g.1), (ground arith, g.2))

  range_loop-Good :
      (r i idx : ℕ)
      → idx + r * base + (extra - i) ≡ 26
      → extra ≤ i + r
      → (rs : List (ℕ × ℕ)) × (range_loop base extra r i idx ≡ ok rs) × Good base idx r rs
  unfolding range_loop
  range_loop-Good zero i idx e x = ([], refl, omega arith)
  range_loop-Good (suc r) i idx e x =
      let (rs, run, good) =
        range_loop-Good r (i + 1) (idx + round_size base extra i) (ground arith) (omega arith) in
      (
        (65 + idx, 65 + (idx + round_size base extra i - 1)) ∷ rs,
        range_loop-suc r i idx rs (ground arith) run,
        Good-cons r i idx rs good,
      )

-- For 1 to 26 shards `letter_ranges` returns that many ranges, which follow one another from A to Z
-- with no gap and no overlap, and each of which has 26 // n letters or one more.
pub letter_ranges-Tiles :
    (n : ℕ)
    → 1 ≤ n
    → n ≤ 26
    → (rs : List (ℕ × ℕ)) × (letter_ranges n ≡ ok rs)
      × (length rs ≡ n)
      × Tiles b'A' (suc b'Z') rs
      × All (IsEven (26 / n)) rs
unfolding letter_ranges validate
letter_ranges-Tiles n low high =
    let (rs, run, good) =
      range_loop-Good (26 / n) (26 % n) (grind arith) n 0 0 (grind arith) (grind arith) in
    (rs, ground (arith, run), good.0, good.1, good.2)

-- A count below 1 is refused as not positive, and one above 26 as too many.
pub letter_ranges_refused :
    (n : ℕ)
    → (n < 1) ⊎ (26 < n)
    → letter_ranges n ≡ err (if ltb n 1 then not_positive else too_many_shards)
unfolding letter_ranges validate
letter_ranges_refused n h = ground arith
