-- ===== src/TickHouse/Disjoint.antt =====
-- Ranges that the overlap check of `validate_spec` (control-api/app/tickhouse.py) lets pass: no letter is in
-- two of them, so there are 26 at most.
use Prim.Native.Char.{code}
use kdb_distributed_controlp.Prelude.{
  ℕ, zero, suc, ◌+◌, ◌-◌, ◌≤◌, ◌<◌, ◌≡◌, refl, ap, ◌∙◌, Bool, true, false, List, [], ◌∷◌, ◌++◌,
  if◌then◌else◌, arith, length, All, Bool-cases, inl, inr,
}
use kdb_distributed_controlp.TickHouse.Spec.{ShardRange}
use kdb_distributed_controlp.TickHouse.Build.{
  Problem, overlaps, report_if, insert_range, sort_ranges, has_letter, covered_by, any_covered,
  overlap_problems,
}

-- how many ranges have a letter
pub owners : ℕ → List ShardRange → ℕ
owners c [] = 0
owners c (s ∷ ss) = (if has_letter c s then 1 else 0) + owners c ss

owners-insert_range :
    (c : ℕ) (s : ShardRange) (ss : List ShardRange)
    → owners c (insert_range s ss) ≡ owners c (s ∷ ss)
unfolding owners insert_range
owners-insert_range c s [] = refl
owners-insert_range c s (t ∷ ts) = ground (arith, owners-insert_range c s ts)

owners-sort_ranges : (c : ℕ) (ss : List ShardRange) → owners c (sort_ranges ss) ≡ owners c ss
unfolding owners sort_ranges
owners-sort_ranges c [] = refl
owners-sort_ranges c (s ∷ ss) =
    owners-insert_range c s (sort_ranges ss)
    ∙ ap (λ n. (if has_letter c s then 1 else 0) + n) (owners-sort_ranges c ss)

any_covered-letter :
    (n lo c : ℕ) (before : List ShardRange)
    → any_covered n lo before ≡ false
    → lo ≤ c
    → c < lo + n
    → covered_by c before ≡ false
unfolding any_covered
any_covered-letter zero lo c before none_there above below = absurd (omega arith)
any_covered-letter (suc n) lo c before none_there above below =
    ground (arith, any_covered-letter n (lo + 1) c before)

covered_by-owners :
    (c : ℕ) (before : List ShardRange) → covered_by c before ≡ false → owners c before ≡ 0
unfolding covered_by owners
covered_by-owners c [] free = refl
covered_by-owners c (s ∷ before) free = ground (arith, covered_by-owners c before)

pub append-nil : (xs ys : List Problem) → (xs ++ ys) ≡ [] → (xs ≡ []) × (ys ≡ [])
append-nil [] ys h = (refl, h)
append-nil (x ∷ xs) ys h = absurd (cc)

pub report_if-nil : (b : Bool) (p : Problem) → report_if b p ≡ [] → b ≡ false
report_if-nil true p h = absurd (cc)
report_if-nil false p h = refl

overlap_problems-owners :
    (c : ℕ) (before ss : List ShardRange)
    → overlap_problems before ss ≡ []
    → owners c before ≤ 1
    → owners c before + owners c ss ≤ 1
unfolding overlap_problems owners
overlap_problems-owners c before [] clean few = omega arith
overlap_problems-owners c before (s ∷ ss) clean few =
    let (here, later) =
      append-nil
        (report_if (any_covered (code s.hi + 1 - code s.lo) (code s.lo) before) (overlaps s.label))
        _ clean in
    let free = report_if-nil _ _ here in
    elim (Bool-cases (has_letter c s)) [
      | inr out ↦ rw out (ground (arith, overlap_problems-owners c (s ∷ before) ss later))
      | inl in_range ↦
          let fresh = covered_by-owners c before (
            any_covered-letter (code s.hi + 1 - code s.lo) (code s.lo) c before free (ground arith)
              (ground arith)) in
          rw in_range (ground (arith, overlap_problems-owners c (s ∷ before) ss later))
    ]

-- Ranges with no overlap problem share no letter.
pub overlap_problems-disjoint :
    (c : ℕ) (ss : List ShardRange) → overlap_problems [] (sort_ranges ss) ≡ [] → owners c ss ≤ 1
unfolding owners
overlap_problems-disjoint c ss clean = omega (
  arith,
  overlap_problems-owners c [] (sort_ranges ss) clean (omega arith),
  owners-sort_ranges c ss,
)

-- a range of capital letters
abbrev pub Lettered : ShardRange → Type 0
Lettered s = (65 ≤ code s.lo) × (code s.lo ≤ code s.hi) × (code s.hi ≤ 90)

-- over the first k letters: how often a range has one, and how many owners there are
hits : ℕ → ShardRange → ℕ
hits zero s = 0
hits (suc k) s = (if has_letter (65 + k) s then 1 else 0) + hits k s

total : ℕ → List ShardRange → ℕ
total zero ss = 0
total (suc k) ss = owners (65 + k) ss + total k ss

total-cons :
    (k : ℕ) (s : ShardRange) (ss : List ShardRange) → total k (s ∷ ss) ≡ hits k s + total k ss
unfolding total hits owners
total-cons zero s ss = refl
total-cons (suc k) s ss = omega (arith, total-cons k s ss)

hits-some : (k j : ℕ) (s : ShardRange) → j < k → has_letter (65 + j) s ≡ true → 1 ≤ hits k s
unfolding hits
hits-some zero j s small has = absurd (omega arith)
hits-some (suc k) j s small has = ground (arith, hits-some k j s)

length-total : (ss : List ShardRange) → All Lettered ss → length ss ≤ total 26 ss
unfolding total
length-total [] h = omega arith
length-total (s ∷ ss) ((above, order, below), h) =
    rw (total-cons 26 s ss) (
      omega
        (arith, length-total ss h, hits-some 26 (code s.lo - 65) s (omega arith) (ground arith)))

total-owners : (k : ℕ) (ss : List ShardRange) → ((c : ℕ) → owners c ss ≤ 1) → total k ss ≤ k
unfolding total
total-owners zero ss few = omega arith
total-owners (suc k) ss few = omega (arith, few (65 + k), total-owners k ss few)

pub disjoint-length :
    (ss : List ShardRange) → All Lettered ss → ((c : ℕ) → owners c ss ≤ 1) → length ss ≤ 26
disjoint-length ss letters few = omega (arith, length-total ss letters, total-owners 26 ss few)
