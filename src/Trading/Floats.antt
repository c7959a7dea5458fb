-- ===== src/Trading/Floats.antt =====
-- Python's `float`, for control-api/app/oms.py, risk_check.py and portfolio.py: the operations that they
-- use, over any carrier. The comparisons are those of IEEE numbers: `x <= y` is `x < y or x == y`, and
-- neither holds of a NaN.
use kdb_distributed_controlp.Prelude.{
  String, Bool, not, ◌||◌, Option, none, some, List, [], ◌∷◌, if◌then◌else◌,
}

pub record FloatOps (F : Type 0) : Type 0 where
  pub zero : F
  pub one : F
  pub hundred : F
  pub add : F → F → F
  pub sub : F → F → F
  pub mul : F → F → F
  pub div : F → F → F
  pub neg : F → F
  pub abs : F → F
  pub lt : F → F → Bool
  pub eq : F → F → Bool
  pub text : F → String

module _ {F : Type 0} (fl : FloatOps F) where
  open fl use {zero, add, lt, eq}

  abbrev pub le : F → F → Bool
  le x y = lt x y || eq x y

  -- `bool(x)`
  abbrev pub truthy : F → Bool
  truthy x = not (eq x zero)

  -- `min(x, y)` and `max(x, y)`: the first of two that are equal
  abbrev pub least : F → F → F
  least x y = if lt y x then y else x

  abbrev pub greatest : F → F → F
  greatest x y = if lt x y then y else x

  -- `sum(xs)`: from the left, on from a start
  unfoldable pub sum_from : F → List F → F
  sum_from acc [] = acc
  sum_from acc (x ∷ xs) = sum_from (add acc x) xs

  unfoldable pub sum : List F → F
  unfolding sum_from
  sum xs = sum_from zero xs

  -- `x or y` of optional floats
  abbrev pub or_else : Option F → Option F → Option F
  or_else none y = y
  or_else (some x) y = if truthy x then some x else y
