-- ===== src/Trading/Risk.antt =====
-- The pre-trade gate of control-api/app/risk_check.py. What the data shards answer is a parameter: the risk
-- rows and the latest trade prices of a symbol (`none`: the query failed); the volatility of a list of
-- prices (`summarize` of control-api/app/market.py, over logarithms and roots) is one too.
use kdb_distributed_controlp.Prelude.{
  ℕ, String, Bool, true, false, not, ◌&&◌, ◌||◌, Option, none, some, List, [], ◌∷◌, ◌++◌,
  if◌then◌else◌, str_eq, ltb, length, map,
}
use kdb_distributed_controlp.Trading.Floats.{FloatOps, truthy, sum}
use kdb_distributed_controlp.Trading.Store.{
  Position, BlockReason, unverified, breach, volatility, daily_loss, concentration, TradeDb,
  positions_of, find_position, find_baseline,
}
use kdb_distributed_controlp.Trading.Oms.{is_buy}
use kdb_distributed_controlp.Prelude.Text.{str_lower}

pub record RiskRow : Type 0 where
  pub time : ℕ
  pub status : String

-- The feed and the settings; the settings that are 0 are not enforced.
pub record RiskConfig (F : Type 0) : Type 0 where
  pub risk_rows : String → Option (List RiskRow)
  pub recent_prices : String → Option (List F)
  pub realized_vol : List F → F
  pub risk_gate_fail_open : Bool
  pub risk_max_realized_vol_annualized : F
  pub risk_max_daily_loss : F
  pub risk_max_symbol_concentration_pct : F
  pub today : ℕ

pub record CheckResult : Type 0 where
  pub block_reason : Option BlockReason
  pub degraded : Bool

abbrev pub proceed : CheckResult
proceed = record { block_reason = none; degraded = false }

abbrev pub block : BlockReason → CheckResult
block reason = record { block_reason = some reason; degraded = false }

-- `max(rows, key=time)`: the first of the latest
unfoldable pub latest_of : RiskRow → List RiskRow → RiskRow
latest_of best [] = best
latest_of best (r ∷ rows) = latest_of (if ltb best.time r.time then r else best) rows

-- `latest_risk_row`, of the rows that the shard gave
unfoldable pub latest_risk_row : List RiskRow → Option RiskRow
unfolding latest_of
latest_risk_row [] = none
latest_risk_row (r ∷ rows) = some (latest_of r rows)

abbrev in_breach : Option RiskRow → Bool
in_breach none = false
in_breach (some row) = str_eq row.status "BREACH"

module _ {F : Type 0} (fl : FloatOps F) where
  open fl use {zero, add, sub, mul, div, neg, abs, lt, eq}

  module _ (config : RiskConfig F) where
    open config use {
      risk_rows, recent_prices, realized_vol, risk_gate_fail_open, risk_max_realized_vol_annualized,
      risk_max_daily_loss, risk_max_symbol_concentration_pct, today,
    }

    unfoldable pub check_realized_volatility : String → CheckResult
    check_realized_volatility symbol =
        if not (truthy fl risk_max_realized_vol_annualized)
        then proceed
        else elim (recent_prices symbol) [
          | none ↦ record { block_reason = none; degraded = true }
          | some prices ↦
              if ltb (length prices) 3
              then proceed
              else (let vol = realized_vol prices in
                  if truthy fl vol && lt risk_max_realized_vol_annualized vol
                  then block volatility
                  else proceed)
        ]

    unfoldable pub check_pretrade : String → CheckResult
    unfolding check_realized_volatility latest_risk_row
    check_pretrade symbol = elim (risk_rows symbol) [
      | none ↦ record {
        block_reason = if risk_gate_fail_open then none else some unverified;
        degraded = true;
      }
      | some rows ↦
          if in_breach (latest_risk_row rows)
          then block breach
          else check_realized_volatility symbol
    ]

    -- `is_reducing`
    unfoldable pub is_reducing : String → Option (Position F) → Bool
    is_reducing side none = false
    is_reducing side (some p) =
        not (eq p.qty zero)
        && ((str_eq (str_lower side) "sell" && lt zero p.qty) || (is_buy side && lt p.qty zero))

    -- `sum(p.realized_pnl for p in positions)`
    abbrev pub total_realized : List (Position F) → F
    total_realized positions = sum fl (map (λ p. p.realized_pnl) positions)

    -- the day's first total: the one kept, or a new row
    unfoldable pub daily_baseline : ℕ → F → TradeDb F → F × TradeDb F
    daily_baseline tenant total db = elim (find_baseline tenant today db.baselines) [
      | some b ↦ (b.baseline_realized_pnl, db)
      | none ↦ (
        total,
        record db {
          baselines =
              db.baselines
              ++ record { tenant_id = tenant; trading_date = today; baseline_realized_pnl = total }
                ∷ [];
        },
      )
    ]

    -- `abs(p.qty * p.avg_price)` of the positions in other symbols: one symbol has one position
    unfoldable pub other_notionals : String → List (Position F) → List F
    other_notionals symbol [] = []
    other_notionals symbol (p ∷ rows) =
        let rest = other_notionals symbol rows in
        if str_eq p.symbol symbol then rest else abs (mul p.qty p.avg_price) ∷ rest

    abbrev own_notional : Option (Position F) → F
    own_notional none = zero
    own_notional (some p) = abs (mul p.qty p.avg_price)

    -- `pct > risk_max_symbol_concentration_pct`
    unfoldable pub too_concentrated :
        String → F → F → Option (Position F) → List (Position F) → Bool
    too_concentrated symbol qty ref_price existing positions =
        let new_notional = add (own_notional existing) (abs (mul qty ref_price)) in
        let total = add (sum fl (other_notionals symbol positions)) new_notional in
        lt zero total && lt risk_max_symbol_concentration_pct (div new_notional total)

    -- the concentration check, if it is set
    abbrev concentration_check :
        String → F → F → Option (Position F) → List (Position F) → CheckResult
    concentration_check symbol qty ref_price existing positions =
        if truthy fl risk_max_symbol_concentration_pct
          && too_concentrated symbol qty ref_price existing positions
        then block concentration
        else proceed

    unfoldable pub check_portfolio_limits :
        ℕ → String → String → F → F → TradeDb F → CheckResult × TradeDb F
    unfolding is_reducing daily_baseline too_concentrated
    check_portfolio_limits tenant symbol side qty ref_price db =
        let positions = positions_of tenant db.positions in
        let existing = find_position tenant symbol positions in
        let last = concentration_check symbol qty ref_price existing positions in
        let total = total_realized positions in
        let (start, db') = daily_baseline tenant total db in
        if not (truthy fl risk_max_daily_loss) && not (truthy fl risk_max_symbol_concentration_pct)
        then (proceed, db)
        else if is_reducing side existing
        then (proceed, db)
        else if truthy fl risk_max_daily_loss
        then (
          (if lt (sub total start) (neg (abs risk_max_daily_loss)) then block daily_loss else last),
          db',
        )
        else (last, db)
