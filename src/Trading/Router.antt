-- ===== src/Trading/Router.antt =====
-- The endpoints of control-api/app/routers/trading.py. A `Desk` is what a request finds: the environment, the
-- answers of the brokers and of the risk feed.
use Prim.Native.String.{◌++◌ as ◌<>◌}
use kdb_distributed_controlp.Prelude.{
  ℕ, ◌+◌, String, Bool, true, false, Option, none, some, List, [], ◌∷◌, ◌++◌, if◌then◌else◌, Result,
  ok, err,
}
use kdb_distributed_controlp.Prelude.Text.{str_lower}
use kdb_distributed_controlp.Prelude.Exec.{
  Exec, pure, gets, lift, observe, or_raise, modify, ◌>>=◌, ◌>>◌,
}
use kdb_distributed_controlp.Fleet.Store.{HttpError, http}
use kdb_distributed_controlp.Trading.Floats.{FloatOps}
use kdb_distributed_controlp.Trading.Store.{
  Order, Position, filled, BlockReason, EventDetail, words, because, TradeDb, find_position,
  put_position,
}
use kdb_distributed_controlp.Trading.Brokers.{Environment, alpaca_client, ibkr_client}
use kdb_distributed_controlp.Trading.Oms.{
  OrderError, order_error, risk_blocked, database_error, Fill, AlpacaServer, IbkrServer, Router,
  paper_router, alpaca_router, ibkr_router, paper_fill, alpaca_fill, ibkr_fill, apply_to_position,
}
use kdb_distributed_controlp.Trading.Risk.{RiskConfig, check_pretrade, check_portfolio_limits}

pub record Desk (F : Type 0) : Type 0 where
  pub env : Environment
  pub alpaca : AlpacaServer F
  pub ibkr : IbkrServer F
  pub risk : RiskConfig F

-- `_router`: two brokers at once are refused
unfoldable pub router : Environment → Result OrderError Router
router env = elim (alpaca_client env) [
  | none ↦ elim (ibkr_client env) [ none ↦ ok paper_router | some mode ↦ ok (ibkr_router mode) ]
  | some is_live ↦ elim (ibkr_client env) [
    | none ↦ ok (alpaca_router is_live)
    | some mode ↦ err (order_error "both Alpaca and IBKR are configured")
  ]
]

-- `OrderError` becomes a 400, an error of the database a 500
abbrev pub http_of : OrderError → HttpError
http_of (order_error text) = http 400
http_of (risk_blocked reason) = http 400
http_of database_error = http 500

abbrev pub as_http : {A : Type 0} → Result OrderError A → Result HttpError A
as_http (ok a) = ok a
as_http (err e) = err (http_of e)

abbrev pub is_none : Option BlockReason → Bool
is_none none = true
is_none (some _) = false

abbrev pub gate_outcome : Option BlockReason → String
gate_outcome none = "fail_open"
gate_outcome (some _) = "blocked"

abbrev pub degraded_detail : Option BlockReason → EventDetail
degraded_detail none = words "risk feed unreachable - failed open, order proceeded"
degraded_detail (some reason) = because reason

abbrev pub TradeHandler : Type 0 → Type 0 → Type 0
TradeHandler F A = Exec HttpError (TradeDb F) A

module _ {F : Type 0} where
  unfoldable pub with_http : {A : Type 0} → Exec OrderError (TradeDb F) A → TradeHandler F A
  with_http m db = let (r, db') = m db in (as_http r, db')

  -- an order's row, without the position
  unfoldable pub add_order : Order F → TradeDb F → TradeDb F
  add_order order db = record db {
    orders = db.orders ++ order ∷ [];
    next_order = db.next_order + 1;
  }

  -- `log_event`
  abbrev pub logged :
      String → String → String → EventDetail → String → Option ℕ → TradeDb F → TradeDb F
  logged actor action target detail outcome tenant db = record db {
    events =
        record {
          actor = actor;
          action = action;
          target = target;
          detail = detail;
          outcome = outcome;
          tenant_id = tenant;
        }
        ∷ db.events;
  }

module _ {F : Type 0} (fl : FloatOps F) where
  open fl use {zero, add, lt, text}

  unfoldable pub fill :
      Desk F
      → Router
      → String
      → F
      → String
      → Option F
      → Option F
      → String
      → Exec OrderError (TradeDb F) (Fill F)
  unfolding paper_fill
  fill desk paper_router side qty order_type ref_price limit_price symbol =
      lift (paper_fill fl qty order_type ref_price limit_price)
  fill desk (alpaca_router is_live) side qty order_type ref_price limit_price symbol =
      alpaca_fill fl desk.alpaca is_live side qty order_type ref_price limit_price symbol
  fill desk (ibkr_router mode) side qty order_type ref_price limit_price symbol =
      ibkr_fill fl desk.ibkr mode side qty order_type ref_price limit_price symbol

  abbrev no_position : ℕ → String → Position F
  no_position tenant symbol = record {
    tenant_id = tenant;
    symbol = symbol;
    qty = zero;
    avg_price = zero;
    realized_pnl = zero;
  }

  abbrev pub position_or_new : ℕ → String → List (Position F) → Position F
  position_or_new tenant symbol rows = elim (find_position tenant symbol rows) [
    | none ↦ no_position tenant symbol
    | some p ↦ p
  ]

  -- a position's row with a fill folded in
  unfoldable pub folded : Position F → String → F → F → Position F
  unfolding apply_to_position
  folded pos side qty price =
      let (new_qty, new_avg, realized) =
        apply_to_position fl pos.qty pos.avg_price side qty price in
      record pos {
        qty = new_qty;
        avg_price = new_avg;
        realized_pnl = add pos.realized_pnl realized;
      }

  -- `_fold_fill_into_position`
  unfoldable pub fold_fill : ℕ → String → String → F → F → TradeDb F → TradeDb F
  unfolding folded
  fold_fill tenant symbol side qty price db = record db {
    positions =
        put_position (folded (position_or_new tenant symbol db.positions) side qty price)
          db.positions;
  }

  -- a filled order's row, its position and its event, committed at once; a caller without a tenant breaks
  -- the column's constraint
  unfoldable pub record_fill :
      Option ℕ
      → String
      → String
      → String
      → F
      → String
      → Option F
      → Fill F
      → Exec OrderError (TradeDb F) (Order F)
  unfolding fold_fill add_order
  record_fill tenant_id actor symbol side qty order_type limit_price got = do
    tenant ← or_raise tenant_id database_error
    id ← gets (λ db. db.next_order)
    let order : Order F = record {
      id = id;
      tenant_id = tenant;
      user_email = actor;
      symbol = symbol;
      side = str_lower side;
      qty = qty;
      order_type = order_type;
      limit_price = limit_price;
      status = filled;
      route = got.route;
      fill_price = some got.price;
    }
    modify (λ db. fold_fill tenant symbol side qty got.price (add_order order db))
    modify (
        logged actor "order_placed" (side <> " " <> text qty <> " " <> symbol)
          (words (got.route <> "@" <> text got.price)) "success" (some tenant))
    pure order

  module _ (desk : Desk F) where
    -- `_check_pretrade_audited`: the portfolio is checked when all of it is known
    unfoldable pub portfolio_gate :
        String
        → String
        → Option ℕ
        → Option String
        → Option F
        → Option F
        → TradeDb F
        → Option BlockReason × TradeDb F
    unfolding check_portfolio_limits
    portfolio_gate symbol actor (some tenant) (some side) (some qty) (some ref_price) db =
        let (result, db') =
          check_portfolio_limits fl desk.risk tenant symbol side qty ref_price db in
        (
          result.block_reason,
          elim result.block_reason [
            | none ↦ db'
            | some reason ↦
                logged actor "portfolio_risk_blocked" symbol (because reason) "blocked"
                  (some tenant) db'
          ],
        )
    portfolio_gate symbol actor _ _ _ _ db = (none, db)

    unfoldable pub check_pretrade_audited :
        String
        → String
        → Option ℕ
        → Option String
        → Option F
        → Option F
        → TradeDb F
        → Option BlockReason × TradeDb F
    unfolding check_pretrade portfolio_gate
    check_pretrade_audited symbol actor tenant side qty ref_price db =
        let result = check_pretrade fl desk.risk symbol in
        let db' =
          if result.degraded
          then logged actor "risk_gate_degraded" symbol (degraded_detail result.block_reason)
              (gate_outcome result.block_reason) tenant db
          else db in
        elim result.block_reason [
          | some reason ↦ (some reason, db')
          | none ↦ portfolio_gate symbol actor tenant side qty ref_price db'
        ]

    abbrev pub gate :
        {E : Type 0}
        → String
        → String
        → Option ℕ
        → Option String
        → Option F
        → Option F
        → Exec E (TradeDb F) (Option BlockReason)
    gate symbol actor tenant side qty ref_price =
        observe (check_pretrade_audited symbol actor tenant side qty ref_price)

    abbrev pub unblocked : Option BlockReason → Result OrderError (Unit {0})
    unblocked none = ok tt
    unblocked (some reason) = err (risk_blocked reason)

    abbrev pub gate_if :
        Bool
        → String
        → String
        → Option ℕ
        → String
        → F
        → Option F
        → Exec OrderError (TradeDb F) (Option BlockReason)
    gate_if true symbol actor tenant side qty ref_price =
        gate symbol actor tenant (some side) (some qty) ref_price
    gate_if false symbol actor tenant side qty ref_price = pure none

    unfoldable pub place_market_order_internal :
        Bool
        → Option ℕ
        → String
        → String
        → String
        → F
        → Option F
        → Exec OrderError (TradeDb F) (Order F)
    unfolding router fill record_fill check_pretrade_audited
    place_market_order_internal check_risk tenant_id actor symbol side qty ref_price = do
      reason ← gate_if check_risk symbol actor tenant_id side qty ref_price
      lift (unblocked reason)
      r ← lift (router desk.env)
      got ← fill desk r side qty "market" ref_price none symbol
      record_fill tenant_id actor symbol side qty "market" none got
