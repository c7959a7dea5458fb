-- ===== src/Trading/Oms.antt =====
-- control-api/app/oms.py: the routers' `fill`, and how a fill changes a position. A router writes down what
-- it sends to a broker; the broker's answers are parameters.
use kdb_distributed_controlp.Prelude.{
  ℕ, String, Bool, true, not, ◌||◌, Option, none, some, ◌∷◌, if◌then◌else◌, str_eq, is_some, Result,
  ok, err,
}
use kdb_distributed_controlp.Prelude.Text.{str_lower, str_upper}
use kdb_distributed_controlp.Prelude.Exec.{Exec, pure, lift, or_raise, modify, require, ◌>>=◌, ◌>>◌}
use kdb_distributed_controlp.Accounts.Endpoints.{given}
use kdb_distributed_controlp.Trading.Floats.{FloatOps, le, truthy, least, or_else}
use kdb_distributed_controlp.Trading.Store.{BlockReason, Submission, TradeDb}
use kdb_distributed_controlp.Trading.Brokers.{
  TradingMode, OrderReport, Waited, filled_as, broker_error, out_of_fuel, alpaca_wait_for_fill,
  ibkr_wait_for_fill, account_mismatch, OrderResponse, confirm_loop, max_confirmations,
}

-- `OrderError`, by its text or the risk gate's reason; and an error of the database
pub data OrderError : Type 0 where
  order_error : String → OrderError
  risk_blocked : BlockReason → OrderError
  database_error : OrderError

pub record Fill (F : Type 0) : Type 0 where
  pub price : F
  pub qty : F
  pub route : String

-- The answers of Alpaca's servers: the tradability check, the account's buying power (`none`: the request
-- failed), the order's id, the polls of an order and the clock during the wait.
pub record AlpacaServer (F : Type 0) : Type 0 where
  pub tradable : String → Bool
  pub buying_power : Option F
  pub accepts : Submission F → Option String
  pub polls : String → ℕ → Option (OrderReport F)
  pub clock : ℕ → ℕ

-- The answers of the IBKR gateway: the account that it is logged into, a symbol's contract, the answers to
-- an order and its confirmations, the polls and the clock.
pub record IbkrServer (F : Type 0) : Type 0 where
  -- the answer to the k-th call
  pub primary_account : ℕ → Option String
  pub conid : String → Option ℕ
  pub answers : Submission F → ℕ → OrderResponse
  pub polls : String → ℕ → Option (OrderReport F)
  pub clock : ℕ → ℕ

-- `_router()`: the router and what it talks to
pub data Router : Type 0 where
  paper_router : Router
  alpaca_router : Bool → Router
  ibkr_router : TradingMode → Router

abbrev pub route_name : Router → String
route_name paper_router = "paper"
route_name (alpaca_router is_live) = if is_live then "alpaca-live" else "alpaca-paper"
route_name (ibkr_router TradingMode.off) = "ibkr-off"
route_name (ibkr_router TradingMode.paper) = "ibkr-paper"
route_name (ibkr_router TradingMode.live) = "ibkr-live"

abbrev pub is_buy : String → Bool
is_buy side = str_eq (str_lower side) "buy"

abbrev pub is_limit : String → Bool
is_limit order_type = str_eq order_type "limit"

abbrev pub fill_of : {F : Type 0} → Waited F → Result OrderError (OrderReport F)
fill_of (filled_as r) = ok r
fill_of broker_error = err (order_error "order failed")
fill_of out_of_fuel = err (order_error "out of fuel")

module _ {F : Type 0} (fl : FloatOps F) where
  open fl use {zero, one, add, sub, mul, div, neg, abs, lt, eq}

  unfoldable pub signed_qty : String → F → F
  signed_qty side qty = if is_buy side then qty else neg qty

  unfoldable pub crosses : String → F → F → Bool
  crosses side limit_price market_price =
      if is_buy side then le fl market_price limit_price else le fl limit_price market_price

  -- `PaperRouter.fill`
  unfoldable pub paper_fill : F → String → Option F → Option F → Result OrderError (Fill F)
  paper_fill qty order_type ref_price limit_price =
      elim (if is_limit order_type then limit_price else ref_price) [
        | none ↦ err (
            order_error (
              if is_limit order_type
              then "limit order needs a limit price"
              else "market order needs a reference price (ref_price)"))
        | some price ↦ ok (record { price = price; qty = qty; route = "paper" })
      ]

  abbrev pub within : F → F → Option F → Bool
  within qty p none = true
  within qty p (some power) = not (lt power (mul qty p))

  -- the buying-power check of `AlpacaRouter.fill`: of buys with a price, if the account could be read
  unfoldable pub affordable : String → F → Option F → Option F → Bool
  affordable side qty none power = true
  affordable side qty (some p) power = not (is_buy side) || within qty p power

  -- the price that the check uses: the limit price, if there is one
  abbrev pub check_price : Option F → Option F → Option F
  check_price none ref_price = ref_price
  check_price (some p) ref_price = some p

  unfoldable pub alpaca_fill :
      AlpacaServer F
      → Bool
      → String
      → F
      → String
      → Option F
      → Option F
      → String
      → Exec OrderError (TradeDb F) (Fill F)
  unfolding alpaca_wait_for_fill
  alpaca_fill server is_live side qty order_type ref_price limit_price symbol = do
    require (not (str_eq symbol "")) (order_error "alpaca order routing needs a symbol")
    require (server.tradable symbol) (order_error "not a tradable asset")
    require (affordable side qty (check_price limit_price ref_price) server.buying_power)
        (order_error "insufficient Alpaca buying power")
    require (not (is_limit order_type) || is_some limit_price) (order_error "alpaca order failed")
    let order : Submission F = record {
      broker = route_name (alpaca_router is_live);
      symbol = symbol;
      side = str_lower side;
      qty = qty;
      order_type = order_type;
      limit_price = if is_limit order_type then limit_price else none;
    }
    modify (λ db. record db { submitted = order ∷ db.submitted })
    id ← or_raise (server.accepts order) (order_error "alpaca order failed")
    report ← lift (fill_of (alpaca_wait_for_fill (server.polls id) server.clock))
    pure (record {
      price = given report.filled_avg_price zero;
      qty = given report.filled_qty qty;
      route = route_name (alpaca_router is_live);
    })

  unfoldable pub ibkr_fill :
      IbkrServer F
      → TradingMode
      → String
      → F
      → String
      → Option F
      → Option F
      → String
      → Exec OrderError (TradeDb F) (Fill F)
  unfolding ibkr_wait_for_fill account_mismatch confirm_loop
  ibkr_fill server mode side qty order_type ref_price limit_price symbol = do
    require (not (str_eq symbol "")) (order_error "ibkr order routing needs a symbol")
    require (not (account_mismatch (server.primary_account 0) mode))
        (order_error "account mismatch")
    contract ← or_raise (server.conid symbol) (order_error "ibkr order failed")
    account ← or_raise (server.primary_account 1) (order_error "ibkr order failed")
    require (not (str_eq account "")) (order_error "ibkr order failed")
    require (not (is_limit order_type) || is_some limit_price) (order_error "ibkr order failed")
    let order : Submission F = record {
      broker = route_name (ibkr_router mode);
      symbol = symbol;
      side = str_upper side;
      qty = qty;
      order_type = if is_limit order_type then "LMT" else "MKT";
      limit_price = if is_limit order_type then limit_price else none;
    }
    modify (λ db. record db { submitted = order ∷ db.submitted })
    id ←
        or_raise (confirm_loop (server.answers order) max_confirmations 0)
          (order_error "ibkr order failed")
    report ← lift (fill_of (ibkr_wait_for_fill (server.polls id) server.clock))
    pure (record {
      price =
          given
            (or_else fl report.filled_avg_price
              (or_else fl ref_price (or_else fl limit_price none)))
            zero;
      qty = qty;
      route = route_name (ibkr_router mode);
    })

  -- the weighted average of `apply_to_position`, when a position is opened or grows
  abbrev pub weighted : F → F → F → F → F → F
  weighted qty avg signed fill_price new_qty =
      if truthy fl (abs new_qty)
      then div (add (mul (abs qty) avg) (mul (abs signed) fill_price)) (abs new_qty)
      else zero

  -- `qty == 0 or (qty > 0) == (signed > 0)`
  abbrev pub same_way : F → F → Bool
  same_way qty signed =
      eq qty zero || (if lt zero qty then lt zero signed else not (lt zero signed))

  -- The new quantity, average and realized profit.
  unfoldable pub apply_to_position : F → F → String → F → F → F × F × F
  unfolding signed_qty
  apply_to_position qty avg fill_side fill_qty fill_price =
      let signed = signed_qty fill_side fill_qty in
      let new_qty = add qty signed in
      let closing = least fl (abs signed) (abs qty) in
      let direction = if lt zero qty then one else neg one in
      let realized = mul (mul closing (sub fill_price avg)) direction in
      if same_way qty signed
      then (new_qty, weighted qty avg signed fill_price new_qty, zero)
      else if le fl (abs signed) (abs qty)
      then (new_qty, (if truthy fl new_qty then avg else zero), realized)
      else (new_qty, fill_price, realized)
