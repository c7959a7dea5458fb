-- ===== src/Trading/Endpoints.antt =====
-- The endpoints of control-api/app/routers/trading.py: the trading permission, and orders that are placed,
-- listed, matched and cancelled.
use Prim.Native.String.{◌++◌ as ◌<>◌}
use kdb_distributed_controlp.Prelude.{
  ℕ, String, Bool, false, not, ◌&&◌, ◌||◌, Option, none, some, List, [], ◌∷◌, if◌then◌else◌, str_eq,
  is_some, ok, err,
}
use kdb_distributed_controlp.Prelude.Text.{str_lower, str_upper}
use kdb_distributed_controlp.Prelude.Exec.{pure, gets, lift, or_raise, modify, require, ◌>>=◌, ◌>>◌}
use kdb_distributed_controlp.Fleet.Store.{CurrentUser, http}
use kdb_distributed_controlp.Accounts.Store.{
  User, find_user, find_email, put_user, is_admin_role, is_platform, in_tenant, tenant_scope,
}
use kdb_distributed_controlp.Trading.Floats.{FloatOps, or_else, le}
use kdb_distributed_controlp.Trading.Store.{
  Order, new, cancelled, words, TradeDb, is_new, find_order, put_order, orders_of, working_orders,
  as_filled,
}
use kdb_distributed_controlp.Trading.Oms.{paper_router, route_name, is_limit, crosses}
use kdb_distributed_controlp.Trading.Router.{
  Desk, TradeHandler, router, with_http, logged, add_order, is_none, fill, fold_fill, record_fill,
  gate, check_pretrade_audited, place_market_order_internal,
}

abbrev pub may_trade : Option User → Bool
may_trade none = false
may_trade (some row) = row.can_trade

pub record OrderBody (F : Type 0) : Type 0 where
  pub symbol : String
  pub side : String
  pub qty : F
  pub order_type : String
  pub limit_price : Option F
  pub ref_price : Option F

pub record Permission : Type 0 where
  pub can_trade : Bool
  pub live_routing : Bool
  pub mode : String

pub record Matched (F : Type 0) : Type 0 where
  pub filled_orders : List (Order F)
  pub blocked_by_risk : Bool

-- `/permission`
unfoldable pub my_permission : {F : Type 0} → Desk F → CurrentUser → TradeHandler F Permission
unfolding router
my_permission desk user = do
  row ← gets (λ db. find_user user.user_id db.users)
  let can = is_platform user.role || is_admin_role user.role || may_trade row
  pure (elim (router desk.env) [
    | err e ↦ record { can_trade = can; live_routing = false; mode = "misconfigured" }
    | ok r ↦ record {
      can_trade = can;
      live_routing = str_eq (route_name r) "alpaca-live" || str_eq (route_name r) "ibkr-live";
      mode = route_name r;
    }
  ])

module _ {F : Type 0} (fl : FloatOps F) where
  open fl use {zero, text}

  unfoldable pub require_trading : CurrentUser → TradeHandler F (Unit {0})
  require_trading user = do
    require (is_some user.tenant_id || is_platform user.role) (http 403)
    row ← gets (λ db. find_user user.user_id db.users)
    require (is_platform user.role || is_admin_role user.role || may_trade row) (http 403)

  unfoldable pub cancel_order : ℕ → CurrentUser → TradeHandler F (Order F)
  unfolding require_trading
  cancel_order order_id user = do
    require_trading user
    found ← gets (λ db. find_order order_id db.orders)
    o ← or_raise found (http 404)
    require (in_tenant o.tenant_id user.tenant_id) (http 404)
    require (is_new o.status) (http 400)
    let done : Order F = record o { status = cancelled }
    modify (λ db. record db { orders = put_order done db.orders })
    pure done

  unfoldable pub list_orders : CurrentUser → TradeHandler F (List (Order F))
  list_orders user = do
    tenant ← lift (tenant_scope user)
    gets (λ db. orders_of tenant db.orders [])

  unfoldable pub grant : String → Bool → CurrentUser → TradeHandler F (Unit {0})
  grant email can_trade user = do
    tenant ← lift (tenant_scope user)
    require (is_platform user.role || is_admin_role user.role) (http 403)
    found ← gets (λ db. find_email email db.users)
    target ← or_raise found (http 404)
    require (not (is_admin_role user.role && not (in_tenant tenant target.tenant_id))) (http 404)
    modify (λ db. record db { users = put_user (record target { can_trade = can_trade }) db.users })
    modify (
        logged user.email "trading_permission_set" email
          (words ("can_trade=" <> (if can_trade then "True" else "False"))) "success" (some tenant))

  abbrev pub crosses_at : Order F → F → Bool
  crosses_at o price = elim o.limit_price [
    | none ↦ false
    | some limit ↦ crosses fl o.side limit price
  ]

  abbrev pub marketable : OrderBody F → Bool
  marketable body = not (is_limit body.order_type) || elim body.ref_price [
    | none ↦ false
    | some market ↦ elim body.limit_price [
      | none ↦ false
      | some limit ↦ crosses fl body.side limit market
    ]
  ]

  -- the working limit order that `place_order` writes
  unfoldable pub rest_order : OrderBody F → String → CurrentUser → TradeHandler F (Order F)
  unfolding add_order
  rest_order body symbol user = do
    limit ← or_raise body.limit_price (http 400)
    tenant ← or_raise user.tenant_id (http 500)
    id ← gets (λ db. db.next_order)
    let order : Order F = record {
      id = id;
      tenant_id = tenant;
      user_email = user.email;
      symbol = symbol;
      side = str_lower body.side;
      qty = body.qty;
      order_type = body.order_type;
      limit_price = some limit;
      status = new;
      route = route_name paper_router;
      fill_price = none;
    }
    modify (add_order order)
    modify (
        logged user.email "order_placed" (body.side <> " " <> text body.qty <> " " <> symbol)
          (words ("working limit@" <> text limit)) "success" (some tenant))
    pure order

  -- the fill of a marketable order that is not a market order
  unfoldable pub fill_now : Desk F → OrderBody F → String → CurrentUser → TradeHandler F (Order F)
  unfolding router fill record_fill with_http
  fill_now desk body symbol user = with_http (do
    r ← lift (router desk.env)
    got ← fill fl desk r body.side body.qty body.order_type body.ref_price body.limit_price symbol
    record_fill fl user.tenant_id user.email symbol body.side body.qty body.order_type
        body.limit_price got)

  -- `place_order` behind its checks
  unfoldable pub place_checked :
      Desk F → OrderBody F → String → CurrentUser → TradeHandler F (Order F)
  unfolding rest_order place_market_order_internal fill_now with_http
  place_checked desk body symbol user =
      if not (marketable body)
      then rest_order body symbol user
      else if str_eq body.order_type "market"
      then with_http (
          place_market_order_internal fl desk false user.tenant_id user.email symbol body.side
            body.qty body.ref_price)
      else fill_now desk body symbol user

  unfoldable pub place_order : Desk F → OrderBody F → CurrentUser → TradeHandler F (Order F)
  unfolding require_trading check_pretrade_audited place_checked
  place_order desk body user = do
    require_trading user
    require (str_eq (str_lower body.side) "buy" || str_eq (str_lower body.side) "sell") (http 400)
    require (not (le fl body.qty zero)) (http 400)
    let symbol = str_upper body.symbol
    reason ←
        gate fl desk symbol user.email user.tenant_id (some body.side) (some body.qty)
          (or_else fl body.ref_price body.limit_price)
    require (is_none reason) (http 400)
    place_checked desk body symbol user

  -- the loop of `match_working_orders`: the orders filled, and the tables after it
  unfoldable pub match_loop :
      ℕ → String → F → Bool → List (Order F) → TradeDb F → List (Order F) × TradeDb F
  unfolding fold_fill
  match_loop tenant symbol price blocked [] db = ([], db)
  match_loop tenant symbol price blocked (o ∷ working) db = elim o.limit_price [
    | none ↦ match_loop tenant symbol price blocked working db
    | some limit ↦
        let done = as_filled o limit in
        let skipped = match_loop tenant symbol price blocked working db in
        let (later, db') = match_loop tenant symbol price blocked working (
          fold_fill fl tenant symbol o.side o.qty limit
            (record db { orders = put_order done db.orders })) in
        if not (crosses fl o.side limit price)
        then skipped
        else if blocked
        then skipped
        else (done ∷ later, db')
  ]

  abbrev pub any_crosses : F → List (Order F) → Bool
  any_crosses price [] = false
  any_crosses price (o ∷ working) = crosses_at o price || any_crosses price working

  unfoldable pub log_matched : CurrentUser → ℕ → String → List (Order F) → TradeDb F → TradeDb F
  log_matched user tenant symbol [] db = db
  log_matched user tenant symbol (o ∷ rows) db = log_matched user tenant symbol rows (
      logged user.email "order_matched" (o.side <> " " <> text o.qty <> " " <> symbol)
        (words ("limit@" <> elim o.limit_price [ none ↦ "None" | some limit ↦ text limit ]))
        "success" (some tenant) db)

  abbrev pub match_against :
      Desk F → String → F → CurrentUser → ℕ → List (Order F) → TradeHandler F (Matched F)
  match_against desk symbol price user tenant [] db =
      (ok (record { filled_orders = []; blocked_by_risk = false }), db)
  match_against desk symbol price user tenant (o ∷ rows) db =
      let working : List (Order F) = o ∷ rows in
      let (reason, checked) =
        check_pretrade_audited fl desk symbol user.email (some tenant) none none none db in
      let (done, db') = match_loop tenant symbol price (not (is_none reason)) working checked in
      (
        ok (record {
          filled_orders = done;
          blocked_by_risk = not (is_none reason) && any_crosses price working;
        }),
        log_matched user tenant symbol done db',
      )

  unfoldable pub match_working_orders :
      Desk F → String → F → CurrentUser → TradeHandler F (Matched F)
  unfolding check_pretrade_audited match_loop log_matched
  match_working_orders desk symbol price user = do
    tenant ← lift (tenant_scope user)
    working ← gets (λ db. working_orders tenant (str_upper symbol) db.orders)
    match_against desk (str_upper symbol) price user tenant working
