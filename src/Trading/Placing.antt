-- ===== src/Trading/Placing.antt =====
-- Placing and cancelling: the endpoints of control-api/app/routers/trading.py that write one order make the
-- steps of `Steps`.
use kdb_distributed_controlp.Prelude.{
  ℕ, ◌≡◌, refl, String, Bool, true, false, Option, none, some, Result, ok, err, Bool-cases, inl,
  inr, of_not, str_eq, ◌||◌,
}
use kdb_distributed_controlp.Prelude.Text.{str_upper, str_lower}
use kdb_distributed_controlp.Prelude.Exec.{
  lift, ◌>>=◌, lift_rule, gets_rule, modify_rule, bind_rule, then_rule, observe_rule, or_raise_rule,
  require_rule,
}
use kdb_distributed_controlp.Fleet.Store.{CurrentUser, HttpError, http}
use kdb_distributed_controlp.Trading.Floats.{FloatOps, le, or_else}
use kdb_distributed_controlp.Trading.Store.{Order, TradeDb, BlockReason}
use kdb_distributed_controlp.Trading.Oms.{OrderError, Fill}
use kdb_distributed_controlp.Trading.Router.{
  Desk, router, is_none, fill, record_fill, check_pretrade_audited, place_market_order_internal,
  gate_if, unblocked,
}
use kdb_distributed_controlp.Trading.Endpoints.{
  OrderBody, require_trading, cancel_order, rest_order, fill_now, place_checked, place_order,
  marketable,
}
use kdb_distributed_controlp.Trading.Steps.{
  SameBook, SameBook-refl, Deal, rests, arrives, cancels, Runs, one_step, quiet_run, Runs-then,
}
use kdb_distributed_controlp.Trading.Numbering.{is_new-new, find_order_self}
use kdb_distributed_controlp.Trading.Effects.{fill-Sends, gate-Gated}

is_none-none : (r : Option BlockReason) → is_none r ≡ true → r ≡ none
is_none-none none h = refl
is_none-none (some reason) h = cc

module _ {F : Type 0} (fl : FloatOps F) where
  open fl use {zero}

  idle : (db : TradeDb F) → Runs fl db db
  idle db = quiet_run fl db db (SameBook-refl db)

  record_fill-Runs :
      (tenant_id : Option ℕ) (actor symbol side : String) (qty : F) (order_type : String)
      (limit_price : Option F) (got : Fill F) (db : TradeDb F)
      → Runs fl db (record_fill fl tenant_id actor symbol side qty order_type limit_price got db).1
  unfolding record_fill
  record_fill-Runs tenant_id actor symbol side qty order_type limit_price got db =
      or_raise_rule Q _ _ _ db (idle db) λ tenant known. gets_rule Q _ _ db (
        modify_rule Q _ _ db (
          modify_rule Q _ _ _ (
            one_step fl (
              arrives _ (deal tenant) refl refl refl refl refl refl
                (record { orders = refl; next_order = refl; positions = refl })))))
    where
      Q : Result OrderError (Order F) × TradeDb F → Type 0
      Q r = Runs fl db r.1

      deal : ℕ → Deal F
      deal tenant = record {
        tenant = tenant;
        symbol = symbol;
        side = side;
        qty = qty;
        price = got.price;
      }

  -- a router's fill, and its record
  fill_record-Runs :
      (desk : Desk F) (tenant_id : Option ℕ) (actor symbol side : String) (qty : F)
      (order_type : String) (ref_price limit_price kept_limit : Option F) (db : TradeDb F)
      → Runs fl db
          ((lift (router desk.env) >>= λ r.
              fill fl desk r side qty order_type ref_price limit_price symbol >>= λ got.
              record_fill fl tenant_id actor symbol side qty order_type kept_limit got)
            db).1
  fill_record-Runs desk tenant_id actor symbol side qty order_type ref_price limit_price kept_limit
        db =
      lift_rule Q _ _ db (λ e. idle db)
        λ r routed.
          bind_rule Q (SameBook db) _ _ db
            (fill-Sends fl desk r side qty order_type ref_price limit_price symbol db).book
            (λ e t same. quiet_run fl db t same)
            λ got t same.
              Runs-then fl (quiet_run fl db t same)
                (record_fill-Runs tenant_id actor symbol side qty order_type kept_limit got t)
    where
      Q : Result OrderError (Order F) × TradeDb F → Type 0
      Q r = Runs fl db r.1

  rest_order-Runs :
      (body : OrderBody F) (symbol : String) (user : CurrentUser) (db : TradeDb F)
      → Runs fl db (rest_order fl body symbol user db).1
  unfolding rest_order
  rest_order-Runs body symbol user db = or_raise_rule Q _ _ _ db (idle db) λ limit priced.
      or_raise_rule Q _ _ _ db (idle db) λ tenant known. gets_rule Q _ _ db (
        modify_rule Q _ _ db (
          modify_rule Q _ _ _ (
            one_step fl (
              rests _ refl refl refl
                (record { orders = refl; next_order = refl; positions = refl })))))
    where
      Q : Result HttpError (Order F) × TradeDb F → Type 0
      Q r = Runs fl db r.1

  gate_if-SameBook :
      (desk : Desk F) (check_risk : Bool) (symbol actor : String) (tenant : Option ℕ)
      (side : String) (qty : F) (ref_price : Option F) (db : TradeDb F)
      → SameBook db (gate_if fl desk check_risk symbol actor tenant side qty ref_price db).1
  gate_if-SameBook desk true symbol actor tenant side qty ref_price db =
      (gate-Gated fl desk symbol actor tenant (some side) (some qty) ref_price db).book
  gate_if-SameBook desk false symbol actor tenant side qty ref_price db = SameBook-refl db

  pub place_market_order_internal-Runs :
      (desk : Desk F) (check_risk : Bool) (tenant_id : Option ℕ) (actor symbol side : String)
      (qty : F) (ref_price : Option F) (db : TradeDb F)
      → Runs fl db
          (place_market_order_internal fl desk check_risk tenant_id actor symbol side qty ref_price
            db).1
  unfolding place_market_order_internal
  place_market_order_internal-Runs desk check_risk tenant_id actor symbol side qty ref_price db =
      bind_rule Q (SameBook db) _ _ db
        (gate_if-SameBook desk check_risk symbol actor tenant_id side qty ref_price db)
        (λ e t same. quiet_run fl db t same)
        λ reason t same. Runs-then fl (quiet_run fl db t same) (
          then_rule (λ r. Runs fl t r.1) (lift (unblocked fl desk reason)) _ t (λ e blocked. idle t)
            λ u free.
              fill_record-Runs desk tenant_id actor symbol side qty "market" ref_price none none t)
    where
      Q : Result OrderError (Order F) × TradeDb F → Type 0
      Q r = Runs fl db r.1

  place_checked-Runs :
      (desk : Desk F) (body : OrderBody F) (symbol : String) (user : CurrentUser) (db : TradeDb F)
      → Runs fl db (place_checked fl desk body symbol user db).1
  unfolding place_checked fill_now
  place_checked-Runs desk body symbol user db = elim (Bool-cases (marketable fl body)) [
    | inr resting ↦ rw resting (rest_order-Runs body symbol user db)
    | inl crossing ↦ elim (Bool-cases (str_eq body.order_type "market")) [
      | inl market ↦
          rw (crossing, market)
            (place_market_order_internal-Runs desk false user.tenant_id user.email symbol body.side
              body.qty body.ref_price db)
      | inr other ↦
          rw (crossing, other)
            (fill_record-Runs desk user.tenant_id user.email symbol body.side body.qty
              body.order_type body.ref_price body.limit_price body.limit_price db)
    ]
  ]

  require_trading-kept : (user : CurrentUser) (db : TradeDb F) → (require_trading fl user db).1 ≡ db
  unfolding require_trading
  require_trading-kept user db = require_rule Q _ _ _ db refl λ scoped. gets_rule Q _ _ db refl
    where
      Q : Result HttpError (Unit {0}) × TradeDb F → Type 0
      Q r = r.1 ≡ db

  -- the gate's verdict on an order, and the tables after it
  abbrev pub verdict :
      Desk F → OrderBody F → CurrentUser → TradeDb F → Option BlockReason × TradeDb F
  verdict desk body user db =
      check_pretrade_audited fl desk (str_upper body.symbol) user.email user.tenant_id
        (some body.side) (some body.qty) (or_else fl body.ref_price body.limit_price) db

  -- What `place_order` checks before it goes on.
  pub record Admits (desk : Desk F) (body : OrderBody F) (user : CurrentUser) (db : TradeDb F)
      : Type 0 where
    pub trader : (require_trading fl user db).0 ≡ ok tt
    pub side : (str_eq (str_lower body.side) "buy" || str_eq (str_lower body.side) "sell") ≡ true
    pub qty : le fl body.qty zero ≡ false
    pub passed : (verdict desk body user db).0 ≡ none

  -- An order is refused before the gate, at the gate, or it goes on behind it.
  pub place_order_rule :
      (P : Result HttpError (Order F) × TradeDb F → Type 0) (desk : Desk F) (body : OrderBody F)
      (user : CurrentUser) (db : TradeDb F)
      → ((e : HttpError) → P (err e, db))
      → ((e : HttpError) → P (err e, (verdict desk body user db).1))
      → (Admits desk body user db
          → P (
              place_checked fl desk body
                (str_upper body.symbol)
                user
                (verdict desk body user db).1))
      → P (place_order fl desk body user db)
  unfolding place_order
  place_order_rule P desk body user db refused blocked passed =
      then_rule P (require_trading fl user) _ db
        (λ e fails. rw (require_trading-kept user db) (refused e))
        λ u trader. rw (require_trading-kept user db) (
          require_rule P _ _ _ db (refused (http 400)) λ side.
            require_rule P _ _ _ db (refused (http 400)) λ qty. observe_rule P _ _ db (
              require_rule P _ _ _ _ (blocked (http 400)) λ free. passed (record {
                trader = trader;
                side = side;
                qty = of_not _ qty;
                passed = is_none-none _ free;
              })))

  -- Placing an order makes steps of an order's life.
  pub place_order-Runs :
      (desk : Desk F) (body : OrderBody F) (user : CurrentUser) (db : TradeDb F)
      → Runs fl db (place_order fl desk body user db).1
  place_order-Runs desk body user db =
      place_order_rule (λ r. Runs fl db r.1) desk body user db (λ e. idle db) (λ e. gated)
        λ admits.
          Runs-then fl gated (
            place_checked-Runs desk body (str_upper body.symbol) user (verdict desk body user db).1)
    where
      gated : Runs fl db (verdict desk body user db).1
      gated = quiet_run fl db _ (gate-Gated fl desk _ _ _ _ _ _ db).book

  pub cancel_order-Runs :
      (order_id : ℕ) (user : CurrentUser) (db : TradeDb F)
      → Runs fl db (cancel_order fl order_id user db).1
  unfolding cancel_order
  cancel_order-Runs order_id user db =
      then_rule Q (require_trading fl user) _ db
        (λ e fails. rw (require_trading-kept user db) (idle db))
        λ u trader. rw (require_trading-kept user db) (
          gets_rule Q _ _ db (
            or_raise_rule Q _ _ _ db (idle db) λ o found. require_rule Q _ _ _ db (idle db) λ own.
              require_rule Q _ _ _ db (idle db) λ working. modify_rule Q _ _ db (
                one_step fl (
                  cancels o (find_order_self order_id o db.orders found)
                    (is_new-new o.status working)
                    (record { orders = refl; next_order = refl; positions = refl })))))
    where
      Q : Result HttpError (Order F) × TradeDb F → Type 0
      Q r = Runs fl db r.1
