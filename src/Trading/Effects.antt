-- ===== src/Trading/Effects.antt =====
-- Each endpoint of control-api/app/routers/trading.py only makes the steps of `Steps`.
use kdb_distributed_controlp.Prelude.{
  ℕ, ◌≡◌, refl, String, Bool, Option, some, ◌∷◌, arith, ◌⊎◌, Result, inl, inr,
}
use kdb_distributed_controlp.Prelude.Exec.{lift_rule, modify_rule, or_raise_rule, require_rule}
use kdb_distributed_controlp.Trading.Floats.{FloatOps}
use kdb_distributed_controlp.Trading.Store.{TradeDb, Submission}
use kdb_distributed_controlp.Trading.Brokers.{TradingMode}
use kdb_distributed_controlp.Trading.Oms.{
  OrderError, Fill, AlpacaServer, IbkrServer, Router, paper_router, alpaca_router, ibkr_router,
  route_name, alpaca_fill, ibkr_fill,
}
use kdb_distributed_controlp.Trading.Risk.{daily_baseline, check_portfolio_limits, RiskConfig}
use kdb_distributed_controlp.Trading.Router.{Desk, fill, portfolio_gate, check_pretrade_audited}
use kdb_distributed_controlp.Trading.Steps.{SameBook, SameBook-refl}

-- A request to a broker: at most one order is sent, to that broker, and the books stay.
pub record Sends {F : Type 0} (broker : String) (db db' : TradeDb F) : Type 0 where
  pub book : SameBook db db'
  pub sent :
      (db'.submitted ≡ db.submitted)
      ⊎ ((s : Submission F) × (db'.submitted ≡ s ∷ db.submitted) × (s.broker ≡ broker))

module _ {F : Type 0} (broker : String) (db : TradeDb F) where
  Sends-none : Sends broker db db
  Sends-none = record { book = SameBook-refl db; sent = inl refl }

  Sends-one :
      (s : Submission F)
      → s.broker ≡ broker
      → Sends broker db (record db { submitted = s ∷ db.submitted })
  Sends-one s named = record {
    book = record { orders = refl; next_order = refl; positions = refl };
    sent = inr (s, refl, named);
  }

module _ {F : Type 0} (fl : FloatOps F) where
  alpaca_fill-Sends :
      (server : AlpacaServer F) (is_live : Bool) (side : String) (qty : F) (order_type : String)
      (ref_price limit_price : Option F) (symbol : String) (db : TradeDb F)
      → Sends
          (route_name (alpaca_router is_live))
          db
          (alpaca_fill fl server is_live side qty order_type ref_price limit_price symbol db).1
  unfolding alpaca_fill
  alpaca_fill-Sends server is_live side qty order_type ref_price limit_price symbol db =
      require_rule Q _ _ _ db none_sent λ named. require_rule Q _ _ _ db none_sent λ tradable.
        require_rule Q _ _ _ db none_sent λ affordable. require_rule Q _ _ _ db none_sent λ priced.
          modify_rule Q _ _ db (
            or_raise_rule Q _ _ _ _ (one_sent _ refl) λ id accepted.
              lift_rule Q _ _ _ (λ e. one_sent _ refl) λ report waited. one_sent _ refl)
    where
      Q : Result OrderError (Fill F) × TradeDb F → Type 0
      Q r = Sends (route_name (alpaca_router is_live)) db r.1

      none_sent : Sends (route_name (alpaca_router is_live)) db db
      none_sent = Sends-none (route_name (alpaca_router is_live)) db

      one_sent :
          (s : Submission F)
          → s.broker ≡ route_name (alpaca_router is_live)
          → Sends
              (route_name (alpaca_router is_live))
              db
              (record db { submitted = s ∷ db.submitted })
      one_sent = Sends-one (route_name (alpaca_router is_live)) db

  ibkr_fill-Sends :
      (server : IbkrServer F) (mode : TradingMode) (side : String) (qty : F) (order_type : String)
      (ref_price limit_price : Option F) (symbol : String) (db : TradeDb F)
      → Sends
          (route_name (ibkr_router mode))
          db
          (ibkr_fill fl server mode side qty order_type ref_price limit_price symbol db).1
  unfolding ibkr_fill
  ibkr_fill-Sends server mode side qty order_type ref_price limit_price symbol db =
      require_rule Q _ _ _ db none_sent λ named. require_rule Q _ _ _ db none_sent λ matched.
        or_raise_rule Q _ _ _ db none_sent λ contract found.
          or_raise_rule Q _ _ _ db none_sent λ account known.
            require_rule Q _ _ _ db none_sent λ given. require_rule Q _ _ _ db none_sent λ priced.
              modify_rule Q _ _ db (
                or_raise_rule Q _ _ _ _ (one_sent _ refl) λ id accepted.
                  lift_rule Q _ _ _ (λ e. one_sent _ refl) λ report waited. one_sent _ refl)
    where
      Q : Result OrderError (Fill F) × TradeDb F → Type 0
      Q r = Sends (route_name (ibkr_router mode)) db r.1

      none_sent : Sends (route_name (ibkr_router mode)) db db
      none_sent = Sends-none (route_name (ibkr_router mode)) db

      one_sent :
          (s : Submission F)
          → s.broker ≡ route_name (ibkr_router mode)
          → Sends (route_name (ibkr_router mode)) db (record db { submitted = s ∷ db.submitted })
      one_sent = Sends-one (route_name (ibkr_router mode)) db

  pub fill-Sends :
      (desk : Desk F) (r : Router) (side : String) (qty : F) (order_type : String)
      (ref_price limit_price : Option F) (symbol : String) (db : TradeDb F)
      → Sends
          (route_name r)
          db
          (fill fl desk r side qty order_type ref_price limit_price symbol db).1
  unfolding fill
  fill-Sends desk paper_router side qty order_type ref_price limit_price symbol db =
      Sends-none "paper" db
  fill-Sends desk (alpaca_router is_live) side qty order_type ref_price limit_price symbol db =
      alpaca_fill-Sends desk.alpaca is_live side qty order_type ref_price limit_price symbol db
  fill-Sends desk (ibkr_router mode) side qty order_type ref_price limit_price symbol db =
      ibkr_fill-Sends desk.ibkr mode side qty order_type ref_price limit_price symbol db

  -- The gate writes events and the day's baseline only.
  pub record Gated (db db' : TradeDb F) : Type 0 where
    pub book : SameBook db db'
    pub submitted : db'.submitted ≡ db.submitted

  limits-Gated :
      (config : RiskConfig F) (tenant : ℕ) (symbol side : String) (qty ref_price : F)
      (db : TradeDb F)
      → Gated db (check_portfolio_limits fl config tenant symbol side qty ref_price db).1
  unfolding check_portfolio_limits daily_baseline
  limits-Gated config tenant symbol side qty ref_price db = ground arith

  portfolio-Gated :
      (desk : Desk F) (symbol actor : String) (tenant : Option ℕ) (side : Option String)
      (qty ref_price : Option F) (db : TradeDb F)
      → Gated db (portfolio_gate fl desk symbol actor tenant side qty ref_price db).1
  unfolding portfolio_gate
  portfolio-Gated desk symbol actor (some tenant) (some side) (some qty) (some ref_price) db =
      ground (arith, limits-Gated desk.risk tenant symbol side qty ref_price db)
  portfolio-Gated desk symbol actor _ _ _ _ db = ground arith

  pub gate-Gated :
      (desk : Desk F) (symbol actor : String) (tenant : Option ℕ) (side : Option String)
      (qty ref_price : Option F) (db : TradeDb F)
      → Gated db (check_pretrade_audited fl desk symbol actor tenant side qty ref_price db).1
  unfolding check_pretrade_audited
  gate-Gated desk symbol actor tenant side qty ref_price db =
      grind (arith, portfolio-Gated desk symbol actor tenant side qty ref_price)
