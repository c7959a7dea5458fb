-- ===== src/Trading/Store.antt =====
-- The tables behind control-api/app/routers/trading.py (control-api/app/models.py) and the queries made of
-- them. `created_at` and `updated_at` are left out: the list of orders is in the order of creation.
use kdb_distributed_controlp.Prelude.{
  ℕ, String, Bool, true, false, ◌&&◌, Option, none, some, List, [], ◌∷◌, if◌then◌else◌, ◌==◌,
  str_eq,
}
use kdb_distributed_controlp.Accounts.Store.{User}

pub data OrderStatus : Type 0 where
  new filled rejected cancelled : OrderStatus

pub record Order (F : Type 0) : Type 0 where
  pub id : ℕ
  pub tenant_id : ℕ
  pub user_email : String
  pub symbol : String
  pub side : String
  pub qty : F
  pub order_type : String
  pub limit_price : Option F
  pub status : OrderStatus
  pub route : String
  pub fill_price : Option F

pub record Position (F : Type 0) : Type 0 where
  pub tenant_id : ℕ
  pub symbol : String
  pub qty : F
  pub avg_price : F
  pub realized_pnl : F

pub record DailyPnlBaseline (F : Type 0) : Type 0 where
  pub tenant_id : ℕ
  pub trading_date : ℕ
  pub baseline_realized_pnl : F

-- Why the risk gate stops an order; the texts' numbers are left out.
pub data BlockReason : Type 0 where
  unverified breach volatility daily_loss concentration : BlockReason

-- An audit event's detail: a text, or a reason's text.
pub data EventDetail : Type 0 where
  words : String → EventDetail
  because : BlockReason → EventDetail

pub record TradeEvent : Type 0 where
  pub actor : String
  pub action : String
  pub target : String
  pub detail : EventDetail
  pub outcome : String
  pub tenant_id : Option ℕ

-- An order that was sent to a broker.
pub record Submission (F : Type 0) : Type 0 where
  pub broker : String
  pub symbol : String
  pub side : String
  pub qty : F
  pub order_type : String
  pub limit_price : Option F

-- `submitted` is what the brokers have been sent, newest first.
pub record TradeDb (F : Type 0) : Type 0 where
  pub orders : List (Order F)
  pub next_order : ℕ
  pub positions : List (Position F)
  pub baselines : List (DailyPnlBaseline F)
  pub users : List User
  pub events : List TradeEvent
  pub submitted : List (Submission F)

abbrev pub is_new : OrderStatus → Bool
is_new new = true
is_new _ = false

module _ {F : Type 0} where
  -- `session.get(Order, id)`
  unfoldable pub find_order : ℕ → List (Order F) → Option (Order F)
  find_order id [] = none
  find_order id (o ∷ rows) = if o.id == id then some o else find_order id rows

  -- a changed row, written back by its id
  unfoldable pub put_order : Order F → List (Order F) → List (Order F)
  put_order p [] = []
  put_order p (o ∷ rows) = if o.id == p.id then p ∷ rows else o ∷ put_order p rows

  -- the row of an order that is filled at a price
  unfoldable pub as_filled : Order F → F → Order F
  as_filled o price = record o { status = filled; fill_price = some price }

  -- a tenant's orders, newest first
  unfoldable pub orders_of : ℕ → List (Order F) → List (Order F) → List (Order F)
  orders_of tenant [] newest = newest
  orders_of tenant (o ∷ rows) newest =
      orders_of tenant rows (if o.tenant_id == tenant then o ∷ newest else newest)

  -- the working orders of a tenant in a symbol
  unfoldable pub working_orders : ℕ → String → List (Order F) → List (Order F)
  working_orders tenant symbol [] = []
  working_orders tenant symbol (o ∷ rows) =
      let rest = working_orders tenant symbol rows in
      if o.tenant_id == tenant && (str_eq o.symbol symbol && is_new o.status)
      then o ∷ rest
      else rest

  -- the first position of a tenant in a symbol
  unfoldable pub find_position : ℕ → String → List (Position F) → Option (Position F)
  find_position tenant symbol [] = none
  find_position tenant symbol (p ∷ rows) =
      if p.tenant_id == tenant && str_eq p.symbol symbol
      then some p
      else find_position tenant symbol rows

  -- a position, in the place of the one found, or as a new row
  unfoldable pub put_position : Position F → List (Position F) → List (Position F)
  put_position q [] = q ∷ []
  put_position q (p ∷ rows) =
      if p.tenant_id == q.tenant_id && str_eq p.symbol q.symbol
      then q ∷ rows
      else p ∷ put_position q rows

  unfoldable pub positions_of : ℕ → List (Position F) → List (Position F)
  positions_of tenant [] = []
  positions_of tenant (p ∷ rows) =
      let rest = positions_of tenant rows in if p.tenant_id == tenant then p ∷ rest else rest

  unfoldable pub find_baseline : ℕ → ℕ → List (DailyPnlBaseline F) → Option (DailyPnlBaseline F)
  find_baseline tenant today [] = none
  find_baseline tenant today (b ∷ rows) =
      if b.tenant_id == tenant && b.trading_date == today
      then some b
      else find_baseline tenant today rows
