-- ===== src/Trading/Steps.antt =====
-- What a request may do to the orders and the positions: the steps of an order's life, as a relation between
-- tables, with the trade that a step makes.
use kdb_distributed_controlp.Prelude.{
  ℕ, ◌≡◌, refl, sym, ◌∙◌, subst, String, true, none, some, List, [], ◌∷◌, ◌++◌,
}
use mathlib.Core.List.{append_assoc}
use kdb_distributed_controlp.Trading.Floats.{FloatOps}
use kdb_distributed_controlp.Trading.Store.{
  Order, new, filled, cancelled, TradeDb, find_order, put_order, as_filled,
}
use kdb_distributed_controlp.Trading.Oms.{crosses}
use kdb_distributed_controlp.Trading.Router.{fold_fill, add_order}

-- A trade, as a position sees it.
pub record Deal (F : Type 0) : Type 0 where
  pub tenant : ℕ
  pub symbol : String
  pub side : String
  pub qty : F
  pub price : F

-- Orders, their numbering and positions are the same.
pub record SameBook {F : Type 0} (db db' : TradeDb F) : Type 0 where
  pub orders : db'.orders ≡ db.orders
  pub next_order : db'.next_order ≡ db.next_order
  pub positions : db'.positions ≡ db.positions

module _ {F : Type 0} where
  pub SameBook-refl : (db : TradeDb F) → SameBook db db
  SameBook-refl db = record { orders = refl; next_order = refl; positions = refl }

  pub SameBook-trans : (a b c : TradeDb F) → SameBook a b → SameBook b c → SameBook a c
  SameBook-trans a b c h k = record {
    orders = k.orders ∙ h.orders;
    next_order = k.next_order ∙ h.next_order;
    positions = k.positions ∙ h.positions;
  }

  abbrev pub as_cancelled : Order F → Order F
  as_cancelled o = record o { status = cancelled }

  abbrev pub set_order : Order F → TradeDb F → TradeDb F
  set_order o db = record db { orders = put_order o db.orders }

module _ {F : Type 0} (fl : FloatOps F) where
  abbrev pub deal_done : Deal F → TradeDb F → TradeDb F
  deal_done d db = fold_fill fl d.tenant d.symbol d.side d.qty d.price db

  -- Nothing, a working order that is written, an order that is filled when it arrives, a working order that
  -- is filled at its limit price since the market's price crosses it, and a working order that is cancelled.
  pub data Step (db db' : TradeDb F) : List (Deal F) → Type 0 where
    quiet : SameBook db db' → Step db db' []
    rests :
        (o : Order F)
        → o.id ≡ db.next_order
        → o.status ≡ new
        → o.fill_price ≡ none
        → SameBook (add_order o db) db'
        → Step db db' []
    arrives :
        (o : Order F) (d : Deal F)
        → o.id ≡ db.next_order
        → o.status ≡ filled
        → o.fill_price ≡ some d.price
        → o.tenant_id ≡ d.tenant
        → o.symbol ≡ d.symbol
        → o.qty ≡ d.qty
        → SameBook (deal_done d (add_order o db)) db'
        → Step db db' (d ∷ [])
    matches :
        (o : Order F) (d : Deal F) (market : F)
        → find_order o.id db.orders ≡ some o
        → o.status ≡ new
        → o.limit_price ≡ some d.price
        → crosses fl o.side d.price market ≡ true
        → o.tenant_id ≡ d.tenant
        → o.symbol ≡ d.symbol
        → o.side ≡ d.side
        → o.qty ≡ d.qty
        → SameBook (deal_done d (set_order (as_filled o d.price) db)) db'
        → Step db db' (d ∷ [])
    cancels :
        (o : Order F)
        → find_order o.id db.orders ≡ some o
        → o.status ≡ new
        → SameBook (set_order (as_cancelled o) db) db'
        → Step db db' []

  -- Steps one after another, with the trades in their order.
  pub data Steps : TradeDb F → TradeDb F → List (Deal F) → Type 0 where
    done : {db : TradeDb F} → Steps db db []
    and_then :
        {db mid db' : TradeDb F} {ds es : List (Deal F)}
        → Step db mid ds
        → Steps mid db' es
        → Steps db db' (ds ++ es)

  pub Steps-append :
      {a b c : TradeDb F} {ds es : List (Deal F)}
      → Steps a b ds
      → Steps b c es
      → Steps a c (ds ++ es)
  Steps-append done t = t
  Steps-append {c = c} {es = es} (and_then {db = a} {ds = ds} {es = fs} s rest) t =
      subst (λ l. Steps a c l) (sym (append_assoc ds fs es)) (and_then s (Steps-append rest t))

  -- A run of a request: the trades that it made.
  pub record Runs (db db' : TradeDb F) : Type 0 where
    pub deals : List (Deal F)
    pub steps : Steps db db' deals

  pub one_step : {db db' : TradeDb F} {ds : List (Deal F)} → Step db db' ds → Runs db db'
  one_step {ds = ds} s = record { deals = ds ++ []; steps = and_then s done }

  pub quiet_run : (db db' : TradeDb F) → SameBook db db' → Runs db db'
  quiet_run db db' same = one_step (quiet same)

  pub Runs-then : {a b c : TradeDb F} → Runs a b → Runs b c → Runs a c
  Runs-then r t = record { deals = r.deals ++ t.deals; steps = Steps-append r.steps t.steps }
