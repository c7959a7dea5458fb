-- ===== src/Trading/History.antt =====
-- Histories of trading requests (control-api/app/routers/trading.py, and the signal engine's market orders):
-- every history makes steps of an order's life, so an order that is filled or cancelled stays as it is.
use kdb_distributed_controlp.Prelude.{
  ℕ, ◌≡◌, ◌≢◌, refl, sym, subst, ◌∙◌, ap, String, Bool, true, some, List, [], ◌∷◌, ◌++◌, arith,
  Result,
}
use mathlib.Core.Option.{some-injective}
use kdb_distributed_controlp.Prelude.Exec.{
  lift_rule, gets_rule, modify_rule, or_raise_rule, require_rule,
}
use kdb_distributed_controlp.Fleet.Store.{CurrentUser, HttpError}
use kdb_distributed_controlp.Trading.Floats.{FloatOps}
use kdb_distributed_controlp.Trading.Store.{Order, new, TradeDb, find_order, put_order, as_filled}
use kdb_distributed_controlp.Trading.Router.{
  Desk, add_order, fold_fill, place_market_order_internal,
}
use kdb_distributed_controlp.Trading.Endpoints.{
  OrderBody, place_order, cancel_order, match_working_orders, grant,
}
use kdb_distributed_controlp.Trading.Steps.{
  SameBook, SameBook-refl, Deal, Step, quiet, rests, arrives, matches, cancels, Steps, done,
  and_then, Runs, quiet_run, Runs-then, as_cancelled,
}
use kdb_distributed_controlp.Trading.Numbering.{IsNumbered, Steps-IsNumbered, find_order-put_order}
use kdb_distributed_controlp.Trading.Placing.{
  place_order-Runs, cancel_order-Runs, place_market_order_internal-Runs,
}
use kdb_distributed_controlp.Trading.Matching.{match_working_orders-Runs}

-- A request, with what it finds at that time.
pub data TradeRequest (F : Type 0) : Type 0 where
  places : Desk F → OrderBody F → CurrentUser → TradeRequest F
  bot_places : Desk F → ℕ → String → String → String → F → F → TradeRequest F
  matches_at : Desk F → String → F → CurrentUser → TradeRequest F
  cancels_order : ℕ → CurrentUser → TradeRequest F
  grants : String → Bool → CurrentUser → TradeRequest F

module _ {F : Type 0} (fl : FloatOps F) where
  unfoldable pub serve_trade : TradeRequest F → TradeDb F → TradeDb F
  serve_trade (places desk body user) db = (place_order fl desk body user db).1
  serve_trade (bot_places desk tenant actor symbol side qty ref_price) db =
      (place_market_order_internal fl desk true (some tenant) actor symbol side qty (some ref_price)
        db).1
  serve_trade (matches_at desk symbol price user) db =
      (match_working_orders fl desk symbol price user db).1
  serve_trade (cancels_order order_id user) db = (cancel_order fl order_id user db).1
  serve_trade (grants email can_trade user) db = (grant fl email can_trade user db).1

  unfoldable pub serve_trades : List (TradeRequest F) → TradeDb F → TradeDb F
  unfolding serve_trade
  serve_trades [] db = db
  serve_trades (r ∷ rs) db = serve_trades rs (serve_trade r db)

  grant-SameBook :
      (email : String) (can_trade : Bool) (user : CurrentUser) (db : TradeDb F)
      → SameBook db (grant fl email can_trade user db).1
  unfolding grant
  grant-SameBook email can_trade user db =
      lift_rule Q _ _ db (λ e. same)
        λ tenant scoped. require_rule Q _ _ _ db same λ admin. gets_rule Q _ _ db (
          or_raise_rule Q _ _ _ db same λ target found. require_rule Q _ _ _ db same λ own.
            modify_rule Q _ _ db (record { orders = refl; next_order = refl; positions = refl }))
    where
      Q : Result HttpError (Unit {0}) × TradeDb F → Type 0
      Q r = SameBook db r.1

      same : SameBook db db
      same = SameBook-refl db

  serve_trade-Runs :
      (r : TradeRequest F) (db : TradeDb F) → IsNumbered db → Runs fl db (serve_trade r db)
  unfolding serve_trade
  serve_trade-Runs (places desk body user) db h = place_order-Runs fl desk body user db
  serve_trade-Runs (bot_places desk tenant actor symbol side qty ref_price) db h =
      place_market_order_internal-Runs fl desk true (some tenant) actor symbol side qty
        (some ref_price) db
  serve_trade-Runs (matches_at desk symbol price user) db h =
      match_working_orders-Runs fl desk symbol price user db h
  serve_trade-Runs (cancels_order order_id user) db h = cancel_order-Runs fl order_id user db
  serve_trade-Runs (grants email can_trade user) db h =
      quiet_run fl db _ (grant-SameBook email can_trade user db)

  pub serve_trades-Runs :
      (rs : List (TradeRequest F)) (db : TradeDb F)
      → IsNumbered db
      → Runs fl db (serve_trades rs db)
  unfolding serve_trades
  serve_trades-Runs [] db h = quiet_run fl db db (SameBook-refl db)
  serve_trades-Runs (r ∷ rs) db h =
      let first = serve_trade-Runs r db h in
      Runs-then fl first (
        serve_trades-Runs rs (serve_trade r db)
          (Steps-IsNumbered fl db (serve_trade r db) first.deals first.steps h))

  -- Any history keeps the ids numbered.
  pub serve_trades-IsNumbered :
      (rs : List (TradeRequest F)) (db : TradeDb F)
      → IsNumbered db
      → IsNumbered (serve_trades rs db)
  serve_trades-IsNumbered rs db h =
      let run = serve_trades-Runs rs db h in
      Steps-IsNumbered fl db (serve_trades rs db) run.deals run.steps h

  find_order-append :
      (id : ℕ) (o p : Order F) (rows : List (Order F))
      → find_order id rows ≡ some o
      → find_order id (rows ++ p ∷ []) ≡ some o
  unfolding find_order
  find_order-append id o p [] found = cc
  find_order-append id o p (q ∷ rows) found = ground (arith, find_order-append id o p rows)

  -- a write to a working order leaves the closed ones
  find_order-closed :
      (id : ℕ) (o w p : Order F) (rows : List (Order F))
      → find_order id rows ≡ some o
      → o.status ≢ new
      → find_order w.id rows ≡ some w
      → w.status ≡ new
      → p.id ≡ w.id
      → find_order id (put_order p rows) ≡ some o
  find_order-closed id o w p rows found closed working fresh same =
      find_order-put_order p id rows (λ e. closed (
        subst (λ (q : Order F). q.status ≡ new)
          (some-injective _ _ (sym working ∙ ap (λ i. find_order i rows) (sym same ∙ e) ∙ found))
          fresh))
      ∙ found

  SameBook-find :
      (id : ℕ) (o : Order F) (a b : TradeDb F)
      → SameBook a b
      → find_order id a.orders ≡ some o
      → find_order id b.orders ≡ some o
  SameBook-find id o a b same found = ap (λ os. find_order id os) same.orders ∙ found

  Step-closed :
      (id : ℕ) (o : Order F) (a b : TradeDb F) (ds : List (Deal F))
      → Step fl a b ds
      → o.status ≢ new
      → find_order id a.orders ≡ some o
      → find_order id b.orders ≡ some o
  unfolding add_order fold_fill as_filled
  Step-closed id o a b _ (quiet same) closed found = SameBook-find id o a b same found
  Step-closed id o a b _ (rests p next status price same) closed found =
      SameBook-find id o _ b same (find_order-append id o p a.orders found)
  Step-closed id o a b _ (arrives p d next status price tenant symbol qty same) closed found =
      SameBook-find id o _ b same (find_order-append id o p a.orders found)
  Step-closed id o a b _ (matches p d m held fresh limit cross tenant symbol side qty same) closed
        found =
      SameBook-find id o _ b same
        (find_order-closed id o p (as_filled p d.price) a.orders found closed held fresh refl)
  Step-closed id o a b _ (cancels p held fresh same) closed found =
      SameBook-find id o _ b same
        (find_order-closed id o p (as_cancelled p) a.orders found closed held fresh refl)

  Steps-closed :
      (id : ℕ) (o : Order F) (a b : TradeDb F) (ds : List (Deal F))
      → Steps fl a b ds
      → o.status ≢ new
      → find_order id a.orders ≡ some o
      → find_order id b.orders ≡ some o
  Steps-closed id o a b _ done closed found = found
  Steps-closed id o a b _ (and_then {mid = mid} {ds = ds} {es = es} s rest) closed found =
      Steps-closed id o mid b es rest closed (Step-closed id o a mid ds s closed found)

  -- An order that is filled, rejected or cancelled is never changed again: after any list of requests to
  -- place orders, by users and by the bot, to match, to cancel and to grant permissions, the table has the
  -- same row under its id. The ids of the table must ascend below the next one.
  pub closed_order_final :
      (rs : List (TradeRequest F)) (db : TradeDb F) (id : ℕ) (o : Order F)
      → IsNumbered db
      → find_order id db.orders ≡ some o
      → o.status ≢ new
      → find_order id (serve_trades rs db).orders ≡ some o
  closed_order_final rs db id o h found closed =
      let run = serve_trades-Runs rs db h in
      Steps-closed id o db (serve_trades rs db) run.deals run.steps closed found
