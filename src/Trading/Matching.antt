-- ===== src/Trading/Matching.antt =====
-- `match_working_orders` of control-api/app/routers/trading.py: which working orders it fills, at which price,
-- and that it only makes the steps of `Steps`.
use kdb_distributed_controlp.Prelude.{
  ℕ, suc, ◌<◌, ◌≡◌, refl, sym, subst, String, Bool, true, not, Option, none, some, List, [], ◌∷◌,
  arith, Result, Bool-cases, Option-cases, inl, inr, if◌then◌else◌,
}
use kdb_distributed_controlp.Prelude.Text.{str_upper}
use kdb_distributed_controlp.Prelude.Exec.{lift_rule, gets_rule}
use kdb_distributed_controlp.Fleet.Store.{CurrentUser, HttpError}
use kdb_distributed_controlp.Trading.Floats.{FloatOps}
use kdb_distributed_controlp.Trading.Store.{
  Order, TradeDb, working_orders, as_filled, find_order, new, BlockReason,
}
use kdb_distributed_controlp.Trading.Oms.{crosses}
use kdb_distributed_controlp.Trading.Router.{
  Desk, is_none, fold_fill, check_pretrade_audited, logged,
}
use kdb_distributed_controlp.Trading.Endpoints.{
  Matched, crosses_at, log_matched, match_loop, match_against, match_working_orders,
}
use kdb_distributed_controlp.Trading.Steps.{
  SameBook, SameBook-refl, Deal, matches, Runs, quiet_run, Runs-then, set_order, one_step,
}
use kdb_distributed_controlp.Trading.Effects.{gate-Gated}
use kdb_distributed_controlp.Trading.Numbering.{
  IsNumbered, Picked, Picked-put_order, working_orders-Picked,
}

module _ {F : Type 0} (fl : FloatOps F) where
  -- an order that is filled at its limit price
  abbrev pub at_limit : Order F → Order F
  at_limit o = elim o.limit_price [ none ↦ o | some limit ↦ as_filled o limit ]

  -- The orders that cross a market price, each filled at its limit price.
  abbrev pub fills_at : F → List (Order F) → List (Order F)
  fills_at price [] = []
  fills_at price (o ∷ rows) =
      if crosses_at fl o price then at_limit o ∷ fills_at price rows else fills_at price rows

  module _ (tenant : ℕ) (symbol : String) (price : F) where
    small : (o : Order F) (limit : F) → (as_filled o limit).id < suc o.id
    unfolding as_filled
    small o limit = omega arith

    one_fill :
        (o : Order F) (limit : F) (db : TradeDb F)
        → find_order o.id db.orders ≡ some o
        → o.tenant_id ≡ tenant
        → o.symbol ≡ symbol
        → o.status ≡ new
        → o.limit_price ≡ some limit
        → crosses fl o.side limit price ≡ true
        → Runs fl db
            (fold_fill fl tenant symbol o.side o.qty limit (set_order (as_filled o limit) db))
    one_fill o limit db found t s status e near =
        one_step fl (matches o deal price found status e near t s refl refl (SameBook-refl _))
      where
        deal : Deal F
        deal = record {
          tenant = tenant;
          symbol = symbol;
          side = o.side;
          qty = o.qty;
          price = limit;
        }

    -- The loop makes steps, on orders that the table has.
    match_loop-Runs :
        (blocked : Bool) (lo : ℕ) (rows : List (Order F)) (db : TradeDb F)
        → Picked tenant symbol lo db.orders rows
        → Runs fl db (match_loop fl tenant symbol price blocked rows db).1
    unfolding match_loop
    match_loop-Runs blocked lo [] db h = quiet_run fl db db (SameBook-refl db)
    match_loop-Runs blocked lo (o ∷ rows) db (above, found, t, s, status, h) =
        elim (Option-cases o.limit_price) [
          | inl e ↦ rw e (match_loop-Runs blocked (suc o.id) rows db h)
          | inr (limit, e) ↦ elim (Bool-cases (crosses fl o.side limit price)) [
            | inr far ↦ rw (e, far) (match_loop-Runs blocked (suc o.id) rows db h)
            | inl near ↦ elim (Bool-cases blocked) [
              | inl stopped ↦ rw (e, near, stopped) (match_loop-Runs blocked (suc o.id) rows db h)
              | inr free ↦
                  simp (e, near, free)
                    (Runs-then fl (one_fill o limit db found t s status e near) (
                      match_loop-Runs blocked (suc o.id) rows _ (
                        Picked-put_order tenant symbol (suc o.id) (as_filled o limit) db.orders rows
                          (small o limit) h)))
            ]
          ]
        ]

  log_matched-SameBook :
      (user : CurrentUser) (tenant : ℕ) (symbol : String) (rows : List (Order F)) (db : TradeDb F)
      → SameBook db (log_matched fl user tenant symbol rows db)
  unfolding log_matched
  log_matched-SameBook user tenant symbol [] db = SameBook-refl db
  log_matched-SameBook user tenant symbol (o ∷ rows) db =
      let rest = log_matched-SameBook user tenant symbol rows (logged _ _ _ _ _ _ db) in
      record { orders = rest.orders; next_order = rest.next_order; positions = rest.positions }

  module _ (desk : Desk F) (symbol : String) (price : F) (user : CurrentUser) where
    -- the gate's verdict on a match, and the tables after it
    abbrev pub match_verdict : ℕ → TradeDb F → Option BlockReason × TradeDb F
    match_verdict tenant db =
        check_pretrade_audited fl desk (str_upper symbol) user.email (some tenant) none none none db

    match_against-Runs :
        (tenant : ℕ) (rows : List (Order F)) (db : TradeDb F)
        → IsNumbered db
        → Picked tenant (str_upper symbol) 0 db.orders rows
        → Runs fl db (match_against fl desk (str_upper symbol) price user tenant rows db).1
    match_against-Runs tenant [] db h picked = quiet_run fl db db (SameBook-refl db)
    match_against-Runs tenant (o ∷ rows) db h picked =
        let gated =
          (gate-Gated fl desk (str_upper symbol) user.email (some tenant) none none none db).book in
        Runs-then fl (quiet_run fl db (match_verdict tenant db).1 gated) (
          Runs-then fl
            (match_loop-Runs tenant (str_upper symbol) price
              (not (is_none (match_verdict tenant db).0)) 0 (o ∷ rows) (match_verdict tenant db).1
              (subst (λ os. Picked tenant (str_upper symbol) 0 os (o ∷ rows)) (sym gated.orders)
                picked))
            (quiet_run fl _ _ (log_matched-SameBook user tenant (str_upper symbol) _ _)))

    pub match_working_orders-Runs :
        (db : TradeDb F)
        → IsNumbered db
        → Runs fl db (match_working_orders fl desk symbol price user db).1
    unfolding match_working_orders
    match_working_orders-Runs db h =
        lift_rule Q _ _ db (λ e. quiet_run fl db db (SameBook-refl db))
          λ tenant scoped. gets_rule Q _ _ db (
            match_against-Runs tenant (working_orders tenant (str_upper symbol) db.orders) db h
              (working_orders-Picked tenant (str_upper symbol) db h))
      where
        Q : Result HttpError (Matched F) × TradeDb F → Type 0
        Q r = Runs fl db r.1
