-- ===== src/Trading/Sending.antt =====
-- What `place_order` of control-api/app/routers/trading.py sends to a broker, and for whom.
use kdb_distributed_controlp.Prelude.{
  ℕ, ◌≡◌, refl, sym, ◌∙◌, ap, String, Option, none, ◌∷◌, ◌⊎◌, Result, ok, Bool-cases, inl, inr,
  str_eq, subst,
}
use kdb_distributed_controlp.Prelude.Text.{str_upper}
use kdb_distributed_controlp.Prelude.Exec.{
  lift, ◌>>=◌, ◌>>◌, lift_rule, gets_rule, modify_rule, bind_rule, or_raise_rule,
}
use kdb_distributed_controlp.Fleet.Store.{CurrentUser, HttpError}
use kdb_distributed_controlp.Trading.Floats.{FloatOps}
use kdb_distributed_controlp.Trading.Store.{Order, TradeDb, Submission}
use kdb_distributed_controlp.Trading.Oms.{OrderError, Fill, Router, route_name}
use kdb_distributed_controlp.Trading.Router.{
  Desk, router, fill, record_fill, place_market_order_internal, fold_fill, add_order,
}
use kdb_distributed_controlp.Trading.Endpoints.{
  OrderBody, rest_order, fill_now, place_checked, place_order, marketable,
}
use kdb_distributed_controlp.Trading.Effects.{Sends, fill-Sends, gate-Gated}
use kdb_distributed_controlp.Trading.Placing.{Admits, verdict, place_order_rule}

module _ {F : Type 0} (fl : FloatOps F) where
  -- Nothing is sent, or one order to the broker that the environment names.
  abbrev pub SentVia : Desk F → TradeDb F → TradeDb F → Type 0
  SentVia desk db db' =
      (db'.submitted ≡ db.submitted)
      ⊎ ((s : Submission F) × (r : Router) × (router desk.env ≡ ok r)
          × (s.broker ≡ route_name r)
          × (db'.submitted ≡ s ∷ db.submitted))

  module _ (desk : Desk F) where
    Sends-via :
        (r : Router) (a b : TradeDb F)
        → router desk.env ≡ ok r
        → Sends (route_name r) a b
        → SentVia desk a b
    Sends-via r a b routed sends = elim sends.sent [
      | inl same ↦ inl same
      | inr (s, grown, named) ↦ inr (s, r, routed, named, grown)
    ]

    record_fill-submitted :
        (tenant_id : Option ℕ) (actor symbol side : String) (qty : F) (order_type : String)
        (limit_price : Option F) (got : Fill F) (db : TradeDb F)
        → (record_fill fl tenant_id actor symbol side qty order_type limit_price got db).1.submitted
          ≡ db.submitted
    unfolding record_fill fold_fill add_order
    record_fill-submitted tenant_id actor symbol side qty order_type limit_price got db =
        or_raise_rule Q _ _ _ db refl
          λ tenant known. gets_rule Q _ _ db (modify_rule Q _ _ db (modify_rule Q _ _ _ refl))
      where
        Q : Result OrderError (Order F) × TradeDb F → Type 0
        Q r = r.1.submitted ≡ db.submitted

    fill_record-SentVia :
        (tenant_id : Option ℕ) (actor symbol side : String) (qty : F) (order_type : String)
        (ref_price limit_price kept_limit : Option F) (db : TradeDb F)
        → SentVia desk db
            ((lift (router desk.env) >>= λ r.
                fill fl desk r side qty order_type ref_price limit_price symbol >>= λ got.
                record_fill fl tenant_id actor symbol side qty order_type kept_limit got)
              db).1
    fill_record-SentVia tenant_id actor symbol side qty order_type ref_price limit_price kept_limit
          db =
        lift_rule Q _ _ db (λ e. inl refl)
          λ r routed.
            bind_rule Q (SentVia desk db) _ _ db
              (Sends-via r db _ routed
                (fill-Sends fl desk r side qty order_type ref_price limit_price symbol db))
              (λ e t sent. sent)
              λ got t sent.
                subst
                  (λ ss.
                    (ss ≡ db.submitted)
                    ⊎ ((s : Submission F) × (r : Router) × (router desk.env ≡ ok r)
                        × (s.broker ≡ route_name r)
                        × (ss ≡ s ∷ db.submitted)))
                  (sym (
                    record_fill-submitted tenant_id actor symbol side qty order_type kept_limit got
                      t))
                  sent
      where
        Q : Result OrderError (Order F) × TradeDb F → Type 0
        Q r = SentVia desk db r.1

    rest_order-submitted :
        (body : OrderBody F) (symbol : String) (user : CurrentUser) (db : TradeDb F)
        → (rest_order fl body symbol user db).1.submitted ≡ db.submitted
    unfolding rest_order add_order
    rest_order-submitted body symbol user db = or_raise_rule Q _ _ _ db refl λ limit priced.
        or_raise_rule Q _ _ _ db refl
          λ tenant known. gets_rule Q _ _ db (modify_rule Q _ _ db (modify_rule Q _ _ _ refl))
      where
        Q : Result HttpError (Order F) × TradeDb F → Type 0
        Q r = r.1.submitted ≡ db.submitted

    place_checked-SentVia :
        (body : OrderBody F) (symbol : String) (user : CurrentUser) (db : TradeDb F)
        → SentVia desk db (place_checked fl desk body symbol user db).1
    unfolding place_checked fill_now place_market_order_internal ◌>>=◌ ◌>>◌
    place_checked-SentVia body symbol user db = elim (Bool-cases (marketable fl body)) [
      | inr resting ↦ rw resting (inl (rest_order-submitted body symbol user db))
      | inl crossing ↦ elim (Bool-cases (str_eq body.order_type "market")) [
        | inl market ↦
            rw (crossing, market)
              (fill_record-SentVia user.tenant_id user.email symbol body.side body.qty "market"
                body.ref_price none none db)
        | inr other ↦
            rw (crossing, other)
              (fill_record-SentVia user.tenant_id user.email symbol body.side body.qty
                body.order_type body.ref_price body.limit_price body.limit_price db)
      ]
    ]

    -- A request to place an order sends nothing to a broker, or exactly one order, to the broker that the
    -- environment switches on; and then the caller may trade, the side is buy or sell, the code's comparison
    -- `qty <= 0` is false (it is so of a NaN too) and the risk gate has let the order pass.
    pub place_order_submits :
        (body : OrderBody F) (user : CurrentUser) (db : TradeDb F)
        → ((place_order fl desk body user db).1.submitted ≡ db.submitted)
          ⊎ (Admits fl desk body user db
              × ((s : Submission F) × (r : Router) × (router desk.env ≡ ok r)
                  × (s.broker ≡ route_name r)
                  × ((place_order fl desk body user db).1.submitted ≡ s ∷ db.submitted)))
    place_order_submits body user db =
        place_order_rule fl Q desk body user db (λ e. inl refl) (λ e. inl gated)
          λ admits. elim (place_checked-SentVia body (str_upper body.symbol) user _) [
            | inl same ↦ inl (same ∙ gated)
            | inr (s, r, routed, named, grown) ↦
                inr (admits, (s, r, routed, named, grown ∙ ap (λ ss. s ∷ ss) gated))
          ]
      where
        gated : (verdict fl desk body user db).1.submitted ≡ db.submitted
        gated = (gate-Gated fl desk _ _ _ _ _ _ db).submitted

        Q : Result HttpError (Order F) × TradeDb F → Type 0
        Q r =
            (r.1.submitted ≡ db.submitted)
            ⊎ (Admits fl desk body user db
                × ((s : Submission F) × (r' : Router) × (router desk.env ≡ ok r')
                    × (s.broker ≡ route_name r')
                    × (r.1.submitted ≡ s ∷ db.submitted)))
