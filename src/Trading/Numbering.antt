-- ===== src/Trading/Numbering.antt =====
-- The orders' ids ascend, below the next one: what every step keeps, so that a row is found by its id.
use kdb_distributed_controlp.Prelude.{
  ℕ, suc, ◌+◌, ◌≤◌, ◌<◌, ◌≡◌, ◌≢◌, refl, sym, ap, subst, ◌∙◌, String, true, ◌&&◌, some, List, [],
  ◌∷◌, ◌++◌, arith, ◌==◌, Bool-cases, inl, inr, str_eq, eq_iff,
}
use kdb_distributed_controlp.Trading.Floats.{FloatOps}
use kdb_distributed_controlp.Trading.Store.{
  Order, OrderStatus, new, TradeDb, is_new, find_order, put_order, working_orders, as_filled,
}
use kdb_distributed_controlp.Trading.Router.{add_order, fold_fill}
use kdb_distributed_controlp.Trading.Steps.{
  SameBook, Deal, Step, quiet, rests, arrives, matches, cancels, Steps, done, and_then,
  as_cancelled, set_order, deal_done,
}

pub is_new-new : (s : OrderStatus) → is_new s ≡ true → s ≡ new
is_new-new new h = refl
is_new-new _ h = cc

module _ {F : Type 0} where
  -- ids that ascend, from a first bound on and below a second one
  abbrev Ascending : ℕ → List (Order F) → ℕ → Type 0
  Ascending lo [] n = lo ≤ n
  Ascending lo (o ∷ rows) n = (lo ≤ o.id) × Ascending (suc o.id) rows n

  pub record IsNumbered (db : TradeDb F) : Type 0 where
    pub numbered : Ascending 0 db.orders db.next_order

  pub find_order-id :
      (id : ℕ) (o : Order F) (rows : List (Order F)) → find_order id rows ≡ some o → o.id ≡ id
  unfolding find_order
  find_order-id id o [] found = cc
  find_order-id id o (p ∷ rows) found = ground (arith, find_order-id id o rows)

  -- a row found under some id is found under its own
  pub find_order_self :
      (id : ℕ) (o : Order F) (rows : List (Order F))
      → find_order id rows ≡ some o
      → find_order o.id rows ≡ some o
  find_order_self id o rows found =
      ap (λ i. find_order i rows) (find_order-id id o rows found) ∙ found

  pub find_order-put_order :
      (p : Order F) (id : ℕ) (rows : List (Order F))
      → p.id ≢ id
      → find_order id (put_order p rows) ≡ find_order id rows
  unfolding find_order put_order
  find_order-put_order p id [] other = refl
  find_order-put_order p id (o ∷ rows) other = ground (arith, find_order-put_order p id rows other)

  Ascending-append :
      (lo : ℕ) (rows : List (Order F)) (n : ℕ) (o : Order F)
      → Ascending lo rows n
      → o.id ≡ n
      → Ascending lo (rows ++ o ∷ []) (n + 1)
  Ascending-append lo [] n o h same = ground arith
  Ascending-append lo (p ∷ rows) n o h same = (h.0, Ascending-append (suc p.id) rows n o h.1 same)

  Ascending-put_order :
      (lo : ℕ) (rows : List (Order F)) (n : ℕ) (p : Order F)
      → Ascending lo rows n
      → Ascending lo (put_order p rows) n
  unfolding put_order
  Ascending-put_order lo [] n p h = h
  Ascending-put_order lo (o ∷ rows) n p h = elim (Bool-cases (o.id == p.id)) [
    | inl same ↦ rw same (
        let eq : o.id ≡ p.id = ground arith in
        subst (λ i. (lo ≤ i) × Ascending (suc i) rows n) eq h)
    | inr other ↦ rw other (h.0, Ascending-put_order (suc o.id) rows n p h.1)
  ]

  SameBook-IsNumbered : (a b : TradeDb F) → SameBook a b → IsNumbered a → IsNumbered b
  SameBook-IsNumbered a b same h = record {
    numbered =
        subst (λ n. Ascending 0 b.orders n) (sym same.next_order)
          (subst (λ rows. Ascending 0 rows a.next_order) (sym same.orders) h.numbered);
  }

  put-IsNumbered : (p : Order F) (db : TradeDb F) → IsNumbered db → IsNumbered (set_order p db)
  put-IsNumbered p db h = record {
    numbered = Ascending-put_order 0 db.orders db.next_order p h.numbered;
  }

  add-IsNumbered :
      (o : Order F) (db : TradeDb F)
      → o.id ≡ db.next_order
      → IsNumbered db
      → IsNumbered (add_order o db)
  unfolding add_order
  add-IsNumbered o db next h = record {
    numbered = Ascending-append 0 db.orders db.next_order o h.numbered next;
  }

module _ {F : Type 0} (fl : FloatOps F) where
  deal-IsNumbered : (d : Deal F) (db : TradeDb F) → IsNumbered db → IsNumbered (deal_done fl d db)
  unfolding fold_fill
  deal-IsNumbered d db h = record { numbered = h.numbered }

  pub Step-IsNumbered :
      (a b : TradeDb F) (ds : List (Deal F)) → Step fl a b ds → IsNumbered a → IsNumbered b
  Step-IsNumbered a b _ (quiet same) h = SameBook-IsNumbered a b same h
  Step-IsNumbered a b _ (rests o next status price same) h =
      SameBook-IsNumbered _ b same (add-IsNumbered o a next h)
  Step-IsNumbered a b _ (arrives o d next status price tenant symbol qty same) h =
      SameBook-IsNumbered _ b same (deal-IsNumbered d _ (add-IsNumbered o a next h))
  Step-IsNumbered a b _ (matches o d m found status limit cross tenant symbol side qty same) h =
      SameBook-IsNumbered _ b same (deal-IsNumbered d _ (put-IsNumbered (as_filled o d.price) a h))
  Step-IsNumbered a b _ (cancels o found status same) h =
      SameBook-IsNumbered _ b same (put-IsNumbered (as_cancelled o) a h)

  -- Ids stay numbered over any steps.
  pub Steps-IsNumbered :
      (a b : TradeDb F) (ds : List (Deal F)) → Steps fl a b ds → IsNumbered a → IsNumbered b
  Steps-IsNumbered a b _ done h = h
  Steps-IsNumbered a b _ (and_then {mid = mid} {ds = ds} {es = es} s rest) h =
      Steps-IsNumbered mid b es rest (Step-IsNumbered a mid ds s h)

module _ {F : Type 0} (tenant : ℕ) (symbol : String) where
  -- Working orders of the tenant in the symbol, with ascending ids, as the table has them.
  abbrev pub Picked : ℕ → List (Order F) → List (Order F) → Type 0
  Picked lo rows [] = Unit
  Picked lo rows (w ∷ ws) =
      (lo ≤ w.id)
      × (find_order w.id rows ≡ some w)
      × (w.tenant_id ≡ tenant)
      × (w.symbol ≡ symbol)
      × (w.status ≡ new)
      × Picked (suc w.id) rows ws

  Picked-below :
      (lo hi : ℕ) (rows ws : List (Order F)) → lo ≤ hi → Picked hi rows ws → Picked lo rows ws
  Picked-below lo hi rows [] le h = tt
  Picked-below lo hi rows (w ∷ ws) le (above, found, t, s, status, h) =
      (omega arith, found, t, s, status, h)

  Picked-cons :
      (lo : ℕ) (o : Order F) (rows ws : List (Order F))
      → o.id < lo
      → Picked lo rows ws
      → Picked lo (o ∷ rows) ws
  unfolding find_order
  Picked-cons lo o rows [] small h = tt
  Picked-cons lo o rows (w ∷ ws) small (above, found, t, s, status, h) =
      (above, ground arith, t, s, status, Picked-cons (suc w.id) o rows ws (omega arith) h)

  pub Picked-put_order :
      (lo : ℕ) (p : Order F) (rows ws : List (Order F))
      → p.id < lo
      → Picked lo rows ws
      → Picked lo (put_order p rows) ws
  Picked-put_order lo p rows [] small h = tt
  Picked-put_order lo p rows (w ∷ ws) small (above, found, t, s, status, h) = (
    above,
    find_order-put_order p w.id rows (λ same. absurd (omega arith)) ∙ found,
    t,
    s,
    status,
    Picked-put_order (suc w.id) p rows ws (omega arith) h,
  )

  working-Picked :
      (lo : ℕ) (rows : List (Order F)) (n : ℕ)
      → Ascending lo rows n
      → Picked lo rows (working_orders tenant symbol rows)
  unfolding working_orders find_order
  working-Picked lo [] n h = tt
  working-Picked lo (o ∷ rows) n h =
      let rest =
        Picked-cons (suc o.id) o rows (working_orders tenant symbol rows) (omega arith)
          (working-Picked (suc o.id) rows n h.1) in
      elim (Bool-cases (o.tenant_id == tenant && (str_eq o.symbol symbol && is_new o.status))) [
        | inl picked ↦ rw picked (
          h.0,
          ground arith,
          ground arith,
          (eq_iff o.symbol symbol).0 (ground arith),
          is_new-new o.status (ground arith),
          rest,
        )
        | inr other ↦ rw other (Picked-below lo (suc o.id) _ _ (omega (arith, h.0)) rest)
      ]

  -- The working orders that `match_working_orders` reads.
  pub working_orders-Picked :
      (db : TradeDb F) → IsNumbered db → Picked 0 db.orders (working_orders tenant symbol db.orders)
  working_orders-Picked db h = working-Picked 0 db.orders db.next_order h.numbered
