-- ===== src/Trading/Waiting.antt =====
-- The brokers' waits and switches: `wait_for_fill`, `trading_mode` and `client_from_env` of
-- control-api/app/alpaca_broker.py and ibkr_broker.py, and `_router` of control-api/app/routers/trading.py.
use kdb_distributed_controlp.Prelude.{
  ℕ, zero, suc, ◌+◌, ◌*◌, ◌≤◌, ◌<◌, ◌≡◌, ◌≢◌, refl, sym, ap, subst, ◌∙◌, String, Bool, true, false,
  ◌||◌, Option, none, some, arith, ok, Bool-cases, Option-cases, inl, inr, ltb, str_eq, eq_iff,
  ltb→lt, ◌⊎◌,
}
use kdb_distributed_controlp.Prelude.Text.{str_lower, str_strip}
use kdb_distributed_controlp.Trading.Brokers.{
  TradingMode, trading_mode, setting, live_ack_phrase, Environment, alpaca_client, ibkr_client,
  OrderReport, Waited, filled_as, broker_error, out_of_fuel, wait_loop, alpaca_wait_for_fill,
  ibkr_wait_for_fill, alpaca_filled, alpaca_dead, ibkr_filled, ibkr_dead, off, paper, live,
}
use kdb_distributed_controlp.Trading.Oms.{
  Router, alpaca_router, ibkr_router, paper_router, route_name,
}
use kdb_distributed_controlp.Trading.Router.{router}

filled_as-injective :
    {F : Type 0} (a b : OrderReport F) → ◌≡◌ {A = Waited F} (filled_as a) (filled_as b) → a ≡ b
filled_as-injective a b h = ap (λ w. elim w [ filled_as r ↦ r | _ ↦ a ]) h

zero_first : {k last : ℕ} (k' : ℕ) → 0 + k ≡ last → k ≡ last
zero_first k' h = omega arith

-- What a broker reports while it is polled: a report for which a test passes, before the time is up.
abbrev Reported :
    {F : Type 0}
    → (ℕ → Option (OrderReport F))
    → (ℕ → ℕ)
    → (String → Bool)
    → ℕ
    → OrderReport F
    → Type 0
Reported polls clock is_filled timeout report =
    (j : ℕ) × (polls j ≡ some report) × (is_filled report.status ≡ true) × (clock j < timeout)

module _ {F : Type 0} (polls : ℕ → Option (OrderReport F)) (clock : ℕ → ℕ)
    (is_filled is_dead : String → Bool) (timeout : ℕ) where
  -- The fuel is enough, if the time is up at the last test.
  wait_loop_ends :
      (fuel k last : ℕ)
      → timeout ≤ clock last
      → fuel + k ≡ last
      → wait_loop polls clock is_filled is_dead timeout (suc fuel) k ≢ out_of_fuel
  unfolding wait_loop
  wait_loop_ends zero k last up same =
      let late : timeout ≤ clock k = subst (λ i. timeout ≤ clock i) (sym (zero_first k same)) up in
      ground arith
  wait_loop_ends (suc fuel) k last up same =
      ground (arith, wait_loop_ends fuel (suc k) last up (omega arith))

  wait_loop_filled :
      (fuel k : ℕ) (report : OrderReport F)
      → wait_loop polls clock is_filled is_dead timeout fuel k ≡ filled_as report
      → Reported polls clock is_filled timeout report
  unfolding wait_loop
  wait_loop_filled zero k report h = absurd (cc)
  wait_loop_filled (suc fuel) k report h = elim (Bool-cases (ltb (clock k) timeout)) [
    | inr late ↦ absurd (cc (rw late at h))
    | inl early ↦ elim (Option-cases (polls k)) [
      | inl e ↦ absurd (cc (rw (early, e) at h))
      | inr (last, e) ↦ elim (Bool-cases (is_filled last.status)) [
        | inl hit ↦
            let same : last ≡ report = filled_as-injective last report (rw (early, e, hit) at h) in
            (
              k,
              e ∙ ap (λ r. some r) same,
              subst (λ (r : OrderReport F). is_filled r.status ≡ true) same hit,
              ltb→lt _ _ early,
            )
        | inr miss ↦ elim (Bool-cases (is_dead last.status)) [
          | inl over ↦ absurd (cc (rw (early, e, miss, over) at h))
          | inr open_still ↦
              wait_loop_filled fuel (suc k) report (rw (early, e, miss, open_still) at h)
        ]
      ]
    ]
  ]

Waited-cases :
    {F : Type 0} (w : Waited F)
    → w ≢ out_of_fuel
    → (w ≡ broker_error) ⊎ ((r : OrderReport F) × (w ≡ filled_as r))
Waited-cases (filled_as r) ends = inr (r, refl)
Waited-cases broker_error ends = inl refl
Waited-cases out_of_fuel ends = absurd (ends refl)

module _ {F : Type 0} (polls : ℕ → Option (OrderReport F)) (clock : ℕ → ℕ) where
  -- Alpaca's wait ends, within 21 polls: with an error, or with a report of the order that the broker gave
  -- within ten seconds and whose status is "filled". Each poll is at least 500 ms after the last one, as
  -- `time.sleep` provides.
  pub alpaca_wait_for_fill_ends :
      ((k : ℕ) → 500 * k ≤ clock k)
      → (alpaca_wait_for_fill polls clock ≡ broker_error)
        ⊎ ((r : OrderReport F) × (alpaca_wait_for_fill polls clock ≡ filled_as r)
            × ((j : ℕ) × (polls j ≡ some r) × (r.status ≡ "filled") × (clock j < 10000)))
  unfolding alpaca_wait_for_fill
  alpaca_wait_for_fill_ends sleeps =
      elim (Waited-cases _
        (wait_loop_ends polls clock alpaca_filled alpaca_dead 10000 20 0 20 (sleeps 20) refl)) [
          | inl e ↦ inl e
          | inr (r, e) ↦
              let (j, got, hit, early) =
                wait_loop_filled polls clock alpaca_filled alpaca_dead 10000 21 0 r e in
              inr (r, e, (j, got, (eq_iff r.status "filled").0 hit, early))
        ]

  -- The same of IBKR's wait: within 16 polls, 15 seconds and polls at least a second apart, and the status
  -- is "filled" in any case of its letters.
  pub ibkr_wait_for_fill_ends :
      ((k : ℕ) → 1000 * k ≤ clock k)
      → (ibkr_wait_for_fill polls clock ≡ broker_error)
        ⊎ ((r : OrderReport F) × (ibkr_wait_for_fill polls clock ≡ filled_as r)
            × ((j : ℕ) × (polls j ≡ some r) × (str_lower r.status ≡ "filled") × (clock j < 15000)))
  unfolding ibkr_wait_for_fill
  ibkr_wait_for_fill_ends sleeps =
      elim (Waited-cases _
        (wait_loop_ends polls clock ibkr_filled ibkr_dead 15000 15 0 15 (sleeps 15) refl)) [
          | inl e ↦ inl e
          | inr (r, e) ↦
              let (j, got, hit, early) =
                wait_loop_filled polls clock ibkr_filled ibkr_dead 15000 16 0 r e in
              inr (r, e, (j, got, (eq_iff (str_lower r.status) "filled").0 hit, early))
        ]

trading_mode-live :
    (mode_var ack_var : Option String)
    → trading_mode mode_var ack_var ≡ live
    → (str_lower (str_strip (setting mode_var "off")) ≡ "live")
      × (setting ack_var "" ≡ live_ack_phrase)
unfolding trading_mode
trading_mode-live mode_var ack_var h = ground (
  arith,
  eq_iff (str_lower (str_strip (setting mode_var "off"))) "live",
  eq_iff (setting ack_var "") live_ack_phrase,
)

router-alpaca :
    (env : Environment) (is_live : Bool)
    → router env ≡ ok (alpaca_router is_live)
    → (alpaca_client env ≡ some is_live) × (ibkr_client env ≡ none)
unfolding router
router-alpaca env is_live h = ground arith

router-ibkr :
    (env : Environment) (mode : TradingMode)
    → router env ≡ ok (ibkr_router mode)
    → (ibkr_client env ≡ some mode) × (alpaca_client env ≡ none)
unfolding router
router-ibkr env mode h = ground arith

alpaca_client-live :
    (env : Environment)
    → alpaca_client env ≡ some true
    → (str_lower (str_strip (setting env.alpaca_trading_mode "off")) ≡ "live")
      × (setting env.alpaca_live_trading_ack "" ≡ live_ack_phrase)
unfolding alpaca_client
alpaca_client-live env h =
    ground (arith, trading_mode-live env.alpaca_trading_mode env.alpaca_live_trading_ack)

ibkr_client-live :
    (env : Environment)
    → ibkr_client env ≡ some live
    → (str_lower (str_strip (setting env.ibkr_trading_mode "off")) ≡ "live")
      × (setting env.ibkr_live_trading_ack "" ≡ live_ack_phrase)
unfolding ibkr_client
ibkr_client-live env h =
    ground (arith, trading_mode-live env.ibkr_trading_mode env.ibkr_live_trading_ack)

-- Orders go to a live account only if the acknowledgement is, letter for letter, the phrase that the
-- broker's module asks for, the broker's mode is "live" up to case and blanks, and the other broker is not
-- switched on.
pub router_live :
    (env : Environment) (r : Router)
    → router env ≡ ok r
    → (str_eq (route_name r) "alpaca-live" || str_eq (route_name r) "ibkr-live") ≡ true
    → ((r ≡ alpaca_router true)
        × (setting env.alpaca_live_trading_ack "" ≡ live_ack_phrase)
        × (str_lower (str_strip (setting env.alpaca_trading_mode "off")) ≡ "live")
        × (ibkr_client env ≡ none))
      ⊎ ((r ≡ ibkr_router live)
          × (setting env.ibkr_live_trading_ack "" ≡ live_ack_phrase)
          × (str_lower (str_strip (setting env.ibkr_trading_mode "off")) ≡ "live")
          × (alpaca_client env ≡ none))
router_live env paper_router h goes_live = absurd (cc)
router_live env (alpaca_router false) h goes_live = absurd (cc)
router_live env (alpaca_router true) h goes_live =
    let (client, other) = router-alpaca env true h in
    let (mode, ack) = alpaca_client-live env client in inl (refl, ack, mode, other)
router_live env (ibkr_router off) h goes_live = absurd (cc)
router_live env (ibkr_router paper) h goes_live = absurd (cc)
router_live env (ibkr_router live) h goes_live =
    let (client, other) = router-ibkr env live h in
    let (mode, ack) = ibkr_client-live env client in inr (refl, ack, mode, other)
