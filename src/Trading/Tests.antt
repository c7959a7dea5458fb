-- ===== src/Trading/Tests.antt =====
-- Runs of the trading endpoints, with whole numbers for the floats: a trader of tenant 7, one working buy
-- order at 10, and a paper desk whose risk feed knows no symbol.
use kdb_distributed_controlp.Prelude.{
  ℕ, ◌+◌, ◌-◌, ◌*◌, ◌/◌, ◌<◌, ◌≡◌, ◌⊎◌, refl, Bool, true, false, none, some, List, [], ◌∷◌, arith,
  ok, leb, ltb, ◌==◌, if◌then◌else◌, not, ◌&&◌,
}
use kdb_distributed_controlp.Prelude.Text.{decimal, str_lower, str_upper, str_strip}
use kdb_distributed_controlp.Prelude.Exec.{◌>>=◌, ◌>>◌}
use kdb_distributed_controlp.Fleet.Store.{CurrentUser, functional_user}
use kdb_distributed_controlp.Accounts.Store.{User, find_user}
use kdb_distributed_controlp.Trading.Floats.{FloatOps}
use kdb_distributed_controlp.Trading.Store.{Order, new, filled, TradeDb, find_order, Submission}
use kdb_distributed_controlp.Trading.Brokers.{
  Environment, OrderReport, Waited, broker_error, filled_as, alpaca_wait_for_fill,
  ibkr_wait_for_fill, alpaca_client, ibkr_client, malformed, trading_mode, setting, live_ack_phrase,
  wait_loop,
}
use kdb_distributed_controlp.Trading.Oms.{
  alpaca_fill, affordable, Router, alpaca_router, ibkr_router, route_name,
}
use kdb_distributed_controlp.Trading.Router.{Desk, router}
use kdb_distributed_controlp.Trading.Endpoints.{OrderBody, place_order}
use kdb_distributed_controlp.Trading.Steps.{Steps}
use kdb_distributed_controlp.Trading.Numbering.{IsNumbered}
use kdb_distributed_controlp.Trading.Placing.{Admits}
use kdb_distributed_controlp.Trading.History.{
  TradeRequest, places, matches_at, cancels_order, serve_trades, closed_order_final,
}
use kdb_distributed_controlp.Trading.Sending.{place_order_submits}
use kdb_distributed_controlp.Trading.Waiting.{
  alpaca_wait_for_fill_ends, ibkr_wait_for_fill_ends, router_live,
}
use kdb_distributed_controlp.Trading.Brokers

-- whole numbers, by sign and size
data Whole : Type 0 where
  plus minus : ℕ → Whole

abbrev difference : ℕ → ℕ → Whole
difference a b = if leb b a then plus (a - b) else minus (b - a)

abbrev sum_of : Whole → Whole → Whole
sum_of (plus a) (plus b) = plus (a + b)
sum_of (plus a) (minus b) = difference a b
sum_of (minus a) (plus b) = difference b a
sum_of (minus a) (minus b) = minus (a + b)

abbrev opposite : Whole → Whole
opposite (plus a) = minus a
opposite (minus a) = plus a

abbrev size : Whole → ℕ
size (plus a) = a
size (minus a) = a

abbrev by_signs : Whole → Whole → ℕ → Whole
by_signs (plus _) (plus _) n = plus n
by_signs (minus _) (minus _) n = plus n
by_signs _ _ n = minus n

abbrev below : Whole → Whole → Bool
below (plus a) (plus b) = ltb a b
below (plus a) (minus b) = false
below (minus a) (plus b) = not (a == 0 && b == 0)
below (minus a) (minus b) = ltb b a

abbrev whole : FloatOps Whole
whole = record {
  zero = plus 0;
  one = plus 1;
  hundred = plus 100;
  add = sum_of;
  sub = λ a b. sum_of a (opposite b);
  mul = λ a b. by_signs a b (size a * size b);
  div = λ a b. by_signs a b (size a / size b);
  neg = opposite;
  abs = λ a. plus (size a);
  lt = below;
  eq = λ a b. not (below a b) && not (below b a);
  text = λ a. decimal (size a);
}

abbrev no_env : Environment
no_env = record {
  alpaca_trading_mode = none;
  alpaca_live_trading_ack = none;
  alpaca_api_key_id = none;
  alpaca_api_secret_key = none;
  ibkr_trading_mode = none;
  ibkr_live_trading_ack = none;
}

abbrev paper_desk : Desk Whole
paper_desk = record {
  env = no_env;
  alpaca = record {
    tradable = λ s. true;
    buying_power = none;
    accepts = λ s. none;
    polls = λ id k. none;
    clock = λ k. 500 * k;
  };
  ibkr = record {
    primary_account = λ k. none;
    conid = λ s. none;
    answers = λ s k. malformed;
    polls = λ id k. none;
    clock = λ k. 1000 * k;
  };
  risk = record {
    risk_rows = λ s. some [];
    recent_prices = λ s. none;
    realized_vol = λ prices. plus 0;
    risk_gate_fail_open = false;
    risk_max_realized_vol_annualized = plus 0;
    risk_max_daily_loss = plus 0;
    risk_max_symbol_concentration_pct = plus 0;
    today = 20000;
  };
}

abbrev dealer : User
dealer = record {
  id = 4;
  tenant_id = some 7;
  email = "dee@acme.com";
  password_hash = "";
  role = functional_user;
  active = true;
  can_trade = true;
}

abbrev by_dealer : CurrentUser
by_dealer = record {
  user_id = 4;
  email = "dee@acme.com";
  role = functional_user;
  tenant_id = some 7;
}

abbrev working : Order Whole
working = record {
  id = 1;
  tenant_id = 7;
  user_email = "dee@acme.com";
  symbol = "AAPL";
  side = "buy";
  qty = plus 5;
  order_type = "limit";
  limit_price = some (plus 10);
  status = new;
  route = "paper";
  fill_price = none;
}

abbrev closed : Order Whole
closed = record working { id = 0; status = filled; fill_price = some (plus 10) }

abbrev floor : TradeDb Whole
floor = record {
  orders = closed ∷ working ∷ [];
  next_order = 2;
  positions = [];
  baselines = [];
  users = dealer ∷ [];
  events = [];
  submitted = [];
}

floor-IsNumbered : IsNumbered floor
floor-IsNumbered = record { numbered = (omega arith, (omega arith, omega arith)) }

abbrev buy_two : OrderBody Whole
buy_two = record {
  symbol = "msft";
  side = "BUY";
  qty = plus 2;
  order_type = "market";
  limit_price = none;
  ref_price = some (plus 30);
}

abbrev day : List (TradeRequest Whole)
day =
    places paper_desk buy_two by_dealer
    ∷ matches_at paper_desk "aapl" (plus 9) by_dealer
    ∷ cancels_order 0 by_dealer
    ∷ []

closed_order_final_example : find_order 0 (serve_trades whole day floor).orders ≡ some closed
unfolding find_order
closed_order_final_example =
    closed_order_final whole day floor 0 closed floor-IsNumbered refl (λ e. absurd (cc))

abbrev report_filled : OrderReport Whole
report_filled = record { status = "filled"; filled_avg_price = some (plus 30); filled_qty = none }

-- a desk that is switched to Alpaca's paper account
abbrev alpaca_desk : Desk Whole
alpaca_desk = record paper_desk {
  env = record no_env {
    alpaca_trading_mode = some "paper";
    alpaca_api_key_id = some "key";
    alpaca_api_secret_key = some "secret";
  };
  alpaca = record {
    tradable = λ s. true;
    buying_power = some (plus 100);
    accepts = λ s. some "o-1";
    polls = λ id k. some report_filled;
    clock = λ k. 500 * k;
  };
}

abbrev msft_sent : Submission Whole
msft_sent = record {
  broker = "alpaca-paper";
  symbol = "MSFT";
  side = "buy";
  qty = plus 2;
  order_type = "market";
  limit_price = none;
}

msft_submitted :
    (place_order whole alpaca_desk buy_two by_dealer floor).1.submitted ≡ msft_sent ∷ []
unfolding place_order router alpaca_client ibkr_client find_user ◌>>=◌ ◌>>◌ str_lower str_strip
    str_upper alpaca_fill affordable
msft_submitted = refl

place_order_submits_example :
    ((place_order whole alpaca_desk buy_two by_dealer floor).1.submitted ≡ floor.submitted)
    ⊎ (Admits whole alpaca_desk buy_two by_dealer floor
        × ((s : Submission Whole) × (r : Router) × (router alpaca_desk.env ≡ ok r)
            × (s.broker ≡ route_name r)
            × ((place_order whole alpaca_desk buy_two by_dealer floor).1.submitted
                ≡ s ∷ floor.submitted)))
place_order_submits_example = place_order_submits whole alpaca_desk buy_two by_dealer floor

alpaca_wait_for_fill_ends_example :
    (alpaca_wait_for_fill (λ k. some report_filled) (λ k. 500 * k) ≡ broker_error)
    ⊎ ((r : OrderReport Whole) × (alpaca_wait_for_fill (λ k. some report_filled) (λ k. 500 * k)
          ≡ filled_as r)
        × ((j : ℕ) × (some report_filled ≡ some r) × (r.status ≡ "filled") × (500 * j < 10000)))
alpaca_wait_for_fill_ends_example =
    alpaca_wait_for_fill_ends (λ k. some report_filled) (λ k. 500 * k) (λ k. omega arith)

ibkr_wait_for_fill_ends_example :
    (ibkr_wait_for_fill (λ k. some report_filled) (λ k. 1000 * k) ≡ broker_error)
    ⊎ ((r : OrderReport Whole) × (ibkr_wait_for_fill (λ k. some report_filled) (λ k. 1000 * k)
          ≡ filled_as r)
        × ((j : ℕ) × (some report_filled ≡ some r)
            × (str_lower r.status ≡ "filled")
            × (1000 * j < 15000)))
ibkr_wait_for_fill_ends_example =
    ibkr_wait_for_fill_ends (λ k. some report_filled) (λ k. 1000 * k) (λ k. omega arith)

abbrev live_env : Environment
live_env = record no_env {
  alpaca_trading_mode = some " Live ";
  alpaca_live_trading_ack = some "I_UNDERSTAND_THIS_TRADES_REAL_MONEY";
  alpaca_api_key_id = some "key";
  alpaca_api_secret_key = some "secret";
}

router_live_example :
    ((alpaca_router true ≡ alpaca_router true)
      × (setting live_env.alpaca_live_trading_ack "" ≡ live_ack_phrase)
      × (str_lower (str_strip (setting live_env.alpaca_trading_mode "off")) ≡ "live")
      × (ibkr_client live_env ≡ none))
    ⊎ ((alpaca_router true ≡ ibkr_router Brokers.live)
        × (setting live_env.ibkr_live_trading_ack "" ≡ live_ack_phrase)
        × (str_lower (str_strip (setting live_env.ibkr_trading_mode "off")) ≡ "live")
        × (alpaca_client live_env ≡ none))
unfolding router alpaca_client ibkr_client str_lower str_strip
router_live_example = router_live live_env (alpaca_router true) refl refl
