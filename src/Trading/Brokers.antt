-- ===== src/Trading/Brokers.antt =====
-- The brokers' clients of control-api/app/alpaca_broker.py and ibkr_broker.py. What the broker's servers
-- answer is a parameter; the environment's variables are a function, the clock counts milliseconds from
-- the start of the wait.
use kdb_distributed_controlp.Prelude.{
  ℕ, zero, suc, String, Bool, true, false, not, ◌&&◌, ◌||◌, Option, none, some, if◌then◌else◌,
  str_eq, ltb, is_some,
}
use kdb_distributed_controlp.Prelude.Text.{str_lower, str_upper, str_strip, strip_prefix}

pub data TradingMode : Type 0 where
  off paper live : TradingMode

abbrev pub mode_name : TradingMode → String
mode_name off = "off"
mode_name paper = "paper"
mode_name live = "live"

abbrev pub live_ack_phrase : String
live_ack_phrase = "I_UNDERSTAND_THIS_TRADES_REAL_MONEY"

-- `os.environ.get(name, default)`
abbrev pub setting : Option String → String → String
setting none default = default
setting (some value) default = value

-- `trading_mode` of both modules, with the values of the two variables
unfoldable pub trading_mode : Option String → Option String → TradingMode
trading_mode mode_var ack_var =
    let mode = str_lower (str_strip (setting mode_var "off")) in
    if str_eq mode "live"
    then if str_eq (setting ack_var "") live_ack_phrase then live else paper
    else if str_eq mode "paper"
    then paper
    else off

pub record Environment : Type 0 where
  pub alpaca_trading_mode : Option String
  pub alpaca_live_trading_ack : Option String
  pub alpaca_api_key_id : Option String
  pub alpaca_api_secret_key : Option String
  pub ibkr_trading_mode : Option String
  pub ibkr_live_trading_ack : Option String

abbrev is_off : TradingMode → Bool
is_off off = true
is_off _ = false

abbrev is_live : TradingMode → Bool
is_live live = true
is_live _ = false

-- `alpaca_broker.client_from_env`: the client's `live`
unfoldable pub alpaca_client : Environment → Option Bool
unfolding trading_mode
alpaca_client env =
    let mode = trading_mode env.alpaca_trading_mode env.alpaca_live_trading_ack in
    if is_off mode
    then none
    else if str_eq (setting env.alpaca_api_key_id "") ""
        || str_eq (setting env.alpaca_api_secret_key "") ""
    then none
    else some (is_live mode)

-- `ibkr_broker.client_from_env`, with the mode that the router is made with
unfoldable pub ibkr_client : Environment → Option TradingMode
unfolding trading_mode
ibkr_client env =
    let mode = trading_mode env.ibkr_trading_mode env.ibkr_live_trading_ack in
    if is_off mode then none else some mode

-- An order as the broker reports it; a missing or empty number is `none`.
pub record OrderReport (F : Type 0) : Type 0 where
  pub status : String
  pub filled_avg_price : Option F
  pub filled_qty : Option F

-- How a wait ends: with the filled order, with an error of the broker, or, of the model only, without
-- fuel.
pub data Waited (F : Type 0) : Type 0 where
  filled_as : OrderReport F → Waited F
  broker_error : Waited F
  out_of_fuel : Waited F

abbrev pub alpaca_filled : String → Bool
alpaca_filled status = str_eq status "filled"

abbrev pub alpaca_dead : String → Bool
alpaca_dead status = str_eq status "rejected" || str_eq status "canceled" || str_eq status "expired"

abbrev pub ibkr_filled : String → Bool
ibkr_filled status = str_eq (str_lower status) "filled"

abbrev pub ibkr_dead : String → Bool
ibkr_dead status =
    let s = str_lower status in
    str_eq s "cancelled" || str_eq s "canceled" || str_eq s "rejected" || str_eq s "inactive"

module _ {F : Type 0} where
  -- What the k-th poll of an order gives (`none`: it raises), the clock at the k-th test of the loop, and
  -- the statuses that end the wait.
  module _ (polls : ℕ → Option (OrderReport F)) (clock : ℕ → ℕ) (is_filled is_dead : String → Bool)
      (timeout : ℕ) where
    unfoldable pub wait_loop : ℕ → ℕ → Waited F
    wait_loop zero k = out_of_fuel
    wait_loop (suc fuel) k =
        let rest = wait_loop fuel (suc k) in
        if ltb (clock k) timeout
        then elim (polls k) [
          | none ↦ broker_error
          | some last ↦
              if is_filled last.status
              then filled_as last
              else if is_dead last.status
              then broker_error
              else rest
        ]
        else broker_error

  -- `AlpacaClient.wait_for_fill`: 10 s, and a pause of 500 ms between polls
  unfoldable pub alpaca_wait_for_fill : (ℕ → Option (OrderReport F)) → (ℕ → ℕ) → Waited F
  unfolding wait_loop
  alpaca_wait_for_fill polls clock = wait_loop polls clock alpaca_filled alpaca_dead 10000 21 0

  -- `IBKRClient.wait_for_fill`: 15 s, and a pause of 1 s
  unfoldable pub ibkr_wait_for_fill : (ℕ → Option (OrderReport F)) → (ℕ → ℕ) → Waited F
  unfolding wait_loop
  ibkr_wait_for_fill polls clock = wait_loop polls clock ibkr_filled ibkr_dead 15000 16 0

-- `account_id.upper().startswith("DU")`
abbrev pub looks_paper : String → Bool
looks_paper account = is_some (strip_prefix "DU" (str_upper account))

-- `verify_account_matches_mode`: whether it refuses the account (`none`: there is none, or the gateway
-- did not say)
unfoldable pub account_mismatch : Option String → TradingMode → Bool
account_mismatch none mode = false
account_mismatch (some account) paper = not (str_eq account "") && not (looks_paper account)
account_mismatch (some account) live = not (str_eq account "") && looks_paper account
account_mismatch (some account) off = false

-- What the gateway answers to an order or a confirmation: an order's id, a reply to confirm, or neither.
pub data OrderResponse : Type 0 where
  placed : String → OrderResponse
  confirm : OrderResponse
  malformed : OrderResponse

-- the confirmation loop of `IBKRClient.submit_order`, with the k-th answer
unfoldable pub confirm_loop : (ℕ → OrderResponse) → ℕ → ℕ → Option String
confirm_loop answers zero k = none
confirm_loop answers (suc rounds) k =
    let rest = confirm_loop answers rounds (suc k) in
    elim (answers k) [ placed id ↦ some id | confirm ↦ rest | malformed ↦ none ]

abbrev pub max_confirmations : ℕ
max_confirmations = 5
