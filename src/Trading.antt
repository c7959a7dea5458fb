-- ===== src/Trading.antt =====
-- Trading: order routing, position keeping and the pre-trade risk gate (control-api/app/oms.py,
-- risk_check.py, portfolio.py, alpaca_broker.py, ibkr_broker.py and routers/trading.py).
pub mod Floats
pub mod Store
pub mod Brokers
pub mod Oms
pub mod Risk
pub mod Router
pub mod Endpoints
pub mod Steps
pub mod Effects
pub mod Placing
pub mod Numbering
pub mod Matching
pub mod History
pub mod Book
pub mod Waiting
pub mod Sending
mod Tests
