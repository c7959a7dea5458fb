-- ===== src/Trading/Book.antt =====
-- The positions as an abstract book: for each tenant and symbol a quantity, an average price and a realized
-- profit. The table of positions implements it, and every history of requests is a replay of its trades.
use kdb_distributed_controlp.Prelude.{ℕ, String, ◌&&◌, List, [], ◌∷◌, if◌then◌else◌, ◌==◌, str_eq}
use kdb_distributed_controlp.Trading.Floats.{FloatOps}
use kdb_distributed_controlp.Trading.Store.{Position, TradeDb}
use kdb_distributed_controlp.Trading.Oms.{apply_to_position}
use kdb_distributed_controlp.Trading.Router.{position_or_new}
use kdb_distributed_controlp.Trading.Steps.{Deal, Steps}

module _ {F : Type 0} (fl : FloatOps F) where
  open fl use {add}

  -- a tenant's holding in a symbol: quantity, average price, realized profit
  abbrev pub Book : Type 0
  Book = ℕ → String → F × F × F

  -- what a trade does to a holding
  unfoldable pub traded : Deal F → F × F × F → F × F × F
  traded d (qty, avg, pnl) =
      let (new_qty, new_avg, realized) = apply_to_position fl qty avg d.side d.qty d.price in
      (new_qty, new_avg, add pnl realized)

  -- one trade: the holding of its tenant in its symbol changes, the others stay
  unfoldable pub book_trade : Deal F → Book → Book
  book_trade d b tenant symbol =
      if d.tenant == tenant && str_eq d.symbol symbol
      then traded d (b tenant symbol)
      else b tenant symbol

  unfoldable pub replay : List (Deal F) → Book → Book
  replay [] b = b
  replay (d ∷ ds) b = replay ds (book_trade d b)

  -- the holding that the table of positions has; nothing, if it has none
  unfoldable pub book_of : TradeDb F → Book
  book_of db tenant symbol =
      let p = position_or_new fl tenant symbol db.positions in (p.qty, p.avg_price, p.realized_pnl)

  -- what the book says of a row
  abbrev holding : Position F → F × F × F
  holding p = (p.qty, p.avg_price, p.realized_pnl)
