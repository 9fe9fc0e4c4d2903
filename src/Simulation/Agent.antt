-- ===== src/Simulation/Agent.antt =====
-- The class MarketMaker of simulation/traders/market_maker.h: its prices, and a pass over its tickers.
-- What is logged is left out; the time that has passed is an argument.
use elsa_fyp.Prelude.{pos, String, if◌then◌else◌, List, [], ◌∷◌, ◌++◌, string_eq}
use elsa_fyp.Gateway.Fix.{Fix, Message}
use elsa_fyp.Client.FixClient.{Connection}
use elsa_fyp.Simulation.MarketMaker.{
  Arithmetic, MmFixClient, get_inventory, set_inventory, place_quotes,
}
use elsa_fyp.Simulation.MarketData.{
  MarketDataHandler, get_latest_orderbook, calculate_variance, mid_price,
}

-- "Model parameters"
pub record MarketMaker (fix : Fix) : Type 0 where
  pub initial_inventory : fix.Double
  pub lot_size : fix.Double
  pub gamma : fix.Double
  pub k : fix.Double
  pub terminal_time : fix.Double

module _ (fix : Fix) (ops : Arithmetic fix) (agent : MarketMaker fix) where
  -- The inventories that `start` sets.
  unfoldable pub seed : List String → MmFixClient fix → MmFixClient fix
  unfolding set_inventory
  seed [] t = t
  seed (ticker ∷ tickers) t = seed tickers (set_inventory fix ops t ticker agent.initial_inventory)

  -- 0.01 is a quotient of whole numbers.
  unfoldable pub make_market :
      Connection
      → (elapsed : fix.Double) → MarketDataHandler fix
      → MmFixClient fix
      → (ticker : String) → MmFixClient fix × List (Message fix)
  unfolding get_latest_orderbook calculate_variance mid_price place_quotes
  make_market connection elapsed md t ticker =
      let known_price = mid_price fix ops (get_latest_orderbook fix ops md ticker) in
      let mid = if ops.is_zero known_price then fix.of_int (pos 100) else known_price in
      let known_variance = calculate_variance fix ops md ticker in
      let variance =
        if ops.is_zero known_variance
        then fix.divide (fix.of_int (pos 1)) (fix.of_int (pos 100))
        else known_variance in
      let q_centered = ops.subtract (get_inventory fix ops t ticker) agent.initial_inventory in
      let time_left =
        ops.max (fix.of_int (pos 0))
          (fix.divide (ops.subtract agent.terminal_time elapsed) agent.terminal_time) in
      let reservation_price =
        ops.subtract mid
          (fix.multiply (fix.multiply (fix.multiply q_centered agent.gamma) variance) time_left) in
      let depth = ops.log (ops.add (fix.of_int (pos 1)) (fix.divide agent.gamma agent.k)) in
      let spread =
        ops.add (fix.multiply (fix.multiply agent.gamma variance) time_left)
          (fix.multiply (fix.divide (fix.of_int (pos 2)) agent.gamma) depth) in
      let half = fix.divide spread (fix.of_int (pos 2)) in
      place_quotes fix ops connection agent.lot_size t ticker (ops.subtract reservation_price half)
        (ops.add reservation_price half) spread

  -- The body of `run_loop`: one pass over the tickers, each with the time that has passed and the
  -- market data that are known at its turn.
  unfoldable pub quote_all :
      Connection
      → List (String × fix.Double × MarketDataHandler fix)
      → MmFixClient fix
      → MmFixClient fix × List (Message fix)
  unfolding make_market
  quote_all connection [] t = (t, [])
  quote_all connection ((ticker, elapsed, md) ∷ turns) t =
      let (t1, first) = make_market connection elapsed md t ticker in
      let (t2, rest) = quote_all connection turns t1 in (t2, first ++ rest)
