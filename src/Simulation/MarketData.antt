-- ===== src/Simulation/MarketData.antt =====
-- MarketDataHandler of simulation/traders/market_maker.h: the order books and the recent trades that a
-- trader knows. The JSON of a message is read by a library: a message is what was read.
use elsa_fyp.Prelude.{
  ℕ, ◌+◌, ◌-◌, ◌%◌, ◌^◌, ◌&&◌, ◌≤◌, ◌≡◌, ◌≢◌, ltb, if◌then◌else◌, Bool-cases, inl, inr, ℤ, pos,
  String, Option, some, none, List, [], ◌∷◌, ◌++◌, length, length-append, Map, eqb, lookup, insert,
  string_eq, lookup-insert_self, lookup-insert_ne, arith,
}
use elsa_fyp.Gateway.Fix.{Fix}
use elsa_fyp.Simulation.MarketMaker.{Arithmetic}

module _ (fix : Fix) where
  pub record OrderBookSnapshot : Type 0 where
    pub best_bid_price : fix.Double
    pub best_bid_qty : fix.Double
    pub best_ask_price : fix.Double
    pub best_ask_qty : fix.Double

  pub record TradeInfo : Type 0 where
    pub price : fix.Double
    pub quantity : fix.Double
    pub timestamp : ℤ

  pub record TradeStats : Type 0 where
    pub sum_x : fix.Double
    pub sum_x2 : fix.Double
    pub count : ℕ

  -- The first bid and the first ask, with price and quantity, if there are any.
  pub data Feed : Type 0 where
    traded : (ticker : String) → TradeInfo → Feed
    booked : (ticker : String) → (bid ask : Option (fix.Double × fix.Double)) → Feed

  pub record MarketDataHandler : Type 0 where
    pub trades : Map String (List TradeInfo)
    pub trade_stats : Map String TradeStats
    pub orderbooks : Map String OrderBookSnapshot

-- An entry of a map, which a first access makes.
abbrev pub entry : {V : Type 0} → V → Option V → V
entry initial none = initial
entry initial (some v) = v

abbrev pub max_trades_window : ℕ
max_trades_window = 1000

module _ (fix : Fix) (ops : Arithmetic fix) where
  abbrev pub zero_value : fix.Double
  zero_value = fix.of_int (pos 0)

  abbrev pub no_stats : TradeStats fix
  no_stats = record { sum_x = zero_value; sum_x2 = zero_value; count = 0 }

  abbrev pub no_book : OrderBookSnapshot fix
  no_book = record {
    best_bid_price = zero_value;
    best_bid_qty = zero_value;
    best_ask_price = zero_value;
    best_ask_qty = zero_value;
  }

  unfoldable pub mid_price : OrderBookSnapshot fix → fix.Double
  mid_price ob =
      if ops.positive ob.best_bid_price && ops.positive ob.best_ask_price
      then fix.divide (ops.add ob.best_bid_price ob.best_ask_price) (fix.of_int (pos 2))
      else zero_value

  abbrev pub add_trade : TradeStats fix → fix.Double → TradeStats fix
  add_trade s price = record {
    sum_x = ops.add s.sum_x price;
    sum_x2 = ops.add s.sum_x2 (fix.multiply price price);
    count = (s.count + 1) % 2 ^ 64;
  }

  abbrev pub remove_trade : TradeStats fix → fix.Double → TradeStats fix
  remove_trade s price = record {
    sum_x = ops.subtract s.sum_x price;
    sum_x2 = ops.subtract s.sum_x2 (fix.multiply price price);
    count = (s.count + 2 ^ 64 - 1) % 2 ^ 64;
  }

  unfoldable pub get_variance : TradeStats fix → fix.Double
  get_variance s =
      let mean_square = fix.divide (fix.multiply s.sum_x s.sum_x) (fix.of_int (pos s.count)) in
      let var = fix.divide (ops.subtract s.sum_x2 mean_square) (fix.of_int (pos (s.count - 1))) in
      if ltb s.count 2 then zero_value else if ops.positive var then var else zero_value

  abbrev pub trades_of : MarketDataHandler fix → String → List (TradeInfo fix)
  trades_of h ticker = entry [] (lookup ticker h.trades)

  abbrev pub stats_of : MarketDataHandler fix → String → TradeStats fix
  stats_of h ticker = entry no_stats (lookup ticker h.trade_stats)

  -- The trades and the statistics of a ticker after the oldest trade has left a window that is full.
  abbrev pub slide : List (TradeInfo fix) → TradeStats fix → List (TradeInfo fix) × TradeStats fix
  slide [] s = ([], s)
  slide (oldest ∷ rest) s =
      if ltb max_trades_window (length (oldest ∷ rest))
      then (rest, remove_trade s oldest.price)
      else (oldest ∷ rest, s)

  abbrev pub side_of : Option (fix.Double × fix.Double) → fix.Double × fix.Double
  side_of none = (zero_value, zero_value)
  side_of (some level) = level

  unfoldable pub process_message : Feed fix → MarketDataHandler fix → MarketDataHandler fix
  process_message (traded ticker t) h =
      let (trades, stats) =
        slide (trades_of h ticker ++ t ∷ []) (add_trade (stats_of h ticker) t.price) in
      record h {
        trades = insert ticker trades h.trades;
        trade_stats = insert ticker stats h.trade_stats;
      }
  process_message (booked ticker bid ask) h =
      let (bid_price, bid_qty) = side_of bid in
      let (ask_price, ask_qty) = side_of ask in
      record h {
        orderbooks =
            insert ticker
              (record {
                best_bid_price = bid_price;
                best_bid_qty = bid_qty;
                best_ask_price = ask_price;
                best_ask_qty = ask_qty;
              })
              h.orderbooks;
      }

  unfoldable pub get_latest_orderbook : MarketDataHandler fix → String → OrderBookSnapshot fix
  get_latest_orderbook h ticker = entry no_book (lookup ticker h.orderbooks)

  unfoldable pub calculate_variance : MarketDataHandler fix → String → fix.Double
  unfolding get_variance
  calculate_variance h ticker = get_variance (stats_of h ticker)

  -- The window of a ticker: at most as many trades as it takes, all of them counted.
  pub record Window (trades : List (TradeInfo fix)) (stats : TradeStats fix) : Type 0 where
    pub length_le : length trades ≤ max_trades_window
    pub counted : stats.count ≡ length trades

  slide-Window :
      (trades : List (TradeInfo fix)) (s : TradeStats fix)
      → length trades ≤ max_trades_window + 1
      → s.count ≡ length trades
      → Window (slide trades s).0 (slide trades s).1
  slide-Window [] s le e = record { length_le = omega arith; counted = e }
  slide-Window (oldest ∷ rest) s le e =
      elim (Bool-cases (ltb max_trades_window (length (oldest ∷ rest)))) [
        | inl over ↦ rw over (record { length_le = omega arith; counted = omega arith })
        | inr fits ↦ rw fits (record { length_le = ground arith; counted = e })
      ]

  -- The handler keeps, for every ticker, at most 1000 trades, and counts in the statistics exactly the
  -- trades that it keeps.
  pub process_message-Window :
      (message : Feed fix) (h : MarketDataHandler fix)
      → ((ticker : String) → Window (trades_of h ticker) (stats_of h ticker))
      → (ticker : String)
      → Window
          (trades_of (process_message message h) ticker)
          (stats_of (process_message message h) ticker)
  unfolding process_message
  process_message-Window (booked other bid ask) h v ticker = v ticker
  process_message-Window (traded other t) h v ticker = elim (Bool-cases (eqb ticker other)) [
    | inl same ↦
        let here : ticker ≡ other = (string_eq.beq_iff ticker other).0 same in
        let w = v other in
        let slid =
          slide-Window (trades_of h other ++ t ∷ []) (add_trade (stats_of h other) t.price)
            (omega (arith, length-append (trades_of h other) (t ∷ []), w.length_le))
            (omega (arith, length-append (trades_of h other) (t ∷ []), w.length_le, w.counted)) in
        rw (here, lookup-insert_self other _ h.trades, lookup-insert_self other _ h.trade_stats)
          slid
    | inr differs ↦
        let apart : ticker ≢ other =
          λ e. absurd (let k = (string_eq.beq_iff ticker other).1 e in cc) in
        rw
          (
            lookup-insert_ne ticker other _ h.trades apart,
            lookup-insert_ne ticker other _ h.trade_stats apart,
          )
          (v ticker)
  ]
