-- ===== src/Engine/Order.antt =====
-- services/matching_engine/src/order.{h,cpp}, libs/core/trade.h and `create_trade` of
-- limit_order_book.cpp. Ids, prices and quantities of resting orders are natural numbers: the
-- contracts of `add_order` and `create_trade` admit no others.
pub use Prim.Native.String.{len}
use elsa_fyp.Prelude.{
  ℕ, ◌-◌, ltb, leb, ◌==◌, not, ◌&&◌, Bool, String, Outcome, ok, contract, assertion, require, ◌>>◌,
}
use elsa_fyp.Core.Orders.{Side, is_bid}

pub record Order : Type 0 where
  pub order_id : ℕ
  pub price : ℕ
  pub quantity : ℕ
  pub side : Side
  pub trader_id : String

-- `Order::fill`
unfoldable pub fill : Order → ℕ → Outcome Order
fill o n = do require (leb n o.quantity) contract; ok (record o { quantity = o.quantity - n })

pub record Trade : Type 0 where
  pub ticker : String
  pub price : ℕ
  pub quantity : ℕ
  pub trade_id : String
  pub taker_id : String
  pub maker_id : String
  pub taker_order_id : ℕ
  pub maker_order_id : ℕ
  pub is_taker_buyer : Bool
  pub create_timestamp : ℕ

-- What a call draws from the UUID generator and from the clock.
pub record Stamp : Type 0 where
  pub trade_id : String
  pub now_ts_ms : ℕ

-- A text that a buffer of `size` bytes holds with its final zero.
abbrev pub fits_buffer : String → ℕ → Bool
fits_buffer s size = ltb 0 (len s) && ltb (len s) size

abbrev pub max_ticker_length : ℕ
max_ticker_length = 5

abbrev pub max_username_length : ℕ
max_username_length = 16

abbrev pub uuid_length : ℕ
uuid_length = 37

-- The constructor of `Trade`, with its assertions.
unfoldable pub make_trade : Trade → Outcome Trade
make_trade t = do
  require (fits_buffer t.ticker max_ticker_length) assertion
  require (fits_buffer t.trade_id uuid_length) assertion
  require (fits_buffer t.taker_id max_username_length) assertion
  require (fits_buffer t.maker_id max_username_length) assertion
  ok t

-- The contract leaves out the tests `order_id >= 0`, which natural numbers pass.
unfoldable pub create_trade :
    Stamp
    → (taker_order_id maker_order_id : ℕ) (taker_id maker_id ticker : String)
    → (price quantity : ℕ) (taker_side : Side) → Outcome Trade
unfolding make_trade
create_trade s taker_order_id maker_order_id taker_id maker_id ticker price quantity taker_side = do
  require (not (taker_order_id == maker_order_id)) contract
  require (ltb 0 (len taker_id)) contract
  require (ltb 0 (len maker_id)) contract
  require (ltb 0 (len ticker)) contract
  require (ltb 0 price) contract
  require (ltb 0 quantity) contract
  make_trade (record {
    ticker = ticker;
    price = price;
    quantity = quantity;
    trade_id = s.trade_id;
    taker_id = taker_id;
    maker_id = maker_id;
    taker_order_id = taker_order_id;
    maker_order_id = maker_order_id;
    is_taker_buyer = is_bid taker_side;
    create_timestamp = s.now_ts_ms;
  })
