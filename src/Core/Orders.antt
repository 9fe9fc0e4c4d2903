-- ===== src/Core/Orders.antt =====
-- libs/core/orders.h and libs/core/constants.h: the enumerations of an order.
use elsa_fyp.Prelude.{ℕ, Bool, true, false}

pub data OrderType : Type 0 where
  limit market : OrderType

pub data Side : Type 0 where
  bid ask : Side

pub data TimeInForce : Type 0 where
  day gtc : TimeInForce

pub data ExecTransType : Type 0 where
  exec_trans_new exec_trans_cancel exec_trans_correct exec_trans_status : ExecTransType

-- `ExecType` and `OrderStatus` are two names of this type.
pub data ExecTypeOrOrderStatus : Type 0 where
  status_new status_partially_filled status_filled : ExecTypeOrOrderStatus
  status_canceled status_pending_cancel status_rejected : ExecTypeOrOrderStatus

abbrev pub opposite : Side → Side
opposite Side.bid = Side.ask
opposite Side.ask = Side.bid

abbrev pub is_bid : Side → Bool
is_bid Side.bid = true
is_bid Side.ask = false

abbrev pub max_user_count : ℕ
max_user_count = 1000

abbrev pub order_book_aggregate_levels : ℕ
order_book_aggregate_levels = 50
