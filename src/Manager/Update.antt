-- ===== src/Manager/Update.antt =====
-- `update_internal_data` of services/order_manager/src/order_manager.cpp: what a trade or a cancel
-- response does to the orders and the balances. Arithmetic on quantities and prices is in `int`.
use elsa_fyp.Prelude.{
  ℤ, pos, ◌+ℤ◌, ◌-ℤ◌, ◌*ℤ◌, ◌/◌, leb_ℤ, ltb_ℤ, eqb_ℤ, String, Option, none, some, if◌then◌else◌,
  lookup, insert, contains, int_eq, Outcome, ok, err, contract, assertion, terminate, overflow,
  out_of_range, require, or_fault, int32, ◌>>=◌, ◌>>◌, pos_part, neg_part, sub_ℕ, ◌+◌,
}
use elsa_fyp.Core.Orders.{Side}
use elsa_fyp.Core.Containers.{Container, TradeContainer, CancelOrderResponse}
use elsa_fyp.Manager.Balances.{BalanceChecker, update_balance}
use elsa_fyp.Manager.Orders.{OrderInfo, OrderInfoMap, usd_symbol}

-- The quotient of two `int`s, truncated towards 0; a division by 0 is undefined.
unfoldable pub quotient : ℤ → ℤ → Outcome ℤ
quotient a b =
    if eqb_ℤ b (pos 0)
    then err overflow
    else (let q = (pos_part a + neg_part a) / (pos_part b + neg_part b) in
        ok (
          if ltb_ℤ a (pos 0)
          then (if ltb_ℤ b (pos 0) then pos q else sub_ℕ 0 q)
          else if ltb_ℤ b (pos 0)
          then sub_ℕ 0 q
          else pos q))

-- One party's order after a trade: the average price is weighted by the quantities.
unfoldable pub filled_info : OrderInfo → TradeContainer → Outcome OrderInfo
unfolding quotient
filled_info i t = do
  paid ← int32 (i.avg_px *ℤ i.cum_qty)
  price ← int32 (t.price *ℤ t.quantity)
  total ← int32 (paid +ℤ price)
  filled ← int32 (t.quantity +ℤ i.cum_qty)
  avg_px ← quotient total filled
  leaves_qty ← int32 (i.leaves_qty -ℤ t.quantity)
  cum_qty ← int32 (i.cum_qty +ℤ t.quantity)
  ok (record i { leaves_qty = leaves_qty; cum_qty = cum_qty; avg_px = avg_px })

unfoldable pub fill_order_info : OrderInfoMap → ℤ → TradeContainer → Outcome OrderInfoMap
unfolding filled_info
fill_order_info infos id t = do
  info ← or_fault (lookup id infos) out_of_range
  info' ← filled_info info t
  ok (insert id info' infos)

abbrev pub buyer_id : TradeContainer → String
buyer_id t = if t.is_taker_buyer then t.taker_id else t.maker_id

abbrev pub seller_id : TradeContainer → String
seller_id t = if t.is_taker_buyer then t.maker_id else t.taker_id

abbrev pub buyer_order_id : TradeContainer → ℤ
buyer_order_id t = if t.is_taker_buyer then t.taker_order_id else t.maker_order_id

-- What a limit buyer reserved above the price of the trade comes back.
unfoldable pub refund_improvement :
    BalanceChecker → TradeContainer → Option ℤ → Outcome BalanceChecker
unfolding update_balance
refund_improvement c t none = ok c
refund_improvement c t (some price) = do
  improvement ← int32 (price -ℤ t.price)
  require (leb_ℤ (pos 0) improvement) assertion
  if ltb_ℤ (pos 0) improvement
      then (do
        refund ← int32 (improvement *ℤ t.quantity)
        update_balance c (buyer_id t) usd_symbol refund)
      else ok c

unfoldable pub settle_trade :
    OrderInfoMap → BalanceChecker → TradeContainer → Outcome BalanceChecker
unfolding refund_improvement update_balance
settle_trade infos c t = do
  bought ← update_balance c (buyer_id t) t.ticker t.quantity
  info ← or_fault (lookup (buyer_order_id t) infos) out_of_range
  refunded ← refund_improvement bought t info.price
  proceeds ← int32 (t.price *ℤ t.quantity)
  update_balance refunded (seller_id t) usd_symbol proceeds

abbrev pub Books : Type 0
Books = OrderInfoMap × BalanceChecker

unfoldable pub handle_trade : OrderInfoMap → BalanceChecker → TradeContainer → Outcome Books
unfolding fill_order_info settle_trade
handle_trade infos c t = do
  require (contains t.taker_order_id infos) contract
  require (contains t.maker_order_id infos) contract
  infos_taker ← fill_order_info infos t.taker_order_id t
  infos_both ← fill_order_info infos_taker t.maker_order_id t
  c' ← settle_trade infos_both c t
  ok (infos_both, c')

-- What a cancelled order had reserved.
unfoldable pub release_reservation : BalanceChecker → OrderInfo → Side → Outcome BalanceChecker
unfolding update_balance
release_reservation c info Side.bid = do
  price ← or_fault info.price assertion
  reserved ← int32 (price *ℤ info.leaves_qty)
  update_balance c info.sender_comp_id usd_symbol reserved
release_reservation c info Side.ask = do
  price ← or_fault info.price assertion
  update_balance c info.sender_comp_id info.symbol info.leaves_qty

unfoldable pub handle_cancel_response :
    OrderInfoMap → BalanceChecker → CancelOrderResponse → Outcome Books
unfolding release_reservation
handle_cancel_response infos c r =
    if r.success
    then (do
      info ← or_fault (lookup r.order_id infos) out_of_range
      c' ← release_reservation c info info.side
      ok (infos, c'))
    else ok (infos, c)

unfoldable pub update_internal_data : OrderInfoMap → BalanceChecker → Container → Outcome Books
unfolding handle_trade handle_cancel_response
update_internal_data infos c (Container.trade t) = handle_trade infos c t
update_internal_data infos c (Container.cancel_order_response r) = handle_cancel_response infos c r
update_internal_data infos c _ = err terminate
