-- ===== src/Manager/Validate.antt =====
-- `validate_container` of services/order_manager/src/order_manager.cpp: the verdict, "ok" or a
-- reason, and the balances after the reservation that goes with "ok".
use Prim.Native.String.{◌++◌ as append}
use elsa_fyp.Prelude.{
  ℤ, pos, ◌-ℤ◌, ◌*ℤ◌, leb_ℤ, String, Option, none, some, List, [], ◌∷◌, if◌then◌else◌, Bool, false,
  not, eqb, string_eq, ◌||◌, Outcome, ok, bad_optional, or_fault, int32, int64, ◌>>=◌,
}
use elsa_fyp.Core.Orders.{Side, OrderType}
use elsa_fyp.Core.Containers.{Container, NewOrderSingle, CancelOrderRequest}
use elsa_fyp.Manager.Balances.{
  BalanceChecker, broker_id_exists, broker_owns_ticker, has_sufficient_balance, update_balance,
}
use elsa_fyp.Manager.Orders.{usd_symbol}

abbrev pub Verdict : Type 0
Verdict = String × BalanceChecker

-- `active_symbols.contains`
unfoldable pub is_active : String → List String → Bool
is_active s [] = false
is_active s (x ∷ xs) = eqb x s || is_active s xs

-- Test the balance and take `delta` from it, or reject with `reason`.
unfoldable pub reserve : BalanceChecker → String → String → ℤ → String → Outcome Verdict
unfolding has_sufficient_balance update_balance
reserve c broker_id ticker delta reason = do
  enough ← has_sufficient_balance c broker_id ticker delta
  if enough
      then (do c' ← update_balance c broker_id ticker delta; ok ("ok", c'))
      else ok (reason, c)

module _ (c : BalanceChecker) (n : NewOrderSingle) where
  -- The cost of a limit bid, in `int64_t`, or the fill cost of a market bid.
  unfoldable pub validate_bid : OrderType → Option ℤ → Outcome Verdict
  unfolding reserve
  validate_bid OrderType.limit fill_cost = do
    price ← or_fault n.price bad_optional
    reserved ← int64 (pos 0 -ℤ price *ℤ n.order_qty)
    reserve c n.sender_comp_id usd_symbol reserved "User has insufficient USD balance"
  validate_bid OrderType.market none = ok ("User has insufficient USD balance", c)
  validate_bid OrderType.market (some fill_cost) = do
    reserved ← int32 (pos 0 -ℤ fill_cost)
    reserve c n.sender_comp_id usd_symbol reserved "User has insufficient USD balance"

  unfoldable pub validate_side : Side → Option ℤ → Outcome Verdict
  unfolding validate_bid broker_owns_ticker reserve
  validate_side Side.bid fill_cost = do
    owns ← broker_owns_ticker c n.sender_comp_id usd_symbol
    if owns then validate_bid n.ord_type fill_cost else ok ("User has no USD balance record", c)
  validate_side Side.ask fill_cost = do
    owns ← broker_owns_ticker c n.sender_comp_id n.symbol
    if owns
        then (do
          reserved ← int32 (pos 0 -ℤ n.order_qty)
          reserve c n.sender_comp_id n.symbol reserved
              (append (append "User has insufficient " n.symbol) " balance"))
        else ok (append (append "User has no " n.symbol) " record", c)

  abbrev pub price_is_bad : Option ℤ → Bool
  price_is_bad none = false
  price_is_bad (some p) = leb_ℤ p (pos 0)

  unfoldable pub validate_new_order : List String → Option ℤ → Outcome Verdict
  unfolding is_active validate_side broker_id_exists
  validate_new_order active_symbols fill_cost =
      if not (is_active n.symbol active_symbols)
      then ok ("Unrecognized symbol", c)
      else if price_is_bad n.price
      then ok ("Price is not positive", c)
      else if leb_ℤ n.order_qty (pos 0)
      then ok ("Quantity is not positive", c)
      else if not (broker_id_exists c n.sender_comp_id)
      then ok ("Balance record for not found during validation", c)
      else validate_side n.side fill_cost

abbrev pub validate_cancel_request : BalanceChecker → CancelOrderRequest → Verdict
validate_cancel_request c r = elim r.order_id [
  | some _ ↦ ("ok", c)
  | none ↦ ("Cancel request original client order ID not found", c)
]

unfoldable pub validate_container :
    Container → List String → BalanceChecker → Option ℤ → Outcome Verdict
unfolding validate_new_order
validate_container (Container.new_order_single n) active_symbols c fill_cost =
    validate_new_order c n active_symbols fill_cost
validate_container (Container.cancel_order_request r) active_symbols c fill_cost =
    ok (validate_cancel_request c r)
validate_container _ active_symbols c fill_cost = ok ("Unsupported request type", c)
