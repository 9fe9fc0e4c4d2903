-- ===== src/Manager/Fills.antt =====
-- What a trade does to the orders of both parties.
use elsa_fyp.Prelude.{
  ℤ, ◌+ℤ◌, ◌-ℤ◌, ◌*ℤ◌, ◌≡◌, ◌≢◌, refl, sym, ◌∙◌, some, int_laws, ok, Ensures, Ensures-ok,
  Ensures-require, Ensures-bind, Ensures-step, Ensures-or_fault, contract, out_of_range, int32,
  int32-eq, lookup, insert, contains, int_eq, lookup-insert_self, lookup-insert_ne,
}
use elsa_fyp.Core.Containers.{TradeContainer}
use elsa_fyp.Manager.Orders.{OrderInfo, OrderInfoMap}
use elsa_fyp.Manager.Balances.{BalanceChecker}
use elsa_fyp.Manager.Settlement.{settle_trade-Settles, Settles}
use elsa_fyp.Manager.Update.{
  filled_info, fill_order_info, handle_trade, settle_trade, buyer_order_id, quotient, Books,
}

-- An order before and after a trade: the units move from those that are left to those filled.
pub record Fills (t : TradeContainer) (a b : OrderInfo) : Type 0 where
  pub leaves : b.leaves_qty ≡ a.leaves_qty -ℤ t.quantity
  pub cum : b.cum_qty ≡ a.cum_qty +ℤ t.quantity
  pub total : b.leaves_qty +ℤ b.cum_qty ≡ a.leaves_qty +ℤ a.cum_qty
  pub rest : record b { leaves_qty = a.leaves_qty; cum_qty = a.cum_qty; avg_px = a.avg_px } ≡ a

moved : (l c q : ℤ) → l -ℤ q +ℤ (c +ℤ q) ≡ l +ℤ c
moved l c q = omega int_laws

filled_info-Fills : (i : OrderInfo) (t : TradeContainer) → Ensures (Fills t i) (filled_info i t)
unfolding filled_info
filled_info-Fills i t = Ensures-step P (int32 (i.avg_px *ℤ i.cum_qty)) _ λ paid _.
    Ensures-step P (int32 (t.price *ℤ t.quantity)) _ λ price _.
      Ensures-step P (int32 (paid +ℤ price)) _ λ total _.
        Ensures-step P (int32 (t.quantity +ℤ i.cum_qty)) _ λ filled _.
          Ensures-step P (quotient total filled) _ λ avg_px _.
            Ensures-bind P (λ w. w ≡ i.leaves_qty -ℤ t.quantity)
              (int32 (i.leaves_qty -ℤ t.quantity)) _ (int32-eq (i.leaves_qty -ℤ t.quantity))
              λ leaves e.
                Ensures-bind P (λ w. w ≡ i.cum_qty +ℤ t.quantity) (int32 (i.cum_qty +ℤ t.quantity))
                  (λ cum_qty.
                    ok (record i { leaves_qty = leaves; cum_qty = cum_qty; avg_px = avg_px }))
                  (int32-eq (i.cum_qty +ℤ t.quantity))
                  λ cum e'. record {
                    leaves = e;
                    cum = e';
                    total = rw (e, e') (moved i.leaves_qty i.cum_qty t.quantity);
                    rest = refl;
                  }
  where
    P : OrderInfo → Type 0
    P = Fills t i

-- One order is filled, all others are as they were.
pub record FillsOne (t : TradeContainer) (id : ℤ) (infos infos' : OrderInfoMap) : Type 0 where
  pub before : OrderInfo
  pub after : OrderInfo
  pub known : lookup id infos ≡ some before
  pub written : lookup id infos' ≡ some after
  pub fills : Fills t before after
  pub others : (other : ℤ) → other ≢ id → lookup other infos' ≡ lookup other infos

fill_order_info-FillsOne :
    (infos : OrderInfoMap) (id : ℤ) (t : TradeContainer)
    → Ensures (FillsOne t id infos) (fill_order_info infos id t)
unfolding fill_order_info
fill_order_info-FillsOne infos id t =
    Ensures-or_fault P (lookup id infos) out_of_range _ λ info known.
      Ensures-bind P (Fills t info) (filled_info info t) (λ info'. ok (insert id info' infos))
        (filled_info-Fills info t)
        λ info' fills. record {
          before = info;
          after = info';
          known = known;
          written = lookup-insert_self id info' infos;
          fills = fills;
          others = λ other ne. lookup-insert_ne other id info' infos ne;
        }
  where
    P : OrderInfoMap → Type 0
    P = FillsOne t id infos

abbrev Handled : OrderInfoMap → BalanceChecker → TradeContainer → Books → Type 0
Handled infos c t (infos', c') =
    (middle : OrderInfoMap) × FillsOne t t.taker_order_id infos middle
    × FillsOne t t.maker_order_id middle infos'
    × (settle_trade infos' c t ≡ ok c')

handle_trade-Handled :
    (infos : OrderInfoMap) (c : BalanceChecker) (t : TradeContainer)
    → Ensures (Handled infos c t) (handle_trade infos c t)
unfolding handle_trade
handle_trade-Handled infos c t = Ensures-require P (contains t.taker_order_id infos) contract _ λ _.
    Ensures-require P (contains t.maker_order_id infos) contract _ λ _.
      Ensures-bind P (FillsOne t t.taker_order_id infos) _ _
        (fill_order_info-FillsOne infos t.taker_order_id t)
        λ middle one.
          Ensures-bind P (FillsOne t t.maker_order_id middle) _ _
            (fill_order_info-FillsOne middle t.maker_order_id t)
            λ infos' two.
              Ensures-step P (settle_trade infos' c t) (λ c'. ok (infos', c'))
                λ c' settled. (middle, one, two, settled)
  where
    P : Books → Type 0
    P = Handled infos c t

-- What a trade does: both orders move its units from left to filled, no other order changes, and
-- the amounts are settled with the price of the buyer's order.
pub record TradeBooked (infos : OrderInfoMap) (c : BalanceChecker) (t : TradeContainer)
    (infos' : OrderInfoMap) (c' : BalanceChecker) : Type 0 where
  pub taker_before : OrderInfo
  pub taker_after : OrderInfo
  pub maker_before : OrderInfo
  pub maker_after : OrderInfo
  pub taker_known : lookup t.taker_order_id infos ≡ some taker_before
  pub taker_written : lookup t.taker_order_id infos' ≡ some taker_after
  pub maker_known : lookup t.maker_order_id infos ≡ some maker_before
  pub maker_written : lookup t.maker_order_id infos' ≡ some maker_after
  pub taker : Fills t taker_before taker_after
  pub maker : Fills t maker_before maker_after
  pub others :
      (id : ℤ) → id ≢ t.taker_order_id → id ≢ t.maker_order_id → lookup id infos' ≡ lookup id infos
  pub buyer : OrderInfo
  pub buyer_known : lookup (buyer_order_id t) infos' ≡ some buyer
  pub settles : Settles c t buyer.price c'

-- A trade between two different orders that `handle_trade` accepts moves its units from left to
-- filled in both orders, whose sum of left and filled stays the same, changes no other order, and
-- settles the amounts of the parties.
pub handle_trade-TradeBooked :
    (infos : OrderInfoMap) (c : BalanceChecker) (t : TradeContainer) {infos' : OrderInfoMap}
    {c' : BalanceChecker}
    → t.taker_order_id ≢ t.maker_order_id
    → handle_trade infos c t ≡ ok (infos', c')
    → TradeBooked infos c t infos' c'
handle_trade-TradeBooked infos c t {infos'} {c'} ne e =
    let (middle, one, two, settled) =
      Ensures-ok (Handled infos c t) _ (handle_trade-Handled infos c t) e in
    let (buyer, known, settles) = settle_trade-Settles infos' c t settled in
    record {
      taker_before = one.before;
      taker_after = one.after;
      maker_before = two.before;
      maker_after = two.after;
      taker_known = one.known;
      taker_written = two.others t.taker_order_id ne ∙ one.written;
      maker_known = sym (one.others t.maker_order_id λ p. ne (sym p)) ∙ two.known;
      maker_written = two.written;
      taker = one.fills;
      maker = two.fills;
      others = λ id n n'. two.others id n' ∙ one.others id n;
      buyer = buyer;
      buyer_known = known;
      settles = settles;
    }
