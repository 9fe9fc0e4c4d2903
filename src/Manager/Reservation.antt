-- ===== src/Manager/Reservation.antt =====
-- What a limit bid reserves when it is found valid, and what becomes of it in a trade:
-- `validate_container` and `settle_trade` of services/order_manager/src/order_manager.cpp together.
use elsa_fyp.Prelude.{
  ℕ, ◌+◌, ◌-◌, ◌*◌, ◌≤◌, ℤ, pos, ◌+ℤ◌, ◌-ℤ◌, ◌*ℤ◌, leb_ℤ, ◌≡◌, refl, sym, ap, ◌∙◌, true, false, not,
  inl, inr, String, eqb, string_eq, int_eq, Option, some, List, Ensures, Ensures-ok, Ensures-bind,
  Ensures-step, Ensures-or_fault, Ensures-if, Ensures-mono, bad_optional, int64, int64-eq, lookup,
  ok, subst, *ℤ_pos, +ℤ_pos, int_laws, arith,
}
use mathlib.Core.Option.{some-injective}
use mathlib.Core.Bool.{true≢false}
use elsa_fyp.Core.Orders.{Side, OrderType}
use elsa_fyp.Core.Containers.{Container, NewOrderSingle, TradeContainer}
use elsa_fyp.Manager.Orders.{OrderInfo, OrderInfoMap, usd_symbol}
use elsa_fyp.Manager.Balances.{BalanceChecker, broker_id_exists, broker_owns_ticker}
use elsa_fyp.Manager.Balances.Credit.{amount, Credits}
use elsa_fyp.Manager.Settlement.{
  Reserves, reserve-Reserves, settle_trade-conserves, credit_same, credit_other_broker,
}
use elsa_fyp.Manager.Update.{settle_trade, buyer_id, seller_id, buyer_order_id}
use elsa_fyp.Manager.Validate.{
  Verdict, validate_bid, validate_side, validate_new_order, validate_container, is_active,
  price_is_bad,
}

module _ (c : BalanceChecker) (n : NewOrderSingle) (price : ℤ) (priced : n.price ≡ some price) where
  -- With "ok", the limit on all units of the order is taken from what its sender holds in USD.
  abbrev Takes : Verdict → Type 0
  Takes (verdict, c') =
      eqb verdict "ok" ≡ true
      → Credits c n.sender_comp_id usd_symbol (pos 0 -ℤ price *ℤ n.order_qty) c'

  not_ok :
      {A : Type 0} {verdict reason : String}
      → verdict ≡ reason
      → eqb reason "ok" ≡ false
      → eqb verdict "ok" ≡ true
      → A
  not_ok e other fine = absurd (true≢false (sym fine ∙ ap (λ v. eqb {A = String} v "ok") e ∙ other))

  validate_bid-Takes :
      (fill_cost : Option ℤ) → Ensures Takes (validate_bid c n OrderType.limit fill_cost)
  unfolding validate_bid
  validate_bid-Takes fill_cost = Ensures-or_fault Takes n.price bad_optional _ λ p e.
      let same : p ≡ price = some-injective _ _ (sym e ∙ priced) in
      Ensures-bind Takes (λ w. w ≡ pos 0 -ℤ p *ℤ n.order_qty) (int64 (pos 0 -ℤ p *ℤ n.order_qty)) _
        (int64-eq (pos 0 -ℤ p *ℤ n.order_qty))
        λ reserved as_cost.
          Ensures-mono Takes
            (Reserves c n.sender_comp_id usd_symbol reserved "User has insufficient USD balance") _
            (reserve-Reserves c n.sender_comp_id usd_symbol reserved
              "User has insufficient USD balance")
            λ (verdict, c') r. elim r [
              | inl (fine, enough, credited) ↦ λ _.
                  subst (λ d. Credits c n.sender_comp_id usd_symbol d c')
                    (as_cost ∙ ap (λ x. pos 0 -ℤ x *ℤ n.order_qty) same) credited
              | inr (refused, short, kept) ↦ not_ok refused refl
            ]

  validate_side-Takes :
      n.ord_type ≡ OrderType.limit
      → (fill_cost : Option ℤ) → Ensures Takes (validate_side c n Side.bid fill_cost)
  unfolding validate_side
  validate_side-Takes limited fill_cost =
      Ensures-step Takes (broker_owns_ticker c n.sender_comp_id usd_symbol) _ λ owns _.
        Ensures-if Takes owns _ _
          (λ _.
            subst (λ k. Ensures Takes (validate_bid c n k fill_cost)) (sym limited)
              (validate_bid-Takes fill_cost))
          λ _. λ bad. absurd (true≢false (sym bad))

  validate_new_order-Takes :
      n.side ≡ Side.bid
      → n.ord_type ≡ OrderType.limit
      → (active_symbols : List String) (fill_cost : Option ℤ)
      → Ensures Takes (validate_new_order c n active_symbols fill_cost)
  unfolding validate_new_order
  validate_new_order-Takes buys limited active_symbols fill_cost =
      Ensures-if Takes (not (is_active n.symbol active_symbols)) _ _
        (λ _. λ bad. absurd (true≢false (sym bad)))
        λ _.
          Ensures-if Takes (price_is_bad c n n.price) _ _
            (λ _. λ bad. absurd (true≢false (sym bad)))
            λ _.
              Ensures-if Takes (leb_ℤ n.order_qty (pos 0)) _ _
                (λ _. λ bad. absurd (true≢false (sym bad)))
                λ _.
                  Ensures-if Takes (not (broker_id_exists c n.sender_comp_id)) _ _
                    (λ _. λ bad. absurd (true≢false (sym bad)))
                    λ _.
                      subst (λ s. Ensures Takes (validate_side c n s fill_cost)) (sym buys)
                        (validate_side-Takes limited fill_cost)

  validate_container-Takes :
      {c' : BalanceChecker}
      → n.side ≡ Side.bid
      → n.ord_type ≡ OrderType.limit
      → (active_symbols : List String) (fill_cost : Option ℤ)
      → validate_container (Container.new_order_single n) active_symbols c fill_cost ≡ ok ("ok", c')
      → Credits c n.sender_comp_id usd_symbol (pos 0 -ℤ price *ℤ n.order_qty) c'
  unfolding validate_container
  validate_container-Takes buys limited active_symbols fill_cost e =
      Ensures-ok Takes _ (validate_new_order-Takes buys limited active_symbols fill_cost) e refl

split_cost : (l n q : ℕ) → q ≤ n → l * q + l * (n - q) ≡ l * n
split_cost l n q h =
    let parts : l * q + l * (n - q) ≡ l * (q + (n - q)) = grind arith in
    parts ∙ ap (λ k. l * k) (omega arith)

cancel : (a b l : ℤ) → a +ℤ (pos 0 -ℤ l) +ℤ (b +ℤ pos 0) +ℤ l ≡ a +ℤ b
cancel a b l = omega int_laws

regroup : (x y q r : ℤ) → x +ℤ y +ℤ q +ℤ r ≡ x +ℤ y +ℤ (q +ℤ r)
regroup x y q r = omega int_laws

-- A limit bid for `ordered` units is validated with "ok", and then a trade of `quantity` of them, in
-- a symbol other than USD, with another broker and at a price within the limit is settled. What the
-- two brokers hold in USD and what stays reserved, which is the limit on each unit that
-- was not traded, is together what the two held before the validation. The bid is booked with
-- its price, its units are not negative, and no other change comes between.
pub validate_container-settle_trade :
    (n : NewOrderSingle) (active_symbols : List String) (fill_cost : Option ℤ)
    (infos : OrderInfoMap) (c c1 : BalanceChecker) (t : TradeContainer) {c' : BalanceChecker}
    (info : OrderInfo) (limit price ordered quantity : ℕ)
    → validate_container (Container.new_order_single n) active_symbols c fill_cost ≡ ok ("ok", c1)
    → n.side ≡ Side.bid
    → n.ord_type ≡ OrderType.limit
    → n.price ≡ some (pos limit)
    → n.order_qty ≡ pos ordered
    → settle_trade infos c1 t ≡ ok c'
    → lookup (buyer_order_id t) infos ≡ some info
    → info.price ≡ n.price
    → buyer_id t ≡ n.sender_comp_id
    → t.price ≡ pos price
    → t.quantity ≡ pos quantity
    → price ≤ limit
    → quantity ≤ ordered
    → eqb (buyer_id t) (seller_id t) ≡ false
    → eqb t.ticker usd_symbol ≡ false
    → amount c' (buyer_id t) usd_symbol
        +ℤ amount c' (seller_id t) usd_symbol
        +ℤ pos (limit * (ordered - quantity))
      ≡ amount c (buyer_id t) usd_symbol +ℤ amount c (seller_id t) usd_symbol
validate_container-settle_trade n active_symbols fill_cost infos c c1 t {c'} info limit price
      ordered quantity valid buys limited priced units settled known booked own at_price of_quantity
      within enough others not_usd =
    let taken =
      validate_container-Takes c n (pos limit) priced buys limited active_symbols fill_cost valid in
    let grown =
      settle_trade-conserves infos c1 t info limit price quantity settled known (booked ∙ priced)
        at_price of_quantity within others not_usd in
    let cost : pos limit *ℤ n.order_qty ≡ pos (limit * ordered) =
      ap (λ z. pos limit *ℤ z) units ∙ *ℤ_pos limit ordered in
    let buyer : amount c1 (buyer_id t) usd_symbol
        ≡ amount c (buyer_id t) usd_symbol +ℤ (pos 0 -ℤ pos (limit * ordered)) =
      taken (buyer_id t) usd_symbol
      ∙ rw (cost, ← own, credit_same (buyer_id t) usd_symbol (pos 0 -ℤ pos (limit * ordered)))
          refl in
    let seller : amount c1 (seller_id t) usd_symbol ≡ amount c (seller_id t) usd_symbol +ℤ pos 0 =
      taken (seller_id t) usd_symbol
      ∙ rw
          (
            cost,
            ← own,
            credit_other_broker (buyer_id t) usd_symbol (seller_id t) usd_symbol
                (pos 0 -ℤ pos (limit * ordered)) others,
          )
          refl in
    let whole : pos (limit * quantity) +ℤ pos (limit * (ordered - quantity))
        ≡ pos (limit * ordered) =
      +ℤ_pos (limit * quantity) (limit * (ordered - quantity))
      ∙ ap pos (split_cost limit ordered quantity enough) in
    ap (λ z. z +ℤ pos (limit * (ordered - quantity))) grown
    ∙ regroup (amount c1 (buyer_id t) usd_symbol) (amount c1 (seller_id t) usd_symbol)
        (pos (limit * quantity)) (pos (limit * (ordered - quantity)))
    ∙ rw (whole, buyer, seller)
        (cancel (amount c (buyer_id t) usd_symbol) (amount c (seller_id t) usd_symbol)
          (pos (limit * ordered)))
