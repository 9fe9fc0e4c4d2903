-- ===== src/Manager/Settlement.antt =====
-- What reservations and trades do to the amounts that the brokers hold.
use elsa_fyp.Prelude.{
  ℤ, pos, ◌+ℤ◌, ◌-ℤ◌, ◌*ℤ◌, ◌≤ℤ◌, leb_ℤ, ltb_ℤ, ◌≡◌, refl, sym, ap, ◌∙◌, true, false, if_cases,
  Bool-cases, ℕ, ◌*◌, ◌≤◌, eqb, eqb_refl, eqb_ne, string_eq, *ℤ_pos, +ℤ_pos, ◌+◌, ◌-◌, inl, inr,
  ◌⊎◌, String, Option, none, some, int_laws, arith, ok, Ensures, Ensures-ok, Ensures-require,
  Ensures-bind, Ensures-or_fault, Ensures-if, Ensures-mono, assertion, out_of_range, int32,
  int32-eq, lookup, int_eq,
}
use mathlib.Core.Option.{some-injective}
use mathlib.Core.Bool.{true≢false}
use elsa_fyp.Core.Containers.{TradeContainer}
use elsa_fyp.Manager.Orders.{OrderInfo, OrderInfoMap, usd_symbol}
use elsa_fyp.Manager.Balances.{BalanceChecker, update_balance, has_sufficient_balance}
use elsa_fyp.Manager.Balances.Credit.{
  +ℤ_zero, amount, credit, Credits, update_balance-Credits, has_sufficient_balance-lem,
}
use elsa_fyp.Manager.Validate.{Verdict, reserve}
use elsa_fyp.Manager.Update.{settle_trade, refund_improvement, buyer_id, seller_id, buyer_order_id}

-- A reservation is taken from one amount, which stays at or above 0, or is refused.
abbrev pub Reserves : BalanceChecker → String → String → ℤ → String → Verdict → Type 0
Reserves c u s delta reason (verdict, c') =
    (verdict ≡ "ok") × (pos 0 ≤ℤ amount c u s +ℤ delta) × Credits c u s delta c'
    ⊎ (verdict ≡ reason) × (amount c u s +ℤ delta ≤ℤ ℤ.negsuc 0) × (c' ≡ c)

pub reserve-Reserves :
    (c : BalanceChecker) (u s : String) (delta : ℤ) (reason : String)
    → Ensures (Reserves c u s delta reason) (reserve c u s delta reason)
unfolding reserve
reserve-Reserves c u s delta reason =
    Ensures-bind P (λ enough. enough ≡ leb_ℤ (pos 0) (amount c u s +ℤ delta))
      (has_sufficient_balance c u s delta) _ (has_sufficient_balance-lem c u s delta)
      λ enough same.
        Ensures-if P enough _ _
          (λ yes.
            Ensures-bind P (Credits c u s delta) (update_balance c u s delta) (λ c'. ok ("ok", c'))
              (update_balance-Credits c u s delta)
              λ c' credited. inl (refl, ground arith, credited))
          (λ no. inr (refl, ground arith, refl))
  where
    P : Verdict → Type 0
    P = Reserves c u s delta reason

-- What a limit buyer has reserved for the units of a trade above what they cost.
abbrev pub improvement : Option ℤ → TradeContainer → ℤ
improvement none t = pos 0
improvement (some price) t = (price -ℤ t.price) *ℤ t.quantity

credit_zero : (u s v w : String) → credit u s (pos 0) v w ≡ pos 0
unfolding credit
credit_zero u s v w = if_cases (λ z. z ≡ pos 0) _ (pos 0) (pos 0) (λ _. refl) λ _. refl

Credits-none : (c : BalanceChecker) (u s : String) (d : ℤ) → d ≡ pos 0 → Credits c u s d c
Credits-none c u s d z v w = rw (z, credit_zero u s v w) (sym (+ℤ_zero (amount c v w)))

zero_*ℤ : (a b : ℤ) → a ≡ pos 0 → a *ℤ b ≡ pos 0
unfolding ◌*ℤ◌
zero_*ℤ a b z = rw z (ground arith)

refund_improvement-Credits :
    (c : BalanceChecker) (t : TradeContainer) (price : Option ℤ)
    → Ensures
        (Credits c (buyer_id t) usd_symbol (improvement price t))
        (refund_improvement c t price)
unfolding refund_improvement
refund_improvement-Credits c t none = Credits-none c (buyer_id t) usd_symbol (pos 0) refl
refund_improvement-Credits c t (some price) =
    Ensures-bind P (λ w. w ≡ price -ℤ t.price) (int32 (price -ℤ t.price)) _
      (int32-eq (price -ℤ t.price))
      λ better e. Ensures-require P (leb_ℤ (pos 0) better) assertion _ λ positive.
        Ensures-if P (ltb_ℤ (pos 0) better) _ _
          (λ some_better.
            Ensures-bind P (λ w. w ≡ better *ℤ t.quantity) (int32 (better *ℤ t.quantity))
              (λ refund. update_balance c (buyer_id t) usd_symbol refund)
              (int32-eq (better *ℤ t.quantity))
              λ refund e'. rw (← e, ← e') (update_balance-Credits c (buyer_id t) usd_symbol refund))
          (λ none_better.
            let z : better ≡ pos 0 = ground arith in
            Credits-none c (buyer_id t) usd_symbol _ (zero_*ℤ _ t.quantity (sym e ∙ z)))
  where
    P : BalanceChecker → Type 0
    P = Credits c (buyer_id t) usd_symbol (improvement (some price) t)

-- What a trade does to all amounts: the buyer receives the units and what was reserved above their
-- cost, and the seller receives their cost.
abbrev pub Settles : BalanceChecker → TradeContainer → Option ℤ → BalanceChecker → Type 0
Settles c t price c' =
    (u s : String)
    → amount c' u s
      ≡ amount c u s
        +ℤ credit (buyer_id t) t.ticker t.quantity u s
        +ℤ credit (buyer_id t) usd_symbol (improvement price t) u s
        +ℤ credit (seller_id t) usd_symbol (t.price *ℤ t.quantity) u s

Credits-three :
    (c c1 c2 c' : BalanceChecker) (t : TradeContainer) (price : Option ℤ) (cost : ℤ)
    → cost ≡ t.price *ℤ t.quantity
    → Credits c (buyer_id t) t.ticker t.quantity c1
    → Credits c1 (buyer_id t) usd_symbol (improvement price t) c2
    → Credits c2 (seller_id t) usd_symbol cost c'
    → Settles c t price c'
Credits-three c c1 c2 c' t price cost e h1 h2 h3 u s = rw (h3 u s, h2 u s, h1 u s, e) refl

abbrev Settled : OrderInfoMap → BalanceChecker → TradeContainer → BalanceChecker → Type 0
Settled infos c t c' =
    (info : OrderInfo) × (lookup (buyer_order_id t) infos ≡ some info) × Settles c t info.price c'

settle_trade-Ensures :
    (infos : OrderInfoMap) (c : BalanceChecker) (t : TradeContainer)
    → Ensures (Settled infos c t) (settle_trade infos c t)
unfolding settle_trade
settle_trade-Ensures infos c t =
    Ensures-bind P (Credits c (buyer_id t) t.ticker t.quantity) _ _
      (update_balance-Credits c (buyer_id t) t.ticker t.quantity)
      λ c1 h1. Ensures-or_fault P (lookup (buyer_order_id t) infos) out_of_range _ λ info known.
        Ensures-bind P (Credits c1 (buyer_id t) usd_symbol (improvement info.price t)) _ _
          (refund_improvement-Credits c1 t info.price)
          λ c2 h2.
            Ensures-bind P (λ w. w ≡ t.price *ℤ t.quantity) (int32 (t.price *ℤ t.quantity))
              (λ proceeds. update_balance c2 (seller_id t) usd_symbol proceeds)
              (int32-eq (t.price *ℤ t.quantity))
              λ proceeds e.
                Ensures-mono P (Credits c2 (seller_id t) usd_symbol proceeds)
                  (update_balance c2 (seller_id t) usd_symbol proceeds)
                  (update_balance-Credits c2 (seller_id t) usd_symbol proceeds)
                  λ c' h3. (info, known, Credits-three c c1 c2 c' t info.price proceeds e h1 h2 h3)
  where
    P : BalanceChecker → Type 0
    P = Settled infos c t

-- A trade that is settled gives the buyer the units and, of a limit order, the difference between
-- the limit and the price of the trade on each unit, and gives the seller the price of the units in
-- USD. No other amount changes.
pub settle_trade-Settles :
    (infos : OrderInfoMap) (c : BalanceChecker) (t : TradeContainer) {c' : BalanceChecker}
    → settle_trade infos c t ≡ ok c'
    → (info : OrderInfo) × (lookup (buyer_order_id t) infos ≡ some info) × Settles c t info.price c'
settle_trade-Settles infos c t e =
    Ensures-ok (Settled infos c t) _ (settle_trade-Ensures infos c t) e

pub credit_same : (u s : String) (d : ℤ) → credit u s d u s ≡ d
unfolding credit
credit_same u s d = rw (eqb_refl u, eqb_refl s) refl

pub credit_other_broker : (u s v w : String) (d : ℤ) → eqb u v ≡ false → credit u s d v w ≡ pos 0
unfolding credit
credit_other_broker u s v w d h = rw h refl

credit_other_symbol : (u s v w : String) (d : ℤ) → eqb s w ≡ false → credit u s d v w ≡ pos 0
unfolding credit
credit_other_symbol u s v w d h = elim (Bool-cases (eqb u v)) [
  | inl q ↦ rw (q, h) refl
  | inr q ↦ rw q refl
]

difference : (p x : ℕ) → x ≤ p → pos p -ℤ pos x ≡ pos (p - x)
unfolding ◌-ℤ◌
difference p x h = ground arith

parts : (a b q : ℕ) → a * q + b * q ≡ (a + b) * q
parts a b q = grind arith

paid_in_full : (p x q : ℕ) → x ≤ p → (pos p -ℤ pos x) *ℤ pos q +ℤ pos x *ℤ pos q ≡ pos (p * q)
paid_in_full p x q h =
    rw (difference p x h, *ℤ_pos (p - x) q, *ℤ_pos x q, +ℤ_pos ((p - x) * q) (x * q))
      (ap pos (parts (p - x) x q ∙ ap (λ n. n * q) (omega arith)))

gather : (a b i k : ℤ) → a +ℤ pos 0 +ℤ i +ℤ pos 0 +ℤ (b +ℤ pos 0 +ℤ pos 0 +ℤ k) ≡ a +ℤ b +ℤ (i +ℤ k)
gather a b i k = omega int_laws

-- With a price within the limit, the buyer's improvement and the seller's proceeds are together the
-- limit on each unit.
pub settle_trade-conserves :
    (infos : OrderInfoMap) (c : BalanceChecker) (t : TradeContainer) {c' : BalanceChecker}
    (info : OrderInfo) (limit price quantity : ℕ)
    → settle_trade infos c t ≡ ok c'
    → lookup (buyer_order_id t) infos ≡ some info
    → info.price ≡ some (pos limit)
    → t.price ≡ pos price
    → t.quantity ≡ pos quantity
    → price ≤ limit
    → eqb (buyer_id t) (seller_id t) ≡ false
    → eqb t.ticker usd_symbol ≡ false
    → amount c' (buyer_id t) usd_symbol +ℤ amount c' (seller_id t) usd_symbol
      ≡ amount c (buyer_id t) usd_symbol
        +ℤ amount c (seller_id t) usd_symbol
        +ℤ pos (limit * quantity)
settle_trade-conserves infos c t info limit price quantity e known limited at_price of_quantity
      within others not_usd =
    let (info', known', st) = settle_trade-Settles infos c t e in
    let same : info ≡ info' = some-injective _ _ (sym known ∙ known') in
    let limited' : info'.price ≡ some (pos limit) = rw (← same) limited in
    let others' = eqb_ne (seller_id t) (buyer_id t) (λ p.
      let own : eqb (buyer_id t) (seller_id t) ≡ true = rw p (eqb_refl (buyer_id t)) in
      absurd (true≢false (sym own ∙ others))) in
    let bought = st (buyer_id t) usd_symbol in
    let sold = st (seller_id t) usd_symbol in
    rw
      (
        bought,
        sold,
        limited',
        at_price,
        of_quantity,
        credit_other_symbol (buyer_id t) t.ticker (buyer_id t) usd_symbol (pos quantity) not_usd,
        credit_other_symbol (buyer_id t) t.ticker (seller_id t) usd_symbol (pos quantity) not_usd,
        credit_same (buyer_id t) usd_symbol ((pos limit -ℤ pos price) *ℤ pos quantity),
        credit_same (seller_id t) usd_symbol (pos price *ℤ pos quantity),
        credit_other_broker (seller_id t) usd_symbol (buyer_id t) usd_symbol
            (pos price *ℤ pos quantity) others',
        credit_other_broker (buyer_id t) usd_symbol (seller_id t) usd_symbol
            ((pos limit -ℤ pos price) *ℤ pos quantity) others,
        ← paid_in_full limit price quantity within,
      )
      (gather (amount c (buyer_id t) usd_symbol) (amount c (seller_id t) usd_symbol)
        ((pos limit -ℤ pos price) *ℤ pos quantity) (pos price *ℤ pos quantity))
