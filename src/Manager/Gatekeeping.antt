-- ===== src/Manager/Gatekeeping.antt =====
-- What the order manager does with a request: it forwards it and reserves for it, or rejects it.
use elsa_fyp.Prelude.{
  ℤ, pos, ◌-ℤ◌, ◌*ℤ◌, leb_ℤ, ◌≡◌, refl, sym, ap, ◌∙◌, false, not, inl, inr, String, eqb, string_eq,
  int_eq, Option, Option-cases, none, some, List, Ensures, Ensures-step, Ensures-or_fault,
  Ensures-if, Ensures-mono, bad_optional, int32, int64,
}
use mathlib.Core.Bool.{true≢false}
use elsa_fyp.Core.Orders.{Side, OrderType}
use elsa_fyp.Core.Containers.{Container, NewOrderSingle}
use elsa_fyp.Manager.Orders.{usd_symbol}
use elsa_fyp.Manager.Balances.{BalanceChecker, broker_id_exists, broker_owns_ticker}
use elsa_fyp.Manager.Settlement.{Reserves, reserve-Reserves}
use elsa_fyp.Manager.Validate.{
  Verdict, reserve, validate_bid, validate_side, validate_new_order, validate_container, is_active,
  price_is_bad,
}

-- A request that is not found valid leaves the balances alone.
abbrev Spares : BalanceChecker → Verdict → Type 0
Spares c (verdict, c') = eqb verdict "ok" ≡ false → c' ≡ c

reserve-Spares :
    (c : BalanceChecker) (u s : String) (delta : ℤ) (reason : String)
    → Ensures (Spares c) (reserve c u s delta reason)
reserve-Spares c u s delta reason =
    Ensures-mono (Spares c) (Reserves c u s delta reason) _ (reserve-Reserves c u s delta reason)
      λ (verdict, c') r. elim r [
        | inl (fine, enough, credited) ↦
            λ bad. absurd (true≢false (sym (ap (λ v. eqb {A = String} v "ok") fine) ∙ bad))
        | inr (refused, short, same) ↦ λ _. same
      ]

module _ (c : BalanceChecker) (n : NewOrderSingle) where
  validate_bid-Spares :
      (t : OrderType) (fill_cost : Option ℤ) → Ensures (Spares c) (validate_bid c n t fill_cost)
  unfolding validate_bid
  validate_bid-Spares OrderType.limit fill_cost =
      Ensures-or_fault (Spares c) n.price bad_optional _ λ price _.
        Ensures-step (Spares c) (int64 (pos 0 -ℤ price *ℤ n.order_qty)) _ λ reserved _.
          reserve-Spares c n.sender_comp_id usd_symbol reserved "User has insufficient USD balance"
  validate_bid-Spares OrderType.market none = λ _. refl
  validate_bid-Spares OrderType.market (some fill_cost) =
      Ensures-step (Spares c) (int32 (pos 0 -ℤ fill_cost)) _ λ reserved _.
        reserve-Spares c n.sender_comp_id usd_symbol reserved "User has insufficient USD balance"

  validate_side-Spares :
      (s : Side) (fill_cost : Option ℤ) → Ensures (Spares c) (validate_side c n s fill_cost)
  unfolding validate_side
  validate_side-Spares Side.bid fill_cost =
      Ensures-step (Spares c) (broker_owns_ticker c n.sender_comp_id usd_symbol) _ λ owns _.
        Ensures-if (Spares c) owns _ _ (λ _. validate_bid-Spares n.ord_type fill_cost) λ _ _. refl
  validate_side-Spares Side.ask fill_cost =
      Ensures-step (Spares c) (broker_owns_ticker c n.sender_comp_id n.symbol) _ λ owns _.
        Ensures-if (Spares c) owns _ _
          (λ _.
            Ensures-step (Spares c) (int32 (pos 0 -ℤ n.order_qty)) _
              λ reserved _. reserve-Spares c n.sender_comp_id n.symbol reserved _)
          λ _ _. refl

  validate_new_order-Spares :
      (active_symbols : List String) (fill_cost : Option ℤ)
      → Ensures (Spares c) (validate_new_order c n active_symbols fill_cost)
  unfolding validate_new_order
  validate_new_order-Spares active_symbols fill_cost =
      Ensures-if (Spares c) (not (is_active n.symbol active_symbols)) _ _ (λ _ _. refl)
        λ _.
          Ensures-if (Spares c) (price_is_bad c n n.price) _ _ (λ _ _. refl)
            λ _.
              Ensures-if (Spares c) (leb_ℤ n.order_qty (pos 0)) _ _ (λ _ _. refl)
                λ _.
                  Ensures-if (Spares c) (not (broker_id_exists c n.sender_comp_id)) _ _
                    (λ _ _. refl) λ _. validate_side-Spares n.side fill_cost

pub validate_container-Spares :
    (k : Container) (active_symbols : List String) (c : BalanceChecker) (fill_cost : Option ℤ)
    → Ensures
        (λ (verdict, c'). eqb verdict "ok" ≡ false → c' ≡ c)
        (validate_container k active_symbols c fill_cost)
unfolding validate_container
validate_container-Spares (Container.new_order_single n) active c fill_cost =
    validate_new_order-Spares c n active fill_cost
validate_container-Spares (Container.cancel_order_request r) active c fill_cost =
    elim (Option-cases r.order_id) [ inl e ↦ rw e λ _. refl | inr (id, e) ↦ rw e λ _. refl ]
validate_container-Spares (Container.execution_report _) active c fill_cost = λ _. refl
validate_container-Spares (Container.trade _) active c fill_cost = λ _. refl
validate_container-Spares (Container.cancel_order_response _) active c fill_cost = λ _. refl
validate_container-Spares (Container.fill_cost_query _) active c fill_cost = λ _. refl
validate_container-Spares (Container.fill_cost_response _) active c fill_cost = λ _. refl
