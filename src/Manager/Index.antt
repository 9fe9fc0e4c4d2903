-- ===== src/Manager/Index.antt =====
-- The invariant of the registry of orders, which every request keeps.
use elsa_fyp.Prelude.{
  ℤ, pos, ◌+ℤ◌, ◌≤ℤ◌, eqb_ℤ, eqb_ℤ_iff, subst, ◌≡◌, refl, sym, ◌∙◌, Bool-cases, inl, inr,
  Option-cases, some, none, [], ◌∷◌, All, lookup, insert, emplace, contains, eqb, int_eq, string_eq,
  int_laws, arith, ok, Ensures, Ensures-ok, Ensures-bind, Ensures-step, int32, int32-eq,
}
use elsa_fyp.Core.Containers.{Container, NewOrderSingle, CancelOrderRequest, FillCostQuery}
use elsa_fyp.Manager.Orders.{
  OrderInfo, OrderInfoMap, OrderIdMap, UserIdMap, left_find, right_find, bimap_insert,
}
use elsa_fyp.Manager.Balances.Credit.{lookup-insert}
use elsa_fyp.Manager.Preprocess.{
  Preprocessed, Registry, Reply, preprocess_container, preprocess_new_order,
  preprocess_cancel_request, transform_cl_ord_id, fetch_fill_cost,
}

-- No order id, and no client order id with its user, occurs twice.
abbrev pub Unique : OrderIdMap → Type 0
Unique [] = Unit {0}
Unique ((l, r) ∷ m) = (left_find l m ≡ none) × (right_find r m ≡ none) × Unique m

-- No order id is above the last one assigned.
abbrev pub UpTo : ℤ → OrderIdMap → Type 0
UpTo z m = All (λ e. e.0 ≤ℤ z) m

pub record IsRegistry (g : Registry) : Type 0 where
  pub unique : Unique g.order_id_map
  pub assigned : UpTo g.latest_assigned_order_id g.order_id_map
  pub infos_assigned :
      (id : ℤ) (i : OrderInfo)
      → lookup id g.order_info_map ≡ some i
      → id ≤ℤ g.latest_assigned_order_id
  -- an order with a client order id has its information
  pub indexed :
      (id t : ℤ)
      → left_find id g.order_id_map ≡ some t
      → (i : OrderInfo) × (lookup id g.order_info_map ≡ some i)

UpTo-mono : (z w : ℤ) (m : OrderIdMap) → z ≤ℤ w → UpTo z m → UpTo w m
UpTo-mono z w [] h u = tt
UpTo-mono z w ((l, r) ∷ m) h u = (omega (arith, h, u.0), UpTo-mono z w m h u.1)

not_above : (z l : ℤ) → l ≤ℤ z → z +ℤ pos 1 ≤ℤ l → ⊥
not_above z l h k = omega (int_laws, h, k)

grows : (z : ℤ) → z ≤ℤ z +ℤ pos 1
grows z = omega int_laws

le_refl : (z : ℤ) → z ≤ℤ z
le_refl z = omega arith

le_trans : (a b c : ℤ) → a ≤ℤ b → b ≤ℤ c → a ≤ℤ c
le_trans a b c h k = omega (arith, h, k)

next_unused : (z : ℤ) (m : OrderIdMap) → UpTo z m → left_find (z +ℤ pos 1) m ≡ none
unfolding left_find
next_unused z [] u = refl
next_unused z ((l, r) ∷ m) u = elim (Bool-cases (eqb_ℤ l (z +ℤ pos 1))) [
  | inl same ↦
      let e : l ≡ z +ℤ pos 1 = (eqb_ℤ_iff l (z +ℤ pos 1)).0 same in
      absurd (not_above z l u.0 (subst (λ x. z +ℤ pos 1 ≤ℤ x) (sym e) (le_refl (z +ℤ pos 1))))
  | inr other ↦ rw other (next_unused z m u.1)
]

-- A new order whose client order id was not used before.
module _ (g : Registry) (v : IsRegistry g) (t : ℤ) (i : OrderInfo) where
  abbrev z : ℤ
  z = g.latest_assigned_order_id +ℤ pos 1

  added : Registry
  added = record {
    latest_assigned_order_id = z;
    order_id_map = (z, t) ∷ g.order_id_map;
    order_info_map = insert z i g.order_info_map;
  }

  unknown : (j : OrderInfo) → lookup z g.order_info_map ≡ some j → ⊥
  unknown j e = not_above g.latest_assigned_order_id z (v.infos_assigned z j e) (le_refl z)

  added-infos :
      (id : ℤ) (j : OrderInfo) → lookup id (insert z i g.order_info_map) ≡ some j → id ≤ℤ z
  added-infos id j e = elim (Bool-cases (eqb z id)) [
    | inl q ↦ let same : z ≡ id = (int_eq.beq_iff z id).0 q in subst (λ x. x ≤ℤ z) same (le_refl z)
    | inr q ↦
        le_trans id g.latest_assigned_order_id z
          (v.infos_assigned id j (sym (lookup-insert id z i g.order_info_map ∙ rw q refl) ∙ e))
          (grows g.latest_assigned_order_id)
  ]

  added-indexed :
      (id u : ℤ)
      → left_find id ((z, t) ∷ g.order_id_map) ≡ some u
      → (j : OrderInfo) × (lookup id (insert z i g.order_info_map) ≡ some j)
  unfolding left_find
  added-indexed id u e = elim (Bool-cases (eqb z id)) [
    | inl q ↦ (i, lookup-insert id z i g.order_info_map ∙ rw q refl)
    | inr q ↦
        let (j, known) = v.indexed id u (rw q at e) in
        (j, lookup-insert id z i g.order_info_map ∙ rw q known)
  ]

  added-IsRegistry : right_find t g.order_id_map ≡ none → IsRegistry added
  unfolding added
  added-IsRegistry fresh = record {
    unique = (next_unused g.latest_assigned_order_id g.order_id_map v.assigned, fresh, v.unique);
    assigned = (
      le_refl z,
      UpTo-mono g.latest_assigned_order_id z g.order_id_map (grows g.latest_assigned_order_id)
          v.assigned,
    );
    infos_assigned = added-infos;
    indexed = added-indexed;
  }

-- An id was assigned and nothing else changed.
skipped-IsRegistry :
    (g : Registry)
    → IsRegistry g
    → IsRegistry (record g { latest_assigned_order_id = g.latest_assigned_order_id +ℤ pos 1 })
skipped-IsRegistry g v = record {
  unique = v.unique;
  assigned =
      UpTo-mono g.latest_assigned_order_id _ g.order_id_map (grows g.latest_assigned_order_id)
        v.assigned;
  infos_assigned = λ id i e.
      le_trans id g.latest_assigned_order_id _ (v.infos_assigned id i e)
        (grows g.latest_assigned_order_id);
  indexed = v.indexed;
}

emplace-unknown :
    (id : ℤ) (i : OrderInfo) (infos : OrderInfoMap)
    → ((j : OrderInfo) → lookup id infos ≡ some j → ⊥)
    → emplace id i infos ≡ insert id i infos
unfolding emplace contains
emplace-unknown id i infos h = elim (Option-cases (lookup id infos)) [
  | inl e ↦ rw (emplace, contains, e) refl
  | inr (j, e) ↦ absurd (h j e)
]

bimap_insert-unused :
    (l r : ℤ) (m : OrderIdMap)
    → left_find l m ≡ none
    → right_find r m ≡ none
    → bimap_insert l r m ≡ (l, r) ∷ m
unfolding bimap_insert
bimap_insert-unused l r m h k = rw (bimap_insert, h, k) refl

abbrev Kept : Preprocessed → Type 0
Kept p = IsRegistry p.registry

module _ (users : UserIdMap) (gateway : ℤ) (engine : FillCostQuery → Reply) (g : Registry)
    (v : IsRegistry g) where
  abbrev entered : ℤ → ℤ → OrderInfo → Registry
  entered id t i = record {
    latest_assigned_order_id = id;
    order_id_map = bimap_insert id t g.order_id_map;
    order_info_map = emplace id i g.order_info_map;
  }

  entered-IsRegistry :
      (id t : ℤ) (i : OrderInfo)
      → id ≡ g.latest_assigned_order_id +ℤ pos 1
      → right_find t g.order_id_map ≡ none
      → IsRegistry (entered id t i)
  unfolding added
  entered-IsRegistry id t i e fresh =
      rw
        (
          e,
          bimap_insert-unused (g.latest_assigned_order_id +ℤ pos 1) t g.order_id_map
              (next_unused g.latest_assigned_order_id g.order_id_map v.assigned) fresh,
          emplace-unknown (g.latest_assigned_order_id +ℤ pos 1) i g.order_info_map
              (unknown g v t i),
        )
        (added-IsRegistry g v t i fresh)

  counted-IsRegistry :
      (id : ℤ)
      → id ≡ g.latest_assigned_order_id +ℤ pos 1
      → IsRegistry (record g { latest_assigned_order_id = id })
  counted-IsRegistry id e = rw e (skipped-IsRegistry g v)

  new_order-Kept :
      (n : NewOrderSingle) → Ensures Kept (preprocess_new_order users gateway engine g n)
  unfolding preprocess_new_order
  new_order-Kept n =
      Ensures-bind Kept (λ w. w ≡ g.latest_assigned_order_id +ℤ pos 1)
        (int32 (g.latest_assigned_order_id +ℤ pos 1)) _
        (int32-eq (g.latest_assigned_order_id +ℤ pos 1))
        λ id e. elim (Option-cases (lookup n.sender_comp_id users)) [
          | inl e1 ↦ rw e1 (counted-IsRegistry id e)
          | inr (user_id, e1) ↦ rw e1 (
              Ensures-step Kept (transform_cl_ord_id n.cl_ord_id user_id) _ λ t _.
                elim (Option-cases (right_find t g.order_id_map)) [
                  | inl e2 ↦ rw e2 (
                      Ensures-step Kept (fetch_fill_cost engine (record n { order_id = some id })) _
                        λ a _. entered-IsRegistry id t _ e e2)
                  | inr (old, e2) ↦ rw e2 (counted-IsRegistry id e)
                ])
        ]

  cancel_request-Kept :
      (c : CancelOrderRequest) → Ensures Kept (preprocess_cancel_request users gateway engine g c)
  unfolding preprocess_cancel_request
  cancel_request-Kept c = elim (Option-cases (lookup c.sender_comp_id users)) [
    | inl e ↦ rw (Ensures, e) v
    | inr (user_id, e) ↦
        rw (Ensures, e)
          (Ensures-step Kept (transform_cl_ord_id c.orig_cl_ord_id user_id) _ λ t _. v)
  ]

  preprocess_container-Kept :
      (k : Container) → Ensures Kept (preprocess_container users gateway engine g k)
  unfolding preprocess_container
  preprocess_container-Kept (Container.new_order_single n) = new_order-Kept n
  preprocess_container-Kept (Container.cancel_order_request c) = cancel_request-Kept c
  preprocess_container-Kept (Container.execution_report _) = tt
  preprocess_container-Kept (Container.trade _) = tt
  preprocess_container-Kept (Container.cancel_order_response _) = tt
  preprocess_container-Kept (Container.fill_cost_query _) = tt
  preprocess_container-Kept (Container.fill_cost_response _) = tt

-- Preprocessing keeps the registry: order ids and client order ids are unique, no order id is above the
-- last one assigned, and each order with a client order id has its information.
pub preprocess_container-IsRegistry :
    (users : UserIdMap) (gateway : ℤ) (engine : FillCostQuery → Reply) (g : Registry)
    (k : Container) {p : Preprocessed}
    → IsRegistry g
    → preprocess_container users gateway engine g k ≡ ok p
    → IsRegistry p.registry
preprocess_container-IsRegistry users gateway engine g k v e =
    Ensures-ok Kept _ (preprocess_container-Kept users gateway engine g v k) e
