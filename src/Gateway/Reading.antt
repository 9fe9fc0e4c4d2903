-- ===== src/Gateway/Reading.antt =====
-- The `try` block of a handler reads what the message carries, or fails by an exception.
use elsa_fyp.Prelude.{
  ℕ, ◌≡◌, refl, sym, ◌∙◌, subst, Bool, true, false, ◌==◌, ◌||◌, not, if◌then◌else◌, ℤ, String,
  Option, some, none, Outcome, ok, err, ◌>>=◌, ◌>>◌, require, Fault, assertion, logic_error,
  field_not_found, is_exception, map_option,
}
use mathlib.Core.Option.{some-injective}
use elsa_fyp.Core.Orders.{Side, OrderType, TimeInForce}
use elsa_fyp.Gateway.Fix.{
  Fix, Message, side_from_fix, ord_type_from_fix, tif_from_fix, convert_to_internal_price,
  convert_to_internal_quantity,
}
use elsa_fyp.Gateway.Application.{
  Locals, get, price_field, convert_price, new_order_of, receive_new_order, stoi_option,
  cancel_request_of, receive_cancel_request,
}
use elsa_fyp.Gateway.Carried.{CarriesOrder, CarriesCancel, InRange, Routed, Read, found, failed}

module _ (fix : Fix) (m : Message fix) where
  get-Read :
      {V A : Type 0} {Carries : A → Type 0} (o : Option V) (l : Locals)
      (rest : V → Locals × Outcome A)
      → (o ≡ none → Routed fix m l)
      → ((v : V) → o ≡ some v → Read fix m Carries (rest v))
      → Read fix m Carries (get o l rest)
  get-Read none l rest routed found_it = failed l field_not_found refl (routed refl) refl
  get-Read (some v) l rest routed found_it = found_it v refl

  bind-Read :
      {V A : Type 0} {Carries : A → Type 0} (l : Locals) (o : Outcome V) (rest : V → Outcome A)
      → Routed fix m l
      → ((e : Fault) → o ≡ err e → is_exception e ≡ true)
      → ((v : V) → o ≡ ok v → Read fix m Carries (l, rest v))
      → Read fix m Carries (l, o >>= rest)
  bind-Read l (err e) rest routed caught found_it = failed l e (caught e refl) routed refl
  bind-Read l (ok v) rest routed caught found_it = found_it v refl

  -- Without assertions the conversions fail by an exception.
  module _ (release : fix.asserts ≡ false)
      (parses : (t : String) (e : Fault) → fix.stoi t ≡ err e → is_exception e ≡ true)
      (in_range : InRange fix m) where
    switch_caught :
        {A : Type 0} (a b asserts : Bool) (x y : A) (e : Fault)
        → asserts ≡ false
        → (require ((a || b) || not asserts) assertion
            >> (if a then ok x else if b then ok y else err logic_error))
          ≡ err e
        → is_exception e ≡ true
    switch_caught true b asserts x y e off h = cc
    switch_caught false true asserts x y e off h = cc
    switch_caught false false false x y e off h = cc
    switch_caught false false true x y e off h = absurd cc

    side_caught : (k : ℕ) (e : Fault) → side_from_fix fix k ≡ err e → is_exception e ≡ true
    unfolding side_from_fix
    side_caught k e h =
        switch_caught (k == fix.side_buy) (k == fix.side_sell) fix.asserts Side.bid Side.ask e
          release h

    ord_type_caught : (k : ℕ) (e : Fault) → ord_type_from_fix fix k ≡ err e → is_exception e ≡ true
    unfolding ord_type_from_fix
    ord_type_caught k e h =
        switch_caught (k == fix.ord_type_limit) (k == fix.ord_type_market) fix.asserts
          OrderType.limit OrderType.market e release h

    tif_caught : (k : ℕ) (e : Fault) → tif_from_fix fix k ≡ err e → is_exception e ≡ true
    unfolding tif_from_fix
    tif_caught k e h =
        switch_caught (k == fix.time_in_force_day) (k == fix.time_in_force_gtc) fix.asserts
          TimeInForce.day TimeInForce.gtc e release h

    stoi_option_caught :
        (t : Option String) (e : Fault) → stoi_option fix t ≡ err e → is_exception e ≡ true
    stoi_option_caught none e h = cc
    stoi_option_caught (some t) e h = elim-stoi (fix.stoi t) refl h
      where
        elim-stoi :
            (o : Outcome ℤ)
            → fix.stoi t ≡ o
            → (o >>= λ n. ok (some n)) ≡ err e
            → is_exception e ≡ true
        elim-stoi (ok n) q k = cc
        elim-stoi (err f) q k =
            let same : f ≡ e = cc in subst (λ g. is_exception g ≡ true) same (parses t f q)

    in_range_caught :
        (o : Outcome ℤ) (e : Fault) → (z : ℤ) × (o ≡ ok z) → o ≡ err e → is_exception e ≡ true
    in_range_caught o e (z, h) k = absurd (cc)

    quantity_caught :
        (q : fix.Double) (e : Fault)
        → m.order_qty ≡ some q
        → convert_to_internal_quantity fix q ≡ err e
        → is_exception e ≡ true
    quantity_caught q e has = in_range_caught _ e (in_range.order_qty q has)

    price_found :
        {A : Type 0} (limit : Bool) (o : Option A) (p : A)
        → (if limit then map_option some o else some none) ≡ some (some p)
        → o ≡ some p
    price_found true none p e = absurd (cc)
    price_found true (some q) p e = some-injective _ _ e
    price_found false o p e = absurd (cc)

    bound_caught :
        (o : Outcome ℤ) (e : Fault)
        → (z : ℤ) × (o ≡ ok z)
        → (o >>= λ n. ok (some n)) ≡ err e
        → is_exception e ≡ true
    bound_caught (ok n) e w h = absurd (cc)
    bound_caught (err f) e (z, h') h = absurd (cc)

    price_caught :
        (ord_type : ℕ) (p : Option fix.Double) (e : Fault)
        → price_field fix ord_type m.price ≡ some p
        → convert_price fix p ≡ err e
        → is_exception e ≡ true
    price_caught ord_type none e has h = absurd (cc)
    price_caught ord_type (some p) e has h =
        bound_caught (convert_to_internal_price fix p) e
          (in_range.price p (price_found (ord_type == fix.ord_type_limit) m.price p has)) h

    absent : {o : Option String} {s : String} → o ≡ none → o ≡ some s → ⊥
    absent e e' = cc

    -- The header as far as it was read.
    no_sender : m.sender_comp_id ≡ none → (l : Locals) → Routed fix m l
    no_sender e l = record { back = λ s t h k. absurd (absent e h) }

    no_target : m.target_comp_id ≡ none → (l : Locals) → Routed fix m l
    no_target e l = record { back = λ s t h k. absurd (absent e k) }

    header :
        {s t : String}
        → m.sender_comp_id ≡ some s
        → m.target_comp_id ≡ some t
        → (l : Locals) → l.sender_comp_id ≡ s
        → l.target_comp_id ≡ t
        → Routed fix m l
    header hs ht l es et = record {
      back =
          λ s' t' h k. (es ∙ some-injective _ _ (sym hs ∙ h), et ∙ some-injective _ _ (sym ht ∙ k));
    }

    pub receive_new_order-Read : Read fix m (CarriesOrder fix m) (receive_new_order fix m)
    unfolding receive_new_order new_order_of
    receive_new_order-Read =
        get-Read m.sender_comp_id _ _ (λ e. no_sender e _)
          λ s es.
            get-Read m.target_comp_id _ _ (λ e. no_target e _)
              λ t et.
                let back : (l : Locals)
                    → l.sender_comp_id ≡ s
                    → l.target_comp_id ≡ t
                    → Routed fix m l =
                  header es et in
                get-Read m.cl_ord_id _ _ (λ e. back _ refl refl)
                  λ id eid.
                    get-Read m.symbol _ _ (λ e. back _ refl refl)
                      λ symbol esym.
                        get-Read m.side _ _ (λ e. back _ refl refl)
                          λ side eside.
                            get-Read m.order_qty _ _ (λ e. back _ refl refl)
                              λ qty eqty.
                                get-Read m.ord_type _ _ (λ e. back _ refl refl)
                                  λ ord_type etype.
                                    get-Read (price_field fix ord_type m.price) _ _
                                      (λ e. back _ refl refl)
                                      λ price eprice.
                                        get-Read m.time_in_force _ _ (λ e. back _ refl refl)
                                          λ tif etif.
                                            bind-Read _ (fix.stoi id) _ (back _ refl refl)
                                              (λ e h. parses id e h)
                                              λ n en.
                                                bind-Read _ (side_from_fix fix side) _
                                                  (back _ refl refl) (λ e h. side_caught side e h)
                                                  λ internal ei.
                                                    bind-Read _
                                                      (convert_to_internal_quantity fix qty) _
                                                      (back _ refl refl)
                                                      (λ e h. quantity_caught qty e eqty h)
                                                      λ internal_qty eq.
                                                        bind-Read _ (ord_type_from_fix fix ord_type)
                                                          _ (back _ refl refl)
                                                          (λ e h. ord_type_caught ord_type e h)
                                                          λ internal_type ety.
                                                            bind-Read _ (convert_price fix price) _
                                                            (back _ refl refl)
                                                            (λ e h.
                                                            price_caught ord_type price e eprice h)
                                                            λ internal_price ep.
                                                            bind-Read _ (tif_from_fix fix tif) _
                                                            (back _ refl refl)
                                                            (λ e h. tif_caught tif e h)
                                                            λ internal_tif ett.
                                                            found _ _
                                                            (record {
                                                            sender_comp_id = es;
                                                            target_comp_id = et;
                                                            order_id = refl;
                                                            cl_ord_id = record {
                                                            value = id;
                                                            found = eid;
                                                            converts = en;
                                                            };
                                                            symbol = esym;
                                                            side = record {
                                                            value = side;
                                                            found = eside;
                                                            converts = ei;
                                                            };
                                                            order_qty = record {
                                                            value = qty;
                                                            found = eqty;
                                                            converts = eq;
                                                            };
                                                            ord_type = record {
                                                            value = ord_type;
                                                            found = etype;
                                                            converts = ety;
                                                            };
                                                            price = record {
                                                            value = price;
                                                            found = eprice;
                                                            converts = ep;
                                                            };
                                                            time_in_force = record {
                                                            value = tif;
                                                            found = etif;
                                                            converts = ett;
                                                            };
                                                            })
                                                            refl

    pub receive_cancel_request-Read :
        Read fix m (CarriesCancel fix m) (receive_cancel_request fix m)
    unfolding receive_cancel_request cancel_request_of
    receive_cancel_request-Read =
        get-Read m.sender_comp_id _ _ (λ e. no_sender e _)
          λ s es.
            get-Read m.target_comp_id _ _ (λ e. no_target e _)
              λ t et.
                let back : (l : Locals)
                    → l.sender_comp_id ≡ s
                    → l.target_comp_id ≡ t
                    → Routed fix m l =
                  header es et in
                get-Read m.orig_cl_ord_id _ _ (λ e. back _ refl refl)
                  λ orig eorig.
                    get-Read m.cl_ord_id _ _ (λ e. back _ refl refl)
                      λ id eid.
                        get-Read m.order_qty _ _ (λ e. back _ refl refl)
                          λ qty eqty.
                            get-Read m.symbol _ _ (λ e. back _ refl refl)
                              λ symbol esym.
                                get-Read m.side _ _ (λ e. back _ refl refl)
                                  λ side eside.
                                    bind-Read _ (stoi_option fix m.order_id) _ (back _ refl refl)
                                      (λ e h. stoi_option_caught m.order_id e h)
                                      λ order eo.
                                        bind-Read _ (fix.stoi orig) _ (back _ refl refl)
                                          (λ e h. parses orig e h)
                                          λ orig_n eorig_n.
                                            bind-Read _ (fix.stoi id) _ (back _ refl refl)
                                              (λ e h. parses id e h)
                                              λ n en.
                                                bind-Read _ (side_from_fix fix side) _
                                                  (back _ refl refl) (λ e h. side_caught side e h)
                                                  λ internal ei.
                                                    bind-Read _
                                                      (convert_to_internal_quantity fix qty) _
                                                      (back _ refl refl)
                                                      (λ e h. quantity_caught qty e eqty h)
                                                      λ internal_qty eq.
                                                        found _ _
                                                          (record {
                                                            sender_comp_id = es;
                                                            target_comp_id = et;
                                                            order_id = eo;
                                                            orig_cl_ord_id = record {
                                                            value = orig;
                                                            found = eorig;
                                                            converts = eorig_n;
                                                            };
                                                            cl_ord_id = record {
                                                            value = id;
                                                            found = eid;
                                                            converts = en;
                                                            };
                                                            symbol = esym;
                                                            side = record {
                                                            value = side;
                                                            found = eside;
                                                            converts = ei;
                                                            };
                                                            order_qty = record {
                                                            value = qty;
                                                            found = eqty;
                                                            converts = eq;
                                                            };
                                                          })
                                                          refl
