-- ===== src/Manager/Identity.antt =====
-- The client order id and the user, packed into one number.
use elsa_fyp.Prelude.{
  ℕ, ◌+◌, ◌*◌, ◌<◌, ℤ, pos, ◌+ℤ◌, ◌*ℤ◌, ◌≡◌, sym, ap, ◌∙◌, arith, ok, Ensures, Ensures-ok,
  Ensures-bind, int32, int32-eq, *ℤ_pos, +ℤ_pos,
}
use elsa_fyp.Core.Orders.{max_user_count}
use elsa_fyp.Manager.Preprocess.{transform_cl_ord_id}
use elsa_fyp.Manager.Reports.{client_order_id}

transform-packs :
    (c u : ℕ)
    → Ensures (λ t. t ≡ pos (c * max_user_count + u)) (transform_cl_ord_id (pos c) (pos u))
unfolding transform_cl_ord_id
transform-packs c u =
    Ensures-bind (λ t. t ≡ pos (c * max_user_count + u)) (λ s. s ≡ pos c *ℤ pos max_user_count)
      (int32 (pos c *ℤ pos max_user_count)) (λ scaled. int32 (scaled +ℤ pos u))
      (int32-eq (pos c *ℤ pos max_user_count))
      λ scaled e.
        let packed : scaled +ℤ pos u ≡ pos (c * max_user_count + u) =
          ap (λ s. s +ℤ pos u) (e ∙ *ℤ_pos c max_user_count) ∙ +ℤ_pos (c * max_user_count) u in
        rw (← packed) (int32-eq (scaled +ℤ pos u))

transform-eq :
    (c u : ℕ) {t : ℤ}
    → transform_cl_ord_id (pos c) (pos u) ≡ ok t
    → t ≡ pos (c * max_user_count + u)
transform-eq c u e = Ensures-ok (λ t. t ≡ pos (c * max_user_count + u)) _ (transform-packs c u) e

-- The id that reports carry is the client's own, for a client order id that is not negative and a user
-- id below the number of users, where packing the two does not overflow.
pub client_order_id-transform :
    (c u : ℕ) {t : ℤ}
    → u < max_user_count
    → transform_cl_ord_id (pos c) (pos u) ≡ ok t
    → client_order_id t ≡ pos c
unfolding client_order_id
client_order_id-transform c u h e = rw (transform-eq c u e) (ap pos (omega arith))

pos_injective : (a b : ℕ) → pos a ≡ pos b → a ≡ b
pos_injective a b e = ground arith

-- Among user ids below the number of users and client order ids that are not negative, no two
-- different pairs are packed into one number.
pub transform-injective :
    (c u c' u' : ℕ) {t : ℤ}
    → u < max_user_count
    → u' < max_user_count
    → transform_cl_ord_id (pos c) (pos u) ≡ ok t
    → transform_cl_ord_id (pos c') (pos u') ≡ ok t
    → (c ≡ c') × (u ≡ u')
transform-injective c u c' u' h h' e e' =
    let same = pos_injective _ _ (sym (transform-eq c u e) ∙ transform-eq c' u' e') in
    (omega (arith, same), omega (arith, same))
