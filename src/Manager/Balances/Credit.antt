-- ===== src/Manager/Balances/Credit.antt =====
-- What a balance update does to the amounts that the brokers hold.
use elsa_fyp.Prelude.{
  ℤ, pos, ◌+ℤ◌, ◌≡◌, refl, sym, subst, true, Bool-cases, inl, inr, ◌&&◌, Bool, leb_ℤ, out_of_range,
  if◌then◌else◌, String, Option, Option-cases, none, some, [], Map, lookup, insert, eqb, Eq,
  string_eq, int_laws, ok, Ensures, Ensures-require, Ensures-bind, Ensures-step, Ensures-or_fault,
  contract, assertion, int64, int64-eq, lookup-insert_self, lookup-insert_ne, not,
}
use elsa_fyp.Manager.Balances.{
  BalanceChecker, update_balance, has_sufficient_balance, is_empty, get_balance, broker_id_exists,
  broker_owns_ticker,
}

-- The amount of a record that may be missing, and the records of a broker that may be missing.
abbrev pub or_zero : Option ℤ → ℤ
or_zero none = pos 0
or_zero (some a) = a

abbrev pub or_nothing : Option (Map String ℤ) → Map String ℤ
or_nothing none = []
or_nothing (some m) = m

-- What a broker holds of a symbol; a missing record counts as 0.
unfoldable pub amount : BalanceChecker → String → String → ℤ
unfolding lookup
amount c broker_id ticker = or_zero (lookup ticker (or_nothing (lookup broker_id c.balance_map)))

-- `delta` for one broker and one symbol, 0 for all others.
unfoldable pub credit : String → String → ℤ → String → String → ℤ
credit broker_id ticker delta u s = if eqb broker_id u && eqb ticker s then delta else pos 0

-- All amounts before and after an update.
abbrev pub Credits : BalanceChecker → String → String → ℤ → BalanceChecker → Type 0
Credits c broker_id ticker delta c' =
    (u s : String) → amount c' u s ≡ amount c u s +ℤ credit broker_id ticker delta u s

pub lookup-insert :
    {K V : Type 0} ⦃e : Eq K⦄ (j k : K) (v : V) (m : Map K V)
    → lookup j (insert k v m) ≡ (if eqb k j then some v else lookup j m)
lookup-insert ⦃e⦄ j k v m = elim (Bool-cases (eqb k j)) [
  | inl q ↦ let same : k ≡ j = (e.beq_iff k j).0 q in rw (q, ← same) (lookup-insert_self k v m)
  | inr q ↦
      rw q (lookup-insert_ne j k v m λ p. let t : eqb k j ≡ true = (e.beq_iff k j).1 (sym p) in cc)
]

pub +ℤ_zero : (a : ℤ) → a +ℤ pos 0 ≡ a
+ℤ_zero a = omega int_laws

zero_+ℤ : (a : ℤ) → pos 0 +ℤ a ≡ a
zero_+ℤ a = omega int_laws

-- An amount that is written, for a broker and a symbol.
written-Credits :
    (c : BalanceChecker) (u s : String) (v d : ℤ)
    → v ≡ amount c u s +ℤ d
    → Credits c u s d (record {
      balance_map = insert u (insert s v (or_nothing (lookup u c.balance_map))) c.balance_map;
    })
unfolding amount credit
written-Credits c u s v d e u' s' = elim (Bool-cases (eqb u u')) [
  | inl q ↦
      let same : u ≡ u' = (string_eq.beq_iff u u').0 q in
      rw (lookup-insert u' u (insert s v old) c.balance_map, q, lookup-insert s' s v old)
        (elim (Bool-cases (eqb s s')) [
          | inl r ↦ let same' : s ≡ s' = (string_eq.beq_iff s s').0 r in rw (r, ← same, ← same') e
          | inr r ↦ rw (r, ← same) (sym (+ℤ_zero _))
        ])
  | inr q ↦ rw (lookup-insert u' u (insert s v old) c.balance_map, q) (sym (+ℤ_zero _))
]
  where
    old : Map String ℤ
    old = or_nothing (lookup u c.balance_map)

written_record-Credits :
    (c : BalanceChecker) (u s : String) (v d : ℤ) (balances : Map String ℤ)
    → or_nothing (lookup u c.balance_map) ≡ balances
    → v ≡ or_zero (lookup s balances) +ℤ d
    → Credits c u s d (record { balance_map = insert u (insert s v balances) c.balance_map })
unfolding amount
written_record-Credits c u s v d balances old e =
    subst
      (λ b.
        v ≡ or_zero (lookup s b) +ℤ d
        → Credits c u s d (record { balance_map = insert u (insert s v b) c.balance_map }))
      old (written-Credits c u s v d) e

-- An update that returns credits `delta` to one amount and leaves all others as they were.
pub update_balance-Credits :
    (c : BalanceChecker) (broker_id ticker : String) (delta : ℤ)
    → Ensures (Credits c broker_id ticker delta) (update_balance c broker_id ticker delta)
unfolding update_balance lookup insert
update_balance-Credits c u s d = Ensures-require P (not (is_empty s)) contract _ λ named.
    elim (Option-cases (lookup u c.balance_map)) [
      | inl none_u ↦
          rw none_u (written_record-Credits c u s d d [] (rw none_u refl) (sym (zero_+ℤ d)))
      | inr (balances, some_u) ↦ rw some_u (elim (Option-cases (lookup s balances)) [
        | inl none_s ↦ rw none_s (
            written_record-Credits c u s d d balances (rw some_u refl) (rw none_s (omega int_laws)))
        | inr (amount_s, some_s) ↦ rw some_s (
            Ensures-step P (has_sufficient_balance c u s d) _ λ enough q.
              Ensures-require P enough assertion _ λ yes.
                Ensures-bind P (λ w. w ≡ amount_s +ℤ d) (int64 (amount_s +ℤ d))
                  (λ sum.
                    ok (record { balance_map = insert u (insert s sum balances) c.balance_map }))
                  (int64-eq (amount_s +ℤ d))
                  λ sum same.
                    written_record-Credits c u s sum d balances (rw some_u refl)
                      (rw (some_s, same) refl))
      ])
    ]
  where
    P : BalanceChecker → Type 0
    P = Credits c u s d

get_balance-amount :
    (c : BalanceChecker) (u s : String) → Ensures (λ a. a ≡ amount c u s) (get_balance c u s)
unfolding get_balance amount
get_balance-amount c u s = Ensures-require P (broker_id_exists c u) contract _ λ known.
    Ensures-step P (broker_owns_ticker c u s) _ λ owns q. Ensures-require P owns contract _ λ yes.
      Ensures-or_fault P (lookup u c.balance_map) out_of_range _ λ bs e.
        Ensures-or_fault P (lookup s bs) out_of_range _
          λ a e'. Ensures-require P (leb_ℤ (pos 0) a) contract (ok a) λ _. rw (e, e') refl
  where
    P : ℤ → Type 0
    P a = a ≡ amount c u s

-- The test of a balance: whether the amount stays at or above 0.
pub has_sufficient_balance-lem :
    (c : BalanceChecker) (u s : String) (d : ℤ)
    → Ensures
        (λ enough. enough ≡ leb_ℤ (pos 0) (amount c u s +ℤ d))
        (has_sufficient_balance c u s d)
unfolding has_sufficient_balance
has_sufficient_balance-lem c u s d = Ensures-require P (broker_id_exists c u) contract _ λ known.
    Ensures-step P (broker_owns_ticker c u s) _ λ owns q. Ensures-require P owns contract _ λ yes.
      Ensures-bind P (λ a. a ≡ amount c u s) (get_balance c u s) _ (get_balance-amount c u s)
        λ a same.
          Ensures-bind P (λ w. w ≡ a +ℤ d) (int64 (a +ℤ d)) (λ sum. ok (leb_ℤ (pos 0) sum))
            (int64-eq (a +ℤ d)) λ sum same'. rw (same', same) refl
  where
    P : Bool → Type 0
    P enough = enough ≡ leb_ℤ (pos 0) (amount c u s +ℤ d)
