-- ===== src/Manager/Balances.antt =====
-- services/order_manager/src/balance_checker.{h,cpp}. Balances are `int64_t`.
pub mod Credit
use elsa_fyp.Prelude.{
  ℤ, pos, ◌+ℤ◌, leb_ℤ, String, Bool, not, none, some, Map, lookup, insert, contains, eqb, string_eq,
  [], ◌∷◌, Outcome, ok, contract, assertion, out_of_range, require, or_fault, int64, ◌>>=◌, ◌>>◌,
}

-- Map(broker_id, Map(ticker, amount))
abbrev pub BalanceMap : Type 0
BalanceMap = Map String (Map String ℤ)

pub record BalanceChecker : Type 0 where
  pub balance_map : BalanceMap

unfoldable pub broker_id_exists : BalanceChecker → String → Bool
broker_id_exists c broker_id = contains broker_id c.balance_map

abbrev pub is_empty : String → Bool
is_empty s = eqb s ""

unfoldable pub broker_owns_ticker : BalanceChecker → String → String → Outcome Bool
unfolding broker_id_exists
broker_owns_ticker c broker_id ticker = do
  require (broker_id_exists c broker_id) contract
  require (not (is_empty ticker)) contract
  balances ← or_fault (lookup broker_id c.balance_map) out_of_range
  ok (contains ticker balances)

unfoldable pub get_balance : BalanceChecker → String → String → Outcome ℤ
unfolding broker_owns_ticker
get_balance c broker_id ticker = do
  require (broker_id_exists c broker_id) contract
  owns ← broker_owns_ticker c broker_id ticker
  require owns contract
  balances ← or_fault (lookup broker_id c.balance_map) out_of_range
  amount ← or_fault (lookup ticker balances) out_of_range
  require (leb_ℤ (pos 0) amount) contract
  ok amount

unfoldable pub has_sufficient_balance : BalanceChecker → String → String → ℤ → Outcome Bool
unfolding get_balance
has_sufficient_balance c broker_id ticker delta = do
  require (broker_id_exists c broker_id) contract
  owns ← broker_owns_ticker c broker_id ticker
  require owns contract
  balance ← get_balance c broker_id ticker
  sum ← int64 (balance +ℤ delta)
  ok (leb_ℤ (pos 0) sum)

-- A broker or a ticker without a record gets one that holds `delta`, whatever its sign.
unfoldable pub update_balance : BalanceChecker → String → String → ℤ → Outcome BalanceChecker
unfolding has_sufficient_balance
update_balance c broker_id ticker delta = do
  require (not (is_empty ticker)) contract
  elim (lookup broker_id c.balance_map) [
    | none ↦ ok (record { balance_map = insert broker_id ((ticker, delta) ∷ []) c.balance_map })
    | some balances ↦ elim (lookup ticker balances) [
      | none ↦
          ok
            (record { balance_map = insert broker_id (insert ticker delta balances) c.balance_map })
      | some amount ↦ (do
        enough ← has_sufficient_balance c broker_id ticker delta
        require enough assertion
        sum ← int64 (amount +ℤ delta)
        ok (record { balance_map = insert broker_id (insert ticker sum balances) c.balance_map }))
    ]
  ]
