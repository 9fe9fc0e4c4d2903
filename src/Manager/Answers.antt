-- ===== src/Manager/Answers.antt =====
-- What one message from a gateway makes the order manager send, book and record.
use elsa_fyp.Prelude.{
  ℤ, ◌≡◌, ◌≢◌, String, ap, ◌∙◌, false, Bool-cases, inl, inr, eqb, string_eq, Option, ok, Ensures,
  Ensures-ok, Ensures-step, Ensures-mono, int_eq,
}
use elsa_fyp.Core.Containers.{Container}
use elsa_fyp.Manager.Balances.{BalanceChecker}
use elsa_fyp.Manager.Validate.{validate_container}
use elsa_fyp.Manager.Preprocess.{Expected, Preprocessed, preprocess_container}
use elsa_fyp.Manager.Gatekeeping.{validate_container-Spares}
use elsa_fyp.Manager.Requests.{IsRequest, HasRequest, preprocess-IsRequest}
use elsa_fyp.Manager.Replies.{Rejects, Forwards, reject, forward}
use elsa_fyp.Manager.Run.{OrderManager, Environment, answer_container, handle_request}

-- What becomes of the request `k` that preprocessing made, by what preprocessing says of it: it
-- is refused with that reason, or validated and refused with the verdict, or validated with "ok".
pub data Answered (m : OrderManager) (gateway : ℤ) (k : Container) (m' : OrderManager)
    : Expected → Type 0 where
  unexpected :
      {reason : String}
      → Rejects m gateway k reason m'
      → Answered m gateway k m' (Expected.unexpected reason)
  invalid :
      {fill_cost : Option ℤ} {verdict : String}
      → verdict ≢ "ok"
      → validate_container k m.active_symbols m.balances fill_cost ≡ ok (verdict, m.balances)
      → Rejects m gateway k verdict m'
      → Answered m gateway k m' (Expected.expected fill_cost)
  valid :
      {fill_cost : Option ℤ} {balances : BalanceChecker}
      → validate_container k m.active_symbols m.balances fill_cost ≡ ok ("ok", balances)
      → Forwards (record m { balances = balances }) gateway k m'
      → Answered m gateway k m' (Expected.expected fill_cost)

module _ (env : Environment) where
  answer_container-Answered :
      (m : OrderManager) (k : Container) (gateway : ℤ) (answer : Expected)
      → IsRequest k
      → Ensures (λ m'. Answered m gateway k m' answer) (answer_container env m k gateway answer)
  unfolding answer_container
  answer_container-Answered m k gateway (Expected.unexpected reason) h =
      Ensures-mono (λ m'. Answered m gateway k m' (Expected.unexpected reason))
        (Rejects m gateway k reason) _ (reject env m k gateway reason h) λ m' r. unexpected r
  answer_container-Answered m k gateway (Expected.expected fill_cost) h =
      Ensures-step (λ m'. Answered m gateway k m' (Expected.expected fill_cost))
        (validate_container k m.active_symbols m.balances fill_cost) _
        λ (verdict, balances) q. elim (Bool-cases (eqb verdict "ok")) [
          | inl fine ↦
              let named : verdict ≡ "ok" = (string_eq.beq_iff verdict "ok").0 fine in
              rw fine (
                Ensures-mono (λ m'. Answered m gateway k m' (Expected.expected fill_cost))
                  (Forwards (record m { balances = balances }) gateway k) _
                  (forward env (record m { balances = balances }) k gateway h)
                  λ m' f. valid (q ∙ ap (λ v. ok (v, balances)) named) f)
          | inr bad ↦
              let spared : balances ≡ m.balances =
                Ensures-ok (λ (v, c'). eqb v "ok" ≡ false → c' ≡ m.balances) _
                  (validate_container-Spares k m.active_symbols m.balances fill_cost) q bad in
              let other : verdict ≢ "ok" =
                λ e. let same = (string_eq.beq_iff verdict "ok").1 e in absurd (cc) in
              rw bad (
                Ensures-mono (λ m'. Answered m gateway k m' (Expected.expected fill_cost))
                  (Rejects (record m { balances = balances }) gateway k verdict) _
                  (reject env (record m { balances = balances }) k gateway verdict h)
                  λ m' r. invalid other (q ∙ ap (λ b. ok (verdict, b)) spared) (record {
                    report = r.report;
                    call = r.call;
                    registry = r.registry;
                    forwarded = r.forwarded;
                    balances = r.balances ∙ spared;
                    replies = r.replies;
                    calls = r.calls;
                    refused = r.refused;
                    recorded = r.recorded;
                  }))
        ]

-- What a request that is handled was preprocessed to, and what became of it.
pub record Handled (env : Environment) (m : OrderManager) (gateway : ℤ) (k : Container)
    (m' : OrderManager) : Type 0 where
  pub preprocessed : Preprocessed
  pub made : preprocess_container m.users gateway env.engine m.registry k ≡ ok preprocessed
  pub answered :
      Answered
        (record m { registry = preprocessed.registry })
        gateway
        preprocessed.container
        m'
        preprocessed.answer

handle_request-Handled :
    (env : Environment) (m : OrderManager) (gateway : ℤ) (k : Container)
    → Ensures (Handled env m gateway k) (handle_request env m gateway k)
unfolding handle_request
handle_request-Handled env m gateway k =
    Ensures-step (Handled env m gateway k)
      (preprocess_container m.users gateway env.engine m.registry k)
      (λ p. answer_container env (record m { registry = p.registry }) p.container gateway p.answer)
      λ p q.
        let h =
          Ensures-ok HasRequest _ (preprocess-IsRequest m.users gateway env.engine m.registry k)
            q in
        Ensures-mono (Handled env m gateway k)
          (λ m'. Answered (record m { registry = p.registry }) gateway p.container m' p.answer) _
          (answer_container-Answered env (record m { registry = p.registry }) p.container gateway
            p.answer h)
          λ m' a. record { preprocessed = p; made = q; answered = a }

-- A request that is handled is answered by exactly one report to the gateway that it came from and
-- recorded by exactly one call, which holds the preprocessed request and whether it was valid. The
-- report goes to the sender under the id of the request. If preprocessing or validation gives
-- a reason, the report is a rejection with that reason, nothing is forwarded and no balance
-- changes. If validation says "ok", the preprocessed request is forwarded, the report says that the
-- order is new or its cancel pending, and the balances are those that the validation leaves.
pub handle_request-Answers :
    (env : Environment) (m : OrderManager) (gateway : ℤ) (k : Container) {m' : OrderManager}
    → handle_request env m gateway k ≡ ok m'
    → Handled env m gateway k m'
handle_request-Answers env m gateway k e =
    Ensures-ok (Handled env m gateway k) _ (handle_request-Handled env m gateway k) e
