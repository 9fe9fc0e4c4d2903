-- ===== src/Ipc/Calls.antt =====
-- When the buffer is full or has nothing to take, and calls that nothing interrupts.
use elsa_fyp.Prelude.{
  ℕ, zero, suc, ◌+◌, ◌^◌, ◌≤◌, ◌<◌, ◌≡◌, refl, sym, ap, ◌∙◌, subst, List, [], ◌∷◌, ◌++◌, some, none,
  length, length-append, arith, Bool, true, false, Bool-cases, ltb, ==_iff, ◌==◌, inl, inr, ◌⊎◌,
  ltb_ℤ, eqb_ℤ, pos,
}
use native.Mathlib.Nat.{add-mod_right, mod-lt, mod-eq_of_lt}
use native.Mathlib.Decide.{dec_lt}
use mathlib.Core.List.{append-nil}
use elsa_fyp.Ipc.Ring.{Producer, Consumer, slot, difference, size_t, produce, consume}
use elsa_fyp.Ipc.System.{System, Event, step, run}
use elsa_fyp.Ipc.Invariant.{
  vacant, taken, full, Tells, Stands, IsValid, released, holds, eqb-difference, ltb-difference,
}
use elsa_fyp.Ipc.Moves.{live_slot}
use elsa_fyp.Ipc.Safety.{sequence-lt}
use elsa_fyp.Ipc.Runs.{run-IsValid}

-- Every slot belongs to a live position.
covers : (n r k : ℕ) → k < n → (p : ℕ) × (r ≤ p) × (p < r + n) × (slot n p ≡ k)
covers n zero k h = (k, omega arith, omega arith, mod-eq_of_lt h)
covers n (suc r) k h =
    let (p, lo, hi, e) = covers n r k h in
    elim (dec_lt r p) [
      | yes past ↦ (p, omega arith, omega arith, e)
      | no here ↦ (p + n, omega arith, omega arith, add-mod_right p n ∙ e)
    ]

-- The accesses of one `try_pop`.
abbrev pub try_pop {ℓ} : {A : Type ℓ} → List (Event A)
try_pop = Event.consumes ∷ Event.consumes ∷ Event.consumes ∷ Event.consumes ∷ Event.consumes ∷ []

-- The accesses from the compare-exchange on, which fails spuriously `failures` times.
abbrev pub attempts {ℓ} : {A : Type ℓ} → ℕ → ℕ → List (Event A)
attempts i zero = Event.produces i false ∷ Event.produces i false ∷ Event.produces i false ∷ []
attempts i (suc failures) = Event.produces i true ∷ Event.produces i false ∷ attempts i failures

-- The accesses of `try_push` or `push_blocking`.
abbrev pub push_after {ℓ} : {A : Type ℓ} → ℕ → A → Bool → (failures : ℕ) → List (Event A)
push_after i x blocking failures =
    Event.call i x blocking ∷ Event.produces i false ∷ Event.produces i false ∷ attempts i failures

abbrev pub push {ℓ} : {A : Type ℓ} → ℕ → A → Bool → List (Event A)
push i x blocking = push_after i x blocking 0

-- A producer that nothing interrupts claims and publishes, however often the exchange fails.
attempts-push {ℓ} :
    {A : Type ℓ} (n i : ℕ) (x : A) (blocking : Bool) (failures : ℕ) (s : System A)
    → s.producers i ≡ Producer.free x blocking s.ring.head
    → eqb_ℤ (difference (s.ring.sequence (slot n s.ring.head)) s.ring.head) (pos 0) ≡ true
    → ((run n (attempts i failures) s).pushed ≡ s.pushed ++ x ∷ [])
      × ((run n (attempts i failures) s).producers i ≡ Producer.idle)
unfolding run step produce
attempts-push n i x blocking zero s e is_free =
    let same : (i == i) ≡ true = (==_iff i i).1 refl in
    let at_head : (s.ring.head == s.ring.head) ≡ true = (==_iff s.ring.head s.ring.head).1 refl in
    rw (e, same, at_head, append-nil (s.pushed ++ x ∷ []), append-nil (s.pushed ++ x ∷ []))
      (refl, refl)
attempts-push n i x blocking (suc failures) s e is_free =
    let same : (i == i) ≡ true = (==_iff i i).1 refl in
    let at_head : (s.ring.head == s.ring.head) ≡ true = (==_iff s.ring.head s.ring.head).1 refl in
    let again = step n (Event.produces i false) (step n (Event.produces i true) s) in
    let ring : again.ring ≡ s.ring = rw (e, same, at_head, is_free) refl in
    let (pushed, idle) =
      attempts-push n i x blocking failures again (rw (e, same, at_head, is_free) refl)
        (rw (ring) is_free) in
    let kept : again.pushed ≡ s.pushed =
      rw (e, same, at_head, append-nil s.pushed, append-nil s.pushed) refl in
    (pushed ∙ ap (λ l. l ++ x ∷ []) kept, idle)

module _ {ℓ} {A : Type ℓ} (n : ℕ) (s : System A) (v : IsValid n s) (two : 1 < n)
    (small : s.ring.head + n < 2 ^ 62) where
  abbrev t : ℕ
  t = released s.consumer s.ring.tail

  live_sequence : (p : ℕ) → t ≤ p → p < t + n → p ≤ s.ring.sequence (slot n p)
  live_sequence p lo hi = elim (v.slots p lo hi) [
    | vacant beyond at_p ↦ omega (arith, at_p)
    | taken below at_p ↦ omega (arith, at_p)
    | full below at_p value ↦ omega (arith, at_p)
  ]

  behind-full : (q : ℕ) → q ≤ s.ring.head → s.ring.sequence (slot n q) < q → s.ring.head ≡ t + n
  behind-full q le behind =
      let (p, lo, hi, same) = covers n t (slot n q) (mod-lt q (omega arith)) in
      let at_slot : s.ring.sequence (slot n p) ≡ s.ring.sequence (slot n q) =
        ap s.ring.sequence same in
      let less : p < q = omega (arith, live_sequence p lo hi, at_slot) in
      elim (dec_lt q (t + n)) [
        | yes live ↦
            let here : p ≡ q = live_slot n s v p q lo hi (omega arith) live same in
            absurd (omega arith)
        | no beyond ↦ omega (arith, v.head_le)
      ]

  pub refused-full :
      (spurious : Bool) (x : A) (q : ℕ)
      → q ≤ s.ring.head
      → (produce n spurious s.ring (Producer.at x false q)).1 ≡ Producer.idle
      → s.ring.head ≡ t + n
  unfolding produce
  refused-full spurious x q le e =
      elim (Bool-cases (eqb_ℤ (difference (s.ring.sequence (slot n q)) q) (pos 0))) [
        | inl equal ↦ absurd (let k = rw equal at e in cc)
        | inr other ↦
            elim (Bool-cases (ltb_ℤ (difference (s.ring.sequence (slot n q)) q) (pos 0))) [
              | inl less ↦
                  let test : ltb (s.ring.sequence (slot n q)) q ≡ true =
                    sym (
                      ltb-difference (s.ring.sequence (slot n q)) q (sequence-lt n s v two small q)
                        (omega arith))
                    ∙ less in
                  behind-full q le (ground arith)
              | inr more ↦ absurd (let k = rw (other, more) at e in cc)
            ]
      ]

  published_test :
      (p : ℕ)
      → p ≡ s.ring.tail
      → s.ring.tail < s.ring.head
      → s.ring.sequence (slot n s.ring.tail) ≡ suc s.ring.tail
      → ltb_ℤ (difference (s.ring.sequence (slot n p)) (size_t (p + 1))) (pos 0) ≡ false
  published_test p here below at_tail =
      let at_slot : s.ring.sequence (slot n p) ≡ s.ring.sequence (slot n s.ring.tail) =
        ap (λ k. s.ring.sequence (slot n k)) here in
      ltb-difference (s.ring.sequence (slot n p)) (size_t (p + 1)) (sequence-lt n s v two small p)
        (omega arith)
      ∙ let next : s.ring.sequence (slot n p) ≡ size_t (p + 1) = omega arith in ground (arith, next)

  pub missed :
      (p : ℕ)
      → s.consumer ≡ Consumer.at p
      → (consume n s.ring (Consumer.at p)).1 ≡ Consumer.begun
      → (s.ring.head ≡ s.ring.tail) ⊎ ((i : ℕ) × holds (s.producers i) ≡ some s.ring.tail)
  unfolding consume
  missed p here e =
      let stands : Stands n s.ring.head s.ring.sequence s.ring.slot_data s.pushed s.ring.tail p =
        subst (Tells n s.ring.head s.ring.sequence s.ring.slot_data s.pushed s.ring.tail) here
          v.tells in
      let unfreed : t ≡ s.ring.tail = rw here refl in
      elim (v.slots s.ring.tail (omega arith) (omega arith)) [
        | vacant beyond at_tail ↦ inl (omega arith)
        | taken below at_tail ↦ inr (v.holder s.ring.tail (omega arith) below at_tail)
        | full below at_tail value ↦
            let at_slot : s.ring.sequence (slot n p) ≡ s.ring.sequence (slot n s.ring.tail) =
              ap (λ k. s.ring.sequence (slot n k)) stands.here in
            let past = published_test p stands.here below at_tail in
            absurd (let k = rw past at e in cc)
      ]

  -- An uninterrupted `try_pop` when a value is published.
  pop_once :
      s.consumer ≡ Consumer.begun
      → s.ring.tail < s.ring.head
      → s.ring.sequence (slot n s.ring.tail) ≡ suc s.ring.tail
      → ((run n try_pop s).consumer ≡ Consumer.begun)
        × ((run n try_pop s).producers ≡ s.producers)
        × ((run n try_pop s).pushed ≡ s.pushed)
        × ((run n try_pop s).ring.head ≡ s.ring.head)
        × ((run n try_pop s).ring.tail ≡ suc s.ring.tail)
  unfolding run step consume
  pop_once e below at_tail =
      let past = published_test s.ring.tail refl below at_tail in
      rw (e, past) (refl, refl, refl, refl, omega arith)

  -- With nothing claimed and unpublished, the oldest value is published.
  oldest-published :
      ((i : ℕ) → holds (s.producers i) ≡ none)
      → s.consumer ≡ Consumer.begun
      → s.ring.tail < s.ring.head
      → s.ring.sequence (slot n s.ring.tail) ≡ suc s.ring.tail
  oldest-published quiet e below =
      let unfreed : t ≡ s.ring.tail = rw e refl in
      elim (v.slots s.ring.tail (omega arith) (omega arith)) [
        | vacant beyond at_tail ↦ absurd (omega arith)
        | taken claimed at_tail ↦
            let (i, h) = v.holder s.ring.tail (omega arith) claimed at_tail in
            absurd (let k = quiet i in cc)
        | full claimed at_tail value ↦ at_tail
      ]

  head-free :
      s.ring.head < t + n
      → eqb_ℤ (difference (s.ring.sequence (slot n s.ring.head)) s.ring.head) (pos 0) ≡ true
  head-free room =
      let at_head : s.ring.sequence (slot n s.ring.head) ≡ s.ring.head =
        elim (v.slots s.ring.head v.released_le room) [
          | vacant beyond at_p ↦ at_p
          | taken below at_p ↦ at_p
          | full below at_p value ↦ absurd (omega arith)
        ] in
      eqb-difference (s.ring.sequence (slot n s.ring.head)) s.ring.head
        (sequence-lt n s v two small s.ring.head) (omega arith)
      ∙ (==_iff (s.ring.sequence (slot n s.ring.head)) s.ring.head).1 at_head

  -- An uninterrupted `push_blocking` or `try_push` when there is room.
  pub push_once :
      (i : ℕ) (x : A) (blocking : Bool) (failures : ℕ)
      → s.producers i ≡ Producer.idle
      → s.ring.head < t + n
      → ((run n (push_after i x blocking failures) s).pushed ≡ s.pushed ++ x ∷ [])
        × ((run n (push_after i x blocking failures) s).producers i ≡ Producer.idle)
  unfolding run step produce
  push_once i x blocking failures e room =
      let same : (i == i) ≡ true = (==_iff i i).1 refl in
      let is_free = head-free room in
      let tried =
        step n (Event.produces i false)
          (step n (Event.produces i false) (step n (Event.call i x blocking) s)) in
      let ring : tried.ring ≡ s.ring = rw (e, same, is_free) refl in
      let (pushed, idle) =
        attempts-push n i x blocking failures tried (rw (e, same, is_free) refl)
          (rw (ring) is_free) in
      let kept : tried.pushed ≡ s.pushed =
        rw (e, same, append-nil s.pushed, append-nil s.pushed) refl in
      (pushed ∙ ap (λ l. l ++ x ∷ []) kept, idle)

-- `k` calls of `try_pop`.
abbrev pub try_pops {ℓ} : {A : Type ℓ} → ℕ → List (Event A)
try_pops zero = []
try_pops (suc k) =
    Event.consumes ∷ Event.consumes ∷ Event.consumes ∷ Event.consumes ∷ Event.consumes ∷ try_pops k

length-zero {ℓ} : {A : Type ℓ} (l : List A) → length l ≡ 0 → l ≡ []
length-zero [] e = refl
length-zero (x ∷ l) e = absurd (omega arith)

pub all-popped {ℓ} :
    {A : Type ℓ} (n : ℕ) (s : System A) (v : IsValid n s)
    → s.ring.head ≡ s.ring.tail
    → s.popped ≡ s.pushed
all-popped n s v all =
    let none_left : v.rest ≡ [] = length-zero v.rest (
      omega (
        arith,
        v.pushed_length,
        v.popped_length,
        ap length v.order ∙ length-append s.popped v.rest,
      )) in
    sym (append-nil s.popped) ∙ ap (λ l. s.popped ++ l) (sym none_left) ∙ sym v.order

pub drains {ℓ} :
    {A : Type ℓ} (n : ℕ) (k : ℕ) (s : System A)
    → IsValid n s
    → 1 < n
    → s.ring.head + n + 5 < 2 ^ 62
    → ((i : ℕ) → holds (s.producers i) ≡ none)
    → s.consumer ≡ Consumer.begun
    → s.ring.head ≡ s.ring.tail + k
    → (run n (try_pops k) s).popped ≡ s.pushed
unfolding run
drains n zero s v two small quiet e all = all-popped n s v (omega arith)
drains n (suc k) s v two small quiet e all =
    let low : s.ring.head + n < 2 ^ 62 = omega arith in
    let below : s.ring.tail < s.ring.head = omega arith in
    let (c, ps, pushed, head, tail) =
      pop_once n s v two low e below (oldest-published n s v two low quiet e below) in
    drains n k (run n try_pop s) (run-IsValid n try_pop s two (omega arith) v) two
      (omega (arith, head)) (λ i. ap (λ f. holds (f i)) ps ∙ quiet i) c (omega (arith, head, tail))
    ∙ pushed
