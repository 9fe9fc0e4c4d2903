-- ===== src/Ipc/Taking.antt =====
-- The consumer finds a value, takes it, gives the slot back and returns.
use elsa_fyp.Prelude.{
  ℕ, suc, ◌+◌, ◌≤◌, ◌<◌, ◌≡◌, refl, sym, ap, ◌∙◌, subst, ◌==◌, ==_iff, true, false, Bool-cases,
  if_cases, inl, inr, [], ◌∷◌, ◌++◌, some, length-append, get_elem?, get_elem?-split, arith,
}
use native.Mathlib.Nat.{add-mod_right}
use native.Mathlib.Decide.{dec_lt}
use mathlib.Core.List.{append_assoc}
use elsa_fyp.Ipc.Ring.{Producer, Consumer, slot, update}
use elsa_fyp.Ipc.System.{System}
use elsa_fyp.Ipc.Invariant.{
  SlotAt, vacant, taken, full, Says, Tells, Claims, Published, Took, Freed, IsValid, released,
  slot-injective,
}

module _ {ℓ} {A : Type ℓ} (n : ℕ) (s : System A) (v : IsValid n s) where
  -- The consumer moves and writes nothing shared, nor gives a slot back.
  pub move-IsValid :
      (c : Consumer A)
      → released c s.ring.tail ≡ released s.consumer s.ring.tail
      → Tells n s.ring.head s.ring.sequence s.ring.slot_data s.pushed s.ring.tail c
      → IsValid n (record s { consumer = c })
  move-IsValid c same h = record {
    released_le = rw same v.released_le;
    head_le = rw same v.head_le;
    slots = rw same v.slots;
    bounded = rw same v.bounded;
    says = rw same v.says;
    tells = h;
    unique = v.unique;
    holder = rw same v.holder;
    rest = v.rest;
    order = v.order;
    pushed_length = v.pushed_length;
    popped_length = v.popped_length;
  }

  -- A slot whose sequence is past the position of the consumer was published.
  pub ready-Published :
      (p : ℕ)
      → 0 < n
      → released s.consumer s.ring.tail ≡ s.ring.tail
      → p ≡ s.ring.tail
      → suc s.ring.tail ≤ s.ring.sequence (slot n s.ring.tail)
      → Published n s.ring.head s.ring.sequence s.ring.slot_data s.pushed s.ring.tail p
  ready-Published p some_room unfreed here past =
      elim (v.slots s.ring.tail (omega arith) (omega arith)) [
        | vacant beyond at_tail ↦ absurd (omega arith)
        | taken below at_tail ↦ absurd (omega arith)
        | full below at_tail value ↦ record { here = here; below = below; published = at_tail }
      ]

  -- The data that is read there is the value of the claim.
  pub take-Took :
      (p : ℕ)
      → 0 < n
      → released s.consumer s.ring.tail ≡ s.ring.tail
      → Published n s.ring.head s.ring.sequence s.ring.slot_data s.pushed s.ring.tail p
      → Took n s.ring.head s.ring.sequence s.ring.slot_data s.pushed s.ring.tail p
          (s.ring.slot_data (slot n p))
  take-Took p some_room unfreed h = elim (v.slots s.ring.tail (omega arith) (omega arith)) [
    | vacant beyond at_tail ↦ absurd (omega (arith, h.below))
    | taken below at_tail ↦ absurd (omega (arith, h.published))
    | full below at_tail value ↦ record {
      from = record { here = h.here; below = h.below; published = h.published };
      value = value ∙ ap (λ k. some (s.ring.slot_data (slot n k))) (sym h.here);
    }
  ]

  -- The store of the sequence number that gives the slot back.
  module _ (p : ℕ) (x : A) (here : s.consumer ≡ Consumer.took p x)
      (h : Took n s.ring.head s.ring.sequence s.ring.slot_data s.pushed s.ring.tail p x) where
    abbrev pub given_back : ℕ → ℕ
    given_back = update s.ring.sequence (slot n p) (p + n)

    open_at : released s.consumer s.ring.tail ≡ s.ring.tail
    open_at = rw here refl

    at_slot : (q : ℕ) → (slot n p == slot n q) ≡ true → slot n s.ring.tail ≡ slot n q
    at_slot q same = ap (slot n) (sym h.from.here) ∙ (==_iff (slot n p) (slot n q)).0 same

    -- A position that is still live has another slot.
    live_apart : (q : ℕ) → s.ring.tail < q → q < s.ring.tail + n → (slot n p == slot n q) ≡ false
    live_apart q lo hi = elim (Bool-cases (slot n p == slot n q)) [
      | inl same ↦
          absurd (omega (arith, slot-injective n s.ring.tail q (omega arith) hi (at_slot q same)))
      | inr differs ↦ differs
    ]

    give-slots :
        (q : ℕ)
        → suc s.ring.tail ≤ q
        → q < suc s.ring.tail + n
        → SlotAt n s.ring.head given_back s.ring.slot_data s.pushed q
    give-slots q lo hi = elim (dec_lt q (s.ring.tail + n)) [
      | yes old ↦
          let differs = live_apart q (omega arith) old in
          elim (v.slots q (omega (arith, open_at)) (omega (arith, open_at))) [
            | vacant beyond at_q ↦ vacant beyond (rw differs at_q)
            | taken below at_q ↦ taken below (rw differs at_q)
            | full below at_q value ↦ full below (rw differs at_q) value
          ]
      | no late ↦
          let last : q ≡ p + n = omega (arith, h.from.here) in
          let same : (slot n p == slot n q) ≡ true =
            (==_iff (slot n p) (slot n q)).1 (sym (ap (slot n) last ∙ add-mod_right p n)) in
          vacant (omega (arith, v.head_le, open_at)) (rw same (sym last))
    ]

    give-Claims :
        (y : A) (q : ℕ)
        → Claims n s.ring.head s.ring.sequence s.ring.slot_data s.pushed
            (released s.consumer s.ring.tail)
            q
            y
        → Claims n s.ring.head given_back s.ring.slot_data s.pushed (suc s.ring.tail) q y
    give-Claims y q k =
        let lo : s.ring.tail < q = elim (dec_lt s.ring.tail q) [
          | yes less ↦ less
          | no same ↦
              let e : s.ring.tail ≡ q = omega (arith, k.live, open_at) in
              let u : s.ring.sequence (slot n s.ring.tail) ≡ s.ring.tail =
                subst (λ j. s.ring.sequence (slot n j) ≡ j) (sym e) k.unpublished in
              absurd (omega (arith, u, h.from.published))
        ] in
        record {
          live = lo;
          below = k.below;
          value = k.value;
          unpublished =
              rw (live_apart q lo (omega (arith, k.below, v.head_le, open_at))) k.unpublished;
        }

    give-Says :
        (w : Producer A)
        → Says n s.ring.head s.ring.sequence s.ring.slot_data s.pushed
            (released s.consumer s.ring.tail)
            w
        → Says n s.ring.head given_back s.ring.slot_data s.pushed (suc s.ring.tail) w
    give-Says Producer.idle k = tt
    give-Says (Producer.begun y b) k = tt
    give-Says (Producer.at y b q) k = record { reached = k.reached }
    give-Says (Producer.free y b q) k = record {
      reached = k.reached;
      room = λ e. omega (arith, k.room e, open_at);
    }
    give-Says (Producer.claimed y q) k = give-Claims y q k
    give-Says (Producer.written y q) k = record {
      claims = give-Claims y q k.claims;
      stored = k.stored;
    }

    pub give-IsValid : IsValid n (record s {
      ring = record (s.ring) { sequence = given_back };
      consumer = Consumer.freed p x;
    })
    give-IsValid = record {
      released_le = omega (arith, h.from.below);
      head_le = omega (arith, v.head_le, open_at);
      slots = give-slots;
      bounded = λ k lt.
          if_cases (λ y. y ≤ suc s.ring.tail + n) (slot n p == k) (p + n) (s.ring.sequence k)
            (λ _. omega (arith, h.from.here)) (λ _. omega (arith, v.bounded k lt, open_at));
      says = λ j. give-Says (s.producers j) (v.says j);
      tells = record { here = h.from.here; below = h.from.below; value = h.value };
      unique = v.unique;
      holder = λ q lo hi e.
          v.holder q (omega (arith, open_at)) hi
            (rw (live_apart q lo (omega (arith, v.head_le, open_at))) at e);
      rest = v.rest;
      order = v.order;
      pushed_length = v.pushed_length;
      popped_length = v.popped_length;
    }

  -- The store of `tail_`, and the return of the value.
  module _ (p : ℕ) (x : A) (here : s.consumer ≡ Consumer.freed p x)
      (h : Freed n s.ring.head s.ring.sequence s.ring.slot_data s.pushed s.ring.tail p x) where
    gone : released s.consumer s.ring.tail ≡ suc s.ring.tail
    gone = rw here refl

    pub return-IsValid : IsValid n (record s {
      ring = record (s.ring) { tail = suc p };
      consumer = Consumer.begun;
      popped = s.popped ++ x ∷ [];
    })
    return-IsValid =
        let same : released s.consumer s.ring.tail ≡ suc p = gone ∙ ap suc (sym h.here) in
        let (rest, found) = get_elem?-split s.popped v.rest (
          subst (λ k. get_elem? (s.popped ++ v.rest) k ≡ some x) (sym v.popped_length)
            (subst (λ l. get_elem? l s.ring.tail ≡ some x) v.order h.value)) in
        record {
          released_le = rw (← same) v.released_le;
          head_le = rw (← same) v.head_le;
          slots = rw (← same) v.slots;
          bounded = rw (← same) v.bounded;
          says = rw (← same) v.says;
          tells = tt;
          unique = v.unique;
          holder = rw (← same) v.holder;
          rest = rest;
          order =
              v.order ∙ ap (λ l. s.popped ++ l) found ∙ sym (append_assoc s.popped (x ∷ []) rest);
          pushed_length = v.pushed_length;
          popped_length = length-append s.popped (x ∷ []) ∙ omega (arith, v.popped_length, h.here);
        }
