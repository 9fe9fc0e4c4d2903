-- ===== src/Ipc/Moves.antt =====
-- Each access keeps the invariant of the buffer.
use elsa_fyp.Prelude.{
  ℕ, suc, ◌+◌, ◌≤◌, ◌<◌, ◌≡◌, sym, ap, ◌∙◌, subst, ◌==◌, Bool-cases, if_cases, inl, inr, [], ◌∷◌,
  ◌++◌, none, some, length-append, get_elem?, get_elem?-append, get_elem?-append_end, arith,
}
use native.Mathlib.Decide.{dec_lt}
use mathlib.Core.List.{append_assoc}
use elsa_fyp.Ipc.Ring.{Producer, Consumer, slot, update}
use elsa_fyp.Ipc.System.{System}
use elsa_fyp.Ipc.Invariant.{
  SlotAt, vacant, taken, full, Says, Tells, Claims, IsValid, released, holds, slot-injective,
}

module _ {ℓ} {A : Type ℓ} (n : ℕ) (s : System A) (v : IsValid n s) where
  abbrev pub r : ℕ
  r = released s.consumer s.ring.tail

  -- A producer moves and writes nothing shared.
  pub local-holds :
      (i : ℕ) (p' : Producer A)
      → holds p' ≡ holds (s.producers i)
      → (j q : ℕ) → holds (update s.producers i p' j) ≡ some q
      → holds (s.producers j) ≡ some q
  local-holds i p' keep j q e = elim (Bool-cases (i == j)) [
    | inl same ↦
        let here : i ≡ j = ground arith in
        subst (λ k. holds (s.producers k) ≡ some q) here (sym keep ∙ rw same at e)
    | inr other ↦ rw other at e
  ]

  pub local-holder :
      (i : ℕ) (p' : Producer A)
      → holds p' ≡ holds (s.producers i)
      → (j q : ℕ) → holds (s.producers j) ≡ some q
      → holds (update s.producers i p' j) ≡ some q
  local-holder i p' keep j q e = elim (Bool-cases (i == j)) [
    | inl same ↦
        let here : j ≡ i = ground arith in
        rw same (keep ∙ subst (λ k. holds (s.producers k) ≡ some q) here e)
    | inr other ↦ rw other e
  ]

  pub local-IsValid :
      (i : ℕ) (p' : Producer A)
      → Says n s.ring.head s.ring.sequence s.ring.slot_data s.pushed r p'
      → holds p' ≡ holds (s.producers i)
      → IsValid n (record s { producers = update s.producers i p' })
  local-IsValid i p' says keep = record {
    released_le = v.released_le;
    head_le = v.head_le;
    slots = v.slots;
    bounded = v.bounded;
    says = λ j.
        if_cases (Says n s.ring.head s.ring.sequence s.ring.slot_data s.pushed r) (i == j) p'
          (s.producers j) (λ _. says) (λ _. v.says j);
    tells = v.tells;
    unique =
        λ j k q e e'. v.unique j k q (local-holds i p' keep j q e) (local-holds i p' keep k q e');
    holder = λ q lo hi e. let (j, h) = v.holder q lo hi e in (j, local-holder i p' keep j q h);
    rest = v.rest;
    order = v.order;
    pushed_length = v.pushed_length;
    popped_length = v.popped_length;
  }

  -- Two live positions with the same slot are the same.
  pub live_slot : (p q : ℕ) → r ≤ p → p < r + n → r ≤ q → q < r + n → slot n p ≡ slot n q → p ≡ q
  live_slot p q lp hp lq hq e = elim (dec_lt p q) [
    | yes less ↦ slot-injective n p q (omega arith) (omega arith) e
    | no more ↦
        sym (slot-injective n q p (let le : q ≤ p = omega arith in le) (omega arith) (sym e))
  ]

  -- A won compare-exchange.
  module _ (i : ℕ) (x : A) (clear : holds (s.producers i) ≡ none) (room : s.ring.head < r + n) where
    abbrev pub claimed : System A
    claimed = record s {
      ring = record (s.ring) { head = suc s.ring.head };
      producers = update s.producers i (Producer.claimed x s.ring.head);
      pushed = s.pushed ++ x ∷ [];
    }

    claim-slots :
        (p : ℕ)
        → r ≤ p
        → p < r + n
        → SlotAt n (suc s.ring.head) s.ring.sequence s.ring.slot_data (s.pushed ++ x ∷ []) p
    claim-slots p lo hi = elim (v.slots p lo hi) [
      | vacant beyond at_p ↦ elim (dec_lt s.ring.head p) [
        | yes far ↦ vacant (omega arith) at_p
        | no here ↦ taken (omega arith) at_p
      ]
      | taken below at_p ↦ taken (omega arith) at_p
      | full below at_p value ↦ full (omega arith) at_p (get_elem?-append s.pushed (x ∷ []) p value)
    ]

    claim-Says :
        (p : Producer A)
        → Says n s.ring.head s.ring.sequence s.ring.slot_data s.pushed r p
        → Says n (suc s.ring.head) s.ring.sequence s.ring.slot_data (s.pushed ++ x ∷ []) r p
    claim-Says Producer.idle h = tt
    claim-Says (Producer.begun w b) h = tt
    claim-Says (Producer.at w b p) h = record { reached = omega (arith, h.reached) }
    claim-Says (Producer.free w b p) h = record {
      reached = omega (arith, h.reached);
      room = λ e. absurd (omega (arith, h.reached));
    }
    claim-Says (Producer.claimed w p) h = record {
      live = h.live;
      below = omega (arith, h.below);
      unpublished = h.unpublished;
      value = get_elem?-append s.pushed (x ∷ []) p h.value;
    }
    claim-Says (Producer.written w p) h = record {
      claims = record {
        live = h.claims.live;
        below = omega (arith, h.claims.below);
        unpublished = h.claims.unpublished;
        value = get_elem?-append s.pushed (x ∷ []) p h.claims.value;
      };
      stored = h.stored;
    }

    claim-own :
        Claims n
          (suc s.ring.head)
          s.ring.sequence
          s.ring.slot_data
          (s.pushed ++ x ∷ [])
          r
          s.ring.head
          x
    claim-own = record {
      live = v.released_le;
      below = omega arith;
      unpublished = elim (v.slots s.ring.head v.released_le room) [
        | vacant beyond at_p ↦ at_p
        | taken below at_p ↦ at_p
        | full below at_p value ↦ absurd (omega arith)
      ];
      value =
          subst (λ k. get_elem? (s.pushed ++ x ∷ []) k ≡ some x) v.pushed_length
            (get_elem?-append_end s.pushed x);
    }

    claim-Tells :
        (c : Consumer A)
        → Tells n s.ring.head s.ring.sequence s.ring.slot_data s.pushed s.ring.tail c
        → Tells n
            (suc s.ring.head)
            s.ring.sequence
            s.ring.slot_data
            (s.pushed ++ x ∷ [])
            s.ring.tail
            c
    claim-Tells Consumer.begun h = tt
    claim-Tells (Consumer.at p) h = record { here = h.here }
    claim-Tells (Consumer.ready p) h = record {
      here = h.here;
      below = omega (arith, h.below);
      published = h.published;
    }
    claim-Tells (Consumer.took p w) h = record {
      from = record {
        here = h.from.here;
        below = omega (arith, h.from.below);
        published = h.from.published;
      };
      value = get_elem?-append s.pushed (x ∷ []) s.ring.tail h.value;
    }
    claim-Tells (Consumer.freed p w) h = record {
      here = h.here;
      below = omega (arith, h.below);
      value = get_elem?-append s.pushed (x ∷ []) s.ring.tail h.value;
    }

    -- No other producer holds the position.
    held-below :
        (p : Producer A) (q : ℕ)
        → Says n s.ring.head s.ring.sequence s.ring.slot_data s.pushed r p
        → holds p ≡ some q
        → q < s.ring.head
    held-below Producer.idle q h e = cc
    held-below (Producer.begun w b) q h e = cc
    held-below (Producer.at w b p) q h e = cc
    held-below (Producer.free w b p) q h e = cc
    held-below (Producer.claimed w p) q h e = ground (arith, h.below)
    held-below (Producer.written w p) q h e = ground (arith, h.claims.below)

    claim_unique :
        (j k q : ℕ)
        → holds (claimed.producers j) ≡ some q
        → holds (claimed.producers k) ≡ some q
        → j ≡ k
    claim_unique j k q e e' = elim (Bool-cases (i == j)) [
      | inl sj ↦ elim (Bool-cases (i == k)) [
        | inl sk ↦ ground arith
        | inr nk ↦ absurd (ground (arith, held-below (s.producers k) q (v.says k) (rw nk at e')))
      ]
      | inr nj ↦ elim (Bool-cases (i == k)) [
        | inl sk ↦ absurd (ground (arith, held-below (s.producers j) q (v.says j) (rw nj at e)))
        | inr nk ↦ v.unique j k q (rw nj at e) (rw nk at e')
      ]
    ]

    claim-holder :
        (q : ℕ)
        → r ≤ q
        → q < suc s.ring.head
        → s.ring.sequence (slot n q) ≡ q
        → (j : ℕ) × holds (claimed.producers j) ≡ some q
    claim-holder q lo hi e = elim (dec_lt q s.ring.head) [
      | yes old ↦
          let (j, h) = v.holder q lo old e in
          (
            j,
            elim (Bool-cases (i == j)) [
              | inl same ↦
                  let here : i ≡ j = ground arith in
                  absurd (let k = subst (λ k. holds (s.producers k) ≡ none) here clear in cc)
              | inr other ↦ rw other h
            ],
          )
      | no late ↦
          let here : s.ring.head ≡ q = omega arith in
          (
            i,
            if_cases (λ w. holds w ≡ some q) (i == i) (Producer.claimed x s.ring.head)
                (s.producers i) (λ _. ap some here) (λ differs. absurd (ground arith)),
          )
    ]

    pub claim-IsValid : IsValid n claimed
    claim-IsValid = record {
      released_le = omega (arith, v.released_le);
      head_le = omega (arith, room);
      slots = claim-slots;
      bounded = v.bounded;
      says = λ j.
          if_cases
            (Says n (suc s.ring.head) s.ring.sequence s.ring.slot_data (s.pushed ++ x ∷ []) r)
            (i == j) (Producer.claimed x s.ring.head) (s.producers j) (λ _. claim-own)
            (λ _. claim-Says (s.producers j) (v.says j));
      tells = claim-Tells s.consumer v.tells;
      unique = claim_unique;
      holder = claim-holder;
      rest = v.rest ++ x ∷ [];
      order = ap (λ l. l ++ x ∷ []) v.order ∙ append_assoc s.popped v.rest (x ∷ []);
      pushed_length = length-append s.pushed (x ∷ []) ∙ omega (arith, v.pushed_length);
      popped_length = v.popped_length;
    }
