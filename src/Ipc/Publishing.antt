-- ===== src/Ipc/Publishing.antt =====
-- A producer writes its value into the slot that it claimed, and publishes it.
use elsa_fyp.Prelude.{
  ℕ, suc, ◌+◌, ◌≤◌, ◌<◌, ◌≡◌, refl, sym, ap, ◌∙◌, subst, ◌==◌, ==_iff, true, false, Bool-cases,
  if_cases, inl, inr, some, get_elem?, arith,
}
use mathlib.Core.Option.{some-injective}
use elsa_fyp.Ipc.Ring.{Producer, Consumer, slot, update}
use elsa_fyp.Ipc.System.{System}
use elsa_fyp.Ipc.Invariant.{
  SlotAt, vacant, taken, full, Says, Tells, Claims, Published, IsValid, released, holds,
}
use elsa_fyp.Ipc.Moves.{r, live_slot, local-holds, local-holder}

module _ {ℓ} {A : Type ℓ} (n : ℕ) (s : System A) (v : IsValid n s) (i p : ℕ) (x : A)
    (mine : holds (s.producers i) ≡ some p)
    (own : Claims n s.ring.head s.ring.sequence s.ring.slot_data s.pushed (r n s v) p x) where
  abbrev t : ℕ
  t = released s.consumer s.ring.tail

  -- Another live position has another slot.
  apart : (q : ℕ) → t ≤ q → q < s.ring.head → slot n p ≡ slot n q → p ≡ q
  apart q lo hi e =
      live_slot n s v p q own.live (omega (arith, own.below, v.head_le)) lo
        (omega (arith, v.head_le)) e

  -- Another producer holds another position.
  other_position : (j : ℕ) → (i == j) ≡ false → holds (s.producers j) ≡ some p → ⊥
  other_position j other e = let same : i ≡ j = v.unique i j p mine e in ground (arith, same)

  abbrev pub written_data : ℕ → A
  written_data = update s.ring.slot_data (slot n p) x

  write-slots :
      (q : ℕ) → t ≤ q → q < t + n → SlotAt n s.ring.head s.ring.sequence written_data s.pushed q
  write-slots q lo hi = elim (v.slots q lo hi) [
    | vacant beyond at_q ↦ vacant beyond at_q
    | taken below at_q ↦ taken below at_q
    | full below at_q value ↦ elim (Bool-cases (slot n p == slot n q)) [
      | inl same ↦
          let e : p ≡ q = apart q lo below ((==_iff (slot n p) (slot n q)).0 same) in
          absurd (
            let u : s.ring.sequence (slot n q) ≡ q =
              subst (λ k. s.ring.sequence (slot n k) ≡ k) e own.unpublished in
            omega (arith, u, at_q))
      | inr other ↦ full below at_q (value ∙ rw other refl)
    ]
  ]

  write-Says :
      (j : ℕ) (w : Producer A)
      → (i == j) ≡ false
      → s.producers j ≡ w
      → Says n s.ring.head s.ring.sequence s.ring.slot_data s.pushed t w
      → Says n s.ring.head s.ring.sequence written_data s.pushed t w
  write-Says j Producer.idle other e h = tt
  write-Says j (Producer.begun y b) other e h = tt
  write-Says j (Producer.at y b q) other e h = record { reached = h.reached }
  write-Says j (Producer.free y b q) other e h = record { reached = h.reached; room = h.room }
  write-Says j (Producer.claimed y q) other e h = record {
    live = h.live;
    below = h.below;
    unpublished = h.unpublished;
    value = h.value;
  }
  write-Says j (Producer.written y q) other e h = record {
    claims = record {
      live = h.claims.live;
      below = h.claims.below;
      unpublished = h.claims.unpublished;
      value = h.claims.value;
    };
    stored = elim (Bool-cases (slot n p == slot n q)) [
      | inl same ↦
          let here : p ≡ q =
            apart q h.claims.live h.claims.below ((==_iff (slot n p) (slot n q)).0 same) in
          absurd (other_position j other (rw e (ap some (sym here))))
      | inr differs ↦ rw differs h.stored
    ];
  }

  write-Tells :
      (c : Consumer A)
      → Tells n s.ring.head s.ring.sequence s.ring.slot_data s.pushed s.ring.tail c
      → Tells n s.ring.head s.ring.sequence written_data s.pushed s.ring.tail c
  write-Tells Consumer.begun h = tt
  write-Tells (Consumer.at q) h = record { here = h.here }
  write-Tells (Consumer.ready q) h = record {
    here = h.here;
    below = h.below;
    published = h.published;
  }
  write-Tells (Consumer.took q w) h = record {
    from = record { here = h.from.here; below = h.from.below; published = h.from.published };
    value = h.value;
  }
  write-Tells (Consumer.freed q w) h = record { here = h.here; below = h.below; value = h.value }

  pub write-IsValid : IsValid n (record s {
    ring = record (s.ring) { slot_data = written_data };
    producers = update s.producers i (Producer.written x p);
  })
  write-IsValid = record {
    released_le = v.released_le;
    head_le = v.head_le;
    slots = write-slots;
    bounded = v.bounded;
    says = λ j. elim (Bool-cases (i == j)) [
      | inl same ↦ rw same (record {
        claims = record {
          live = own.live;
          below = own.below;
          unpublished = own.unpublished;
          value = own.value;
        };
        stored =
            if_cases (λ y. y ≡ x) (slot n p == slot n p) x (s.ring.slot_data (slot n p)) (λ _. refl)
              (λ differs. absurd (ground arith));
      })
      | inr other ↦ rw other (write-Says j (s.producers j) other refl (v.says j))
    ];
    tells = write-Tells s.consumer v.tells;
    unique = λ j k q e e'.
        v.unique j k q (local-holds n s v i (Producer.written x p) (sym mine) j q e)
          (local-holds n s v i (Producer.written x p) (sym mine) k q e');
    holder = λ q lo hi e.
        let (j, h) = v.holder q lo hi e in
        (j, local-holder n s v i (Producer.written x p) (sym mine) j q h);
    rest = v.rest;
    order = v.order;
    pushed_length = v.pushed_length;
    popped_length = v.popped_length;
  }

  abbrev pub published : ℕ → ℕ
  published = update s.ring.sequence (slot n p) (suc p)

  publish-slots :
      s.ring.slot_data (slot n p) ≡ x
      → (q : ℕ) → t ≤ q
      → q < t + n
      → SlotAt n s.ring.head published s.ring.slot_data s.pushed q
  publish-slots stored q lo hi = elim (Bool-cases (slot n p == slot n q)) [
    | inl same ↦
        let at_slot = (==_iff (slot n p) (slot n q)).0 same in
        let here : p ≡ q =
          live_slot n s v p q own.live (omega (arith, own.below, v.head_le)) lo hi at_slot in
        full (omega (arith, here, own.below)) (rw same (ap suc here)) (
          subst (λ k. get_elem? s.pushed k ≡ some (s.ring.slot_data (slot n k))) here
            (own.value ∙ ap some (sym stored)))
    | inr differs ↦ elim (v.slots q lo hi) [
      | vacant beyond at_q ↦ vacant beyond (rw differs at_q)
      | taken below at_q ↦ taken below (rw differs at_q)
      | full below at_q value ↦ full below (rw differs at_q) value
    ]
  ]

  publish-Claims :
      (j : ℕ) (y : A) (q : ℕ)
      → (i == j) ≡ false
      → holds (s.producers j) ≡ some q
      → Claims n s.ring.head s.ring.sequence s.ring.slot_data s.pushed t q y
      → Claims n s.ring.head published s.ring.slot_data s.pushed t q y
  publish-Claims j y q other e h = record {
    live = h.live;
    below = h.below;
    value = h.value;
    unpublished = elim (Bool-cases (slot n p == slot n q)) [
      | inl same ↦
          let here : p ≡ q = apart q h.live h.below ((==_iff (slot n p) (slot n q)).0 same) in
          absurd (other_position j other (e ∙ ap some (sym here)))
      | inr differs ↦ rw differs h.unpublished
    ];
  }

  publish-Says :
      (j : ℕ) (w : Producer A)
      → (i == j) ≡ false
      → s.producers j ≡ w
      → Says n s.ring.head s.ring.sequence s.ring.slot_data s.pushed t w
      → Says n s.ring.head published s.ring.slot_data s.pushed t w
  publish-Says j Producer.idle other e h = tt
  publish-Says j (Producer.begun y b) other e h = tt
  publish-Says j (Producer.at y b q) other e h = record { reached = h.reached }
  publish-Says j (Producer.free y b q) other e h = record { reached = h.reached; room = h.room }
  publish-Says j (Producer.claimed y q) other e h = publish-Claims j y q other (rw e refl) h
  publish-Says j (Producer.written y q) other e h = record {
    claims = publish-Claims j y q other (rw e refl) h.claims;
    stored = h.stored;
  }

  -- The consumer stands at a slot that was published before.
  publish-Published :
      (q : ℕ)
      → t ≡ s.ring.tail
      → Published n s.ring.head s.ring.sequence s.ring.slot_data s.pushed s.ring.tail q
      → Published n s.ring.head published s.ring.slot_data s.pushed s.ring.tail q
  publish-Published q e h = record {
    here = h.here;
    below = h.below;
    published = elim (Bool-cases (slot n p == slot n s.ring.tail)) [
      | inl same ↦
          let here : p ≡ s.ring.tail =
            apart s.ring.tail (omega (arith, e)) h.below
              ((==_iff (slot n p) (slot n s.ring.tail)).0 same) in
          rw same (ap suc here)
      | inr differs ↦ rw differs h.published
    ];
  }

  publish-Tells :
      (c : Consumer A)
      → s.consumer ≡ c
      → Tells n s.ring.head s.ring.sequence s.ring.slot_data s.pushed s.ring.tail c
      → Tells n s.ring.head published s.ring.slot_data s.pushed s.ring.tail c
  publish-Tells Consumer.begun e h = tt
  publish-Tells (Consumer.at q) e h = record { here = h.here }
  publish-Tells (Consumer.ready q) e h = publish-Published q (rw e refl) h
  publish-Tells (Consumer.took q w) e h = record {
    from = publish-Published q (rw e refl) h.from;
    value = h.value;
  }
  publish-Tells (Consumer.freed q w) e h = record {
    here = h.here;
    below = h.below;
    value = h.value;
  }

  still-holds :
      (j q : ℕ)
      → holds (update s.producers i Producer.idle j) ≡ some q
      → holds (s.producers j) ≡ some q
  still-holds j q =
      if_cases (λ w. holds w ≡ some q → holds (s.producers j) ≡ some q) (i == j) Producer.idle
        (s.producers j) (λ _ e. cc) (λ _ e. e)

  publish-holder :
      (q : ℕ)
      → t ≤ q
      → q < s.ring.head
      → published (slot n q) ≡ q
      → (j : ℕ) × holds (update s.producers i Producer.idle j) ≡ some q
  publish-holder q lo hi e = elim (Bool-cases (slot n p == slot n q)) [
    | inl same ↦
        let here : p ≡ q = apart q lo hi ((==_iff (slot n p) (slot n q)).0 same) in
        absurd (let past : suc p ≡ q = rw same at e in omega arith)
    | inr differs ↦
        let (j, h) = v.holder q lo hi (rw differs at e) in
        (
          j,
          elim (Bool-cases (i == j)) [
            | inl same ↦
                let me : i ≡ j = ground arith in
                let other : holds (s.producers i) ≡ some q =
                  subst (λ k. holds (s.producers k) ≡ some q) (sym me) h in
                let here : p ≡ q = some-injective _ _ (sym mine ∙ other) in
                absurd (
                  let u : (slot n p == slot n q) ≡ true =
                    (==_iff (slot n p) (slot n q)).1 (ap (slot n) here) in
                  cc)
            | inr other ↦ rw other h
          ],
        )
  ]

  pub publish-IsValid :
      s.ring.slot_data (slot n p) ≡ x
      → IsValid n (record s {
        ring = record (s.ring) { sequence = published };
        producers = update s.producers i Producer.idle;
      })
  publish-IsValid stored = record {
    released_le = v.released_le;
    head_le = v.head_le;
    slots = publish-slots stored;
    bounded = λ k lt.
        if_cases (λ y. y ≤ t + n) (slot n p == k) (suc p) (s.ring.sequence k)
          (λ _. omega (arith, own.below, v.head_le)) (λ _. v.bounded k lt);
    says = λ j. elim (Bool-cases (i == j)) [
      | inl same ↦ rw same tt
      | inr other ↦ rw other (publish-Says j (s.producers j) other refl (v.says j))
    ];
    tells = publish-Tells s.consumer refl v.tells;
    unique = λ j k q e e'. v.unique j k q (still-holds j q e) (still-holds k q e');
    holder = publish-holder;
    rest = v.rest;
    order = v.order;
    pushed_length = v.pushed_length;
    popped_length = v.popped_length;
  }
