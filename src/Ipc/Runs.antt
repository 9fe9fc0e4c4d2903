-- ===== src/Ipc/Runs.antt =====
-- The accesses of the consumer, and the runs of the producers and the consumer, interleaved in any
-- order.
use elsa_fyp.Prelude.{
  ℕ, suc, ◌+◌, ◌^◌, ◌≤◌, ◌<◌, ◌≡◌, refl, sym, ap, ◌∙◌, subst, ltb, false, Bool, Bool-cases,
  if_cases, inl, inr, List, [], ◌∷◌, ◌++◌, length, arith, eqb_ℤ, ltb_ℤ, pos,
}
use native.Mathlib.Nat.{mod-eq_of_lt}
use mathlib.Core.List.{append-nil}
use elsa_fyp.Ipc.Ring.{
  Ring, Producer, Consumer, slot, update, size_t, difference, produce, consume, init,
}
use elsa_fyp.Ipc.System.{System, Event, step, run, return, begin, start}
use elsa_fyp.Ipc.Invariant.{vacant, Says, Tells, IsValid, released, holds, ltb-difference}
use elsa_fyp.Ipc.Moves.{local-IsValid}
use elsa_fyp.Ipc.Taking.{move-IsValid, ready-Published, take-Took, give-IsValid, return-IsValid}
use elsa_fyp.Ipc.Safety.{produces-IsValid, sequence-lt}

module _ {ℓ} {A : Type ℓ} (n : ℕ) (s : System A) (v : IsValid n s) (two : 1 < n)
    (small : s.ring.head + n < 2 ^ 62) where
  abbrev pub Consumed : Consumer A → System A
  Consumed c = record s {
    ring = (consume n s.ring c).0;
    consumer = (consume n s.ring c).1;
    popped = s.popped ++ return c;
  }

  moves :
      (c : Consumer A)
      → released c s.ring.tail ≡ released s.consumer s.ring.tail
      → Tells n s.ring.head s.ring.sequence s.ring.slot_data s.pushed s.ring.tail c
      → IsValid n (record s { consumer = c; popped = s.popped ++ [] })
  moves c same h =
      subst (λ l. IsValid n (record s { consumer = c; popped = l })) (sym (append-nil s.popped))
        (move-IsValid n s v c same h)

  tail_lt : released s.consumer s.ring.tail ≡ s.ring.tail → s.ring.tail < 2 ^ 62
  tail_lt e = omega (arith, v.released_le)

  -- What the test of the sequence number says.
  past_tail :
      (p : ℕ)
      → p ≡ s.ring.tail
      → s.ring.tail < 2 ^ 62
      → ltb_ℤ (difference (s.ring.sequence (slot n p)) (size_t (p + 1))) (pos 0) ≡ false
      → suc s.ring.tail ≤ s.ring.sequence (slot n s.ring.tail)
  past_tail p here low past =
      let at_slot : s.ring.sequence (slot n p) ≡ s.ring.sequence (slot n s.ring.tail) =
        ap (λ k. s.ring.sequence (slot n k)) here in
      let test : ltb (s.ring.sequence (slot n p)) (size_t (p + 1)) ≡ false =
        sym (
          ltb-difference (s.ring.sequence (slot n p)) (size_t (p + 1))
            (sequence-lt n s v two small p) (omega arith))
        ∙ past in
      let next : size_t (p + 1) ≡ suc s.ring.tail = omega arith in ground arith

  pub consumes-IsValid :
      (c : Consumer A)
      → s.consumer ≡ c
      → Tells n s.ring.head s.ring.sequence s.ring.slot_data s.pushed s.ring.tail c
      → IsValid n (Consumed c)
  unfolding consume
  consumes-IsValid Consumer.begun e h =
      moves (Consumer.at s.ring.tail) (rw e refl) (record { here = refl })
  consumes-IsValid (Consumer.at p) e h =
      let unfreed : released s.consumer s.ring.tail ≡ s.ring.tail = rw e refl in
      let low : s.ring.tail < 2 ^ 62 = tail_lt unfreed in
      elim (Bool-cases (ltb_ℤ (difference (s.ring.sequence (slot n p)) (size_t (p + 1))) (pos 0))) [
        | inl less ↦ rw less (moves Consumer.begun (rw e refl) tt)
        | inr past ↦ rw past (
            moves (Consumer.ready p) (rw e refl)
              (ready-Published n s v p (omega arith) unfreed h.here (past_tail p h.here low past)))
      ]
  consumes-IsValid (Consumer.ready p) e h =
      moves (Consumer.took p (s.ring.slot_data (slot n p))) (rw e refl)
        (take-Took n s v p (omega arith) (rw e refl) h)
  consumes-IsValid (Consumer.took p x) e h =
      let low : s.ring.tail < 2 ^ 62 = tail_lt (rw e refl) in
      let next : size_t (p + n) ≡ p + n = omega (arith, h.from.here) in
      rw (next, append-nil s.popped) (give-IsValid n s v p x e h)
  consumes-IsValid (Consumer.freed p x) e h =
      let next : size_t (p + 1) ≡ suc p = omega (arith, h.here, h.below) in
      rw next (return-IsValid n s v p x e h)

  calls-IsValid :
      (i : ℕ) (x : A) (blocking : Bool) (p : Producer A)
      → s.producers i ≡ p
      → Says n s.ring.head s.ring.sequence s.ring.slot_data s.pushed
          (released s.consumer s.ring.tail)
          p
      → IsValid n (record s { producers = update s.producers i (begin p x blocking) })
  calls-IsValid i x blocking Producer.idle e h =
      local-IsValid n s v i (Producer.begun x blocking) tt (sym (ap holds e))
  calls-IsValid i x blocking (Producer.begun y b) e h =
      local-IsValid n s v i (Producer.begun y b) h (sym (ap holds e))
  calls-IsValid i x blocking (Producer.at y b q) e h =
      local-IsValid n s v i (Producer.at y b q) h (sym (ap holds e))
  calls-IsValid i x blocking (Producer.free y b q) e h =
      local-IsValid n s v i (Producer.free y b q) h (sym (ap holds e))
  calls-IsValid i x blocking (Producer.claimed y q) e h =
      local-IsValid n s v i (Producer.claimed y q) h (sym (ap holds e))
  calls-IsValid i x blocking (Producer.written y q) e h =
      local-IsValid n s v i (Producer.written y q) h (sym (ap holds e))

  -- The invariant holds after the next access.
  pub step-IsValid : (e : Event A) → IsValid n (step n e s)
  unfolding step
  step-IsValid (Event.call i x blocking) =
      calls-IsValid i x blocking (s.producers i) refl (v.says i)
  step-IsValid (Event.produces i spurious) =
      produces-IsValid n s v two small spurious i (s.producers i) refl (v.says i)
  step-IsValid Event.consumes = consumes-IsValid s.consumer refl v.tells

-- An access claims one position at most.
produce-head {ℓ} :
    {A : Type ℓ} (n : ℕ) (spurious : Bool) (m : Ring A) (p : Producer A)
    → (produce n spurious m p).0.head ≤ suc m.head
unfolding produce
produce-head n spurious m Producer.idle = omega arith
produce-head n spurious m (Producer.begun v b) = omega arith
produce-head n spurious m (Producer.at v b q) =
    if_cases {A = Ring _ × Producer _} (λ r. r.0.head ≤ suc m.head)
      (eqb_ℤ (difference (m.sequence (slot n q)) q) (pos 0)) _ _ (λ _. omega arith)
      λ _.
        if_cases {A = Ring _ × Producer _} (λ r. r.0.head ≤ suc m.head)
          (ltb_ℤ (difference (m.sequence (slot n q)) q) (pos 0)) _ _ (λ _. omega arith)
          λ _. omega arith
produce-head n spurious m (Producer.free v b q) = ground arith
produce-head n spurious m (Producer.claimed v q) = omega arith
produce-head n spurious m (Producer.written v q) = omega arith

consume-head {ℓ} :
    {A : Type ℓ} (n : ℕ) (m : Ring A) (c : Consumer A) → (consume n m c).0.head ≡ m.head
unfolding consume
consume-head n m Consumer.begun = refl
consume-head n m (Consumer.at q) =
    if_cases {A = Ring _ × Consumer _} (λ r. r.0.head ≡ m.head)
      (ltb_ℤ (difference (m.sequence (slot n q)) (size_t (q + 1))) (pos 0)) _ _ (λ _. refl)
      λ _. refl
consume-head n m (Consumer.ready q) = refl
consume-head n m (Consumer.took q v) = refl
consume-head n m (Consumer.freed q v) = refl

pub step-head {ℓ} :
    {A : Type ℓ} (n : ℕ) (e : Event A) (s : System A) → (step n e s).ring.head ≤ suc s.ring.head
unfolding step
step-head n (Event.call i x blocking) s = omega arith
step-head n (Event.produces i spurious) s = produce-head n spurious s.ring (s.producers i)
step-head n Event.consumes s = omega (arith, consume-head n s.ring s.consumer)

pub run-IsValid {ℓ} :
    {A : Type ℓ} (n : ℕ) (es : List (Event A)) (s : System A)
    → 1 < n
    → s.ring.head + length es + n < 2 ^ 62
    → IsValid n s
    → IsValid n (run n es s)
unfolding run
run-IsValid n [] s two small v = v
run-IsValid n (e ∷ es) s two small v =
    run-IsValid n es (step n e s) two (omega (arith, step-head n e s))
      (step-IsValid n s v two (omega arith) e)

-- So a run claims at most as many positions as it has accesses.
pub run-head {ℓ} :
    {A : Type ℓ} (n : ℕ) (es : List (Event A)) (s : System A)
    → (run n es s).ring.head ≤ s.ring.head + length es
unfolding run
run-head n [] s = omega arith
run-head n (e ∷ es) s = omega (arith, step-head n e s, run-head n es (step n e s))

pub start-IsValid {ℓ} : {A : Type ℓ} (n : ℕ) (m : Ring A) → IsValid n (start m)
unfolding init
start-IsValid n m = record {
  released_le = omega arith;
  head_le = omega arith;
  slots = λ p lo hi. vacant lo (mod-eq_of_lt (let lt : p < n = omega arith in lt));
  bounded = λ k lt. omega arith;
  says = λ i. tt;
  tells = tt;
  unique = λ i j p e e'. cc;
  holder = λ p lo hi e. absurd (omega arith);
  rest = [];
  order = refl;
  pushed_length = refl;
  popped_length = refl;
}
