-- ===== src/Ipc/Safety.antt =====
-- The accesses of a producer: each keeps the invariant of the buffer.
use elsa_fyp.Prelude.{
  ℕ, suc, ◌+◌, ◌^◌, ◌≤◌, ◌<◌, ◌≡◌, sym, ap, ◌∙◌, subst, ◌==◌, ==_iff, Bool, Bool-cases, if_cases,
  inl, inr, not, ◌&&◌, [], ◌++◌, arith, eqb_ℤ, ltb_ℤ, pos,
}
use native.Mathlib.Nat.{add-mod_right, mod-lt}
use native.Mathlib.Decide.{dec_lt}
use mathlib.Core.List.{append-nil}
use elsa_fyp.Ipc.Ring.{Producer, slot, update, size_t, difference, produce}
use elsa_fyp.Ipc.System.{System, claim}
use elsa_fyp.Ipc.Invariant.{
  vacant, taken, full, Says, MayClaim, IsValid, released, holds, eqb-difference,
}
use elsa_fyp.Ipc.Moves.{local-IsValid, claim-IsValid}
use elsa_fyp.Ipc.Publishing.{write-IsValid, publish-IsValid}

pub unclaimed {ℓ} :
    {A : Type ℓ} (n : ℕ) (s : System A)
    → IsValid n s
    → IsValid n (record s { pushed = s.pushed ++ [] })
unclaimed n s v = subst (λ l. IsValid n (record s { pushed = l })) (sym (append-nil s.pushed)) v

size_t-eq : (k : ℕ) → k < 2 ^ 63 → size_t k ≡ k
size_t-eq k h = omega arith

module _ {ℓ} {A : Type ℓ} (n : ℕ) (s : System A) (v : IsValid n s) (two : 1 < n)
    (small : s.ring.head + n < 2 ^ 62) where
  abbrev pub t : ℕ
  t = released s.consumer s.ring.tail

  pub sequence-lt : (q : ℕ) → s.ring.sequence (slot n q) < 2 ^ 63
  sequence-lt q = omega (arith, v.bounded (slot n q) (mod-lt q (omega arith)), v.released_le)

  -- A slot that looks free to the position at the head is free: with one slot it could be full.
  pub free-MayClaim :
      (q : ℕ)
      → q ≤ s.ring.head
      → s.ring.sequence (slot n q) ≡ q
      → MayClaim n s.ring.head s.ring.sequence s.ring.slot_data s.pushed t q
  free-MayClaim q le e = record {
    reached = le;
    room = λ at_head. elim (dec_lt s.ring.head (t + n)) [
      | yes room ↦ room
      | no none_left ↦
          let last : q ≡ t + n = omega (arith, v.head_le) in
          let here : s.ring.sequence (slot n t) ≡ t + n =
            ap s.ring.sequence (sym (ap (slot n) last ∙ add-mod_right t n)) ∙ e ∙ last in
          elim (v.slots t (omega arith) (omega arith)) [
            | vacant beyond at_t ↦ absurd (omega arith)
            | taken below at_t ↦ absurd (omega arith)
            | full below at_t value ↦ absurd (omega arith)
          ]
    ];
  }

  abbrev pub Produced : Bool → ℕ → Producer A → System A
  Produced spurious i p = record s {
    ring = (produce n spurious s.ring p).0;
    producers = update s.producers i (produce n spurious s.ring p).1;
    pushed = s.pushed ++ claim spurious s.ring p;
  }

  stays :
      (i : ℕ) (p : Producer A)
      → Says n s.ring.head s.ring.sequence s.ring.slot_data s.pushed t p
      → holds p ≡ holds (s.producers i)
      → IsValid n (record s { producers = update s.producers i p; pushed = s.pushed ++ [] })
  stays i p h keep =
      unclaimed n (record s { producers = update s.producers i p }) (local-IsValid n s v i p h keep)

  pub produces-IsValid :
      (spurious : Bool) (i : ℕ) (p : Producer A)
      → s.producers i ≡ p
      → Says n s.ring.head s.ring.sequence s.ring.slot_data s.pushed t p
      → IsValid n (Produced spurious i p)
  unfolding produce
  produces-IsValid spurious i Producer.idle e h = stays i Producer.idle tt (sym (ap holds e))
  produces-IsValid spurious i (Producer.begun x b) e h =
      stays i (Producer.at x b s.ring.head) (record { reached = omega arith }) (sym (ap holds e))
  produces-IsValid spurious i (Producer.at x b q) e h =
      elim (Bool-cases (eqb_ℤ (difference (s.ring.sequence (slot n q)) q) (pos 0))) [
        | inl zero ↦ rw zero (
            stays i (Producer.free x b q)
              (free-MayClaim q h.reached (
                (==_iff (s.ring.sequence (slot n q)) q).0 (
                  sym (
                    eqb-difference (s.ring.sequence (slot n q)) q (sequence-lt q)
                      (omega (arith, h.reached)))
                  ∙ zero)))
              (sym (ap holds e)))
        | inr other ↦
            rw other
              (elim (Bool-cases (ltb_ℤ (difference (s.ring.sequence (slot n q)) q) (pos 0))) [
                | inl less ↦ rw less (
                    if_cases
                      (λ w.
                        IsValid n (record s {
                          producers = update s.producers i w;
                          pushed = s.pushed ++ [];
                        }))
                      b (Producer.begun x b) Producer.idle
                      (λ _. stays i (Producer.begun x b) tt (sym (ap holds e)))
                      (λ _. stays i Producer.idle tt (sym (ap holds e))))
                | inr more ↦ rw more (stays i (Producer.begun x b) tt (sym (ap holds e)))
              ])
      ]
  produces-IsValid spurious i (Producer.free x b q) e h =
      elim (Bool-cases (s.ring.head == q && not spurious)) [
        | inl won ↦
            let here : s.ring.head ≡ q = ground arith in
            let next : size_t (q + 1) ≡ suc s.ring.head = omega arith in
            rw (won, next, ← here) (claim-IsValid n s v i x (ap holds e) (h.room (sym here)))
        | inr lost ↦ rw lost (
            stays i (Producer.at x b s.ring.head) (record { reached = omega arith })
              (sym (ap holds e)))
      ]
  produces-IsValid spurious i (Producer.claimed x q) e h =
      unclaimed n _ (write-IsValid n s v i q x (ap holds e) h)
  produces-IsValid spurious i (Producer.written x q) e h =
      let next : size_t (q + 1) ≡ suc q = omega (arith, h.claims.below) in
      rw next (unclaimed n _ (publish-IsValid n s v i q x (ap holds e) h.claims h.stored))
