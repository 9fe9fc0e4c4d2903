-- ===== src/Ipc/Order.antt =====
-- What the buffer promises in every state that the producers and the consumer can reach.
use elsa_fyp.Prelude.{
  ℕ, suc, ◌+◌, ◌^◌, ◌≤◌, ◌<◌, ◌≡◌, ap, ◌∙◌, subst, List, ◌++◌, some, length, length-append, arith,
  inl, inr, ◌⊎◌,
}
use native.Mathlib.Decide.{dec_lt}
use mathlib.Core.Option.{some-injective}
use elsa_fyp.Ipc.Ring.{Ring, Producer, Consumer, slot, size, init}
use elsa_fyp.Ipc.System.{System, Event, run, start}
use elsa_fyp.Ipc.Invariant.{Says, IsValid, released, holds}
use elsa_fyp.Ipc.Moves.{live_slot}
use elsa_fyp.Ipc.Runs.{run-IsValid, run-head, start-IsValid}

-- At most one value was given back and not returned.
pub released_bounds {ℓ} :
    {A : Type ℓ} (c : Consumer A) (tail : ℕ)
    → (tail ≤ released c tail) × (released c tail ≤ suc tail)
released_bounds Consumer.begun tail = (omega arith, omega arith)
released_bounds (Consumer.at p) tail = (omega arith, omega arith)
released_bounds (Consumer.ready p) tail = (omega arith, omega arith)
released_bounds (Consumer.took p v) tail = (omega arith, omega arith)
released_bounds (Consumer.freed p v) tail = (omega arith, omega arith)

module _ {ℓ} {A : Type ℓ} (n : ℕ) (s : System A) (v : IsValid n s) where
  held-live :
      (p : Producer A) (q : ℕ)
      → Says n s.ring.head s.ring.sequence s.ring.slot_data s.pushed
          (released s.consumer s.ring.tail)
          p
      → holds p ≡ some q
      → (released s.consumer s.ring.tail ≤ q) × (q < s.ring.head) × (s.ring.sequence (slot n q) ≡ q)
  held-live Producer.idle q h e = cc
  held-live (Producer.begun w b) q h e = cc
  held-live (Producer.at w b p) q h e = cc
  held-live (Producer.free w b p) q h e = cc
  held-live (Producer.claimed w p) q h e =
      let same = some-injective _ _ e in rw (← same) (h.live, h.below, h.unpublished)
  held-live (Producer.written w p) q h e =
      let same = some-injective _ _ e in
      rw (← same) (h.claims.live, h.claims.below, h.claims.unpublished)

  -- Two claimed positions with one slot are one position, of one producer.
  slot_unique :
      (i j p q : ℕ)
      → holds (s.producers i) ≡ some p
      → holds (s.producers j) ≡ some q
      → slot n p ≡ slot n q
      → i ≡ j
  slot_unique i j p q e e' same =
      let (lp, hp, sp) = held-live (s.producers i) p (v.says i) e in
      let (lq, hq, sq) = held-live (s.producers j) q (v.says j) e' in
      let here : p ≡ q =
        live_slot n s v p q lp (omega (arith, v.head_le)) lq (omega (arith, v.head_le)) same in
      v.unique i j q (subst (λ k. holds (s.producers i) ≡ some k) here e) e'

pub reached_head {ℓ} :
    {A : Type ℓ} (n : ℕ) (es : List (Event A)) (m : Ring A)
    → (run n es (start m)).ring.head ≤ length es
unfolding init
reached_head n es m = omega (arith, run-head n es (start m))

module _ {ℓ} {A : Type ℓ} (n : ℕ) (es : List (Event A)) (m : Ring A) (two : 1 < n)
    (small : length es + n < 2 ^ 62) where
  -- The invariant of the buffer holds in a state that is reached.
  pub reached-IsValid : IsValid n (run n es (start m))
  unfolding init
  reached-IsValid = run-IsValid n es (start m) two (omega arith) (start-IsValid n m)

  pub reached_head-room : (run n es (start m)).ring.head + n < 2 ^ 62
  reached_head-room = omega (arith, reached_head n es m)

-- The difference of what two loads found, which wraps when the tail is past the head.
size-eq {ℓ} :
    {A : Type ℓ} (m m' : Ring A) → m'.tail ≤ m.head → m.head < 2 ^ 62 → size m m' + m'.tail ≡ m.head
unfolding size
size-eq m m' le small = omega arith

size-wraps {ℓ} :
    {A : Type ℓ} (m m' : Ring A)
    → m.head < m'.tail
    → m'.tail < 2 ^ 62
    → size m m' + m'.tail ≡ m.head + 2 ^ 64
unfolding size
size-wraps m m' lt small = omega arith

-- After any sequence of accesses, the values that `try_pop` returned are the first that were
-- pushed, in the order in which their slots were claimed, and at most one more than the capacity
-- are left. The capacity is at least 2, and accesses and capacity are fewer than 2 ^ 62.
pub run-fifo {ℓ} :
    {A : Type ℓ} (n : ℕ) (es : List (Event A)) (m : Ring A)
    → 1 < n
    → length es + n < 2 ^ 62
    → (rest : List A) × ((run n es (start m)).pushed ≡ (run n es (start m)).popped ++ rest)
      × (length rest ≤ n + 1)
run-fifo n es m two small =
    let v = reached-IsValid n es m two small in
    let (lo, hi) = released_bounds (run n es (start m)).consumer (run n es (start m)).ring.tail in
    (
      v.rest,
      v.order,
      omega (
        arith,
        v.pushed_length,
        v.popped_length,
        v.head_le,
        hi,
        ap length v.order ∙ length-append (run n es (start m)).popped v.rest,
      ),
    )

-- After any sequence of accesses, two producers that have both claimed a position and not yet
-- published it have different slots. The capacity is at least 2, and accesses and capacity are
-- fewer than 2 ^ 62.
pub run-exclusive {ℓ} :
    {A : Type ℓ} (n : ℕ) (es : List (Event A)) (m : Ring A)
    → 1 < n
    → length es + n < 2 ^ 62
    → (i j p q : ℕ) → holds ((run n es (start m)).producers i) ≡ some p
    → holds ((run n es (start m)).producers j) ≡ some q
    → slot n p ≡ slot n q
    → i ≡ j
run-exclusive n es m two small =
    slot_unique n (run n es (start m)) (reached-IsValid n es m two small)

-- After any sequence of accesses, `size` that loads the head and the tail with no access between
-- is the number of values that were pushed and not yet returned, and at most one more than the
-- capacity. The capacity is at least 2, and accesses and capacity are fewer than 2 ^ 62.
pub size-count {ℓ} :
    {A : Type ℓ} (n : ℕ) (es : List (Event A)) (m : Ring A)
    → 1 < n
    → length es + n < 2 ^ 62
    → (size (run n es (start m)).ring (run n es (start m)).ring + length (run n es (start m)).popped
        ≡ length (run n es (start m)).pushed)
      × (size (run n es (start m)).ring (run n es (start m)).ring ≤ n + 1)
size-count n es m two small =
    let v = reached-IsValid n es m two small in
    let s = run n es (start m) in
    let (lo, hi) = released_bounds s.consumer s.ring.tail in
    let e =
      size-eq s.ring s.ring (omega (arith, v.released_le, lo))
        (omega (arith, reached_head-room n es m two small)) in
    (omega (arith, e, v.pushed_length, v.popped_length), omega (arith, e, v.head_le, hi))

-- `size` loads the head after any sequence of accesses and the tail after further accesses `es'`.
-- When no more values are returned by then than had been pushed at the first load, its result
-- is the number of the values pushed at the first load that are not returned at the second;
-- when more are, the difference wraps to that number plus 2 ^ 64. The capacity is
-- at least 2, and all accesses and the capacity are fewer than 2 ^ 62.
pub run-size {ℓ} :
    {A : Type ℓ} (n : ℕ) (es es' : List (Event A)) (m : Ring A)
    → 1 < n
    → length es + length es' + n < 2 ^ 62
    → ((length (run n es' (run n es (start m))).popped ≤ length (run n es (start m)).pushed)
        × (size (run n es (start m)).ring (run n es' (run n es (start m))).ring
              + length (run n es' (run n es (start m))).popped
            ≡ length (run n es (start m)).pushed))
      ⊎ ((length (run n es (start m)).pushed < length (run n es' (run n es (start m))).popped)
          × (size (run n es (start m)).ring (run n es' (run n es (start m))).ring
                + length (run n es' (run n es (start m))).popped
              ≡ length (run n es (start m)).pushed + 2 ^ 64))
run-size n es es' m two small =
    let s = run n es (start m) in
    let s' = run n es' s in
    let v = reached-IsValid n es m two (omega arith) in
    let head = reached_head n es m in
    let v' = run-IsValid n es' s two (omega (arith, head)) v in
    let (lo, hi) = released_bounds s'.consumer s'.ring.tail in
    let pushed = v.pushed_length in
    let popped = v'.popped_length in
    elim (dec_lt s.ring.head s'.ring.tail) [
      | yes past ↦
          let e =
            size-wraps s.ring s'.ring past
              (omega (arith, v'.released_le, lo, head, run-head n es' s)) in
          inr (omega (arith, pushed, popped), omega (arith, e, pushed, popped))
      | no within ↦
          let e = size-eq s.ring s'.ring (omega arith) (omega (arith, head)) in
          inl (omega (arith, pushed, popped), omega (arith, e, pushed, popped))
    ]
