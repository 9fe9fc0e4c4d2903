-- ===== src/Ipc/Progress.antt =====
-- When a call fails, and that calls which nothing interrupts succeed.
use elsa_fyp.Prelude.{
  ℕ, ◌+◌, ◌^◌, ◌<◌, ◌≡◌, sym, ap, ◌∙◌, subst, List, [], ◌∷◌, ◌++◌, some, none, length, arith, Bool,
  false, inl, inr, ◌⊎◌,
}
use elsa_fyp.Ipc.Ring.{Ring, Producer, Consumer, size, produce, consume}
use elsa_fyp.Ipc.System.{Event, run, start}
use elsa_fyp.Ipc.Invariant.{Says, Reached, released, holds}
use elsa_fyp.Ipc.Order.{reached-IsValid, reached_head, reached_head-room, size-count}
use elsa_fyp.Ipc.Calls.{refused-full, missed, push_once, all-popped, drains, try_pops, push_after}

-- After any sequence of accesses, `try_push` refuses a value only when the capacity is used up:
-- every slot is claimed and not given back. The capacity is at least 2, and accesses and capacity
-- are fewer than 2 ^ 62.
pub try_push-full {ℓ} :
    {A : Type ℓ} (n : ℕ) (es : List (Event A)) (m : Ring A)
    → 1 < n
    → length es + n < 2 ^ 62
    → (spurious : Bool) (i : ℕ) (x : A) (q : ℕ)
    → (run n es (start m)).producers i ≡ Producer.at x false q
    → (produce n spurious (run n es (start m)).ring ((run n es (start m)).producers i)).1
      ≡ Producer.idle
    → (run n es (start m)).ring.head
      ≡ released (run n es (start m)).consumer (run n es (start m)).ring.tail + n
try_push-full n es m two small spurious i x q here refused =
    let v = reached-IsValid n es m two small in
    let s = run n es (start m) in
    let says : Reached n s.ring.head s.ring.sequence s.ring.slot_data s.pushed q =
      subst
        (Says n s.ring.head s.ring.sequence s.ring.slot_data s.pushed
          (released s.consumer s.ring.tail))
        here (v.says i) in
    refused-full n s v two (reached_head-room n es m two small) spurious x q says.reached
      (rw here at refused)

-- After any sequence of accesses, `try_pop` finds nothing only when every pushed value was
-- returned, or when a producer has claimed the oldest position and not yet published it. The
-- capacity is at least 2, and accesses and capacity are fewer than 2 ^ 62.
pub try_pop-missed {ℓ} :
    {A : Type ℓ} (n : ℕ) (es : List (Event A)) (m : Ring A)
    → 1 < n
    → length es + n < 2 ^ 62
    → (p : ℕ) → (run n es (start m)).consumer ≡ Consumer.at p
    → (consume n (run n es (start m)).ring (Consumer.at p)).1 ≡ Consumer.begun
    → ((run n es (start m)).popped ≡ (run n es (start m)).pushed)
      ⊎ ((i : ℕ) × holds ((run n es (start m)).producers i)
            ≡ some (length (run n es (start m)).popped))
try_pop-missed n es m two small p here e =
    let v = reached-IsValid n es m two small in
    let s = run n es (start m) in
    elim (missed n s v two (reached_head-room n es m two small) p here e) [
      | inl all ↦ inl (all-popped n s v all)
      | inr (i, h) ↦ inr (i, h ∙ ap some (sym v.popped_length))
    ]

-- After any sequence of accesses, once no producer is between its claim and its publication and
-- the consumer is about to call `try_pop`, as many calls of `try_pop` as `size` then tells, with
-- no access between its two loads, return all values. The capacity is at least 2, and accesses and capacity are at least 5 fewer
-- than 2 ^ 62.
pub try_pop-drains {ℓ} :
    {A : Type ℓ} (n : ℕ) (es : List (Event A)) (m : Ring A)
    → 1 < n
    → length es + n + 5 < 2 ^ 62
    → ((i : ℕ) → holds ((run n es (start m)).producers i) ≡ none)
    → (run n es (start m)).consumer ≡ Consumer.begun
    → (run n
        (try_pops (size (run n es (start m)).ring (run n es (start m)).ring))
        (run n es (start m))).popped
      ≡ (run n es (start m)).pushed
try_pop-drains n es m two small quiet e =
    let v = reached-IsValid n es m two (omega arith) in
    let s = run n es (start m) in
    let (count, most) = size-count n es m two (omega arith) in
    drains n (size s.ring s.ring) s v two (omega (arith, reached_head n es m)) quiet e
      (omega (arith, count, v.popped_length, v.pushed_length))

-- After any sequence of accesses, when a slot is free, a `try_push` or `push_blocking` of an idle
-- producer that no other access interrupts pushes its value, after any number of spurious failures
-- of its compare-exchange. The capacity is at least 2, and accesses and capacity are
-- fewer than 2 ^ 62.
pub push-completes {ℓ} :
    {A : Type ℓ} (n : ℕ) (es : List (Event A)) (m : Ring A)
    → 1 < n
    → length es + n < 2 ^ 62
    → (i : ℕ) (x : A) (blocking : Bool) (failures : ℕ)
    → (run n es (start m)).producers i ≡ Producer.idle
    → (run n es (start m)).ring.head
      < released (run n es (start m)).consumer (run n es (start m)).ring.tail + n
    → ((run n (push_after i x blocking failures) (run n es (start m))).pushed
        ≡ (run n es (start m)).pushed ++ x ∷ [])
      × ((run n (push_after i x blocking failures) (run n es (start m))).producers i
          ≡ Producer.idle)
push-completes n es m two small =
    push_once n (run n es (start m)) (reached-IsValid n es m two small) two
      (reached_head-room n es m two small)
