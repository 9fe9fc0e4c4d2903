-- ===== src/Tests/Ipc.antt =====
-- Two producers and the consumer of a buffer of two slots.
use elsa_fyp.Prelude.{
  ℕ, ◌+◌, ◌-◌, ◌^◌, ◌≤◌, ◌<◌, ◌≡◌, refl, true, false, List, [], ◌∷◌, ◌++◌, some, none, length,
  arith, ◌⊎◌, ◌-ℤ◌, ◌==◌, Bool-cases, inl, inr,
}
use elsa_fyp.Ipc.Ring.{Ring, Producer, size, init, produce, consume}
use elsa_fyp.Ipc.System.{Event, step, run, start}
use elsa_fyp.Ipc.Invariant.{holds, released}
use elsa_fyp.Ipc.Order.{run-fifo, run-exclusive, run-size}
use elsa_fyp.Ipc.Calls.{push, push_after, try_pop, try_pops}
use elsa_fyp.Ipc.Progress.{try_push-full, try_pop-missed, try_pop-drains, push-completes}

abbrev memory : Ring ℕ
memory = record { initialized = 0; head = 7; tail = 3; sequence = λ k. 5; slot_data = λ k. 0 }

abbrev call : ℕ → ℕ → Event ℕ
call i x = Event.call i x false

abbrev access : ℕ → Event ℕ
access i = Event.produces i false

-- Both producers read the head, the second claims the first slot, and the first the other.
abbrev race : List (Event ℕ)
race =
    call 0 10
    ∷ call 1 11
    ∷ access 0
    ∷ access 1
    ∷ access 0
    ∷ access 1
    ∷ access 1
    ∷ access 0
    ∷ access 0
    ∷ access 0
    ∷ []

abbrev filled : List (Event ℕ)
filled = push 0 10 false ++ push 1 11 true

test_race : (run 2 race (start memory)).pushed ≡ 11 ∷ 10 ∷ []
unfolding run step produce init ◌-ℤ◌
test_race = refl

test_wrapped :
    (run 2 (filled ++ try_pop ++ push 0 12 false ++ try_pop ++ try_pop) (start memory)).popped
    ≡ 10 ∷ 11 ∷ 12 ∷ []
unfolding run step produce consume init ◌-ℤ◌
test_wrapped = refl

run-fifo_example :
    (rest : List ℕ) × ((run 2 filled (start memory)).pushed
      ≡ (run 2 filled (start memory)).popped ++ rest)
    × (length rest ≤ 2 + 1)
run-fifo_example = run-fifo 2 filled memory (omega arith) (omega arith)

abbrev first : ℕ
first = 0

run-exclusive_example : first ≡ first
unfolding run step produce init ◌-ℤ◌
run-exclusive_example =
    run-exclusive 2 race memory (omega arith) (omega arith) first first 1 1 refl refl refl

test_size-wraps :
    size (start memory).ring (run 2 (filled ++ try_pop) (start memory)).ring ≡ 2 ^ 64 - 1
unfolding size run step produce consume init ◌-ℤ◌
test_size-wraps = refl

-- The buffer is empty at the first load, and one value is returned before the second.
run-size_example :
    ((length (run 2 (filled ++ try_pop) (run 2 [] (start memory))).popped
        ≤ length (run 2 [] (start memory)).pushed)
      × (size
              (run 2 [] (start memory)).ring
              (run 2 (filled ++ try_pop) (run 2 [] (start memory))).ring
            + length (run 2 (filled ++ try_pop) (run 2 [] (start memory))).popped
          ≡ length (run 2 [] (start memory)).pushed))
    ⊎ ((length (run 2 [] (start memory)).pushed
          < length (run 2 (filled ++ try_pop) (run 2 [] (start memory))).popped)
        × (size
                (run 2 [] (start memory)).ring
                (run 2 (filled ++ try_pop) (run 2 [] (start memory))).ring
              + length (run 2 (filled ++ try_pop) (run 2 [] (start memory))).popped
            ≡ length (run 2 [] (start memory)).pushed + 2 ^ 64))
run-size_example = run-size 2 [] (filled ++ try_pop) memory (omega arith) (omega arith)

abbrev refused : List (Event ℕ)
refused = filled ++ call 0 12 ∷ access 0 ∷ []

try_push-full_example :
    (run 2 refused (start memory)).ring.head
    ≡ released (run 2 refused (start memory)).consumer (run 2 refused (start memory)).ring.tail + 2
unfolding run step produce init ◌-ℤ◌
try_push-full_example =
    try_push-full 2 refused memory (omega arith) (omega arith) false 0 12 2 refl refl

abbrev unpublished : List (Event ℕ)
unpublished = call 0 10 ∷ access 0 ∷ access 0 ∷ access 0 ∷ Event.consumes ∷ []

try_pop-missed_example :
    ((run 2 unpublished (start memory)).popped ≡ (run 2 unpublished (start memory)).pushed)
    ⊎ ((i : ℕ) × holds ((run 2 unpublished (start memory)).producers i)
          ≡ some (length (run 2 unpublished (start memory)).popped))
unfolding run step produce consume init ◌-ℤ◌
try_pop-missed_example = try_pop-missed 2 unpublished memory (omega arith) (omega arith) 0 refl refl

-- Producers other than the first two never call.
quiet : (i : ℕ) → holds ((run 2 filled (start memory)).producers i) ≡ none
unfolding run step produce init ◌-ℤ◌
quiet i = elim (Bool-cases (1 == i)) [
  | inl same ↦ rw same refl
  | inr other ↦
      rw other
        (elim (Bool-cases (0 == i)) [ inl same ↦ rw same refl | inr neither ↦ rw neither refl ])
]

try_pop-drains_example :
    (run 2
      (try_pops (size (run 2 filled (start memory)).ring (run 2 filled (start memory)).ring))
      (run 2 filled (start memory))).popped
    ≡ (run 2 filled (start memory)).pushed
unfolding run step produce init ◌-ℤ◌
try_pop-drains_example = try_pop-drains 2 filled memory (omega arith) (omega arith) quiet refl

push-completes_example :
    ((run 2 (push_after 1 13 true 1) (run 2 try_pop (start memory))).pushed ≡ 13 ∷ [])
    × ((run 2 (push_after 1 13 true 1) (run 2 try_pop (start memory))).producers 1 ≡ Producer.idle)
unfolding run step produce consume init ◌-ℤ◌
push-completes_example =
    push-completes 2 try_pop memory (omega arith) (omega arith) 1 13 true 1 refl (omega arith)

-- With one slot, which the assertions of the class allow, a value that was not popped is overwritten.
test_one_slot :
    (run 1 (push 0 10 false ++ push 1 11 false ++ try_pop) (start memory)).popped ≡ 11 ∷ []
unfolding run step produce consume init ◌-ℤ◌
test_one_slot = refl
