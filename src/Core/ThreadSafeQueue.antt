-- ===== src/Core/ThreadSafeQueue.antt =====
-- libs/core/thread_safe_queue.h. Every method holds the mutex from its first line to its last, so a
-- call is one step. A call that waits for a value has no step while the queue is empty.
use elsa_fyp.Prelude.{◌≡◌, sym, ap, ◌∙◌, List, [], ◌∷◌, ◌++◌, Option, some, none}
use mathlib.Core.List.{append_assoc, append-nil}

pub record ThreadSafeQueue {ℓ} (A : Type ℓ) : Type ℓ where
  pub queue : List A

module _ {ℓ} {A : Type ℓ} where
  unfoldable pub enqueue : A → ThreadSafeQueue A → ThreadSafeQueue A
  enqueue value q = record { queue = q.queue ++ value ∷ [] }

  -- `front` and `pop`
  abbrev pub pop_front : List A → Option (A × List A)
  pop_front [] = none
  pop_front (value ∷ rest) = some (value, rest)

  unfoldable pub dequeue : ThreadSafeQueue A → ThreadSafeQueue A × Option A
  dequeue q = popped (pop_front q.queue)
    where
      popped : Option (A × List A) → ThreadSafeQueue A × Option A
      popped none = (q, none)
      popped (some (value, rest)) = (record { queue = rest }, some value)

  -- There is no result while the call waits.
  unfoldable pub wait_and_dequeue : ThreadSafeQueue A → Option (ThreadSafeQueue A × A)
  wait_and_dequeue q = popped (pop_front q.queue)
    where
      popped : Option (A × List A) → Option (ThreadSafeQueue A × A)
      popped none = none
      popped (some (value, rest)) = some (record { queue = rest }, value)

  -- The loop of `wait_and_dequeue_all`, with the values so far.
  abbrev pub dequeue_loop : List A → (values : List A) → List A
  dequeue_loop [] values = values
  dequeue_loop (value ∷ rest) values = dequeue_loop rest (values ++ value ∷ [])

  unfoldable pub wait_and_dequeue_all : ThreadSafeQueue A → Option (ThreadSafeQueue A × List A)
  wait_and_dequeue_all q = emptied (pop_front q.queue)
    where
      emptied : Option (A × List A) → Option (ThreadSafeQueue A × List A)
      emptied none = none
      emptied (some front) = some (record { queue = [] }, dequeue_loop q.queue [])

-- A call of any thread.
pub data Operation {ℓ} (A : Type ℓ) : Type ℓ where
  enqueues : A → Operation A
  dequeues waits_and_dequeues waits_and_dequeues_all : Operation A

-- The queue, the values that were put in, and those that calls returned, in order.
pub record History {ℓ} (A : Type ℓ) : Type ℓ where
  pub now : ThreadSafeQueue A
  pub put : List A
  pub taken : List A

module _ {ℓ} {A : Type ℓ} where
  abbrev pub option_list : Option A → List A
  option_list none = []
  option_list (some a) = a ∷ []

  unfoldable pub step : Operation A → History A → History A
  unfolding enqueue dequeue wait_and_dequeue wait_and_dequeue_all
  step (enqueues value) h = record {
    now = enqueue value h.now;
    put = h.put ++ value ∷ [];
    taken = h.taken;
  }
  step dequeues h =
      let (after, value) = dequeue h.now in
      record { now = after; put = h.put; taken = h.taken ++ option_list value }
  step waits_and_dequeues h = returned (wait_and_dequeue h.now)
    where
      returned : Option (ThreadSafeQueue A × A) → History A
      returned none = h
      returned (some (after, value)) = record {
        now = after;
        put = h.put;
        taken = h.taken ++ value ∷ [];
      }
  step waits_and_dequeues_all h = returned (wait_and_dequeue_all h.now)
    where
      returned : Option (ThreadSafeQueue A × List A) → History A
      returned none = h
      returned (some (after, values)) = record {
        now = after;
        put = h.put;
        taken = h.taken ++ values;
      }

  unfoldable pub run : List (Operation A) → History A → History A
  unfolding step
  run [] h = h
  run (o ∷ os) h = run os (step o h)

  dequeue_loop-all : (queue values : List A) → dequeue_loop queue values ≡ values ++ queue
  dequeue_loop-all [] values = sym (append-nil values)
  dequeue_loop-all (value ∷ rest) values =
      dequeue_loop-all rest (values ++ value ∷ []) ∙ append_assoc values (value ∷ []) rest

  -- What was put in is what was taken, followed by what waits.
  abbrev pub InOrder : History A → Type ℓ
  InOrder h = h.put ≡ h.taken ++ h.now.queue

  step-InOrder :
      (o : Operation A) (queue put taken : List A)
      → put ≡ taken ++ queue
      → InOrder (step o (record { now = record { queue = queue }; put = put; taken = taken }))
  unfolding step enqueue dequeue wait_and_dequeue wait_and_dequeue_all
  step-InOrder (enqueues value) queue put taken e =
      ap (λ l. l ++ value ∷ []) e ∙ append_assoc taken queue (value ∷ [])
  step-InOrder dequeues [] put taken e = e ∙ ap (λ l. l ++ []) (sym (append-nil taken))
  step-InOrder dequeues (value ∷ rest) put taken e = e ∙ sym (append_assoc taken (value ∷ []) rest)
  step-InOrder waits_and_dequeues [] put taken e = e
  step-InOrder waits_and_dequeues (value ∷ rest) put taken e =
      e ∙ sym (append_assoc taken (value ∷ []) rest)
  step-InOrder waits_and_dequeues_all [] put taken e = e
  step-InOrder waits_and_dequeues_all (value ∷ rest) put taken e =
      e ∙ ap (λ l. taken ++ l) (sym (dequeue_loop-all (value ∷ rest) [])) ∙ sym (append-nil _)

-- Whatever calls are made, and in whatever order they take the mutex, the values that were put in
-- are those that calls returned, in order, followed by those in the queue.
pub run-InOrder {ℓ} :
    {A : Type ℓ} (os : List (Operation A)) (h : History A) → InOrder h → InOrder (run os h)
unfolding run
run-InOrder [] h e = e
run-InOrder (o ∷ os) h e = run-InOrder os (step o h) (step-InOrder o h.now.queue h.put h.taken e)
