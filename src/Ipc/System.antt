-- ===== src/Ipc/System.antt =====
-- Any number of producers and one consumer over one buffer, interleaved in any order.
use elsa_fyp.Prelude.{ℕ, Bool, List, [], ◌∷◌, ◌++◌, ◌==◌, not, ◌&&◌, if◌then◌else◌}
use elsa_fyp.Ipc.Ring.{Ring, Producer, Consumer, update, init, produce, consume}

-- The last two are the values in the order in which their slots were claimed, and the values that
-- `try_pop` has returned. The code does not have them.
pub record System {ℓ} (A : Type ℓ) : Type ℓ where
  pub ring : Ring A
  pub producers : ℕ → Producer A
  pub consumer : Consumer A
  pub pushed : List A
  pub popped : List A

-- A producer calls `try_push` or `push_blocking`, makes its next access, or the consumer does.
pub data Event {ℓ} (A : Type ℓ) : Type ℓ where
  call : ℕ → A → Bool → Event A
  produces : ℕ → Bool → Event A
  consumes : Event A

module _ {ℓ} {A : Type ℓ} where
  -- The value that an access claims a slot for.
  abbrev pub claim : (spurious : Bool) → Ring A → Producer A → List A
  claim spurious m (Producer.free v blocking position) =
      if m.head == position && not spurious then v ∷ [] else []
  claim spurious m _ = []

  -- The value that an access of the consumer returns.
  abbrev pub return : Consumer A → List A
  return (Consumer.freed position v) = v ∷ []
  return _ = []

  -- A producer in the middle of a call begins no other.
  abbrev pub begin : Producer A → A → Bool → Producer A
  begin Producer.idle v blocking = Producer.begun v blocking
  begin p v blocking = p

  -- Before any call, in memory with any contents.
  abbrev pub start : Ring A → System A
  start m = record {
    ring = init m;
    producers = λ _. Producer.idle;
    consumer = Consumer.begun;
    pushed = [];
    popped = [];
  }

module _ {ℓ} {A : Type ℓ} (capacity : ℕ) where
  unfoldable pub step : Event A → System A → System A
  unfolding produce consume
  step (Event.call i v blocking) s = record s {
    producers = update s.producers i (begin (s.producers i) v blocking);
  }
  step (Event.produces i spurious) s =
      let (ring, p) = produce capacity spurious s.ring (s.producers i) in
      record s {
        ring = ring;
        producers = update s.producers i p;
        pushed = s.pushed ++ claim spurious s.ring (s.producers i);
      }
  step Event.consumes s =
      let (ring, c) = consume capacity s.ring s.consumer in
      record s { ring = ring; consumer = c; popped = s.popped ++ return s.consumer }

  unfoldable pub run : List (Event A) → System A → System A
  unfolding step
  run [] s = s
  run (e ∷ es) s = run es (step e s)
