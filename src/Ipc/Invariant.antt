-- ===== src/Ipc/Invariant.antt =====
-- What holds of the buffer between any two accesses, for a capacity of at least 2 and positions
-- that have not reached half of the range of `std::size_t`.
use elsa_fyp.Prelude.{
  ℕ, suc, ◌+◌, ◌/◌, ◌^◌, ◌≤◌, ◌<◌, ◌≡◌, ◌==◌, ltb, List, ◌++◌, Option, none, some, length,
  get_elem?, arith, eqb_ℤ, ltb_ℤ, pos, ◌-ℤ◌,
}
use native.Mathlib.Nat.{div-add-mod, mul-le-mul_left, mul-suc}
use native.Mathlib.Decide.{dec_lt}
use elsa_fyp.Ipc.Ring.{Producer, Consumer, slot, difference}
use elsa_fyp.Ipc.System.{System}

-- Two positions less than the capacity apart have different slots.
pub slot-injective : (n p q : ℕ) → p ≤ q → q < p + n → slot n p ≡ slot n q → p ≡ q
slot-injective n p q h k e = elim (dec_lt (p / n) (q / n)) [
  | yes more ↦ absurd (
      omega (arith, e, div-add-mod p n, div-add-mod q n, mul-le-mul_left n more, mul-suc n (p / n)))
  | no same ↦ omega (
    arith,
    e,
    h,
    div-add-mod p n,
    div-add-mod q n,
    mul-le-mul_left n (let le : q / n ≤ p / n = omega arith in le),
  )
]

pub eqb-difference : (a b : ℕ) → a < 2 ^ 63 → b < 2 ^ 63 → eqb_ℤ (difference a b) (pos 0) ≡ (a == b)
unfolding ◌-ℤ◌
eqb-difference a b h k = ground arith

pub ltb-difference : (a b : ℕ) → a < 2 ^ 63 → b < 2 ^ 63 → ltb_ℤ (difference a b) (pos 0) ≡ ltb a b
unfolding ◌-ℤ◌
ltb-difference a b h k = ground arith

-- What slot of position `p` can hold, from the first position that the consumer has not given back
-- on: it is free, or claimed and not yet published, or published with the value of its claim.
pub data SlotAt {ℓ} {A : Type ℓ} (n head : ℕ) (sequence : ℕ → ℕ) (slot_data : ℕ → A)
    (pushed : List A) (p : ℕ) : Type ℓ where
  vacant : head ≤ p → sequence (slot n p) ≡ p → SlotAt n head sequence slot_data pushed p
  taken : p < head → sequence (slot n p) ≡ p → SlotAt n head sequence slot_data pushed p
  full :
      p < head
      → sequence (slot n p) ≡ suc p
      → get_elem? pushed p ≡ some (slot_data (slot n p))
      → SlotAt n head sequence slot_data pushed p

module _ {ℓ} {A : Type ℓ} where
  -- The number of positions that the consumer has given back.
  abbrev pub released : Consumer A → ℕ → ℕ
  released (Consumer.freed p v) tail = suc tail
  released _ tail = tail

  -- The position that a producer has claimed and not published.
  abbrev pub holds : Producer A → Option ℕ
  holds (Producer.claimed v p) = some p
  holds (Producer.written v p) = some p
  holds _ = none

-- What the locals of a producer or of the consumer say, where `r` positions were given back.
module _ {ℓ} {A : Type ℓ} (n head : ℕ) (sequence : ℕ → ℕ) (slot_data : ℕ → A)
    (pushed : List A) where
  pub record Reached (p : ℕ) : Type ℓ where
    pub reached : p ≤ head

  -- If the compare-exchange succeeds, there is room.
  pub record MayClaim (r p : ℕ) : Type ℓ where
    pub reached : p ≤ head
    pub room : p ≡ head → head < r + n

  pub record Claims (r p : ℕ) (v : A) : Type ℓ where
    pub live : r ≤ p
    pub below : p < head
    pub unpublished : sequence (slot n p) ≡ p
    pub value : get_elem? pushed p ≡ some v

  pub record Written (r p : ℕ) (v : A) : Type ℓ where
    pub claims : Claims r p v
    pub stored : slot_data (slot n p) ≡ v

  abbrev pub Says : ℕ → Producer A → Type ℓ
  Says r Producer.idle = Unit
  Says r (Producer.begun v b) = Unit
  Says r (Producer.at v b p) = Reached p
  Says r (Producer.free v b p) = MayClaim r p
  Says r (Producer.claimed v p) = Claims r p v
  Says r (Producer.written v p) = Written r p v

  pub record Published (tail p : ℕ) : Type ℓ where
    pub here : p ≡ tail
    pub below : tail < head
    pub published : sequence (slot n tail) ≡ suc tail

  pub record Took (tail p : ℕ) (v : A) : Type ℓ where
    pub from : Published tail p
    pub value : get_elem? pushed tail ≡ some v

  pub record Freed (tail p : ℕ) (v : A) : Type ℓ where
    pub here : p ≡ tail
    pub below : tail < head
    pub value : get_elem? pushed tail ≡ some v

  pub record Stands (tail p : ℕ) : Type ℓ where
    pub here : p ≡ tail

  abbrev pub Tells : ℕ → Consumer A → Type ℓ
  Tells tail Consumer.begun = Unit
  Tells tail (Consumer.at p) = Stands tail p
  Tells tail (Consumer.ready p) = Published tail p
  Tells tail (Consumer.took p v) = Took tail p v
  Tells tail (Consumer.freed p v) = Freed tail p v

-- `rest` has the values that were pushed and not yet returned.
pub record IsValid {ℓ} {A : Type ℓ} (n : ℕ) (s : System A) : Type ℓ where
  pub released_le : released s.consumer s.ring.tail ≤ s.ring.head
  pub head_le : s.ring.head ≤ released s.consumer s.ring.tail + n
  pub slots :
      (p : ℕ)
      → released s.consumer s.ring.tail ≤ p
      → p < released s.consumer s.ring.tail + n
      → SlotAt n s.ring.head s.ring.sequence s.ring.slot_data s.pushed p
  pub bounded : (k : ℕ) → k < n → s.ring.sequence k ≤ released s.consumer s.ring.tail + n
  pub says :
      (i : ℕ)
      → Says n s.ring.head s.ring.sequence s.ring.slot_data s.pushed
          (released s.consumer s.ring.tail)
          (s.producers i)
  pub tells : Tells n s.ring.head s.ring.sequence s.ring.slot_data s.pushed s.ring.tail s.consumer
  pub unique : (i j p : ℕ) → holds (s.producers i) ≡ some p → holds (s.producers j) ≡ some p → i ≡ j
  -- A claimed position that is not published belongs to a producer.
  pub holder :
      (p : ℕ)
      → released s.consumer s.ring.tail ≤ p
      → p < s.ring.head
      → s.ring.sequence (slot n p) ≡ p
      → (i : ℕ) × holds (s.producers i) ≡ some p
  pub rest : List A
  pub order : s.pushed ≡ s.popped ++ rest
  pub pushed_length : length s.pushed ≡ s.ring.head
  pub popped_length : length s.popped ≡ s.ring.tail
