-- ===== src/Ipc/Ring.antt =====
-- libs/inter_process/mpsc_shared_memory_ring_buffer.h: the shared buffer, and the calls of its
-- producers and of its consumer, one shared access at a time. `std::size_t` has 64 bits. Accesses
-- interleave and take effect in one order, which the acquire and release orderings of the code
-- give for the slots that a call reads and writes. The capacity is the template parameter.
use elsa_fyp.Prelude.{
  ℕ, ◌+◌, ◌-◌, ◌%◌, ◌^◌, ltb, ◌==◌, if◌then◌else◌, Bool, not, ◌&&◌, ℤ, pos, ◌-ℤ◌, sub_ℕ, ltb_ℤ,
  eqb_ℤ,
}

abbrev pub size_t : ℕ → ℕ
size_t n = n % 2 ^ 64

abbrev pub magic_number : ℕ
magic_number = 0xDEADBEEF12345678

-- `static_cast<std::intptr_t>`
abbrev pub intptr_t : ℕ → ℤ
intptr_t n = if ltb n (2 ^ 63) then pos n else sub_ℕ n (2 ^ 64)

abbrev pub difference : ℕ → ℕ → ℤ
difference seq position = intptr_t seq -ℤ intptr_t position

abbrev pub update {ℓ} : {A : Type ℓ} → (ℕ → A) → ℕ → A → ℕ → A
update f i a j = if i == j then a else f j

-- `MpscRingBuffer`; a slot is its sequence number and its data.
pub record Ring {ℓ} (A : Type ℓ) : Type ℓ where
  pub initialized : ℕ
  pub head : ℕ
  pub tail : ℕ
  pub sequence : ℕ → ℕ
  pub slot_data : ℕ → A

-- Where a producer stands in `try_push` or `push_blocking`, with its locals. The flag tells the
-- two apart.
pub data Producer {ℓ} (A : Type ℓ) : Type ℓ where
  idle : Producer A
  begun : A → Bool → Producer A  -- before the load of `head_`
  at : A → Bool → ℕ → Producer A  -- before the load of the sequence
  free : A → Bool → ℕ → Producer A  -- before the compare-exchange
  claimed : A → ℕ → Producer A  -- before the write of the data
  written : A → ℕ → Producer A  -- before the store of the sequence

-- Where the consumer stands in `try_pop`.
pub data Consumer {ℓ} (A : Type ℓ) : Type ℓ where
  begun : Consumer A  -- before the load of `tail_`
  at : ℕ → Consumer A  -- before the load of the sequence
  ready : ℕ → Consumer A  -- before the read of the data
  took : ℕ → A → Consumer A  -- before the store of the sequence
  freed : ℕ → A → Consumer A  -- before the store of `tail_`

module _ {ℓ} {A : Type ℓ} where
  -- `init`
  unfoldable pub init : Ring A → Ring A
  init m = record m { initialized = magic_number; head = 0; tail = 0; sequence = λ i. i }

  unfoldable pub destroy : Ring A → Ring A
  destroy m = record m { initialized = 0 }

  abbrev pub is_initialized : Ring A → Bool
  is_initialized m = m.initialized == magic_number

  -- What `create` and `open_exist_shm` do with the mapped memory.
  unfoldable pub attach : Ring A → Ring A
  unfolding init
  attach m = if is_initialized m then m else init m

  -- `empty` and `size` load `head_` and then `tail_`, in a state `m` and in the same or a later
  -- state `m'`.
  abbrev pub empty : Ring A → Ring A → Bool
  empty m m' = m.head == m'.tail

  unfoldable pub size : Ring A → Ring A → ℕ
  size m m' = size_t (m.head + 2 ^ 64 - m'.tail)

-- `position & mask`: the capacity is a power of 2.
abbrev pub slot : ℕ → ℕ → ℕ
slot capacity position = position % capacity

module _ {ℓ} {A : Type ℓ} (capacity : ℕ) where
  -- One access of a producer. A compare-exchange may fail spuriously.
  unfoldable pub produce : (spurious : Bool) → Ring A → Producer A → Ring A × Producer A
  produce spurious m idle = (m, idle)
  produce spurious m (begun v blocking) = (m, at v blocking m.head)
  produce spurious m (at v blocking position) =
      let d = difference (m.sequence (slot capacity position)) position in
      if eqb_ℤ d (pos 0)
      then (m, free v blocking position)
      else if ltb_ℤ d (pos 0)
      then (m, if blocking then begun v blocking else idle)
      else (m, begun v blocking)
  produce spurious m (free v blocking position) =
      if m.head == position && not spurious
      then (record m { head = size_t (position + 1) }, claimed v position)
      else (m, at v blocking m.head)
  produce spurious m (claimed v position) =
      (record m { slot_data = update m.slot_data (slot capacity position) v }, written v position)
  produce spurious m (written v position) = (
    record m { sequence = update m.sequence (slot capacity position) (size_t (position + 1)) },
    idle,
  )

  -- One access of the consumer, which calls `try_pop` again and again.
  unfoldable pub consume : Ring A → Consumer A → Ring A × Consumer A
  consume m begun = (m, at m.tail)
  consume m (at position) =
      if ltb_ℤ (difference (m.sequence (slot capacity position)) (size_t (position + 1))) (pos 0)
      then (m, begun)
      else (m, ready position)
  consume m (ready position) = (m, took position (m.slot_data (slot capacity position)))
  consume m (took position v) = (
    record m {
      sequence = update m.sequence (slot capacity position) (size_t (position + capacity));
    },
    freed position v,
  )
  consume m (freed position v) = (record m { tail = size_t (position + 1) }, begun)
