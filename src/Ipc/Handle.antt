-- ===== src/Ipc/Handle.antt =====
-- MpscSharedMemoryRingBuffer of mpsc_shared_memory_ring_buffer.h: the handle of a process to a mapped
-- buffer. The system calls are the argument `mapped`: the memory that they give, or a failure, at
-- which the code throws. The name of the file is not kept.
use elsa_fyp.Prelude.{
  ◌≡◌, refl, Bool, true, false, ◌==◌, ◌&&◌, Bool-cases, inl, inr, if◌then◌else◌, Option, Outcome,
  ok, runtime_error, or_fault, ◌>>=◌,
}
use elsa_fyp.Ipc.Ring.{Ring, init, destroy, attach, is_initialized, magic_number}

-- Whether the handle has a buffer, which a handle that was moved from has not, and whether it is to
-- remove the memory.
pub record Handle : Type 0 where
  pub has_buffer : Bool
  pub is_owner : Bool

-- The shared memory, and whether its name still stands in the file system.
pub record Shared (A : Type 0) : Type 0 where
  pub memory : Ring A
  pub linked : Bool

module _ {A : Type 0} where
  -- `create` and `open_exist_shm`.
  unfoldable pub create : (mapped : Option (Ring A)) → Outcome (Shared A × Handle)
  unfolding attach
  create mapped = do
    memory ← or_fault mapped runtime_error
    ok (
      record { memory = attach memory; linked = true },
      record { has_buffer = true; is_owner = true },
    )

  unfoldable pub open_exist_shm : (mapped : Option (Ring A)) → Outcome (Shared A × Handle)
  unfolding attach
  open_exist_shm mapped = do
    memory ← or_fault mapped runtime_error
    ok (
      record { memory = attach memory; linked = true },
      record { has_buffer = true; is_owner = false },
    )

  -- The destructor, which the assignment repeats for the buffer that it gives up.
  unfoldable pub release : Handle → Shared A → Shared A
  unfolding destroy
  release h m =
      if h.has_buffer && h.is_owner then record { memory = destroy m.memory; linked = false } else m

-- The constructor and the assignment from another handle, which is left without a buffer.
unfoldable pub move_from : (other : Handle) → Handle × Handle
move_from other = (other, record other { has_buffer = false })

-- `m` is the memory of the handle that is assigned to.
unfoldable pub assign : {A : Type 0} → (this other : Handle) → Shared A → Shared A × Handle × Handle
unfolding release move_from
assign this other m = let (taken, left) = move_from other in (release this m, taken, left)

module _ {A : Type 0} where
  -- A handle that was moved from releases nothing.
  move_from-release : (other : Handle) (m : Shared A) → release (move_from other).1 m ≡ m
  unfolding release move_from
  move_from-release other m = refl

  -- The memory that a handle is given is initialized.
  attach-is_initialized : (m : Ring A) → is_initialized (attach m) ≡ true
  unfolding attach init
  attach-is_initialized m = elim (Bool-cases (m.initialized == magic_number)) [
    | inl ready ↦ rw ready ready
    | inr fresh ↦ rw fresh refl
  ]
