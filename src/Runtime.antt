-- ===== src/Runtime.antt =====
-- The runtime of a worker, process/runtime: the context that a user function works with
-- (include/praas/process/runtime/context.hpp, src/context.cpp), its buffers (buffer.hpp) and the
-- buffers behind them (internal/buffer.hpp).
--
-- The memory of the worker is the list of the blocks that `new std::byte[]` gave, a freed one
-- `none`. A unique_ptr is the number of its block, any other pointer a block and an offset.
use praas.Base.{
  ℕ, zero, suc, ◌+◌, leb, ◌==◌, Bool, true, false, ◌&&◌, Option, none, some, List, [], ◌∷◌, length,
  take, drop, get_elem?, set, if◌then◌else◌,
}
use praas.Base.Int.{ℤ}
use praas.Base.Text.{Text}
pub mod Output
pub mod Requests
pub mod Invoker
pub mod Invoking

abbrev pub Memory : Type 0
Memory = List (Option (List ℕ))

pub record Pointer : Type 0 where
  pub block : ℕ
  pub offset : ℕ

-- internal::Buffer, which owns its block.
pub record Owned : Type 0 where
  pub ptr : Option ℕ
  pub size : ℕ
  pub len : ℕ

abbrev pub owned : Option ℕ → ℕ → ℕ → Owned
owned ptr size len = record { ptr = ptr; size = size; len = len }

-- Buffer, as the user holds it.
pub record Buffer : Type 0 where
  pub ptr : Option Pointer
  pub len : ℕ
  pub size : ℕ

pub record BufferAccessor : Type 0 where
  pub ptr : Option Pointer
  pub len : ℕ

-- The result of an invocation, as the user gets it.
pub record InvocationResult : Type 0 where
  pub key : Text
  pub function_name : Text
  pub return_code : ℤ
  pub payload : Buffer

-- What the context sends through the invoker's channel: a message and its payload.
pub data Effect : Type 0 where
  put : List ℕ → List ℕ → Effect

-- The context with the memory that it works on.
pub record Context : Type 0 where
  pub memory : Memory
  pub output : Owned
  pub user_buffers : List Owned
  pub output_buf_view : Buffer
  pub invoc_id : Text
  pub process_id : Text

-- The pointer that a unique_ptr holds.
abbrev pub base : Option ℕ → Option Pointer
base none = none
base (some b) = some (record { block = b; offset = 0 })

abbrev pub same_pointer : Option Pointer → Option Pointer → Bool
same_pointer none none = true
same_pointer (some p) (some q) = p.block == q.block && p.offset == q.offset
same_pointer _ _ = false

-- The bytes of a block that is not freed.
abbrev pub block_bytes : Memory → ℕ → Option (List ℕ)
block_bytes m b = elim (get_elem? m b) [ some (some bytes) ↦ some bytes | _ ↦ none ]

-- A read of `len` bytes; `none` where C++ leaves it undefined.
abbrev pub load_block : List ℕ → ℕ → ℕ → Option (List ℕ)
load_block bytes offset len =
    if leb (offset + len) (length bytes) then some (take len (drop offset bytes)) else none

abbrev pub load_at : Memory → Pointer → ℕ → Option (List ℕ)
load_at m p len = elim (block_bytes m p.block) [
  | none ↦ none
  | some bytes ↦ load_block bytes p.offset len
]

abbrev pub load : Memory → Option Pointer → ℕ → Option (List ℕ)
load m ptr zero = some []
load m none (suc len) = none
load m (some p) (suc len) = load_at m p (suc len)

-- The end of a unique_ptr.
abbrev pub free : Option ℕ → Memory → Memory
free none m = m
free (some b) m = set m b none

-- The end of a vector of buffers.
abbrev pub free_all : List Owned → Memory → Memory
free_all [] m = m
free_all (o ∷ os) m = free_all os (free o.ptr m)
