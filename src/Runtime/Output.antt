-- ===== src/Runtime/Output.antt =====
-- The output buffer of the context: get_output_buffer, set_output_buffer, get_buffer, write_output,
-- as_buffer, start_invocation and end_invocation of process/runtime.
use praas.Base.{
  ℕ, ◌+◌, leb, ltb, ◌==◌, Bool, ◌&&◌, not, Option, none, some, List, [], ◌∷◌, ◌++◌, length, take,
  drop, set, if◌then◌else◌,
}
use Prim.Native.Nat.{max}
use praas.Base.Text.{Text}
use praas.Outcome.{Outcome, done, undefined, Action}
use praas.Runtime.{
  Memory, Owned, owned, Buffer, BufferAccessor, Effect, Context, base, same_pointer, block_bytes,
  free, free_all, load,
}
pub mod Written
pub mod Dangling

-- BUFFER_SIZE.
abbrev pub buffer_size : ℕ
buffer_size = 5242880

-- What a buffer shows to the user.
abbrev pub view : Owned → Buffer
view o = record { ptr = base o.ptr; len = o.len; size = o.size }

-- `fresh` gives the bytes of a new block, which C++ leaves open.
module _ (fresh : ℕ → List ℕ) where
  unfoldable pub new_context : Memory → Text → Context
  new_context m process_id =
      let o = owned (some (length m)) buffer_size 0 in
      record {
        memory = m ++ some (fresh buffer_size) ∷ [];
        output = o;
        user_buffers = [];
        output_buf_view = view o;
        invoc_id = [];
        process_id = process_id;
      }

  -- internal::Buffer::resize of the output buffer: a new block, without the bytes of the old one.
  unfoldable pub resize_output : ℕ → Context → Context
  resize_output size s = record s {
    memory = free s.output.ptr (s.memory ++ some (fresh size) ∷ []);
    output = record { ptr = some (length s.memory); size = size; len = 0 };
  }

  unfoldable pub get_output_buffer : ℕ → Action Effect Context Buffer
  unfolding resize_output
  get_output_buffer size s =
      if not (size == 0) && ltb s.output.size size
      then (let t = resize_output size s in
          done (view t.output) (record t { output_buf_view = view t.output }) [])
      else done s.output_buf_view s []

  unfoldable pub get_buffer : ℕ → Action Effect Context Buffer
  get_buffer size s =
      let o = owned (some (length s.memory)) size 0 in
      done (view o)
        (record s {
          memory = s.memory ++ some (fresh size) ∷ [];
          user_buffers = s.user_buffers ++ o ∷ [];
        })
        []

unfoldable pub set_output_buffer : Buffer → Context → Context
set_output_buffer buf s = record s { output_buf_view = buf }

-- `memcpy` into a block at a position.
abbrev pub overwrite : ℕ → List ℕ → List ℕ → List ℕ
overwrite pos piece bytes = take pos bytes ++ piece ++ drop (pos + length piece) bytes

-- The context once the bytes are copied into the block b.
abbrev pub written : ℕ → List ℕ → List ℕ → ℕ → Context → Context
written b bytes piece pos s = record s {
  memory = set s.memory b (some (overwrite pos piece bytes));
  output_buf_view = record s.output_buf_view {
    len = max s.output_buf_view.len (pos + length piece);
  };
}

-- The bytes that are copied are read before, so they do not lie in the output buffer itself.
unfoldable pub write_output : List ℕ → ℕ → Action Effect Context (Unit {0})
write_output piece pos s = elim s.output.ptr [
  | none ↦ undefined
  | some b ↦ elim (block_bytes s.memory b) [
    | none ↦ undefined
    | some bytes ↦
        if leb (pos + length piece) (length bytes)
        then done tt (written b bytes piece pos s) []
        else undefined
  ]
]

unfoldable pub as_buffer : Context → BufferAccessor
as_buffer s =
    if not (same_pointer s.output_buf_view.ptr (base s.output.ptr))
    then record { ptr = s.output_buf_view.ptr; len = s.output_buf_view.len }
    else record { ptr = base s.output.ptr; len = s.output_buf_view.len }

-- What is sent when the invocation finishes with `as_buffer`.
unfoldable pub contents : Context → Option (List ℕ)
unfolding as_buffer
contents s = load s.memory (as_buffer s).ptr (as_buffer s).len

unfoldable pub start_invocation : Text → Context → Context
start_invocation invoc_id s = record s {
  invoc_id = invoc_id;
  output = record s.output { len = 0 };
  output_buf_view = record s.output_buf_view { len = 0 };
}

unfoldable pub end_invocation : Context → Context
end_invocation s = record s { memory = free_all s.user_buffers s.memory; user_buffers = [] }
