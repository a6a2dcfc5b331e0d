-- ===== src/Runtime/Invoker.antt =====
-- The invoker of a worker, process/runtime/src/internal/invoker.cpp: how poll checks an invocation
-- request and cuts its payload into the arguments of the user function, and what finish sends.
use praas.Base.{
  ℕ, zero, suc, ◌+◌, ◌*◌, ◌%◌, ◌^◌, ltb, Option, none, some, List, [], ◌∷◌, length, if◌then◌else◌,
}
use praas.Base.Int.{ℤ, pos, negsuc, to_word, int32}
use praas.Base.Text.{Text}
use praas.Ipc.Header.{buf_size}
use praas.Ipc.InvocationRequest
use praas.Ipc.InvocationRequest.{InvocationRequest}
use praas.Ipc.InvocationResult
use praas.Result.{Result, ok, err, undefined, praas_exception, ◌>>=◌}
use praas.Runtime.{Pointer, Owned, Buffer, Effect, put}
pub mod Arguments

pub record Invocation : Type 0 where
  pub key : Text
  pub function_name : Text
  pub args : List Buffer

-- How often `i < req.buffers()` holds.
abbrev pub rounds : ℤ → ℕ
rounds (pos n) = n
rounds (negsuc n) = 0

-- The lengths from the i-th on, as `size_t`.
unfoldable pub lengths_from : ℕ → ℕ → InvocationRequest → List ℕ
lengths_from zero i m = []
lengths_from (suc n) i m =
    to_word (2 ^ 64) (InvocationRequest.buffers_length i m) ∷ lengths_from n (suc i) m

unfoldable pub lengths : InvocationRequest → List ℕ
unfolding lengths_from
lengths m = lengths_from (rounds (InvocationRequest.buffers m)) 0 m

-- The sum in `size_t`.
unfoldable pub total_len : ℕ → List ℕ → ℕ
total_len total [] = total
total_len total (len ∷ lens) = total_len ((total + len) % 2 ^ 64) lens

unfoldable pub slices : Option ℕ → ℕ → List ℕ → List Buffer
slices none offset [] = []
slices none offset (len ∷ lens) =
    record { ptr = none; len = len; size = len } ∷ slices none (offset + len) lens
slices (some b) offset [] = []
slices (some b) offset (len ∷ lens) =
    record { ptr = some (record { block = b; offset = offset }); len = len; size = len }
    ∷ slices (some b) (offset + len) lens

-- The handler of a request in poll; a length that would stand behind the end of the message is
-- read outside of it.
unfoldable pub accept_request : Owned → InvocationRequest → Result Invocation
unfolding lengths total_len slices
accept_request input m =
    if ltb buf_size (InvocationRequest.lengths_offset + 4 * rounds (InvocationRequest.buffers m))
    then undefined
    else if ltb input.len (total_len 0 (lengths m))
    then err praas_exception
    else ok (record {
      key = InvocationRequest.invocation_id m;
      function_name = InvocationRequest.function_name m;
      args = slices input.ptr 0 (lengths m);
    })

-- finish: the code and the output, or an error message with the code -1.
unfoldable pub finish : Text → List ℕ → ℤ → Result Effect
finish invocation_id output return_code =
    InvocationResult.set_invocation_id invocation_id (
      InvocationResult.set_buffer_length (int32 (length output))
        (InvocationResult.set_return_code return_code InvocationResult.fresh))
    >>= (λ msg. ok (put msg.buf output))

unfoldable pub finish_error : Text → Text → Result Effect
unfolding finish
finish_error invocation_id error_message = finish invocation_id error_message (negsuc 0)
