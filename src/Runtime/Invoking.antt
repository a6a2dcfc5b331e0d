-- ===== src/Runtime/Invoking.antt =====
-- Context::invoke of process/runtime/src/context.cpp: a user function invokes another one.
use praas.Base.{ℕ, zero, suc, not, Option, none, some, List, [], ◌∷◌, replicate, if◌then◌else◌}
use praas.Base.Int.{int32}
use praas.Base.Text.{Text, text_eq}
use praas.Ipc.InvocationRequest
use praas.Ipc.InvocationRequest.{InvocationRequest}
use praas.Ipc.InvocationResult
use praas.Ipc.InvocationResult.{InvocationResult}
use praas.Outcome.{done, undefined, Action, ◌>>=◌, ◌>>◌, throw, pure, lift}
use praas.Result.{praas_exception, function_get_failure}
use praas.Runtime
use praas.Runtime.{Owned, Pointer, Buffer, Effect, put, Context, base, same_pointer, load}
use praas.Runtime.Requests.{keep_data}

-- What the channel hands back, as for a get.
pub record ResultReply : Type 0 where
  pub result : InvocationResult
  pub block : Option (List ℕ)
  pub len : ℕ

-- The loop over the user's buffers: each one at the pointer gets the length.
unfoldable pub set_lengths : Option Pointer → ℕ → List Owned → List Owned
set_lengths ptr len [] = []
set_lengths ptr len (o ∷ os) =
    let rest = set_lengths ptr len os in
    if same_pointer (base o.ptr) ptr then record o { len = len } ∷ rest else o ∷ rest

unfoldable pub count_at : Option Pointer → List Owned → ℕ
count_at ptr [] = 0
count_at ptr (o ∷ os) =
    let rest = count_at ptr os in if same_pointer (base o.ptr) ptr then suc rest else rest

-- The request is sent once for every buffer at the pointer.
unfoldable pub submit_all : List ℕ → Buffer → Action Effect Context (Unit {0})
unfolding set_lengths count_at
submit_all msg input s = elim (count_at input.ptr s.user_buffers) [
  | zero ↦ throw praas_exception s
  | suc n ↦ elim (load s.memory input.ptr input.len) [
    | none ↦ undefined
    | some bytes ↦
        done tt (record s { user_buffers = set_lengths input.ptr input.len s.user_buffers })
          (replicate (suc n) (put msg bytes))
  ]
]

-- Invoker::get of a result.
unfoldable pub receive_result : Option ResultReply → Action Effect Context ResultReply
receive_result none = throw function_get_failure
receive_result (some r) = pure r

unfoldable pub accept_result :
    Text → Text → InvocationRequest → ResultReply → Action Effect Context Runtime.InvocationResult
unfolding keep_data
accept_result invocation_id function_name req r =
    if not (text_eq (InvocationRequest.invocation_id req) (InvocationResult.invocation_id r.result))
    then throw function_get_failure
    else (do
      buf ← keep_data r.block r.len
      pure (record {
        key = invocation_id;
        function_name = function_name;
        return_code = InvocationResult.return_code r.result;
        payload = buf;
      }))

unfoldable pub invoke :
    Text
    → Text
    → Text
    → Buffer
    → Option ResultReply
    → Action Effect Context Runtime.InvocationResult
unfolding submit_all receive_result accept_result
invoke process_id function_name invocation_id input reply = do
  a ← lift (InvocationRequest.set_process_id process_id InvocationRequest.fresh)
  b ← lift (InvocationRequest.set_function_name function_name a)
  c ← lift (InvocationRequest.set_invocation_id invocation_id b)
  let req = InvocationRequest.set_buffer (int32 input.len) c
  submit_all req.buf input
  r ← receive_result reply
  accept_result invocation_id function_name req r
