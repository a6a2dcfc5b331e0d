-- ===== src/Runtime/Requests.antt =====
-- The requests of a user function to the controller: state, put and get of
-- process/runtime/src/context.cpp, with put and get of the invoker (src/internal/invoker.cpp).
use praas.Base.{
  ℕ, zero, ltb, ◌==◌, Bool, true, not, ◌&&◌, Option, none, some, List, [], ◌∷◌, ◌++◌, length, map,
  if◌then◌else◌,
}
use praas.Base.Int.{ℤ, pos, negsuc, int32}
use praas.Base.Text.{Text, codes, text_eq}
use praas.Ipc.GenericRequest
use praas.Ipc.GenericRequest.{GenericRequest}
use praas.Ipc.Header.{get_request, put_request}
use praas.Outcome.{
  Outcome, done, thrown, raised, undefined, Action, ◌>>=◌, ◌>>◌, after, continue, throw, pure, lift,
  effect,
}
use praas.Result.{praas_exception, function_get_failure}
use praas.Runtime.{Owned, owned, Pointer, Buffer, Effect, put, Context, base, same_pointer, load}
use praas.Runtime.Output.{view}
pub mod Answered

abbrev pub is_negative : ℤ → Bool
is_negative (pos n) = Bool.false
is_negative (negsuc n) = true

-- The loop over the user's buffers: the length of the first one at the pointer is set.
unfoldable pub take_over : Option Pointer → ℕ → List Owned → Option (List Owned)
take_over ptr len [] = none
take_over ptr len (o ∷ os) =
    let rest = take_over ptr len os in
    if same_pointer (base o.ptr) ptr
    then some (record o { len = len } ∷ os)
    else elim rest [ none ↦ none | some qs ↦ some (o ∷ qs) ]

-- Invoker::put of a message with the bytes of a user's buffer.
unfoldable pub submit : List ℕ → Buffer → Action Effect Context (Unit {0})
unfolding take_over
submit msg buf s = elim (take_over buf.ptr buf.len s.user_buffers) [
  | none ↦ throw praas_exception s
  | some os ↦ elim (load s.memory buf.ptr buf.len) [
    | none ↦ undefined
    | some bytes ↦ done tt (record s { user_buffers = os }) (put msg bytes ∷ [])
  ]
]

-- Context::state of bytes.
unfoldable pub state_data : Text → List ℕ → Action Effect Context (Unit {0})
state_data msg_key piece = do
  named ← lift (GenericRequest.set_name msg_key (GenericRequest.fresh put_request))
  effect (
      put
        (GenericRequest.set_state true
          (GenericRequest.set_data_len (int32 (length piece)) named)).buf
        piece
      ∷ [])

-- Context::state of a buffer.
unfoldable pub state_buffer : Text → Buffer → Action Effect Context (Unit {0})
unfolding submit
state_buffer msg_key buf = do
  named ← lift (GenericRequest.set_name msg_key (GenericRequest.fresh put_request))
  submit (GenericRequest.set_state true (GenericRequest.set_data_len (int32 buf.len) named)).buf buf

-- Context::put of bytes.
unfoldable pub put_data : Text → Text → List ℕ → Action Effect Context (Unit {0})
put_data destination msg_key piece = do
  sent ← lift (GenericRequest.set_process_id destination (GenericRequest.fresh put_request))
  named ← lift (GenericRequest.set_name msg_key sent)
  effect (put (GenericRequest.set_data_len (int32 (length piece)) named).buf piece ∷ [])

-- Context::put of a buffer.
unfoldable pub put_buffer : Text → Text → Buffer → Action Effect Context (Unit {0})
unfolding submit
put_buffer destination msg_key buf = do
  sent ← lift (GenericRequest.set_process_id destination (GenericRequest.fresh put_request))
  named ← lift (GenericRequest.set_name msg_key sent)
  submit (GenericRequest.set_data_len (int32 buf.len) named).buf buf

-- What the channel hands back: the message, and the payload's block with its length, if any.
pub record Reply : Type 0 where
  pub request : GenericRequest
  pub block : Option (List ℕ)
  pub len : ℕ

-- `_user_buffers.push_back(std::move(data))`.
unfoldable pub keep_data : Option (List ℕ) → ℕ → Action Effect Context Buffer
keep_data block len s = elim block [
  | none ↦
      (let o = owned none 0 len in
        done (view o) (record s { user_buffers = s.user_buffers ++ o ∷ [] }) [])
  | some bytes ↦
      (let o = owned (some (length s.memory)) (length bytes) len in
        done (view o)
          (record s {
            memory = s.memory ++ some bytes ∷ [];
            user_buffers = s.user_buffers ++ o ∷ [];
          })
          [])
]

-- Invoker::get: the request is sent without a payload; no answer, or one of another type, throws.
unfoldable pub get_reply : GenericRequest → Option Reply → Action Effect Context Reply
get_reply req reply s = elim reply [
  | none ↦ thrown (raised function_get_failure) s (put req.buf [] ∷ [])
  | some r ↦ done r s (put req.buf [] ∷ [])
]

-- The check of Context::get on the process.
abbrev pub is_wrong_process : GenericRequest → GenericRequest → Bool
is_wrong_process req request =
    not (text_eq (GenericRequest.process_id req) (codes "SELF"))
    && not (text_eq (GenericRequest.process_id req) (codes "ANY"))
    && not (text_eq (GenericRequest.process_id req) (GenericRequest.process_id request))

-- The end of Context::get.
unfoldable pub accept : GenericRequest → Reply → Action Effect Context Buffer
unfolding keep_data
accept req r =
    if is_negative (GenericRequest.data_len req)
    then throw function_get_failure
    else if is_wrong_process req r.request
    then throw function_get_failure
    else if not (text_eq (GenericRequest.name req) (GenericRequest.name r.request))
    then throw function_get_failure
    else keep_data r.block r.len

unfoldable pub get : Text → Text → Option Reply → Action Effect Context Buffer
unfolding accept get_reply
get source msg_key reply = do
  sent ← lift (GenericRequest.set_process_id source (GenericRequest.fresh get_request))
  req ← lift (GenericRequest.set_name msg_key sent)
  r ← get_reply req reply
  accept req r

-- The end of Context::state of a key; an answer without data is no buffer.
unfoldable pub accept_state : GenericRequest → Reply → Action Effect Context Buffer
unfolding keep_data
accept_state req r =
    if is_negative (GenericRequest.data_len req)
    then throw function_get_failure
    else if not (text_eq (GenericRequest.name req) (GenericRequest.name r.request))
    then throw function_get_failure
    else if r.len == 0
    then pure (record { ptr = none; len = 0; size = 0 })
    else keep_data r.block r.len

unfoldable pub get_state : Text → Option Reply → Action Effect Context Buffer
unfolding accept_state get_reply
get_state msg_key reply = do
  named ← lift (GenericRequest.set_name msg_key (GenericRequest.fresh get_request))
  let req = GenericRequest.set_state true named
  r ← get_reply req reply
  accept_state req r
