-- ===== src/Ipc/Parser.antt =====
-- `Message::parse_message` of messages.cpp.
use praas.Base.{ℕ, ◌==◌, List, if◌then◌else◌}
use praas.Ipc.Header.{check_kind}
use praas.Ipc.GenericRequest
use praas.Ipc.GenericRequest.{GenericRequest}
use praas.Ipc.InvocationRequest
use praas.Ipc.InvocationRequest.{InvocationRequest}
use praas.Ipc.InvocationResult
use praas.Ipc.InvocationResult.{InvocationResult}
use praas.Ipc.StateKeys
use praas.Ipc.StateKeys.{StateKeysResult}
use praas.Ipc.ApplicationUpdate
use praas.Ipc.ApplicationUpdate.{ApplicationUpdate}
use praas.Result.{Result, ok, err, praas_exception, ◌>>=◌}
use praas.Wire.Words.{get_int}

pub data MessageVariants : Type 0 where
  get_request : GenericRequest → MessageVariants
  put_request : GenericRequest → MessageVariants
  invocation_request : InvocationRequest → MessageVariants
  invocation_result : InvocationResult → MessageVariants
  application_update : ApplicationUpdate → MessageVariants
  state_keys_result : StateKeysResult → MessageVariants
  state_keys_request : List ℕ → MessageVariants

unfoldable pub parse_as : ℕ → List ℕ → Result MessageVariants
parse_as n buf =
    if n == 1
    then ok (get_request (GenericRequest.of_buffer buf))
    else if n == 2
    then ok (put_request (GenericRequest.of_buffer buf))
    else if n == 3
    then ok (invocation_request (InvocationRequest.of_buffer buf))
    else if n == 4
    then ok (invocation_result (InvocationResult.of_buffer buf))
    else if n == 5
    then ok (application_update (ApplicationUpdate.of_buffer buf))
    else if n == 7
    then ok (state_keys_result (StateKeys.of_buffer buf))
    else if n == 6
    then ok (state_keys_request buf)
    else err praas_exception

unfoldable pub parse : List ℕ → Result MessageVariants
unfolding check_kind parse_as
parse buf = do n ← check_kind (get_int 2 0 buf); parse_as n buf
