-- ===== src/Message/Parser.antt =====
-- MessageParser of messages.hpp: from the bytes of a message to its class.
use praas.Base.{leb, ℕ, ◌==◌, List, if◌then◌else◌}
use praas.Base.Int.{ℤ, pos, negsuc}
use praas.Message.Header.{end_flag}
use praas.Message.ProcessConnection
use praas.Message.ProcessConnection.{ProcessConnection}
use praas.Message.SwapRequest
use praas.Message.SwapRequest.{SwapRequest}
use praas.Message.SwapConfirmation
use praas.Message.SwapConfirmation.{SwapConfirmation}
use praas.Message.InvocationRequest
use praas.Message.InvocationRequest.{InvocationRequest}
use praas.Message.InvocationResult
use praas.Message.InvocationResult.{InvocationResult}
use praas.Message.DataPlaneMetrics
use praas.Message.DataPlaneMetrics.{DataPlaneMetrics}
use praas.Message.ApplicationUpdate
use praas.Message.ApplicationUpdate.{ApplicationUpdate}
use praas.Message.PutMessage
use praas.Message.PutMessage.{PutMessage}
use praas.Result.{Result, ok, err, invalid_message, not_implemented, ◌>>=◌}
use praas.Wire.Words.{get_int}

-- `std::monostate`, which no parse returns, is left out.
pub data MessageVariants : Type 0 where
  process_connection : ProcessConnection → MessageVariants
  swap_request : SwapRequest → MessageVariants
  swap_confirmation : SwapConfirmation → MessageVariants
  invocation_request : InvocationRequest → MessageVariants
  invocation_result : InvocationResult → MessageVariants
  dataplane_metrics : DataPlaneMetrics → MessageVariants
  process_closure : List ℕ → MessageVariants
  application_update : ApplicationUpdate → MessageVariants
  put_message : PutMessage → MessageVariants

unfoldable pub parse_as : ℕ → List ℕ → Result MessageVariants
parse_as n buf =
    if n == 1
    then ok (process_connection (ProcessConnection.of_buffer buf))
    else if n == 2
    then ok (swap_request (SwapRequest.of_buffer buf))
    else if n == 3
    then ok (swap_confirmation (SwapConfirmation.of_buffer buf))
    else if n == 4
    then ok (invocation_request (InvocationRequest.of_buffer buf))
    else if n == 5
    then ok (invocation_result (InvocationResult.of_buffer buf))
    else if n == 6
    then ok (dataplane_metrics (DataPlaneMetrics.of_buffer buf))
    else if n == 7
    then ok (process_closure buf)
    else if n == 8
    then ok (application_update (ApplicationUpdate.of_buffer buf))
    else if n == 9
    then ok (put_message (PutMessage.of_buffer buf))
    else err not_implemented

-- The range test of `MessageParser::parse`.
unfoldable pub check_range : ℤ → Result ℕ
check_range (pos n) = if leb end_flag n then err invalid_message else ok n
check_range (negsuc n) = err invalid_message

unfoldable pub parse : List ℕ → Result MessageVariants
unfolding check_range parse_as
parse buf = do n ← check_range (get_int 2 0 buf); parse_as n buf
