-- ===== src/Message/Builders.antt =====
-- The sequences of setters by which the program fills the messages that it sends.
use praas.Base.Int.{ℤ}
use praas.Base.Text.{Text}
use praas.Message.Header.{set_total_length}
use praas.Message.InvocationRequest
use praas.Message.InvocationRequest.{InvocationRequest}
use praas.Message.InvocationResult
use praas.Message.InvocationResult.{InvocationResult}
use praas.Message.PutMessage
use praas.Message.PutMessage.{PutMessage}
use praas.Message.ProcessConnection
use praas.Message.ProcessConnection.{ProcessConnection}
use praas.Result.{Result, ok, ◌>>=◌}

-- TCPServer::invocation_request of the process, in both of its branches.
unfoldable pub request_message : Text → Text → ℤ → Result InvocationRequest
request_message invocation_id function_name len = do
  a ← InvocationRequest.set_invocation_id invocation_id InvocationRequest.fresh
  b ← InvocationRequest.set_function_name function_name a
  c ← InvocationRequest.set_payload_size len b
  ok (record c { buf = set_total_length len c.buf })

-- TCPServer::invocation_result of the process.
unfoldable pub result_message : Text → ℤ → ℤ → Result InvocationResult
result_message invocation_id return_code len = do
  a ← InvocationResult.set_invocation_id invocation_id InvocationResult.fresh
  let b = InvocationResult.set_return_code return_code a
  ok (record b { buf = set_total_length len b.buf })

-- TCPServer::put_message of the process.
unfoldable pub put_message_from : Text → Text → ℤ → Result PutMessage
put_message_from name process_id len = do
  a ← PutMessage.set_name name PutMessage.fresh
  b ← PutMessage.set_process_id process_id a
  ok (record b { buf = set_total_length len b.buf })

-- The registration that a process sends when a connection is up.
unfoldable pub connection_message : Text → Result ProcessConnection
connection_message process_id =
    ProcessConnection.set_process_name process_id ProcessConnection.fresh
