-- ===== src/Tests/Messages.antt =====
-- Messages of each kind with concrete fields.
use praas.Base.{ℕ, List, ◌≡◌, [], ◌∷◌, arith, replicate}
use praas.Base.Int.{pos, negsuc}
use praas.Base.Text.{Text}
use praas.Controller.Answers.{parse-result_reply}
use praas.Controller.Replies.{result_reply}
use praas.Ipc.Header as Frame
use praas.Ipc.Header.{set_total_length}
use praas.Ipc.InvocationResult as InnerResult
use praas.Ipc.Parser as Inner
use praas.Wire.Words.{get_int}
use praas.Message.Builders.{request_message}
use praas.Message.Classes.{Classified, parse-header_type}
use praas.Message.Header.{total_length, header_type}
use praas.Message.InvocationRequest
use praas.Message.InvocationRequest.{InvocationRequest}
use praas.Message.Parser
use praas.Message.RoundTrip.Request.{parse-request_message}
use praas.Result.{ok}

abbrev id : Text
id = 105 ∷ 49 ∷ []

abbrev name : Text
name = 110 ∷ []

parse-request_message_example :
    (m : InvocationRequest) × (request_message id name (pos 70000) ≡ ok m)
    × (Parser.parse m.buf ≡ ok (Parser.invocation_request m))
    × (InvocationRequest.invocation_id m ≡ id)
    × (InvocationRequest.function_name m ≡ name)
    × (InvocationRequest.payload_size m ≡ pos 70000)
    × (total_length m.buf ≡ pos 70000)
parse-request_message_example =
    parse-request_message id name 70000 (omega arith, (omega arith, (omega arith, tt)))
      (omega arith, (omega arith, tt)) (omega arith)

parse-header_type_example :
    Classified
      (get_int 2 0 (9 ∷ 0 ∷ replicate 68 0))
      (Parser.parse (9 ∷ 0 ∷ replicate 68 0))
      (header_type (9 ∷ 0 ∷ replicate 68 0))
parse-header_type_example = parse-header_type (9 ∷ 0 ∷ replicate 68 0)

parse-result_reply_example :
    (reply : List ℕ) × (m : InnerResult.InvocationResult) × (result_reply id (negsuc 0) 12
      ≡ ok reply)
    × (Inner.parse (set_total_length (pos 12) reply) ≡ ok (Inner.invocation_result m))
    × (InnerResult.invocation_id m ≡ id)
    × (InnerResult.return_code m ≡ negsuc 0)
    × (InnerResult.buffer_length m ≡ pos 12)
    × (Frame.total_length m.buf ≡ pos 12)
parse-result_reply_example =
    parse-result_reply id (negsuc 0) 12 (omega arith, (omega arith, (omega arith, tt)))
      (omega arith) (omega arith)
