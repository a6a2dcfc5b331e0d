-- ===== src/Controller/External.antt =====
-- The handlers of controller.cpp for what the remote server receives, and for the updates of the
-- application.
use praas.Base.{ℕ, Option, none, some, List, [], ◌∷◌, map}
use praas.Base.Int.{negsuc}
use praas.Base.Text.{Text}
use praas.Controller.Application
use praas.Controller.Application.{ApplicationUpdate, status_value}
use praas.Controller.Mailbox.{Payload}
use praas.Controller.State.{Controller}
use praas.Controller.Replies.{arrived, answer_waiting, answer_source}
use praas.Controller.WorkQueue
use praas.Controller.WorkQueue.{RemoteType, InvocationSource, from_process, from_source}
use praas.Controller.Workers.{Workers, write}
use praas.Ipc.ApplicationUpdate as Update
use praas.Ipc.Channel.{send_header}
use praas.Message.InvocationRequest
use praas.Message.InvocationRequest.{InvocationRequest}
use praas.Message.InvocationResult
use praas.Message.Parser
use praas.Message.Parser.{MessageVariants}
use praas.Message.PutMessage
use praas.Result.{Result, ok, ◌>>=◌}

-- The struct ExternalMessage: the bytes of the message, its payload, and where they come from.
pub record ExternalMessage : Type 0 where
  pub source_type : RemoteType
  pub source : Option Text
  pub msg : List ℕ
  pub payload : Payload

unfoldable pub message_source : ExternalMessage → InvocationSource
message_source m = elim m.source [ some id ↦ from_process id | none ↦ from_source m.source_type ]

unfoldable pub external_invocation :
    InvocationRequest → ExternalMessage → Controller → Result Controller
unfolding message_source
external_invocation req m c = do
  let id = InvocationRequest.invocation_id req
  added ←
      WorkQueue.add_payload c.functions (InvocationRequest.function_name req) id m.payload
        (message_source m) c.work_queue
  elim added.0 [
    | none ↦ ok (record c { work_queue = added.1 })
    | some reason ↦
        answer_source (message_source m) id (negsuc 0) reason (record c { work_queue = added.1 })
  ]

unfoldable pub dispatch : MessageVariants → ExternalMessage → Controller → Result Controller
unfolding external_invocation
dispatch (Parser.invocation_request req) m c = external_invocation req m c
dispatch (Parser.invocation_result req) m c =
    answer_waiting (InvocationResult.invocation_id req) (InvocationResult.return_code req) m.payload
      c
dispatch (Parser.put_message req) m c =
    arrived (PutMessage.name req) (PutMessage.process_id req) m.payload c
dispatch (Parser.process_connection req) m c = ok c
dispatch (Parser.swap_request req) m c = ok c
dispatch (Parser.swap_confirmation req) m c = ok c
dispatch (Parser.dataplane_metrics req) m c = ok c
dispatch (Parser.process_closure buf) m c = ok c
dispatch (Parser.application_update req) m c = ok c

unfoldable pub process_external_message : ExternalMessage → Controller → Result Controller
unfolding dispatch
process_external_message m c = do parsed ← Parser.parse m.msg; dispatch parsed m c

-- The loop over the workers.
unfoldable pub send_to_all : List ℕ → Workers → Workers
send_to_all msg ws = record ws { workers = map (write (send_header ws.msg_size msg)) ws.workers }

-- The first loop of `_process_application_updates`; one message object serves all the updates.
unfoldable pub broadcast :
    List ApplicationUpdate → Update.ApplicationUpdate → Controller → Result Controller
unfolding send_to_all
broadcast [] msg c = ok c
broadcast (u ∷ updates) msg c = do
  named ← Update.set_process_id u.process_id msg
  let msg' = Update.set_status_change (status_value u.status) named
  broadcast updates msg' (record c { workers = send_to_all msg'.buf c.workers })

-- The second loop.
unfoldable pub update_all :
    List ApplicationUpdate → Application.Application → Application.Application
update_all [] a = a
update_all (u ∷ updates) a = update_all updates (Application.update u.status u.process_id a)

unfoldable pub process_application_updates : List ApplicationUpdate → Controller → Result Controller
unfolding broadcast update_all
process_application_updates updates c = do
  c' ← broadcast updates Update.fresh c
  ok (record c' { application = update_all updates c'.application })
