-- ===== src/Controller/Internal.antt =====
-- The handlers of controller.cpp for what the workers send. The clock is an argument, and so is the
-- serialisation of the state keys, which the cereal library does. A throw ends the handler; what it
-- changed before is lost in the model, as the exception ends the process.
use praas.Base.{ℕ, Option, none, some, List, length, if◌then◌else◌}
use praas.Base.Int.{ℤ, pos, negsuc}
use praas.Base.Text.{Text, text_eq}
use praas.Base.Dict.{Dict}
use praas.Controller.Mailbox
use praas.Controller.Mailbox.{Payload}
use praas.Controller.Pending.{insert_get, insert_invocation}
use praas.Controller.State.{
  Controller, self_process, is_self, call_server, send_to, put_message, invocation_request,
}
use praas.Controller.Replies.{message_reply, state_reply, arrived, answer_source}
use praas.Controller.WorkQueue
use praas.Controller.WorkQueue.{from_local}
use praas.Controller.Workers
use praas.Ipc.Channel.{send, send_header}
use praas.Ipc.GenericRequest
use praas.Ipc.GenericRequest.{GenericRequest}
use praas.Ipc.InvocationRequest
use praas.Ipc.InvocationRequest.{InvocationRequest}
use praas.Ipc.InvocationResult
use praas.Ipc.Parser
use praas.Ipc.Parser.{MessageVariants}
use praas.Ipc.StateKeys
use praas.Result.{Result, ok, ◌>>=◌}

unfoldable pub process_put : GenericRequest → Payload → ℕ → Controller → Result Controller
process_put req payload now c =
    if GenericRequest.state req
    then (do
      mailbox ← Mailbox.state (GenericRequest.name req) payload now c.mailbox
      ok (record c { mailbox = mailbox }))
    else if is_self (GenericRequest.process_id req) c
    then arrived (GenericRequest.name req) c.process_id payload c
    else ok (
        call_server (put_message (GenericRequest.process_id req) (GenericRequest.name req) payload)
          c)

-- `req.process_id() == SELF_PROCESS ? _process_id : req.process_id()`.
unfoldable pub asked_source : GenericRequest → Controller → Text
asked_source req c =
    if text_eq (GenericRequest.process_id req) self_process
    then c.process_id
    else GenericRequest.process_id req

-- A worker asks for a state entry.
unfoldable pub get_state : ℕ → GenericRequest → Controller → Result Controller
get_state worker req c = do
  reply ← state_reply (GenericRequest.name req)
  elim (Mailbox.try_state (GenericRequest.name req) c.mailbox) [
    | some payload ↦ ok (send_to worker (send c.workers.msg_size reply payload) c)
    | none ↦ ok (send_to worker (send_header c.workers.msg_size reply) c)
  ]

-- A worker asks for a message: it gets it, or is written down.
unfoldable pub get_message : ℕ → GenericRequest → Controller → Result Controller
unfolding asked_source
get_message worker req c =
    let name = GenericRequest.name req in
    let found = Mailbox.try_get name (asked_source req c) c.mailbox in
    elim found.1 [
      | some payload ↦ (do
        reply ← message_reply (GenericRequest.process_id req) name
        ok (
            send_to worker (send c.workers.msg_size reply payload)
              (record c { mailbox = found.0 })))
      | none ↦
          ok
            (record c { pending_msgs = insert_get name (asked_source req c) worker c.pending_msgs })
    ]

unfoldable pub process_get : ℕ → GenericRequest → Controller → Result Controller
unfolding get_state get_message
process_get worker req c =
    if GenericRequest.state req then get_state worker req c else get_message worker req c

unfoldable pub process_state_keys : (Dict ℕ → List ℕ) → ℕ → Controller → Controller
process_state_keys serialize worker c =
    let str = serialize c.mailbox.state_keys in
    send_to worker
      (send c.workers.msg_size (StateKeys.set_buffer_length (pos (length str)) StateKeys.fresh).buf
        str)
      c

-- What the queue said to an invocation: nothing, or why it is refused, which is its result then.
unfoldable pub queue_result :
    Option Text → Text → WorkQueue.InvocationSource → Controller → Result Controller
queue_result none id source c = ok c
queue_result (some reason) id source c = answer_source source id (negsuc 0) reason c

unfoldable pub process_invocation : ℕ → InvocationRequest → Payload → Controller → Result Controller
unfolding queue_result
process_invocation worker req payload c0 =
    let id = InvocationRequest.invocation_id req in
    let fname = InvocationRequest.function_name req in
    let c = record c0 { pending_msgs = insert_invocation id worker c0.pending_msgs } in
    if is_self (InvocationRequest.process_id req) c
    then (do
      added ← WorkQueue.add_payload c.functions fname id payload from_local c.work_queue
      queue_result added.0 id from_local (record c { work_queue = added.1 }))
    else ok (call_server (invocation_request (InvocationRequest.process_id req) fname id payload) c)

-- `_process_invocation_result` for the worker that ran the invocation.
unfoldable pub process_invocation_result : ℕ → Text → ℤ → Payload → Controller → Result Controller
process_invocation_result worker id code payload c =
    let finished = WorkQueue.finish id c.work_queue in
    let c1 = record c { work_queue = finished.1 } in
    (elim finished.0 [ some i ↦ answer_source i.source id code payload c1 | none ↦ ok c1 ])
    >>= λ c2. ok (record c2 { workers = Workers.finish worker c2.workers })

unfoldable pub dispatch :
    (Dict ℕ → List ℕ) → ℕ → ℕ → MessageVariants → Payload → Controller → Result Controller
unfolding process_invocation_result process_invocation process_put process_get process_state_keys
dispatch serialize now worker (Parser.invocation_result req) payload c =
    process_invocation_result worker (InvocationResult.invocation_id req)
      (InvocationResult.return_code req) payload c
dispatch serialize now worker (Parser.invocation_request req) payload c =
    process_invocation worker req payload c
dispatch serialize now worker (Parser.put_request req) payload c = process_put req payload now c
dispatch serialize now worker (Parser.state_keys_request buf) payload c =
    ok (process_state_keys serialize worker c)
dispatch serialize now worker (Parser.get_request req) payload c = process_get worker req c
dispatch serialize now worker (Parser.application_update req) payload c = ok c
dispatch serialize now worker (Parser.state_keys_result req) payload c = ok c

unfoldable pub process_internal_message :
    (Dict ℕ → List ℕ) → ℕ → ℕ → List ℕ → Payload → Controller → Result Controller
unfolding dispatch
process_internal_message serialize now worker msg payload c = do
  parsed ← Parser.parse msg
  dispatch serialize now worker parsed payload c
