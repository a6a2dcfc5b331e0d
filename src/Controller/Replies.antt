-- ===== src/Controller/Replies.antt =====
-- What the handlers of controller.cpp tell the workers and the remote server.
use praas.Base.{ℕ, true, none, some, List, [], ◌∷◌, length, if◌then◌else◌}
use praas.Base.Int.{ℤ, pos}
use praas.Base.Text.{Text}
use praas.Controller.Mailbox
use praas.Controller.Mailbox.{Payload}
use praas.Controller.Pending.{find_get, find_invocation}
use praas.Controller.State.{Controller, invocation_result, call_server, send_to}
use praas.Controller.WorkQueue.{InvocationSource, is_remote}
use praas.Ipc.Channel.{send}
use praas.Ipc.GenericRequest
use praas.Ipc.Header
use praas.Ipc.InvocationResult
use praas.Result.{Result, ok, ◌>>=◌}

-- The GetRequest that carries a message back to who asked for it.
unfoldable pub message_reply : Text → Text → Result (List ℕ)
message_reply id name = do
  a ← GenericRequest.set_process_id id (GenericRequest.fresh Header.get_request)
  b ← GenericRequest.set_name name a
  ok b.buf

-- The one that carries a state entry.
unfoldable pub state_reply : Text → Result (List ℕ)
state_reply name = do
  a ← GenericRequest.set_name name (GenericRequest.fresh Header.get_request)
  ok (GenericRequest.set_state true a).buf

-- The InvocationResult for a payload of `len` bytes.
unfoldable pub result_reply : Text → ℤ → ℕ → Result (List ℕ)
result_reply id code len = do
  a ← InvocationResult.set_invocation_id id InvocationResult.fresh
  ok (InvocationResult.set_buffer_length (pos len) (InvocationResult.set_return_code code a)).buf

-- A message has arrived for this process: it goes to a worker that waits for it, or is stored.
-- `process_put` and the handler of an external PutMessage both do this, the first with this process
-- as the source.
unfoldable pub arrived : Text → Text → Payload → Controller → Result Controller
unfolding message_reply
arrived name source payload c = elim (find_get name source c.pending_msgs).0 [
  | some worker ↦ (do
    reply ← message_reply source name
    ok (
        send_to worker (send c.workers.msg_size reply payload)
          (record c { pending_msgs = (find_get name source c.pending_msgs).1 })))
  | none ↦ ok (record c { mailbox = (Mailbox.put name source payload c.mailbox).0 })
]

-- The loop over the workers that `find_invocation` found.
unfoldable pub send_each_worker : List ℕ → List ℕ → Payload → Controller → Controller
send_each_worker [] reply payload c = c
send_each_worker (worker ∷ workers) reply payload c =
    send_each_worker workers reply payload
      (send_to worker (send c.workers.msg_size reply payload) c)

-- The result of an invocation goes to all the workers that wait for it.
unfoldable pub answer_waiting : Text → ℤ → Payload → Controller → Result Controller
unfolding result_reply send_each_worker
answer_waiting id code payload c = do
  reply ← result_reply id code (length payload)
  ok (
      send_each_worker (find_invocation id c.pending_msgs).0 reply payload
        (record c { pending_msgs = (find_invocation id c.pending_msgs).1 }))

-- `_process_invocation_result` for the source of the invocation.
unfoldable pub answer_source :
    InvocationSource → Text → ℤ → Payload → Controller → Result Controller
unfolding answer_waiting
answer_source source id code payload c =
    if is_remote source
    then ok (call_server (invocation_result source.source source.remote_process id code payload) c)
    else answer_waiting id code payload c
