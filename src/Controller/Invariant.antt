-- ===== src/Controller/Invariant.antt =====
-- The invariant of the controller.
pub mod Local
pub mod Remote
use praas.Base.{
  ℕ, ◌≡◌, sym, subst, ◌∙◌, true, Option, none, some, List, arith, inl, inr, Option-cases,
  Bool-cases,
}
use praas.Base.Int.{ℤ, negsuc}
use praas.Base.Text.{Text}
use praas.Base.Dict.{Dict}
use praas.Controller.External
use praas.Controller.External.{
  ExternalMessage, external_invocation, message_source, process_external_message,
}
use praas.Controller.Internal.{
  process_state_keys, queue_result, process_invocation, process_invocation_result, dispatch,
  process_internal_message,
}
use praas.Controller.Mailbox.{Payload}
use praas.Controller.Pending.{insert_invocation}
use praas.Controller.Replies.{answer_source}
use praas.Controller.State
use praas.Controller.State.{Controller, is_self, call_server, send_to}
use praas.Controller.Talking.{
  Talks, count_idle-flags, is_busy-flags, arrived-Talks, answer_waiting-Talks, answer_source-Talks,
}
use praas.Controller.WorkQueue
use praas.Controller.WorkQueue.{InvocationSource, WorkQueue, from_local}
use praas.Controller.WorkQueue.Consistent.{IsConsistent}
use praas.Controller.WorkQueue.Adding.{add_payload-IsConsistent}
use praas.Controller.WorkQueue.Serving.{finish-IsConsistent}
use praas.Controller.Workers
use praas.Controller.Workers.{Workers}
use praas.Controller.Workers.Counted.{is_busy, IsCounted, finish-IsCounted}
use praas.Controller.Requests.{process_put-Talks, process_get-Talks, process_state_keys-Talks}
use praas.Ipc.InvocationRequest
use praas.Ipc.InvocationRequest.{InvocationRequest}
use praas.Ipc.Parser
use praas.Ipc.Parser.{MessageVariants}
use praas.Message.InvocationRequest as Request
use praas.Message.Parser as Outer
use praas.Result.{Result, ok, >>=-eq-ok, ok-injective}

-- The work queue is consistent and the count of idle workers right.
abbrev pub IsWellFormed : Controller → Type 0
IsWellFormed c = IsConsistent c.work_queue × IsCounted c.workers

pub Talks-IsWellFormed : (c c' : Controller) → Talks c c' → IsWellFormed c → IsWellFormed c'
Talks-IsWellFormed c c' (queue, idle, flags) (consistent, counted) = (
  subst IsConsistent (sym queue) consistent,
  idle ∙ counted ∙ sym (count_idle-flags c.workers.workers c'.workers.workers flags),
)

pub queue_result-IsWellFormed :
    (refused : Option Text) (id : Text) (source : InvocationSource) (c c' : Controller)
    → IsWellFormed c
    → queue_result refused id source c ≡ ok c'
    → IsWellFormed c'
unfolding queue_result
queue_result-IsWellFormed none id source c c' w h = subst IsWellFormed (ok-injective h) w
queue_result-IsWellFormed (some reason) id source c c' w h =
    Talks-IsWellFormed c c' (answer_source-Talks source id (negsuc 0) reason c c' h) w
