-- ===== src/Controller/Invariant/Remote.antt =====
-- The messages from outside.
use praas.Base.{◌≡◌, subst, Option, none, some}
use praas.Base.Int.{negsuc}
use praas.Base.Text.{Text}
use praas.Controller.External
use praas.Controller.External.{
  ExternalMessage, external_invocation, message_source, process_external_message,
}
use praas.Controller.Replies.{answer_source}
use praas.Controller.State.{Controller}
use praas.Controller.Talking.{arrived-Talks, answer_waiting-Talks, answer_source-Talks}
use praas.Controller.WorkQueue
use praas.Controller.WorkQueue.{InvocationSource, WorkQueue, from_local}
use praas.Controller.WorkQueue.Adding.{add_payload-IsConsistent}
use praas.Message.InvocationRequest as Request
use praas.Message.Parser as Outer
use praas.Result.{ok, >>=-eq-ok, ok-injective}
use praas.Controller.Invariant.{IsWellFormed, Talks-IsWellFormed}

external_invocation-IsWellFormed :
    (req : Request.InvocationRequest) (m : ExternalMessage) (c c' : Controller)
    → IsWellFormed c
    → external_invocation req m c ≡ ok c'
    → IsWellFormed c'
unfolding external_invocation
external_invocation-IsWellFormed req m c c' (consistent, counted) h =
    let ((refused, queue), e, done) =
      >>=-eq-ok
        (WorkQueue.add_payload c.functions (Request.function_name req) (Request.invocation_id req)
          m.payload (message_source m) c.work_queue)
        _ h in
    let w : IsWellFormed (record c { work_queue = queue }) = (
      add_payload-IsConsistent c.functions (Request.function_name req) (Request.invocation_id req)
          m.payload (message_source m) c.work_queue queue refused consistent e,
      counted,
    ) in
    added refused queue done w
  where
    added :
        (refused : Option Text) (queue : WorkQueue)
        → (elim refused [
          | none ↦ ok (record c { work_queue = queue })
          | some reason ↦
              answer_source
                (message_source m)
                (Request.invocation_id req)
                (negsuc 0)
                reason
                (record c { work_queue = queue })
        ])
          ≡ ok c'
        → IsWellFormed (record c { work_queue = queue })
        → IsWellFormed c'
    added none queue done w = subst IsWellFormed (ok-injective done) w
    added (some reason) queue done w =
        Talks-IsWellFormed (record c { work_queue = queue }) c'
          (answer_source-Talks (message_source m) (Request.invocation_id req) (negsuc 0) reason
            (record c { work_queue = queue }) c' done)
          w

external-IsWellFormed :
    (parsed : Outer.MessageVariants) (m : ExternalMessage) (c c' : Controller)
    → IsWellFormed c
    → External.dispatch parsed m c ≡ ok c'
    → IsWellFormed c'
unfolding External.dispatch
external-IsWellFormed (Outer.invocation_request req) m c c' w h =
    external_invocation-IsWellFormed req m c c' w h
external-IsWellFormed (Outer.invocation_result req) m c c' w h =
    Talks-IsWellFormed c c' (answer_waiting-Talks _ _ m.payload c c' h) w
external-IsWellFormed (Outer.put_message req) m c c' w h =
    Talks-IsWellFormed c c' (arrived-Talks _ _ m.payload c c' h) w
external-IsWellFormed (Outer.process_connection req) m c c' w h =
    subst IsWellFormed (ok-injective h) w
external-IsWellFormed (Outer.swap_request req) m c c' w h = subst IsWellFormed (ok-injective h) w
external-IsWellFormed (Outer.swap_confirmation req) m c c' w h =
    subst IsWellFormed (ok-injective h) w
external-IsWellFormed (Outer.dataplane_metrics req) m c c' w h =
    subst IsWellFormed (ok-injective h) w
external-IsWellFormed (Outer.process_closure buf) m c c' w h = subst IsWellFormed (ok-injective h) w
external-IsWellFormed (Outer.application_update req) m c c' w h =
    subst IsWellFormed (ok-injective h) w

-- Whatever message comes from outside: if the handler returns, the work queue is still consistent and
-- the count of idle workers still right.
pub process_external_message-IsWellFormed :
    (m : ExternalMessage) (c c' : Controller)
    → IsWellFormed c
    → process_external_message m c ≡ ok c'
    → IsWellFormed c'
unfolding process_external_message
process_external_message-IsWellFormed m c c' w h =
    let (parsed, e, done) = >>=-eq-ok (Outer.parse m.msg) _ h in
    external-IsWellFormed parsed m c c' w done
