-- ===== src/Controller/Invariant/Local.antt =====
-- The messages of the workers.
use praas.Base.{ℕ, ◌≡◌, subst, ◌∙◌, true, Option, List, arith, inl, inr, Option-cases, Bool-cases}
use praas.Base.Int.{ℤ}
use praas.Base.Text.{Text}
use praas.Base.Dict.{Dict}
use praas.Controller.Internal.{
  process_state_keys, queue_result, process_invocation, process_invocation_result, dispatch,
  process_internal_message,
}
use praas.Controller.Mailbox.{Payload}
use praas.Controller.Pending.{insert_invocation}
use praas.Controller.Replies.{answer_source}
use praas.Controller.State
use praas.Controller.State.{Controller, is_self, call_server, send_to}
use praas.Controller.Talking.{is_busy-flags, answer_source-Talks}
use praas.Controller.WorkQueue
use praas.Controller.WorkQueue.{InvocationSource, WorkQueue, from_local}
use praas.Controller.WorkQueue.Adding.{add_payload-IsConsistent}
use praas.Controller.WorkQueue.Serving.{finish-IsConsistent}
use praas.Controller.Workers
use praas.Controller.Workers.{Workers}
use praas.Controller.Workers.Counted.{is_busy, finish-IsCounted}
use praas.Controller.Requests.{process_put-Talks, process_get-Talks, process_state_keys-Talks}
use praas.Ipc.InvocationRequest
use praas.Ipc.InvocationRequest.{InvocationRequest}
use praas.Ipc.Parser
use praas.Ipc.Parser.{MessageVariants}
use praas.Result.{Result, ok, >>=-eq-ok, ok-injective}
use praas.Controller.Invariant.{IsWellFormed, Talks-IsWellFormed, queue_result-IsWellFormed}

process_invocation-IsWellFormed :
    (worker : ℕ) (req : InvocationRequest) (payload : Payload) (c c' : Controller)
    → IsWellFormed c
    → process_invocation worker req payload c ≡ ok c'
    → IsWellFormed c'
unfolding process_invocation is_self call_server
process_invocation-IsWellFormed worker req payload c c' (consistent, counted) h =
    elim (Bool-cases (is_self (InvocationRequest.process_id req) c)) [
      | inl self ↦
          (let (added, e, answered) =
              >>=-eq-ok
                (WorkQueue.add_payload c.functions (InvocationRequest.function_name req) id payload
                  from_local c.work_queue)
                then_answer {b = c'} (ground (arith, h, self)) in
            queue_result-IsWellFormed added.0 id from_local
              (record waiting { work_queue = added.1 }) c'
              (
                add_payload-IsConsistent c.functions (InvocationRequest.function_name req) id
                    payload from_local c.work_queue added.1 added.0 consistent e,
                counted,
              )
              answered)
      | inr other ↦
          subst IsWellFormed
            {x = call_server
              (State.invocation_request (InvocationRequest.process_id req)
                (InvocationRequest.function_name req) id payload)
              waiting}
            {y = c'} (ok-injective (ground (arith, h, other))) (consistent, counted)
    ]
  where
    id : Text
    id = InvocationRequest.invocation_id req

    waiting : Controller
    waiting = record c { pending_msgs = insert_invocation id worker c.pending_msgs }

    then_answer : Option Text × WorkQueue → Result Controller
    then_answer added = queue_result added.0 id from_local (record waiting { work_queue = added.1 })

process_invocation_result-IsWellFormed :
    (worker : ℕ) (id : Text) (code : ℤ) (payload : Payload) (c c' : Controller)
    → is_busy worker c.workers.workers ≡ true
    → IsWellFormed c
    → process_invocation_result worker id code payload c ≡ ok c'
    → IsWellFormed c'
unfolding process_invocation_result
process_invocation_result-IsWellFormed worker id code payload c c' busy (consistent, counted) h =
    let finished = WorkQueue.finish id c.work_queue in
    let c1 = record c { work_queue = finished.1 } in
    elim (Option-cases finished.0) [
      | inl missing ↦
          subst IsWellFormed {x = record c1 { workers = Workers.finish worker c1.workers }} {y = c'}
            (ok-injective (ground (arith, h, missing)))
            (
              finish-IsConsistent c.work_queue id consistent,
              finish-IsCounted worker c.workers counted busy,
            )
      | inr (i, ran) ↦
          (let (c2, e, freed) =
              >>=-eq-ok (answer_source i.source id code payload c1)
                (λ c2. ok (record c2 { workers = Workers.finish worker c2.workers })) {b = c'}
                (ground (arith, h, ran)) in
            let talks = answer_source-Talks i.source id code payload c1 c2 e in
            let (consistent', counted') =
              Talks-IsWellFormed c1 c2 talks
                (finish-IsConsistent c.work_queue id consistent, counted) in
            subst IsWellFormed (ok-injective freed) (
              consistent',
              finish-IsCounted worker c2.workers counted'
                  (is_busy-flags worker c.workers.workers c2.workers.workers talks.2 ∙ busy),
            ))
    ]

dispatch-IsWellFormed :
    (serialize : Dict ℕ → List ℕ) (now worker : ℕ) (parsed : MessageVariants) (payload : Payload)
    (c c' : Controller)
    → is_busy worker c.workers.workers ≡ true
    → IsWellFormed c
    → dispatch serialize now worker parsed payload c ≡ ok c'
    → IsWellFormed c'
unfolding dispatch
dispatch-IsWellFormed serialize now worker (Parser.invocation_result req) payload c c' busy w h =
    process_invocation_result-IsWellFormed worker _ _ payload c c' busy w h
dispatch-IsWellFormed serialize now worker (Parser.invocation_request req) payload c c' busy w h =
    process_invocation-IsWellFormed worker req payload c c' w h
dispatch-IsWellFormed serialize now worker (Parser.put_request req) payload c c' busy w h =
    Talks-IsWellFormed c c' (process_put-Talks req payload now c c' h) w
dispatch-IsWellFormed serialize now worker (Parser.get_request req) payload c c' busy w h =
    Talks-IsWellFormed c c' (process_get-Talks worker req c c' h) w
dispatch-IsWellFormed serialize now worker (Parser.state_keys_request buf) payload c c' busy w h =
    subst IsWellFormed (ok-injective h) (
      Talks-IsWellFormed c (process_state_keys serialize worker c)
        (process_state_keys-Talks serialize worker c) w)
dispatch-IsWellFormed serialize now worker (Parser.application_update req) payload c c' busy w h =
    subst IsWellFormed (ok-injective h) w
dispatch-IsWellFormed serialize now worker (Parser.state_keys_result req) payload c c' busy w h =
    subst IsWellFormed (ok-injective h) w

-- Whatever message a busy worker sends: if the handler returns, the work queue is still consistent and
-- the count of idle workers still right.
pub process_internal_message-IsWellFormed :
    (serialize : Dict ℕ → List ℕ) (now worker : ℕ) (msg : List ℕ) (payload : Payload)
    (c c' : Controller)
    → is_busy worker c.workers.workers ≡ true
    → IsWellFormed c
    → process_internal_message serialize now worker msg payload c ≡ ok c'
    → IsWellFormed c'
unfolding process_internal_message
process_internal_message-IsWellFormed serialize now worker msg payload c c' busy w h =
    let (parsed, e, done) = >>=-eq-ok (Parser.parse msg) _ h in
    dispatch-IsWellFormed serialize now worker parsed payload c c' busy w done
