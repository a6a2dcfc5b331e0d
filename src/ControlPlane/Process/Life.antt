-- ===== src/ControlPlane/Process/Life.antt =====
-- The life of a Process: allocation and its callback, the connection, the request to swap out.
-- control-plane/src/process.cpp and the instances of control-plane/include/praas/control-plane/backend.hpp.
use praas.Base.{ℕ, Bool, ◌&&◌, not, Option, none, some, [], ◌∷◌, leb, if◌then◌else◌}
use praas.Base.Int.{ℤ}
use praas.Base.Text.{Text}
use praas.Outcome.{
  Outcome, done, thrown, undefined, bad_function_call, Action, ◌>>=◌, ◌>>◌, throw, lift, modify,
  effect,
}
use praas.Message.SwapRequest
use praas.Result.{invalid_process_state}
use praas.ControlPlane.Process.{
  Process, Status, allocated, closed, is_allocated, is_allocating, Effect, sent, failed_response,
  created, not_created, query_address, CreationCallback, observer, invoke, ProcessInstance,
  docker_instance, fargate_instance,
}
use praas.ControlPlane.Process.Requests.{send_invocations, add_invocation}

-- A call of the function that waits for the allocation.
unfoldable pub run_creation : CreationCallback → Option Text → Action Effect Process (Unit {0})
unfolding add_invocation
run_creation (observer n) none = effect (created n ∷ [])
run_creation (observer n) (some error) = effect (not_created n error ∷ [])
run_creation (invoke body client fname) none = add_invocation body client fname
run_creation (invoke body client fname) (some error) =
    effect (failed_response client 500 error ∷ [])

unfoldable pub forget_creation : Process → Process
forget_creation p = record p { creation_callback = none }

-- The lambda that created_callback hands to the instance.
unfoldable pub instance_connected : Option Text → Action Effect Process (Unit {0})
unfolding run_creation forget_creation
instance_connected error p = elim p.creation_callback [
  | none ↦ thrown bad_function_call p []
  | some callback ↦ (do run_creation callback error; modify forget_creation) p
]

-- ProcessInstance::connect and its override for Fargate, which asks for the address first.
unfoldable pub connect_instance : ProcessInstance → Action Effect Process (Unit {0})
unfolding instance_connected
connect_instance (docker_instance ip port container) = instance_connected none
connect_instance (fargate_instance port container cluster) = effect (query_address container ∷ [])

unfoldable pub report_created : Process → Outcome Effect Process (Unit {0})
unfolding connect_instance
report_created p = elim p.handle [
  | none ↦ done tt p []
  | some instance_handle ↦
      if p.wait_for_allocation && not (is_allocated p.status)
      then done tt p []
      else connect_instance instance_handle p
]

unfoldable pub created_callback : Option Text → Action Effect Process (Unit {0})
unfolding report_created run_creation forget_creation
created_callback error p = elim p.creation_callback [
  | none ↦ done tt p []
  | some callback ↦ elim error [
    | none ↦ report_created p
    | some message ↦ (do run_creation callback (some message); modify forget_creation) p
  ]
]

unfoldable pub set_creation_callback : CreationCallback → Bool → Process → Process
set_creation_callback callback wait p = record p {
  creation_callback = some callback;
  wait_for_allocation = wait;
}

unfoldable pub set_handle : ProcessInstance → Process → Process
set_handle h p = record p { handle = some h }

unfoldable pub set_status : Status → Process → Process
set_status s p = record p { status = s }

unfoldable pub connect : ℕ → Action Effect Process (Unit {0})
unfolding send_invocations created_callback
connect conn p =
    if is_allocating p.status
    then (do
      modify (λ q. record q { connection = some conn; status = allocated })
      send_invocations
      created_callback none)
        p
    else throw invalid_process_state p

unfoldable pub close_connection : Process → Process
close_connection p = record p { status = closed; connection = none }

-- `now` is the reading of the clock.
unfoldable pub update_metrics : ℕ → ℤ → ℤ → ℕ → Process → Process
update_metrics now time count timestamp p =
    if leb p.metrics.last_report now
    then record p {
      metrics = record {
        invocations = count;
        computation_time = time;
        last_invocation = timestamp;
        last_report = now;
      };
    }
    else p

-- Process::swap: the request to swap out, with the path of the location.
unfoldable pub send_swap : Action Effect Process (Unit {0})
send_swap p = elim p.connection [
  | none ↦ done tt p []
  | some conn ↦ elim p.swap [
    | none ↦ undefined
    | some path ↦
        (do
          msg ← lift (SwapRequest.set_path path SwapRequest.fresh)
          effect (sent conn msg.buf ∷ []))
          p
  ]
]
