-- ===== src/Tests/Scheduling.antt =====
-- A work queue in which one invocation waits and one runs, and two workers.
use praas.Base.{
  ℕ, zero, suc, ◌≡◌, refl, ◌⊎◌, inl, inr, Bool, true, false, Option, none, some, List, [], ◌∷◌,
  ◌++◌, length, arith,
}
use praas.Base.Text.{Text, codes, text_eq}
use praas.Base.Dict.{find}
use praas.Controller.Mailbox.{Payload}
use praas.Controller.Mailbox.{empty_store}
use praas.Controller.Pending
use praas.Controller.Pending.{PendingMessages, find_invocation}
use praas.Controller.State.{Controller}
use praas.Controller.WorkQueue.{
  Invocation, InvocationSource, direct, Functions, WorkQueue, local_function, add_payload, next,
  finish, activate,
}
use praas.Controller.WorkQueue.Consistent.{IsConsistent}
use praas.Controller.WorkQueue.Adding.{add_payload_stores, waiting_payload}
use praas.Controller.WorkQueue.Serving.{next_lem}
use praas.Controller.Workers.{Workers, modify, set_busy, write, confirm_payload, submit, schedule}
use praas.Controller.Workers.Counted.{is_busy, IsCounted}
use praas.Controller.Workers.Submitting.{submit_lem}
use praas.Controller.Workers.Scheduling.{IsSmall, Scheduled, schedule_lem}
use praas.Ipc.Channel.{send_all}
use praas.Ipc.InvocationRequest.{InvocationRequest, fresh}
use praas.Result.{ok}

abbrev first : Text
first = codes "a"

abbrev second : Text
second = codes "b"

abbrev functions : Functions
functions = (codes "f", direct (codes "f")) ∷ []

abbrev local : InvocationSource
local = record { source = local_function; remote_process = none }

abbrev invocation : Bool → List Payload → Invocation
invocation active payload = record {
  req = fresh;
  payload = payload;
  trigger = direct (codes "f");
  active = active;
  source = local;
}

abbrev queue : WorkQueue
queue = record {
  pending = first ∷ [];
  invocations = (first, invocation false ((1 ∷ 2 ∷ []) ∷ [])) ∷ (second, invocation true []) ∷ [];
}

queue-IsConsistent : IsConsistent queue
unfolding find
queue-IsConsistent k = ground arith

queue-IsSmall : IsSmall queue
unfolding find
queue-IsSmall k = ground arith

abbrev grown : WorkQueue
grown = record {
  pending = first ∷ [];
  invocations =
      (first, invocation false ((1 ∷ 2 ∷ []) ∷ (3 ∷ []) ∷ [])) ∷ (second, invocation true []) ∷ [];
}

abbrev fine : Option Text
fine = none

abbrev two_workers : Workers
two_workers = record {
  workers = record { busy = true; ipc_write = [] } ∷ record { busy = false; ipc_write = [] } ∷ [];
  idle_workers = 1;
  msg_size = 64;
}

add_payload_stores_example :
    ((reason : Text) × (fine ≡ some reason) × (grown ≡ queue))
    ⊎ ((i : Invocation) × (fine ≡ none)
        × (find first grown.invocations ≡ some i)
        × (i.active ≡ false)
        × (i.payload ≡ waiting_payload (find first queue.invocations) ++ (3 ∷ []) ∷ [])
        × ((k : Text) → (k ≡ first) ⊎ (find k grown.invocations ≡ find k queue.invocations)))
unfolding add_payload find text_eq praas.Base.Dict.assign
add_payload_stores_example =
    add_payload_stores functions (codes "f") first (3 ∷ []) local queue grown none refl

next_example :
    ((queue.pending ≡ []) × (next queue ≡ ok (none, queue)))
    ⊎ ((key : Text) × (keys : List Text) × (i : Invocation) × (queue.pending ≡ key ∷ keys)
        × (find key queue.invocations ≡ some i)
        × (i.active ≡ false)
        × (next queue ≡ ok (some key, record queue { pending = keys })))
next_example = next_lem queue queue-IsConsistent

submit_example :
    (req : InvocationRequest) × (ws' : Workers) × (n : ℕ) × (confirm_payload
        (invocation false ((1 ∷ 2 ∷ []) ∷ []))
      ≡ ok req)
    × (submit first queue two_workers ≡ ok (activate first req queue, ws'))
    × (is_busy n two_workers.workers ≡ false)
    × (ws'.workers
        ≡ modify n
            (set_busy true)
            (modify n (write (send_all 64 req.buf ((1 ∷ 2 ∷ []) ∷ []))) two_workers.workers))
    × (suc ws'.idle_workers ≡ 1)
    × IsCounted ws'
unfolding find text_eq
submit_example =
    submit_lem first queue two_workers (invocation false ((1 ∷ 2 ∷ []) ∷ [])) refl (omega arith)
      refl (omega arith)

schedule_example :
    (q' : WorkQueue) × (ws' : Workers) × (schedule 2 queue two_workers ≡ ok (q', ws'))
    × Scheduled queue two_workers q' ws'
schedule_example = schedule_lem queue two_workers queue-IsConsistent queue-IsSmall refl

abbrev waiting_caller : PendingMessages
waiting_caller = record { key = second; waiting = Pending.invocation; source = []; worker = 1 } ∷ []

abbrev serving : Controller
serving = record {
  process_id = first;
  functions = functions;
  mailbox = empty_store;
  pending_msgs = waiting_caller;
  work_queue = queue;
  workers = two_workers;
  application = record { active_processes = []; swapped_processes = [] };
  server = [];
}

-- The same with channels whose packets hold a header.
abbrev roomy : Controller
roomy = record serving { workers = record two_workers { msg_size = 200 } }
