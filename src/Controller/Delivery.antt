-- ===== src/Controller/Delivery.antt =====
-- From a worker's request for an invocation to its result.
pub mod Served
use praas.Base.{ℕ, refl, List, ◌∷◌, ◌++◌, inl, inr}
use praas.Base.Text.{Text}
use praas.Controller.Mailbox.{Payload}
use praas.Controller.Pending.{find_invocation}
use praas.Controller.Pending
use praas.Controller.Replies.{send_each_worker}
use praas.Controller.State.{Controller}
use praas.Controller.WorkQueue
use praas.Controller.Workers
use praas.Ipc.InvocationResult
use praas.Result.{Result-cases}

-- The controller when all the waiting workers have their answers and the runner is idle.
abbrev delivered : ℕ → List ℕ → List ℕ → Payload → Text → Controller → Controller
delivered runner workers reply payload id c =
    let sent = send_each_worker workers reply payload (record c {
      work_queue = (WorkQueue.finish id c.work_queue).1;
      pending_msgs = (find_invocation id c.pending_msgs).1;
    }) in
    record sent { workers = Workers.finish runner sent.workers }
