-- ===== src/Controller/State.antt =====
-- The members of the class Controller (process/controller/include/praas/process/controller/controller.hpp)
-- that its handlers work on. The calls of `_server` are a log; locks, epoll and logging are left out.
use praas.Base.{ℕ, Bool, Option, List, [], ◌∷◌, ◌++◌, ◌||◌}
use praas.Base.Int.{ℤ}
use praas.Base.Text.{Text, codes, text_eq}
use praas.Controller.Application.{Application}
use praas.Controller.Mailbox.{Payload, MessageStore}
use praas.Controller.Pending.{PendingMessages}
use praas.Controller.WorkQueue.{RemoteType, Functions, WorkQueue}
use praas.Controller.Workers
use praas.Controller.Workers.{Workers}
use praas.Ipc.Channel.{Queue}

-- The interface remote::Server, as the calls of it: of process, function, key and input; of process,
-- name and data; of destination, process, key, return code and output.
pub data ServerCall : Type 0 where
  invocation_request : Text → Text → Text → Payload → ServerCall
  put_message : Text → Text → Payload → ServerCall
  invocation_result : RemoteType → Option Text → Text → ℤ → Payload → ServerCall

pub record Controller : Type 0 where
  pub process_id : Text
  pub functions : Functions
  pub mailbox : MessageStore
  pub pending_msgs : PendingMessages
  pub work_queue : WorkQueue
  pub workers : Workers
  pub application : Application
  pub server : List ServerCall

abbrev pub self_process : Text
self_process = codes "SELF"

-- `id == SELF_PROCESS || id == _process_id`.
unfoldable pub is_self : Text → Controller → Bool
is_self id c = text_eq id self_process || text_eq id c.process_id

unfoldable pub call_server : ServerCall → Controller → Controller
call_server call c = record c { server = c.server ++ call ∷ [] }

-- `worker.ipc_write().send(...)`, given the packets that it makes.
unfoldable pub send_to : ℕ → Queue → Controller → Controller
unfolding Workers.deliver
send_to worker packets c = record c { workers = Workers.deliver worker packets c.workers }
