-- ===== src/Controller/Workers.antt =====
-- Workers and FunctionWorker of process/controller/src/workers.cpp, and the scheduling loop at the end
-- of a round of `Controller::poll`. A worker is its place in the vector; its write channel is the
-- queue of the packets sent so far (Ipc/Channel). Process identifiers, and the start and the end of
-- the worker processes, are left out. `idle_workers` never goes below 0: `submit` tests it first.
pub mod Counted
pub mod Submitting
pub mod Scheduling
use praas.Base.{
  ℕ, zero, suc, ◌+◌, ◌-◌, Bool, true, false, Option, none, some, List, [], ◌∷◌, ◌++◌, map, length,
  ltb, ◌==◌, not, if◌then◌else◌,
}
use praas.Base.Text.{Text}
use praas.Base.Dict.{find}
use praas.Controller.WorkQueue.{Invocation, WorkQueue, next, activate}
use praas.Ipc.Channel.{Queue, send_all}
use praas.Ipc.InvocationRequest.{InvocationRequest, set_buffers}
use praas.Result.{Result, ok, err, undefined, praas_exception, ◌>>=◌}

pub record FunctionWorker : Type 0 where
  pub busy : Bool
  pub ipc_write : Queue

pub record Workers : Type 0 where
  pub workers : List FunctionWorker
  pub idle_workers : ℕ
  pub msg_size : ℕ

-- Changes the n-th worker.
unfoldable pub modify :
    ℕ → (FunctionWorker → FunctionWorker) → List FunctionWorker → List FunctionWorker
modify n f [] = []
modify zero f (w ∷ ws) = f w ∷ ws
modify (suc n) f (w ∷ ws) = w ∷ modify n f ws

abbrev pub set_busy : Bool → FunctionWorker → FunctionWorker
set_busy b w = record w { busy = b }

-- `ipc_write().send(...)`, which adds packets to the worker's channel.
abbrev pub write : Queue → FunctionWorker → FunctionWorker
write packets w = record w { ipc_write = w.ipc_write ++ packets }

unfoldable pub deliver : ℕ → Queue → Workers → Workers
deliver n packets ws = record ws { workers = modify n (write packets) ws.workers }

unfoldable pub has_idle_workers : Workers → Bool
has_idle_workers ws = ltb 0 ws.idle_workers

-- The loop of `_get_idle_worker`.
unfoldable pub first_idle : List FunctionWorker → Option ℕ
first_idle [] = none
first_idle (w ∷ ws) =
    let rest = first_idle ws in
    if not w.busy then some 0 else elim rest [ none ↦ none | some n ↦ some (suc n) ]

unfoldable pub get_idle_worker : Workers → Option ℕ
unfolding first_idle
get_idle_worker ws = if ws.idle_workers == 0 then none else first_idle ws.workers

-- `Invocation::confirm_payload`.
unfoldable pub confirm_payload : Invocation → Result InvocationRequest
confirm_payload i = set_buffers (map length i.payload) i.req

-- The statements of `submit` after the choice of a worker; a null worker is dereferenced.
unfoldable pub run_on :
    Option ℕ → Text → Invocation → WorkQueue → Workers → Result (WorkQueue × Workers)
unfolding confirm_payload
run_on worker key i q ws = do
  req ← confirm_payload i
  elim worker [
    | none ↦ undefined
    | some n ↦ ok (
      activate key req q,
      record ws {
        workers =
            modify n (set_busy true)
              (modify n (write (send_all ws.msg_size req.buf i.payload)) ws.workers);
        idle_workers = ws.idle_workers - 1;
      },
    )
  ]

-- `submit(Invocation&)`: the reference is the node of the key, dangling if there is none.
unfoldable pub submit : Text → WorkQueue → Workers → Result (WorkQueue × Workers)
unfolding has_idle_workers get_idle_worker run_on
submit key q ws =
    if not (has_idle_workers ws) then err praas_exception else elim (find key q.invocations) [
      | none ↦ undefined
      | some i ↦ run_on (get_idle_worker ws) key i q ws
    ]

unfoldable pub finish : ℕ → Workers → Workers
finish n ws = record ws {
  workers = modify n (set_busy false) ws.workers;
  idle_workers = ws.idle_workers + 1;
}

-- `while (_workers.has_idle_workers())` of `poll`, on fuel; `undefined` when the fuel is gone.
unfoldable pub schedule : ℕ → WorkQueue → Workers → Result (WorkQueue × Workers)
unfolding has_idle_workers
schedule zero q ws = undefined
schedule (suc fuel) q ws =
    if not (has_idle_workers ws)
    then ok (q, ws)
    else (next q >>= λ r. elim r.0 [
      | none ↦ ok (r.1, ws)
      | some key ↦ (submit key r.1 ws >>= λ s. schedule fuel s.0 s.1)
    ])
