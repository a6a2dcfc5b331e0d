-- ===== src/Controller/Workers/Submitting.antt =====
-- `submit` on an invocation whose inputs fit in a request.
use praas.Base.{
  inl, inr, ℕ, suc, ◌-◌, ◌<◌, ◌≤◌, ◌≡◌, refl, sym, ap, true, false, some, List, [], ◌∷◌, map,
  length, arith,
}
use praas.Base.Text.{Text}
use praas.Base.Dict.{find}
use praas.Controller.WorkQueue.{Invocation, WorkQueue, activate}
use praas.Controller.Workers.{
  Workers, modify, set_busy, write, has_idle_workers, get_idle_worker, confirm_payload, run_on,
  submit,
}
use praas.Controller.Workers.Counted.{is_busy, IsCounted, first_idle_lem}
use praas.Ipc.Channel.{send_all}
use praas.Ipc.InvocationRequest.{InvocationRequest, set_buffers}
use praas.Result.{ok, Result-cases}

length-map-length : (ps : List (List ℕ)) → length (map length ps) ≡ length ps
length-map-length [] = refl
length-map-length (p ∷ ps) = ap suc (length-map-length ps)

-- A request has room for the lengths of 13 inputs.
pub confirm_payload-ok :
    (i : Invocation)
    → length i.payload ≤ 13
    → (req : InvocationRequest) × (confirm_payload i ≡ ok req)
unfolding confirm_payload set_buffers
confirm_payload-ok i h = elim (Result-cases (confirm_payload i)) [
  | inl (req, e) ↦ (req, e)
  | inr (inl (x, e)) ↦ absurd (ground (arith, length-map-length i.payload))
  | inr (inr e) ↦ absurd (ground (arith, length-map-length i.payload))
]

-- If some worker is idle, `submit` succeeds on an invocation of at most 13 inputs: one idle worker
-- gets the request followed by the inputs and is busy then, the invocation runs, and the count of
-- idle workers is still right.
pub submit_lem :
    (key : Text) (q : WorkQueue) (ws : Workers) (i : Invocation)
    → IsCounted ws
    → 0 < ws.idle_workers
    → find key q.invocations ≡ some i
    → length i.payload ≤ 13
    → (req : InvocationRequest) × (ws' : Workers) × (n : ℕ) × (confirm_payload i ≡ ok req)
      × (submit key q ws ≡ ok (activate key req q, ws'))
      × (is_busy n ws.workers ≡ false)
      × (ws'.workers
          ≡ modify n
              (set_busy true)
              (modify n (write (send_all ws.msg_size req.buf i.payload)) ws.workers))
      × (suc ws'.idle_workers ≡ ws.idle_workers)
      × IsCounted ws'
unfolding submit has_idle_workers get_idle_worker run_on
submit_lem key q ws i c some_idle there small =
    let (req, confirmed) = confirm_payload-ok i small in
    let packets = send_all ws.msg_size req.buf i.payload in
    let (n, found, idle, counted) =
      first_idle_lem packets (ws.idle_workers - 1) ws.workers (omega (arith, c, some_idle)) in
    (
      req,
      record ws {
        workers = modify n (set_busy true) (modify n (write packets) ws.workers);
        idle_workers = ws.idle_workers - 1;
      },
      n,
      confirmed,
      ground (arith, found, confirmed),
      idle,
      refl,
      omega (arith, some_idle),
      sym counted,
    )
