-- ===== src/Controller/Talking.antt =====
-- Answers to workers and calls of the server, seen from the work queue and from the workers.
use praas.Base.{
  ℕ, zero, suc, ◌≡◌, refl, subst, ap, ◌∙◌, Bool, true, none, some, List, [], ◌∷◌, map, length,
  arith, inl, inr, Option-cases, Bool-cases,
}
use praas.Base.Int.{ℤ}
use praas.Base.Text.{Text}
use praas.Controller.Mailbox
use praas.Controller.Mailbox.{Payload}
use praas.Controller.Pending.{find_get, find_invocation}
use praas.Controller.Replies.{
  message_reply, result_reply, arrived, send_each_worker, answer_waiting, answer_source,
}
use praas.Controller.State.{Controller, invocation_result, call_server, send_to}
use praas.Controller.WorkQueue.{InvocationSource, is_remote}
use praas.Controller.Workers.{FunctionWorker, modify, write, deliver}
use praas.Controller.Workers.Counted.{count_idle, is_busy}
use praas.Ipc.Channel.{Queue, send}
use praas.Result.{Result, ok, ◌>>=◌, >>=-eq-ok, ok-injective}

abbrev pub busy_flags : List FunctionWorker → List Bool
busy_flags ws = map (λ w. w.busy) ws

abbrev pub Talks : Controller → Controller → Type 0
Talks c c' =
    (c'.work_queue ≡ c.work_queue)
    × (c'.workers.idle_workers ≡ c.workers.idle_workers)
    × (busy_flags c'.workers.workers ≡ busy_flags c.workers.workers)

pub count_idle-flags :
    (ws ws' : List FunctionWorker) → busy_flags ws' ≡ busy_flags ws → count_idle ws' ≡ count_idle ws
count_idle-flags [] [] h = refl
count_idle-flags [] (w ∷ ws) h = cc
count_idle-flags (w ∷ ws) [] h = cc
count_idle-flags (w ∷ ws) (w' ∷ ws') h = ground (arith, h, count_idle-flags ws ws')

pub is_busy-flags :
    (n : ℕ) (ws ws' : List FunctionWorker)
    → busy_flags ws' ≡ busy_flags ws
    → is_busy n ws' ≡ is_busy n ws
is_busy-flags n [] [] h = refl
is_busy-flags n [] (w ∷ ws) h = cc
is_busy-flags n (w ∷ ws) [] h = cc
is_busy-flags zero (w ∷ ws) (w' ∷ ws') h = cc
is_busy-flags (suc n) (w ∷ ws) (w' ∷ ws') h = is_busy-flags n ws ws' cc

busy_flags-write :
    (n : ℕ) (q : Queue) (ws : List FunctionWorker)
    → busy_flags (modify n (write q) ws) ≡ busy_flags ws
unfolding modify
busy_flags-write n q [] = refl
busy_flags-write zero q (w ∷ ws) = refl
busy_flags-write (suc n) q (w ∷ ws) = ap (◌∷◌ w.busy) (busy_flags-write n q ws)

pub send_to-Talks : (worker : ℕ) (q : Queue) (c : Controller) → Talks c (send_to worker q c)
unfolding send_to deliver
send_to-Talks worker q c = (refl, refl, busy_flags-write worker q c.workers.workers)

pub Talks-trans : (a b c : Controller) → Talks a b → Talks b c → Talks a c
Talks-trans a b c (q, i, f) (q', i', f') = (q' ∙ q, i' ∙ i, f' ∙ f)

pub send_each_worker-Talks :
    (workers : List ℕ) (reply : List ℕ) (payload : Payload) (c : Controller)
    → Talks c (send_each_worker workers reply payload c)
unfolding send_each_worker
send_each_worker-Talks [] reply payload c = (refl, refl, refl)
send_each_worker-Talks (w ∷ ws) reply payload c =
    let q = send c.workers.msg_size reply payload in
    Talks-trans c (send_to w q c) (send_each_worker ws reply payload (send_to w q c))
      (send_to-Talks w q c) (send_each_worker-Talks ws reply payload (send_to w q c))

abbrev answer : Text → Text → Payload → Controller → ℕ → List ℕ → Result Controller
answer name source payload c worker reply = ok (
    send_to worker (send c.workers.msg_size reply payload)
      (record c { pending_msgs = (find_get name source c.pending_msgs).1 }))

pub arrived-Talks :
    (name source : Text) (payload : Payload) (c c' : Controller)
    → arrived name source payload c ≡ ok c'
    → Talks c c'
unfolding arrived
arrived-Talks name source payload c c' h =
    elim (Option-cases (find_get name source c.pending_msgs).0) [
      | inl none_waits ↦ subst (Talks c) (stored none_waits) (refl, refl, refl)
      | inr (worker, waits) ↦
          (let (reply, made, e) =
              >>=-eq-ok (message_reply source name) (answer name source payload c worker)
                (sent worker waits) in
            subst (Talks c) (ok-injective e) (
              send_to-Talks worker (send c.workers.msg_size reply payload)
                (record c { pending_msgs = (find_get name source c.pending_msgs).1 })))
    ]
  where
    stored :
        (find_get name source c.pending_msgs).0 ≡ none
        → record c { mailbox = (Mailbox.put name source payload c.mailbox).0 } ≡ c'
    stored none_waits = ok-injective (ground (arith, h, none_waits))

    sent :
        (worker : ℕ)
        → (find_get name source c.pending_msgs).0 ≡ some worker
        → (message_reply source name >>= answer name source payload c worker) ≡ ok c'
    sent worker waits = ground (arith, h, waits)

pub answer_waiting-Talks :
    (id : Text) (code : ℤ) (payload : Payload) (c c' : Controller)
    → answer_waiting id code payload c ≡ ok c'
    → Talks c c'
unfolding answer_waiting
answer_waiting-Talks id code payload c c' h =
    let (reply, made, e) = >>=-eq-ok (result_reply id code (length payload)) _ h in
    subst (Talks c) (ok-injective e) (
      send_each_worker-Talks (find_invocation id c.pending_msgs).0 reply payload
        (record c { pending_msgs = (find_invocation id c.pending_msgs).1 }))

pub answer_source-Talks :
    (source : InvocationSource) (id : Text) (code : ℤ) (payload : Payload) (c c' : Controller)
    → answer_source source id code payload c ≡ ok c'
    → Talks c c'
unfolding answer_source call_server
answer_source-Talks source id code payload c c' h = elim (Bool-cases (is_remote source)) [
  | inl remote ↦ subst (Talks c) (called remote) (refl, refl, refl)
  | inr local ↦ answer_waiting-Talks id code payload c c' (ground (arith, h, local))
]
  where
    called :
        is_remote source ≡ true
        → call_server (invocation_result source.source source.remote_process id code payload) c ≡ c'
    called remote = ok-injective (ground (arith, h, remote))
