-- ===== src/Controller/Delivery/Served.antt =====
-- The workers after answers were sent to some of them and one of them has become idle.
use praas.Base.{
  ℕ, zero, suc, ◌+◌, ◌==◌, ◌≡◌, refl, ap, sym, ◌∙◌, Bool, false, ◌&&◌, Bool-cases, inl, inr, List,
  [], ◌∷◌, ◌++◌, arith, if◌then◌else◌,
}
use mathlib.Core.List.{append_assoc, append-nil}
use praas.Base.Text.{Text, text_eq}
use praas.Controller.Mailbox.{Payload}
use praas.Controller.Pending.{PendingMessage, PendingMessages, find_invocation}
use praas.Controller.Replies.{send_each_worker}
use praas.Controller.State.{Controller, send_to}
use praas.Controller.Workers.{FunctionWorker, modify, write, set_busy, deliver}
use praas.Ipc.Channel.{Queue, send}

-- How many requests of a worker wait for the id.
abbrev pub asks : Text → ℕ → PendingMessages → ℕ
asks id n [] = 0
asks id n (e ∷ p) = (if text_eq e.key id && e.worker == n then 1 else 0) + asks id n p

abbrev pub copies : ℕ → Queue → Queue
copies zero q = []
copies (suc k) q = q ++ copies k q

-- The channel of the n-th worker gains so many copies of the packets, and some workers are idle.
abbrev pub served : (ℕ → ℕ) → (ℕ → Bool) → Queue → List FunctionWorker → List FunctionWorker
served times idle q [] = []
served times idle q (w ∷ ws) =
    record {
      busy = if idle 0 then false else w.busy;
      ipc_write = w.ipc_write ++ copies (times 0) q;
    }
    ∷ served (λ n. times (suc n)) (λ n. idle (suc n)) q ws

-- The code's way: a walk along the list for every answer.
abbrev pub sent_each : List ℕ → Queue → List FunctionWorker → List FunctionWorker
sent_each [] q ws = ws
sent_each (n ∷ ns) q ws = sent_each ns q (modify n (write q) ws)

pub send_each_worker-sent_each :
    (ns : List ℕ) (reply : List ℕ) (payload : Payload) (c : Controller)
    → send_each_worker ns reply payload c ≡ record c {
      workers = record c.workers {
        workers = sent_each ns (send c.workers.msg_size reply payload) c.workers.workers;
      };
    }
unfolding send_each_worker send_to deliver
send_each_worker-sent_each [] reply payload c = refl
send_each_worker-sent_each (n ∷ ns) reply payload c =
    send_each_worker-sent_each ns reply payload
      (send_to n (send c.workers.msg_size reply payload) c)

-- One worker seen on its own.
occurs : ℕ → List ℕ → ℕ
occurs n [] = 0
occurs n (m ∷ ms) = (if m == n then 1 else 0) + occurs n ms

gains : (ℕ → Queue) → List FunctionWorker → List FunctionWorker
gains f [] = []
gains f (w ∷ ws) = write (f 0) w ∷ gains (λ j. f (suc j)) ws

gains_none : (ws : List FunctionWorker) → gains (λ j. []) ws ≡ ws
unfolding gains
gains_none [] = refl
gains_none (w ∷ ws) = cc (append-nil w.ipc_write, gains_none ws)

gains_same :
    (f g : ℕ → Queue) (ws : List FunctionWorker) → ((j : ℕ) → f j ≡ g j) → gains f ws ≡ gains g ws
gains_same f g ws h = ap (λ k. gains k ws) {x = f} {y = g} (λ i j. h j i)

gains-modify :
    (f : ℕ → Queue) (n : ℕ) (q : Queue) (ws : List FunctionWorker)
    → gains f (modify n (write q) ws) ≡ gains (λ j. (if n == j then q else []) ++ f j) ws
unfolding gains modify
gains-modify f n q [] = refl
gains-modify f zero q (w ∷ ws) = cc (
  append_assoc w.ipc_write q (f 0),
  gains_same (λ j. f (suc j)) (λ j. (if 0 == suc j then q else []) ++ f (suc j)) ws
      (λ j. ground arith),
)
gains-modify f (suc n) q (w ∷ ws) = cc (
  never_first,
  gains-modify (λ j. f (suc j)) n q ws,
  gains_same (λ j. (if n == j then q else []) ++ f (suc j))
      (λ j. (if suc n == suc j then q else []) ++ f (suc j)) ws (λ j. ground arith),
)
  where
    never_first : (suc n == 0) ≡ false
    never_first = ground arith

gains-sent_each :
    (ns : List ℕ) (q : Queue) (ws : List FunctionWorker)
    → sent_each ns q ws ≡ gains (λ j. copies (occurs j ns) q) ws
unfolding occurs
gains-sent_each [] q ws = sym (gains_none ws)
gains-sent_each (n ∷ ns) q ws =
    gains-sent_each ns q (modify n (write q) ws)
    ∙ gains-modify (λ j. copies (occurs j ns) q) n q ws
    ∙ gains_same (λ j. (if n == j then q else []) ++ copies (occurs j ns) q)
        (λ j. copies (occurs j (n ∷ ns)) q) ws (λ j. copies_more n j)
  where
    copies_more :
        (n j : ℕ)
        → (if n == j then q else []) ++ copies (occurs j ns) q ≡ copies (occurs j (n ∷ ns)) q
    copies_more n j = elim (Bool-cases (n == j)) [
      | inl same ↦
          rw same (ap (λ k. copies k q) {x = suc (occurs j ns)} {y = 1 + occurs j ns} (omega arith))
      | inr other ↦
          rw other (ap (λ k. copies k q) {x = occurs j ns} {y = 0 + occurs j ns} (omega arith))
    ]

occurs-find_invocation :
    (id : Text) (n : ℕ) (p : PendingMessages) → occurs n (find_invocation id p).0 ≡ asks id n p
unfolding occurs find_invocation
occurs-find_invocation id n [] = refl
occurs-find_invocation id n (e ∷ p) = ground (arith, occurs-find_invocation id n p)

served_busy :
    (times : ℕ → ℕ) (idle : ℕ → Bool) (q : Queue) (ws : List FunctionWorker)
    → ((n : ℕ) → idle n ≡ false)
    → served times idle q ws ≡ gains (λ n. copies (times n) q) ws
unfolding gains
served_busy times idle q [] h = refl
served_busy times idle q (w ∷ ws) h =
    cc (h 0, served_busy (λ n. times (suc n)) (λ n. idle (suc n)) q ws (λ n. h (suc n)))

served-gains :
    (times : ℕ → ℕ) (runner : ℕ) (q : Queue) (ws : List FunctionWorker)
    → modify runner (set_busy false) (gains (λ n. copies (times n) q) ws)
      ≡ served times (λ n. n == runner) q ws
unfolding gains modify
served-gains times runner q [] = refl
served-gains times zero q (w ∷ ws) =
    cc (sym (served_busy (λ n. times (suc n)) (λ n. suc n == 0) q ws (λ n. ground arith)))
served-gains times (suc r) q (w ∷ ws) = cc (
  served-gains (λ n. times (suc n)) r q ws,
  idle_same,
  ap (λ idle. served (λ n. times (suc n)) idle q ws) {x = λ n. n == r} {y = λ n. suc n == suc r}
      (λ i n. shifted n i),
)
  where
    shifted : (n : ℕ) → (n == r) ≡ (suc n == suc r)
    shifted n = ground arith

    idle_same : (0 == suc r) ≡ false
    idle_same = ground arith

-- The answers to all the workers that wait for the id, and the runner's release, as one walk.
pub served-sent_each :
    (id : Text) (runner : ℕ) (p : PendingMessages) (q : Queue) (ws : List FunctionWorker)
    → modify runner (set_busy false) (sent_each (find_invocation id p).0 q ws)
      ≡ served (λ n. asks id n p) (λ n. n == runner) q ws
served-sent_each id runner p q ws =
    ap (modify runner (set_busy false)) (
      gains-sent_each (find_invocation id p).0 q ws
      ∙ gains_same (λ j. copies (occurs j (find_invocation id p).0) q) (λ j. copies (asks id j p) q)
          ws (λ j. ap (λ k. copies k q) (occurs-find_invocation id j p)))
    ∙ served-gains (λ n. asks id n p) runner q ws

-- Who has inserted a request is among those that wait.
pub asks-append :
    (id : Text) (n : ℕ) (p : PendingMessages) (e : PendingMessage)
    → asks id n (p ++ e ∷ []) ≡ asks id n p + (if text_eq e.key id && e.worker == n then 1 else 0)
asks-append id n [] e = omega arith
asks-append id n (d ∷ p) e = omega (arith, asks-append id n p e)
