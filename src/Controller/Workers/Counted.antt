-- ===== src/Controller/Workers/Counted.antt =====
-- The count of idle workers.
use praas.Base.{
  ℕ, zero, suc, ◌+◌, ◌≡◌, refl, Bool, true, false, some, List, [], ◌∷◌, arith, if◌then◌else◌,
  Bool-cases, inl, inr,
}
use praas.Controller.Workers.{
  FunctionWorker, Workers, modify, set_busy, write, deliver, first_idle, finish,
}
use praas.Ipc.Channel.{Queue}

abbrev pub count_idle : List FunctionWorker → ℕ
count_idle [] = 0
count_idle (w ∷ ws) = (if w.busy then 0 else 1) + count_idle ws

abbrev pub is_busy : ℕ → List FunctionWorker → Bool
is_busy n [] = false
is_busy zero (w ∷ ws) = w.busy
is_busy (suc n) (w ∷ ws) = is_busy n ws

-- The counter is the number of workers that are not busy.
abbrev pub IsCounted : Workers → Type 0
IsCounted ws = ws.idle_workers ≡ count_idle ws.workers

pub count_idle-write :
    (n : ℕ) (q : Queue) (ws : List FunctionWorker)
    → count_idle (modify n (write q) ws) ≡ count_idle ws
unfolding modify
count_idle-write n q [] = refl
count_idle-write zero q (w ∷ ws) = refl
count_idle-write (suc n) q (w ∷ ws) = ground (arith, count_idle-write n q ws)

-- A worker that was busy and reports its result is one idle worker more.
pub count_idle-freed :
    (n : ℕ) (ws : List FunctionWorker)
    → is_busy n ws ≡ true
    → count_idle (modify n (set_busy false) ws) ≡ count_idle ws + 1
unfolding modify
count_idle-freed n [] h = ground arith
count_idle-freed zero (w ∷ ws) h = ground arith
count_idle-freed (suc n) (w ∷ ws) h = ground (arith, count_idle-freed n ws h)

-- The search finds a worker when there is one, and making that worker busy is one idle worker less.
pub first_idle_lem :
    (q : Queue) (k : ℕ) (ws : List FunctionWorker)
    → count_idle ws ≡ suc k
    → (n : ℕ) × (first_idle ws ≡ some n)
      × (is_busy n ws ≡ false)
      × (count_idle (modify n (set_busy true) (modify n (write q) ws)) ≡ k)
unfolding first_idle modify
first_idle_lem q k [] h = absurd (omega (arith, h))
first_idle_lem q k (w ∷ ws) h = elim (Bool-cases w.busy) [
  | inl busy ↦
      (let (n, found, idle, counted) = first_idle_lem q k ws (ground arith) in
        (suc n, ground (arith, found), idle, ground (arith, counted)))
  | inr idle ↦ (0, ground arith, idle, ground arith)
]

pub deliver-IsCounted :
    (n : ℕ) (packets : Queue) (ws : Workers) → IsCounted ws → IsCounted (deliver n packets ws)
unfolding deliver
deliver-IsCounted n packets ws c = ground (arith, count_idle-write n packets ws.workers)

-- The end of a busy worker's invocation keeps the count right.
pub finish-IsCounted :
    (n : ℕ) (ws : Workers) → IsCounted ws → is_busy n ws.workers ≡ true → IsCounted (finish n ws)
unfolding finish
finish-IsCounted n ws c b = ground (arith, count_idle-freed n ws.workers b)
