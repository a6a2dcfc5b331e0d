-- ===== src/Controller/Workers/Scheduling.antt =====
-- The scheduling loop of `poll`.
use praas.Base.{
  ℕ, zero, suc, ◌+◌, ◌<◌, ◌≤◌, ◌≡◌, refl, ap, true, Option, none, some, [], length, ltb, arith, ◌⊎◌,
  inl, inr, Option-cases,
}
use praas.Base.Text.{Text}
use praas.Base.Dict.{find, find-assign}
use praas.Controller.WorkQueue.{Invocation, WorkQueue, activate}
use praas.Controller.WorkQueue.Consistent.{IsConsistent}
use praas.Controller.WorkQueue.Serving.{next_lem, activate-next-IsConsistent}
use praas.Controller.Workers.{Workers, has_idle_workers, schedule}
use praas.Controller.Workers.Counted.{IsCounted}
use praas.Controller.Workers.Submitting.{submit_lem}
use praas.Ipc.InvocationRequest.{InvocationRequest}
use praas.Result.{ok}

abbrev pub inputs : Option Invocation → ℕ
inputs none = 0
inputs (some i) = length i.payload

-- No invocation has more inputs than a request has room for.
abbrev pub IsSmall : WorkQueue → Type 0
IsSmall q = (k : Text) → inputs (find k q.invocations) ≤ 13

activate_pending :
    (key : Text) (req : InvocationRequest) (q : WorkQueue)
    → (activate key req q).pending ≡ q.pending
unfolding activate
activate_pending key req q = ground arith

zero_or_positive : (n : ℕ) → (n ≡ 0) ⊎ (0 < n)
zero_or_positive zero = inl refl
zero_or_positive (suc n) = inr (omega arith)

has_idle : {n : ℕ} → 0 < n → ltb 0 n ≡ true
has_idle h = ground arith

activate-IsSmall :
    (key : Text) (req : InvocationRequest) (q : WorkQueue)
    → IsSmall q
    → IsSmall (activate key req q)
unfolding activate
activate-IsSmall key req q small k = elim (Option-cases (find key q.invocations)) [
  | inl missing ↦ ground (arith, small k)
  | inr (j, e) ↦ ground (
    arith,
    find-assign key k (record j { req = req; active = true }) q.invocations,
    small key,
    small k,
  )
]

-- What the loop leaves behind.
abbrev pub Scheduled : WorkQueue → Workers → WorkQueue → Workers → Type 0
Scheduled q ws q' ws' =
    IsConsistent q'
    × IsSmall q'
    × IsCounted ws'
    × ((ws'.idle_workers ≡ 0) ⊎ (q'.pending ≡ []))
    × (ws.idle_workers + length q'.pending ≡ ws'.idle_workers + length q.pending)

abbrev Scheduling : ℕ → WorkQueue → Workers → Type 0
Scheduling fuel q ws =
    (q' : WorkQueue) × (ws' : Workers) × (schedule fuel q ws ≡ ok (q', ws')) × Scheduled q ws q' ws'

scheduled_from :
    (fuel : ℕ) (q : WorkQueue) (ws : Workers)
    → ws.idle_workers < fuel
    → IsConsistent q
    → IsSmall q
    → IsCounted ws
    → Scheduling fuel q ws
unfolding schedule has_idle_workers
scheduled_from zero q ws h c s counted = absurd (omega (arith, h))
scheduled_from (suc fuel) q ws h c s counted = elim (next_lem q c) [
  | inl (empty, nothing) ↦ (q, ws, ground (arith, nothing), (c, s, counted, inr empty, refl))
  | inr (key, keys, i, pending, there, waiting, served) ↦ elim (zero_or_positive ws.idle_workers) [
    | inl none_idle ↦ (q, ws, ground arith, (c, s, counted, inl none_idle, refl))
    | inr some_idle ↦
        (let q1 = record q { pending = keys } in
          let (req, ws1, n, confirmed, submitted, free, sent, fewer, counted1) =
            submit_lem key q1 ws i counted some_idle there (ground (arith, s key, there)) in
          let (q', ws', e, (c', s', counted', stop, sum)) =
            scheduled_from fuel (activate key req q1) ws1 (omega (arith, fewer, h))
              (activate-next-IsConsistent q q1 key req c served) (activate-IsSmall key req q1 s)
              counted1 in
          (
            q',
            ws',
            simp (has_idle some_idle, served, submitted, e),
            (
              c',
              s',
              counted',
              stop,
              omega (arith, sum, fewer, ap length pending, ap length (activate_pending key req q1)),
            ),
          ))
  ]
]

-- In a consistent queue of which no invocation has more than 13 inputs, and with the right count of
-- idle workers, the loop ends after at most one round for each idle worker and one more: it stops
-- because no worker is idle or no invocation waits, and every round took one waiting invocation and
-- one idle worker. The queue is consistent then, no invocation in it has more than 13 inputs, and the
-- count of idle workers is right.
pub schedule_lem :
    (q : WorkQueue) (ws : Workers)
    → IsConsistent q
    → IsSmall q
    → IsCounted ws
    → (q' : WorkQueue) × (ws' : Workers) × (schedule (suc ws.idle_workers) q ws ≡ ok (q', ws'))
      × Scheduled q ws q' ws'
schedule_lem q ws = scheduled_from (suc ws.idle_workers) q ws (omega arith)
