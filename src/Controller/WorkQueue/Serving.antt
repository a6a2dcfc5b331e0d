-- ===== src/Controller/WorkQueue/Serving.antt =====
-- `next`, `activate` and `finish`.
use praas.Base.{
  ◌≡◌, refl, true, false, none, some, List, [], ◌∷◌, arith, Option-cases, ◌⊎◌, inl, inr,
}
use praas.Base.Text.{Text, text_eq_iff, text_eq_refl}
use praas.Base.Dict.{find, find-assign, find-erase}
use praas.Controller.WorkQueue.{
  Invocation, Trigger, direct, WorkQueue, next, is_ready, activate, finish,
}
use praas.Controller.WorkQueue.Consistent.{IsConsistent}
use praas.Ipc.InvocationRequest.{InvocationRequest}
use praas.Result.{ok}

always_ready : (t : Trigger) → is_ready t ≡ true
unfolding is_ready
always_ready (direct name) = refl

-- `next` hands out the invocation that has waited longest, and only says that there is none when
-- none waits: in a consistent queue every pointer leads to an invocation, which does not run yet.
pub next_lem :
    (q : WorkQueue)
    → IsConsistent q
    → ((q.pending ≡ []) × (next q ≡ ok (none, q)))
      ⊎ ((key : Text) × (keys : List Text) × (i : Invocation) × (q.pending ≡ key ∷ keys)
          × (find key q.invocations ≡ some i)
          × (i.active ≡ false)
          × (next q ≡ ok (some key, record q { pending = keys })))
next_lem q c = oldest q.pending refl
  where
    oldest :
        (ks : List Text)
        → q.pending ≡ ks
        → ((q.pending ≡ []) × (next q ≡ ok (none, q)))
          ⊎ ((key : Text) × (keys : List Text) × (i : Invocation) × (q.pending ≡ key ∷ keys)
              × (find key q.invocations ≡ some i)
              × (i.active ≡ false)
              × (next q ≡ ok (some key, record q { pending = keys })))
    oldest [] e = inl (e, unfold next in ground arith)
    oldest (k ∷ ks) e = elim (Option-cases (find k q.invocations)) [
      | inl dangling ↦ absurd (ground (arith, c k, text_eq_refl k))
      | inr (i, there) ↦ inr (
        k,
        ks,
        i,
        e,
        there,
        ground (arith, c k, text_eq_refl k),
        unfold next in ground (arith, always_ready i.trigger),
      )
    ]

-- Handing an invocation to a worker, which takes it off the list and marks it, keeps the queue
-- consistent.
pub activate-next-IsConsistent :
    (q q' : WorkQueue) (key : Text) (req : InvocationRequest)
    → IsConsistent q
    → next q ≡ ok (some key, q')
    → IsConsistent (activate key req q')
activate-next-IsConsistent q q' key req c e k = elim (next_lem q c) [
  | inl (empty, nothing) ↦ absurd (ground arith)
  | inr (key', keys, i, pending, there, idle, served) ↦
      unfold activate in
      ground (
        arith,
        c k,
        c key,
        text_eq_refl key,
        text_eq_iff key k,
        find-assign key k (record i { req = req; active = true }) q.invocations,
      )
]

-- So does the end of an invocation.
pub finish-IsConsistent :
    (q : WorkQueue) (key : Text) → IsConsistent q → IsConsistent (finish key q).1
unfolding finish
finish-IsConsistent q key c k =
    ground (arith, find-erase key k q.invocations, text_eq_iff key k, c k)
