-- ===== src/Controller/WorkQueue/Adding.antt =====
-- `add_payload`.
use praas.Base.{
  ◌≡◌, refl, sym, true, false, Option, none, some, List, [], ◌∷◌, ◌++◌, arith, Option-cases, ◌⊎◌,
  inl, inr, Bool-cases, if◌then◌else◌,
}
use praas.Base.Text.{Text, text_eq, text_eq_iff, text_eq_refl}
use praas.Base.Dict.{find, assign, find-assign}
use praas.Controller.Mailbox.{Payload}
use praas.Controller.WorkQueue.{
  Invocation, InvocationSource, Functions, Trigger, WorkQueue, unknown_function, failed_insert,
  add_payload, add_invocation, make_invocation,
}
use praas.Controller.WorkQueue.Consistent.{IsConsistent, count-append}
use praas.Result.{ok, Result-cases}
use praas.Ipc.InvocationRequest

make_invocation_inactive :
    (fname key : Text) (t : Trigger) (s : InvocationSource) {i : Invocation}
    → make_invocation fname key t s ≡ ok i
    → i.active ≡ false
unfolding make_invocation InvocationRequest.set_function_name InvocationRequest.set_invocation_id
make_invocation_inactive fname key t s e = ground arith

-- The payloads of an invocation that has not been handed to a worker.
abbrev pub waiting_payload : Option Invocation → List Payload
waiting_payload none = []
waiting_payload (some i) = if i.active then [] else i.payload

module _ (functions : Functions) (fname key : Text) (buffer : Payload) (source : InvocationSource)
    (q q' : WorkQueue) (refused : Option Text) where
  -- A new invocation joins the pending ones, or nothing changes.
  add_invocation_cases :
      add_invocation functions fname key buffer source q ≡ ok (refused, q')
      → ((reason : Text) × (refused ≡ some reason) × (q' ≡ q))
        ⊎ ((i : Invocation) × (refused ≡ none)
            × (i.active ≡ false)
            × (i.payload ≡ buffer ∷ [])
            × (find key q.invocations ≡ none)
            × (q' ≡ record {
              pending = q.pending ++ key ∷ [];
              invocations = assign key i q.invocations;
            }))
  unfolding add_invocation
  add_invocation_cases e = elim (Option-cases (find fname functions)) [
    | inl unknown ↦ inl (unknown_function fname, ground arith, ground arith)
    | inr (t, known) ↦ elim (Result-cases (make_invocation fname key t source)) [
      | inl (i, made) ↦ elim (Option-cases (find key q.invocations)) [
        | inl free ↦ inr (
          record i { payload = buffer ∷ [] },
          ground arith,
          make_invocation_inactive fname key t source made,
          refl,
          free,
          ground arith,
        )
        | inr (old, taken) ↦ inl (failed_insert key fname, ground arith, ground arith)
      ]
      | inr (inl (x, failed)) ↦ absurd (ground arith)
      | inr (inr failed) ↦ absurd (ground arith)
    ]
  ]

  add_invocation-IsConsistent :
      IsConsistent q
      → add_invocation functions fname key buffer source q ≡ ok (refused, q')
      → IsConsistent q'
  add_invocation-IsConsistent c e k = elim (add_invocation_cases e) [
    | inl (reason, why, same) ↦ rw same (c k)
    | inr (i, fine, idle, holds, free, added) ↦ rw added (
        ground (
          arith,
          count-append k key q.pending,
          find-assign key k i q.invocations,
          text_eq_iff key k,
          c k,
        ))
  ]

  -- Adding a payload, on every branch that returns, keeps the queue consistent.
  pub add_payload-IsConsistent :
      IsConsistent q
      → add_payload functions fname key buffer source q ≡ ok (refused, q')
      → IsConsistent q'
  add_payload-IsConsistent c e k = elim (Option-cases (find key q.invocations)) [
    | inl free ↦ add_invocation-IsConsistent c (unfold add_payload in ground arith) k
    | inr (i, there) ↦ elim (Bool-cases i.active) [
      | inl running ↦ add_invocation-IsConsistent c (unfold add_payload in ground arith) k
      | inr waiting ↦
          unfold add_payload in
          ground (
            arith,
            find-assign key k (record i { payload = i.payload ++ buffer ∷ [] }) q.invocations,
            text_eq_iff key k,
            c k,
          )
    ]
  ]

  stores_new :
      (find key q.invocations ≡ none)
        ⊎ ((i : Invocation) × (find key q.invocations ≡ some i) × (i.active ≡ true))
      → add_invocation functions fname key buffer source q ≡ ok (refused, q')
      → ((reason : Text) × (refused ≡ some reason) × (q' ≡ q))
        ⊎ ((i : Invocation) × (refused ≡ none)
            × (find key q'.invocations ≡ some i)
            × (i.active ≡ false)
            × (i.payload ≡ waiting_payload (find key q.invocations) ++ buffer ∷ [])
            × ((k : Text) → text_eq key k ≡ false → find k q'.invocations ≡ find k q.invocations))
  stores_new not_waiting e = elim (add_invocation_cases e) [
    | inl refusal ↦ inl refusal
    | inr (i, fine, idle, holds, free, added) ↦ inr (
      i,
      fine,
      ground (arith, find-assign key key i q.invocations, text_eq_refl key),
      idle,
      ground arith,
      λ k other. ground (arith, find-assign key k i q.invocations),
    )
  ]

  payload_stored :
      add_payload functions fname key buffer source q ≡ ok (refused, q')
      → ((reason : Text) × (refused ≡ some reason) × (q' ≡ q))
        ⊎ ((i : Invocation) × (refused ≡ none)
            × (find key q'.invocations ≡ some i)
            × (i.active ≡ false)
            × (i.payload ≡ waiting_payload (find key q.invocations) ++ buffer ∷ [])
            × ((k : Text) → text_eq key k ≡ false → find k q'.invocations ≡ find k q.invocations))
  payload_stored e = elim (Option-cases (find key q.invocations)) [
    | inl free ↦ stores_new (inl free) (unfold add_payload in ground arith)
    | inr (i, there) ↦ elim (Bool-cases i.active) [
      | inl running ↦ stores_new (inr (i, there, running)) (unfold add_payload in ground arith)
      | inr waiting ↦
          let i' : Invocation = record i { payload = i.payload ++ buffer ∷ [] } in
          unfold add_payload in
          inr (
            i',
            ground arith,
            ground (arith, find-assign key key i' q.invocations, text_eq_refl key),
            waiting,
            ground arith,
            λ k other. ground (arith, find-assign key k i' q.invocations),
          )
    ]
  ]

  -- A refusal changes nothing. A success leaves one invocation of the key that waits, with the payload
  -- behind those that waited for it before, and touches no other invocation.
  pub add_payload_stores :
      add_payload functions fname key buffer source q ≡ ok (refused, q')
      → ((reason : Text) × (refused ≡ some reason) × (q' ≡ q))
        ⊎ ((i : Invocation) × (refused ≡ none)
            × (find key q'.invocations ≡ some i)
            × (i.active ≡ false)
            × (i.payload ≡ waiting_payload (find key q.invocations) ++ buffer ∷ [])
            × ((k : Text) → (k ≡ key) ⊎ (find k q'.invocations ≡ find k q.invocations)))
  add_payload_stores e = elim (payload_stored e) [
    | inl refusal ↦ inl refusal
    | inr (i, fine, there, idle, holds, others) ↦ inr (
      i,
      fine,
      there,
      idle,
      holds,
      λ k. elim (Bool-cases (text_eq key k)) [
        | inl same ↦ inl (sym ((text_eq_iff key k).0 same))
        | inr other ↦ inr (others k other)
      ],
    )
  ]
