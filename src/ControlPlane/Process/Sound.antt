-- ===== src/ControlPlane/Process/Sound.antt =====
-- The invariant of a process of the control plane: an allocated process has its connection, and the
-- counter is the number of invocations that are not answered, and a process that swaps out has a place. No operation leaves it, whether it
-- returns or throws, and none of them goes through the missing connection.
use praas.Base.{
  suc, ℕ, ◌+◌, ◌≡◌, refl, Bool, true, false, ◌&&◌, not, Option, none, some, List, [], ◌∷◌, length,
  length-append, arith, if◌then◌else◌, inl, inr, ap,
}
use praas.Base.Int.{ℤ}
use praas.Base.Text.{Text}
use praas.Outcome.{
  Outcome, done, thrown, undefined, Leaves, Leaves-after, Leaves-continue, Leaves-onto, Leaves-if,
  Leaves-test, Leaves-option, onto, after, ◌>>◌, modify,
}
use praas.ControlPlane.Process.{
  Process, Invocation, Effect, is_allocated, is_allocating, is_swapping_out, allocated, allocating,
  Status, CreationCallback, observer, invoke, ProcessInstance, docker_instance, fargate_instance,
}
use praas.ControlPlane.Process.Requests.{
  invocation_message, send_to, send_invocation, send_waiting, send_invocations, accept_invocation,
  new_invocation, add_invocation, find_invocation, erase_invocation, finish_invocation,
}
use praas.ControlPlane.Process.Life.{
  run_creation, instance_connected, connect_instance, report_created, created_callback, connect,
  forget_creation,
}
use praas.Message.InvocationRequest.{set_function_name, set_invocation_id, set_payload_size}
use praas.Result.{Result, Result-cases}

abbrev pub is_some {ℓ} : {A : Type ℓ} → Option A → Bool
is_some none = false
is_some (some a) = true

pub record IsSound (p : Process) : Type 0 where
  pub attached : (is_allocated p.status && not (is_some p.connection)) ≡ false
  pub counted : p.active_invocations ≡ length p.invocations
  pub placed : (is_swapping_out p.status && not (is_some p.swap)) ≡ false

-- A sound process with this status, name and place to swap to.
pub record IsKept (s : Status) (n : Text) (w : Option Text) (p : Process) : Type 0 where
  pub attached : (is_allocated p.status && not (is_some p.connection)) ≡ false
  pub counted : p.active_invocations ≡ length p.invocations
  pub placed : (is_swapping_out p.status && not (is_some p.swap)) ≡ false
  pub same_status : p.status ≡ s
  pub same_name : p.name ≡ n
  pub same_swap : p.swap ≡ w

pub IsSound-IsKept : (p : Process) → IsSound p → IsKept p.status p.name p.swap p
IsSound-IsKept p h = ground arith

pub IsKept-IsSound :
    (s : Status) (n : Text) (w : Option Text) (p : Process) → IsKept s n w p → IsSound p
IsKept-IsSound s n w p h = ground arith

invocation_message-defined : (i : Invocation) → invocation_message i ≡ Result.undefined → ⊥
unfolding invocation_message set_function_name set_invocation_id set_payload_size
invocation_message-defined i h = ground arith

send_to-Leaves :
    (c : Option ℕ) (message : List ℕ) (i : Invocation)
    → is_some c ≡ true
    → Leaves (λ _. Unit {0}) (send_to c message i.body i)
unfolding send_to
send_to-Leaves none message i h = ground arith
send_to-Leaves (some c) message i h = tt

send_invocation-Leaves :
    (c : Option ℕ) (i : Invocation)
    → is_some c ≡ true
    → Leaves (λ _. Unit {0}) (send_invocation c i)
unfolding send_invocation
send_invocation-Leaves c i h = elim (Result-cases (invocation_message i)) [
  | inl (m, e) ↦
      rw e (Leaves-after (λ _. Unit {0}) [] (send_to c m.buf i.body i) (send_to-Leaves c m.buf i h))
  | inr (inl (e, q)) ↦ rw q tt
  | inr (inr q) ↦ absurd (invocation_message-defined i q)
]

abbrev one_sent : Option ℕ → Invocation → Outcome Effect Invocation (Unit {0})
one_sent c i = if i.submitted then done tt i [] else send_invocation c i

one_sent-Leaves :
    (c : Option ℕ) (i : Invocation) → is_some c ≡ true → Leaves (λ _. Unit {0}) (one_sent c i)
one_sent-Leaves c i h =
    Leaves-if (λ _. Unit {0}) i.submitted (done tt i []) (send_invocation c i) tt
      (send_invocation-Leaves c i h)

-- The loop keeps the number of invocations.
module _ (c : Option ℕ) (up : is_some c ≡ true) where
  send_waiting-Leaves :
      (is : List Invocation) → Leaves (λ js. length js ≡ length is) (send_waiting c is)
  unfolding send_waiting
  send_waiting-Leaves [] = refl
  send_waiting-Leaves (i ∷ is) =
      rest (one_sent c i) (one_sent-Leaves c i up) (send_waiting-Leaves is)
    where
      rest :
          (o : Outcome Effect Invocation (Unit {0}))
          → Leaves (λ _. Unit {0}) o
          → Leaves (λ js. length js ≡ length is) (send_waiting c is)
          → Leaves
              (λ js. length js ≡ suc (length is))
              (elim o [
                | done _ i' es ↦ after es (onto (λ js. i' ∷ js) (send_waiting c is))
                | thrown e i' es ↦ thrown e (i' ∷ is) es
                | undefined ↦ undefined
              ])
      rest (done u i' es) h k =
          Leaves-after (λ js. length js ≡ suc (length is)) es _
            (Leaves-onto (λ js. length js ≡ length is) (λ js. length js ≡ suc (length is))
              (λ js. i' ∷ js) (send_waiting c is) k (λ js e. ap suc e))
      rest (thrown e i' es) h k = refl
      rest undefined h k = elim h [ ]

length-erase_invocation :
    (id : Text) (is : List Invocation) (i : Invocation)
    → find_invocation id is ≡ some i
    → length (erase_invocation id is) + 1 ≡ length is
unfolding find_invocation erase_invocation
length-erase_invocation id [] i h = ground arith
length-erase_invocation id (j ∷ is) i h = ground (arith, length-erase_invocation id is i)

module _ (s : Status) (n : Text) (w : Option Text) where
  abbrev Kept : Process → Type 0
  Kept = IsKept s n w

  send_invocations-IsKept :
      (p : Process) → Kept p → is_some p.connection ≡ true → Leaves Kept (send_invocations p)
  unfolding send_invocations
  send_invocations-IsKept p h up =
      Leaves-onto (λ js. length js ≡ length p.invocations) Kept
        (λ is. record p { invocations = is }) (send_waiting p.connection p.invocations)
        (send_waiting-Leaves p.connection up p.invocations) (λ js e. ground arith)

  accept_invocation-IsKept : (i : Invocation) (p : Process) → Kept p → Kept (accept_invocation i p)
  unfolding accept_invocation
  accept_invocation-IsKept i p h = ground (arith, length-append p.invocations (i ∷ []))

  pub add_invocation-IsKept :
      (body : List ℕ) (client : ℕ) (name : Text) (p : Process)
      → Kept p
      → Leaves Kept (add_invocation body client name p)
  unfolding add_invocation
  add_invocation-IsKept body client name p h =
      let i = new_invocation body client name p in
      Leaves-test Kept (is_allocated p.status) _ _
        (λ e.
          Leaves-onto (λ _. Unit {0}) Kept (λ j. accept_invocation j p)
            (send_invocation p.connection i) (send_invocation-Leaves p.connection i (ground arith))
            (λ j _. accept_invocation-IsKept j p h))
        (λ e. accept_invocation-IsKept i p h)

  pub run_creation-IsKept :
      (callback : CreationCallback) (error : Option Text) (p : Process)
      → Kept p
      → Leaves Kept (run_creation callback error p)
  unfolding run_creation
  run_creation-IsKept (observer n) none p h = h
  run_creation-IsKept (observer n) (some error) p h = h
  run_creation-IsKept (invoke body client fname) none p h =
      add_invocation-IsKept body client fname p h
  run_creation-IsKept (invoke body client fname) (some error) p h = h

  -- The callback is run and forgotten.
  answer_creation-IsKept :
      (callback : CreationCallback) (error : Option Text) (p : Process)
      → Kept p
      → Leaves Kept ((do run_creation callback error; modify forget_creation) p)
  unfolding forget_creation
  answer_creation-IsKept callback error p h =
      Leaves-continue Kept Kept (run_creation callback error p) (λ _. modify forget_creation)
        (run_creation-IsKept callback error p h) (λ q k. k) (λ _ q k. ground arith)

  pub instance_connected-IsKept :
      (error : Option Text) (p : Process) → Kept p → Leaves Kept (instance_connected error p)
  unfolding instance_connected
  instance_connected-IsKept error p h =
      Leaves-option Kept p.creation_callback _ _ (λ e. h)
        (λ callback e. answer_creation-IsKept callback error p h)

  connect_instance-IsKept :
      (i : ProcessInstance) (p : Process) → Kept p → Leaves Kept (connect_instance i p)
  unfolding connect_instance
  connect_instance-IsKept (docker_instance ip port container) p h =
      instance_connected-IsKept none p h
  connect_instance-IsKept (fargate_instance port container cluster) p h = h

  report_created-IsKept : (p : Process) → Kept p → Leaves Kept (report_created p)
  unfolding report_created
  report_created-IsKept p h =
      Leaves-option Kept p.handle _ _ (λ e. h)
        (λ i e.
          Leaves-if Kept (p.wait_for_allocation && not (is_allocated p.status)) _ _ h
            (connect_instance-IsKept i p h))

  pub created_callback-IsKept :
      (error : Option Text) (p : Process) → Kept p → Leaves Kept (created_callback error p)
  unfolding created_callback
  created_callback-IsKept error p h =
      Leaves-option Kept p.creation_callback _ _ (λ e. h)
        (λ callback e.
          Leaves-option Kept error _ _ (λ _. report_created-IsKept p h)
            (λ message _. answer_creation-IsKept callback (some message) p h))

  pub finish_invocation-IsKept :
      (id : Text) (code : ℤ) (output : List ℕ) (p : Process)
      → Kept p
      → Leaves Kept (finish_invocation id code output p)
  unfolding finish_invocation
  finish_invocation-IsKept id code output p h =
      Leaves-option Kept (find_invocation id p.invocations) _ _ (λ e. h)
        (λ i e. ground (arith, length-erase_invocation id p.invocations i))

-- The connection of an allocating process: also when a waiting request cannot be sent, the process
-- that is left is sound and allocated.
pub connect-IsKept :
    (conn : ℕ) (n : Text) (w : Option Text) (p : Process)
    → IsKept allocating n w p
    → Leaves (IsKept allocated n w) (connect conn p)
unfolding connect
connect-IsKept conn n w p h =
    let q = record p { connection = some conn; status = allocated } in
    let r : IsKept allocated n w q = ground arith in
    let e : is_allocating p.status ≡ true = ground arith in
    Leaves-test (IsKept allocated n w) (is_allocating p.status) _ _
      (λ _. Leaves-after (IsKept allocated n w) [] _ (
        Leaves-continue (IsKept allocated n w) (IsKept allocated n w) (send_invocations q)
          (λ _. created_callback none) (send_invocations-IsKept allocated n w q r refl) (λ _ k. k)
          (λ _ t k. created_callback-IsKept allocated n w none t k)))
      (λ f. absurd (ground arith))
