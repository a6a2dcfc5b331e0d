-- ===== src/ControlPlane/Application/Calls.antt =====
-- All calls that an application and its processes get, by the HTTP interface, the TCP server and the
-- backend, and the states that any sequence of them reaches.
use praas.Base.{
  ◌⊎◌, ◌≢◌, none, ℕ, ◌≡◌, Bool, true, false, Option, some, List, [], arith, Bool-cases, inl, inr,
  get_elem?, subst,
}
use praas.Base.Dict.{find}
use praas.Base.Int.{ℤ}
use praas.Base.Text.{Text}
use praas.Outcome.{Outcome, done, thrown, undefined, Action, Leaves, modify}
use praas.ControlPlane.Process.{
  Process, Effect, allocating, allocated, is_allocating, CreationCallback, ProcessInstance,
  Resources,
}
use praas.ControlPlane.Process.Life.{connect, update_metrics, instance_connected}
use praas.ControlPlane.Process.Requests.{add_invocation, finish_invocation}
use praas.ControlPlane.Process.Sound.{
  IsSound, IsKept, IsSound-IsKept, connect-IsKept, add_invocation-IsKept, finish_invocation-IsKept,
  instance_connected-IsKept,
}
use praas.ControlPlane.Application.{Scope, Deployment, Doubles, at}
use praas.ControlPlane.Application.Allocation.{
  add_process, process_allocated, get_controlplane_process, controlplane_allocated,
}
use praas.ControlPlane.Application.Allocating.{
  InPlace, InPlace-cases, add_process-IsConsistent, process_allocated-IsConsistent,
  kept-IsConsistent,
}
use praas.ControlPlane.Application.OnDemand.{
  get_controlplane_process-IsConsistent, controlplane_allocated-IsConsistent,
}
use praas.ControlPlane.Application.Consistent.{IsConsistent}
use praas.ControlPlane.Application.Keeping.{
  swap_process-IsConsistent, swapped_process-IsConsistent, closed_process-IsConsistent,
  delete_process-IsConsistent,
}
use praas.ControlPlane.Application.Swapping.{
  swap_process, swapped_process, closed_process, delete_process,
}

pub data Call : Type 0 where
  add : Text → Resources → CreationCallback → Bool → Call
  report : Text → ℕ → Option ProcessInstance → Option Text → Call
  request : Resources → CreationCallback → Call
  report_request : ℕ → Option ProcessInstance → Option Text → Call
  swap : Text → Call
  confirm : Text → Call
  closing : ℕ → Call
  delete : Text → Call
  connection : ℕ → ℕ → Call
  invocation : ℕ → List ℕ → ℕ → Text → Call
  result : ℕ → Text → ℤ → List ℕ → Call
  address : ℕ → Option Text → Call
  metrics : ℕ → ℕ → ℤ → ℤ → ℕ → Call

-- The process of a call exists.
abbrev Exists : ℕ → Scope → Type 0
Exists r s = (p : Process) × (get_elem? s.processes r ≡ some p)

abbrev pub Ready : Call → Scope → Type 0
Ready (report name r i error) s = Exists r s
Ready (report_request r i msg) s = Exists r s
Ready (closing r) s = Exists r s
Ready (connection r conn) s = Exists r s
Ready (invocation r body client name) s = Exists r s
Ready (result r id code output) s = Exists r s
Ready (address r error) s = Exists r s
Ready (metrics r now time count timestamp) s = Exists r s
Ready _ s = Unit {0}

-- A report that an allocation failed, for a process that is not in the table any more under its name:
-- the code erases through an iterator to an entry that is gone.
abbrev pub IsStale : Call → Scope → Type 0
IsStale (report name r none error) s = find name s.application.active_processes ≢ some r
IsStale _ s = ⊥

-- The entry of a failed report is there.
abbrev pub Finds : Call → Scope → Type 0
Finds (report name r i error) s = InPlace name r i s
Finds _ s = Unit {0}

pub record Surroundings (D : Type 0) : Type 0 where
  pub doubles : Doubles D
  pub max_memory : D
  pub max_vcpus : D
  pub uuids : ℕ → Text
  pub decimal : ℕ → Text
  pub deployment : Deployment

pub allocating-IsKept :
    (p : Process) → is_allocating p.status ≡ true → IsSound p → IsKept allocating p.name p.swap p
allocating-IsKept p e h = ground arith

pub refused-IsKept :
    (conn : ℕ) (p : Process)
    → is_allocating p.status ≡ false
    → IsSound p
    → Leaves (IsKept p.status p.name p.swap) (connect conn p)
unfolding connect
refused-IsKept conn p e h = rw (e, connect) (IsSound-IsKept p h)

pub metrics-IsKept :
    (now : ℕ) (time count : ℤ) (timestamp : ℕ) (p : Process)
    → IsSound p
    → IsKept p.status p.name p.swap (update_metrics now time count timestamp p)
unfolding update_metrics
metrics-IsKept now time count timestamp p h = ground arith

Leaves-eq :
    {A : Type 0} (P : Scope → Type 0) (t : Scope) (o : Outcome Effect Scope A)
    → Leaves P o
    → Leaves (λ u. u ≡ t) o
    → P t
Leaves-eq P t (done a u es) h e = subst P {x = u} {y = t} e h
Leaves-eq P t (thrown x u es) h e = subst P {x = u} {y = t} e h
Leaves-eq P t undefined h e = elim h [ ]

abbrev pub empty_application : Text → Scope
empty_application name = record {
  application = record {
    name = name;
    active_processes = [];
    swapped_processes = [];
    controlplane_processes = [];
  };
  processes = [];
}

pub empty-IsConsistent : (name : Text) → IsConsistent (empty_application name)
unfolding find
empty-IsConsistent name = record {
  sound = λ r p e. absurd (ground arith);
  active = λ k r e. absurd (ground arith);
  swapped = λ k r e. absurd (ground arith);
}

module _ {D : Type 0} (env : Surroundings D) where
  unfoldable pub perform : Call → Action Effect Scope (Unit {0})
  perform (add name resources callback wait) =
      add_process env.doubles env.max_memory env.max_vcpus env.uuids name resources callback wait
  perform (report name r i error) = process_allocated name r i error
  perform (request resources callback) =
      get_controlplane_process env.decimal env.uuids resources callback
  perform (report_request r i msg) = controlplane_allocated r i msg
  perform (swap name) = swap_process env.deployment name
  perform (confirm name) = swapped_process name
  perform (closing r) = closed_process r
  perform (delete name) = delete_process env.deployment name
  perform (connection r conn) = at r (connect conn)
  perform (invocation r body client name) = at r (add_invocation body client name)
  perform (result r id code output) = at r (finish_invocation id code output)
  perform (address r error) = at r (instance_connected error)
  perform (metrics r now time count timestamp) =
      at r (modify (update_metrics now time count timestamp))

  connect-IsConsistent :
      (r conn : ℕ) (s : Scope) (p : Process)
      → IsConsistent s
      → get_elem? s.processes r ≡ some p
      → Leaves IsConsistent (at r (connect conn) s)
  connect-IsConsistent r conn s p c here = elim (Bool-cases (is_allocating p.status)) [
    | inl e ↦
        kept-IsConsistent allocated r (connect conn) s p c here
          (connect-IsKept conn p.name p.swap p (allocating-IsKept p e (c.sound r p here)))
    | inr e ↦
        kept-IsConsistent p.status r (connect conn) s p c here
          (refused-IsKept conn p e (c.sound r p here))
  ]

  pub IsStale-cases : (c : Call) (s : Scope) → Finds c s ⊎ (IsStale c s × (perform c s ≡ undefined))
  unfolding perform
  IsStale-cases (report name r none error) s = elim (InPlace-cases name r none error s) [
    | inl found ↦ inl found
    | inr (e, gone, u) ↦ inr (gone, u)
  ]
  IsStale-cases (report name r (some i) error) s = inl tt
  IsStale-cases (add name resources callback wait) s = inl tt
  IsStale-cases (request resources callback) s = inl tt
  IsStale-cases (report_request r i msg) s = inl tt
  IsStale-cases (swap name) s = inl tt
  IsStale-cases (confirm name) s = inl tt
  IsStale-cases (closing r) s = inl tt
  IsStale-cases (delete name) s = inl tt
  IsStale-cases (connection r conn) s = inl tt
  IsStale-cases (invocation r body client name) s = inl tt
  IsStale-cases (result r id code output) s = inl tt
  IsStale-cases (address r error) s = inl tt
  IsStale-cases (metrics r now time count timestamp) s = inl tt

  -- A call at a consistent application leaves a consistent one, unless it is a stale report.
  pub perform-IsConsistent :
      (c : Call) (s : Scope)
      → IsConsistent s
      → Ready c s
      → Finds c s
      → Leaves IsConsistent (perform c s)
  unfolding perform
  perform-IsConsistent (add name resources callback wait) s k r f =
      add_process-IsConsistent env.doubles env.max_memory env.max_vcpus env.uuids name resources
        callback wait s k
  perform-IsConsistent (report name r i error) s k (p, e) f =
      process_allocated-IsConsistent name r i error s p k e f
  perform-IsConsistent (request resources callback) s k r f =
      get_controlplane_process-IsConsistent env.decimal env.uuids resources callback s k
  perform-IsConsistent (report_request r i msg) s k (p, e) f =
      controlplane_allocated-IsConsistent r i msg s p k e
  perform-IsConsistent (swap name) s k r f = swap_process-IsConsistent env.deployment name s k
  perform-IsConsistent (confirm name) s k r f = swapped_process-IsConsistent name s k
  perform-IsConsistent (closing r) s k (p, e) f = closed_process-IsConsistent r s p k e
  perform-IsConsistent (delete name) s k r f = delete_process-IsConsistent env.deployment name s k
  perform-IsConsistent (connection r conn) s k (p, e) f = connect-IsConsistent r conn s p k e
  perform-IsConsistent (invocation r body client name) s k (p, e) f =
      kept-IsConsistent p.status r (add_invocation body client name) s p k e (
        add_invocation-IsKept p.status p.name p.swap body client name p
          (IsSound-IsKept p (k.sound r p e)))
  perform-IsConsistent (result r id code output) s k (p, e) f =
      kept-IsConsistent p.status r (finish_invocation id code output) s p k e (
        finish_invocation-IsKept p.status p.name p.swap id code output p
          (IsSound-IsKept p (k.sound r p e)))
  perform-IsConsistent (address r error) s k (p, e) f =
      kept-IsConsistent p.status r (instance_connected error) s p k e (
        instance_connected-IsKept p.status p.name p.swap error p (IsSound-IsKept p (k.sound r p e)))
  perform-IsConsistent (metrics r now time count timestamp) s k (p, e) f =
      kept-IsConsistent p.status r (modify (update_metrics now time count timestamp)) s p k e
        (metrics-IsKept now time count timestamp p (k.sound r p e))

  -- A call that leaves a state, whether it returns or throws.
  pub data Step (s : Scope) (t : Scope) : Type 0 where
    step : (c : Call) → Ready c s → Leaves (λ u. u ≡ t) (perform c s) → Step s t

  pub data Reach (s : Scope) : Scope → Type 0 where
    here : Reach s s
    next : {t u : Scope} → Reach s t → Step t u → Reach s u

  pub Reach-IsConsistent : {s t : Scope} → IsConsistent s → Reach s t → IsConsistent t
  Reach-IsConsistent k here = k
  Reach-IsConsistent k (next {t = t} {u = u} path (step c r e)) = elim (IsStale-cases c t) [
    | inl f ↦
        Leaves-eq IsConsistent u (perform c t)
          (perform-IsConsistent c t (Reach-IsConsistent k path) r f) e
    | inr (stale, gone) ↦
        absurd (subst (Leaves (λ v. v ≡ u)) {x = perform c t} {y = undefined} gone e)
  ]

  -- Whatever sequence of calls an application has had since it was created without processes, of
  -- which some returned and some threw, its state is consistent. The next call, for a process that
  -- exists, leaves a consistent state again, whether it returns or throws, with one exception: it
  -- reports that an allocation failed, the process is not in the table any more under its name, and
  -- the call is undefined.
  pub Reach-perform :
      (name : Text) {s : Scope} (c : Call)
      → Reach (empty_application name) s
      → Ready c s
      → IsConsistent s
        × (Leaves IsConsistent (perform c s) ⊎ (IsStale c s × (perform c s ≡ undefined)))
  Reach-perform name {s} c path r =
      let k = Reach-IsConsistent (empty-IsConsistent name) path in
      (
        k,
        elim (IsStale-cases c s) [
          | inl f ↦ inl (perform-IsConsistent c s k r f)
          | inr gone ↦ inr gone
        ],
      )
