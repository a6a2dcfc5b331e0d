-- ===== src/ControlPlane/Application/OnDemand.antt =====
-- The processes for single invocations, which the control plane chooses or creates, keep an
-- application consistent.
use praas.Base.{
  ℕ, ◌≡◌, Bool, true, Option, none, some, List, [], ◌∷◌, length, get_elem?, arith, Bool-cases,
  Option-cases, inl, inr, subst,
}
use praas.Base.Text.{Text}
use praas.Outcome.{◌>>◌, Leaves, Leaves-continue, modify}
use praas.ControlPlane.Process.{Process, CreationCallback, ProcessInstance, Resources}
use praas.ControlPlane.Process.Life.{
  set_creation_callback, set_handle, created_callback, run_creation,
}
use praas.ControlPlane.Process.Sound.{IsSound, IsSound-IsKept, run_creation-IsKept}
use praas.ControlPlane.Application.{Scope, at, with_controlplane}
use praas.ControlPlane.Application.Allocation.{
  new_process, get_controlplane_process, controlplane_allocated, first_free, has_room,
  add_controlplane, controlplane_name,
}
use praas.ControlPlane.Application.Consistent.{IsConsistent}
use praas.ControlPlane.Application.Allocating.{
  kept-IsConsistent, created-Leaves, handled-Leaves, appended-IsConsistent, new_process-IsSound,
}

pub first_free_lem :
    (ps : List Process) (rs : List ℕ) (r : ℕ)
    → first_free ps rs ≡ some r
    → (p : Process) × (get_elem? ps r ≡ some p)
unfolding first_free has_room
first_free_lem ps [] r e = absurd (ground arith)
first_free_lem ps (j ∷ rs) r e = elim (Option-cases (get_elem? ps j)) [
  | inl f ↦ first_free_lem ps rs r (ground arith)
  | inr (p, f) ↦ elim (Bool-cases (has_room ps j)) [
    | inl g ↦ (p, subst (λ t. get_elem? ps t ≡ some p) {x = j} {y = r} (ground arith) f)
    | inr g ↦ first_free_lem ps rs r (ground arith)
  ]
]

set_creation_callback-IsSound :
    (callback : CreationCallback) (wait : Bool) (p : Process)
    → IsSound p
    → IsSound (set_creation_callback callback wait p)
unfolding set_creation_callback
set_creation_callback-IsSound callback wait p h = ground arith

add_controlplane-IsConsistent :
    (r : ℕ) (s : Scope) → IsConsistent s → IsConsistent (add_controlplane r s)
unfolding add_controlplane with_controlplane
add_controlplane-IsConsistent r s c = record {
  sound = c.sound;
  active = c.active;
  swapped = c.swapped;
}

pub get_controlplane_process-IsConsistent :
    (decimal uuids : ℕ → Text) (resources : Resources) (callback : CreationCallback) (s : Scope)
    → IsConsistent s
    → Leaves IsConsistent (get_controlplane_process decimal uuids resources callback s)
unfolding get_controlplane_process
get_controlplane_process-IsConsistent decimal uuids resources callback s c =
    elim (Option-cases (first_free s.processes s.application.controlplane_processes)) [
      | inl e ↦
          rw (e, get_controlplane_process)
            (let name = controlplane_name decimal (length s.application.controlplane_processes) in
              let p = new_process name s.application.name resources uuids in
              appended-IsConsistent (set_creation_callback callback true p) s
                (set_creation_callback-IsSound callback true p
                  (new_process-IsSound name s.application.name resources uuids))
                c)
      | inr (r, e) ↦
          (let (p, here) = first_free_lem s.processes s.application.controlplane_processes r e in
            rw (e, get_controlplane_process)
              (kept-IsConsistent p.status r (run_creation callback none) s p c here (
                run_creation-IsKept p.status p.name p.swap callback none p
                  (IsSound-IsKept p (c.sound r p here)))))
    ]

pub controlplane_allocated-IsConsistent :
    (r : ℕ) (i : Option ProcessInstance) (msg : Option Text) (s : Scope) (p : Process)
    → IsConsistent s
    → get_elem? s.processes r ≡ some p
    → Leaves IsConsistent (controlplane_allocated r i msg s)
unfolding controlplane_allocated
controlplane_allocated-IsConsistent r (some i) msg s p c here =
    Leaves-continue IsConsistent IsConsistent
      (at r (do modify (set_handle i); created_callback none) s) (λ _. modify (add_controlplane r))
      (kept-IsConsistent p.status r _ s p c here (handled-Leaves i p (c.sound r p here))) (λ t k. k)
      (λ _ t k. add_controlplane-IsConsistent r t k)
controlplane_allocated-IsConsistent r none (some msg) s p c here =
    kept-IsConsistent p.status r _ s p c here (created-Leaves (some msg) p (c.sound r p here))
controlplane_allocated-IsConsistent r none none s p c here = c
