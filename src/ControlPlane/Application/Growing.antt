-- ===== src/ControlPlane/Application/Growing.antt =====
-- The calls that create a process, or report on its allocation, take every process at most one
-- step further in its life.
use praas.Base.{
  length, ℕ, ◌≡◌, refl, Bool, true, ◌||◌, Option, none, some, [], ◌∷◌, ◌++◌, arith, Option-cases,
  inl, inr, get_elem?, ◌∙◌,
}
use praas.Base.Dict.{find}
use praas.Base.Text.{Text}
use praas.Outcome.{Leaves, Leaves-option, Leaves-if, Leaves-continue, Leaves-mono, modify, ◌>>◌}
use praas.ControlPlane.Process.{Process, CreationCallback, ProcessInstance, Resources}
use praas.ControlPlane.Process.Life.{
  run_creation, created_callback, set_handle, set_creation_callback,
}
use praas.ControlPlane.Process.Sound.{IsSound-IsKept, run_creation-IsKept}
use praas.ControlPlane.Application.{
  Scope, Doubles, at, is_empty, with_active, with_processes, with_controlplane,
}
use praas.ControlPlane.Application.Allocation.{
  check_size, new_process, insert_process, add_process, erase_entry, process_allocated,
  get_controlplane_process, controlplane_allocated, first_free, add_controlplane, controlplane_name,
}
use praas.ControlPlane.Application.Allocating.{
  InPlace, erase_entry-IsConsistent, created-Leaves, handled-Leaves,
}
use praas.ControlPlane.Application.OnDemand.{first_free_lem}
use praas.ControlPlane.Application.Consistent.{IsConsistent}
use praas.ControlPlane.Application.Lifecycle.{Follows, Follows-same, Follows-append}
use praas.ControlPlane.Application.Stepping.{kept-Follows}

check_size-processes :
    {D : Type 0} (d : Doubles D) (limit : D) (given : Text) (s : Scope)
    → Leaves (λ t. t.processes ≡ s.processes) (check_size d limit given s)
unfolding check_size
check_size-processes d limit given s =
    Leaves-option (λ t. t.processes ≡ s.processes) (d.stod given) _ _ (λ e. refl)
      (λ size e.
        Leaves-if (λ t. t.processes ≡ s.processes) (d.le size d.nought || d.lt limit size) _ _ refl
          refl)

insert_process-Follows :
    (p : Process) (callback : CreationCallback) (wait : Bool) (s t : Scope)
    → t.processes ≡ s.processes
    → Leaves (Follows s) (insert_process p callback wait t)
unfolding insert_process with_active with_processes
insert_process-Follows p callback wait s t same =
    Leaves-option (Follows s) (find p.name t.application.active_processes) _ _
      (λ e.
        Follows-append s
          (with_processes (t.processes ++ set_creation_callback callback wait p ∷ []) t)
          (set_creation_callback callback wait p) (ground arith))
      (λ r e. Follows-same s t same)

pub add_process-Follows :
    {D : Type 0} (d : Doubles D) (max_memory max_vcpus : D) (uuids : ℕ → Text) (name : Text)
    (resources : Resources) (callback : CreationCallback) (wait : Bool) (s : Scope)
    → Leaves (Follows s) (add_process d max_memory max_vcpus uuids name resources callback wait s)
unfolding add_process
add_process-Follows d max_memory max_vcpus uuids name resources callback wait s =
    Leaves-if (Follows s) (is_empty name) _ _ (Follows-same s s refl) (
      Leaves-continue (λ t. t.processes ≡ s.processes) (Follows s)
        (check_size d max_memory resources.memory s) _
        (check_size-processes d max_memory resources.memory s) (λ t k. Follows-same s t k)
        (λ _ t k.
          Leaves-continue (λ u. u.processes ≡ t.processes) (Follows s)
            (check_size d max_vcpus resources.vcpus t) _
            (check_size-processes d max_vcpus resources.vcpus t) (λ u l. Follows-same s u (l ∙ k))
            (λ _ u l.
              insert_process-Follows (new_process name s.application.name resources uuids) callback
                wait s u (l ∙ k))))

-- From a state with the same processes.
Follows-from : (s t u : Scope) → t.processes ≡ s.processes → Follows t u → Follows s u
Follows-from s t u e f r p here = f r p (ground arith)

pub process_allocated-Follows :
    (name : Text) (r : ℕ) (i : Option ProcessInstance) (error : Option Text) (s : Scope)
    (p : Process)
    → IsConsistent s
    → get_elem? s.processes r ≡ some p
    → InPlace name r i s
    → Leaves (Follows s) (process_allocated name r i error s)
unfolding process_allocated
process_allocated-Follows name r (some i) error s p c here e =
    kept-Follows r _ s p here (handled-Leaves i p (c.sound r p here))
process_allocated-Follows name r none error s p c here e =
    Leaves-continue (λ t. IsConsistent t × (t.processes ≡ s.processes)) (Follows s)
      (erase_entry name r s) _ (erase_entry-IsConsistent name r s e c) (λ t k. Follows-same s t k.1)
      (λ _ t k.
        Leaves-mono (Follows t) (Follows s) (at r (created_callback error) t)
          (kept-Follows r (created_callback error) t p (ground arith)
            (created-Leaves error p (c.sound r p here)))
          (λ u f. Follows-from s t u k.1 f))

pub get_controlplane_process-Follows :
    (decimal uuids : ℕ → Text) (resources : Resources) (callback : CreationCallback) (s : Scope)
    → IsConsistent s
    → Leaves (Follows s) (get_controlplane_process decimal uuids resources callback s)
unfolding get_controlplane_process with_processes
get_controlplane_process-Follows decimal uuids resources callback s c =
    elim (Option-cases (first_free s.processes s.application.controlplane_processes)) [
      | inl e ↦
          rw (e, get_controlplane_process)
            ((let q = set_creation_callback callback true (
                new_process
                  (controlplane_name decimal (length s.application.controlplane_processes))
                  s.application.name resources uuids) in
              Follows-append s (with_processes (s.processes ++ q ∷ []) s) q refl))
      | inr (r, e) ↦
          (let (p, here) = first_free_lem s.processes s.application.controlplane_processes r e in
            rw (e, get_controlplane_process)
              (kept-Follows r (run_creation callback none) s p here (
                run_creation-IsKept p.status p.name p.swap callback none p
                  (IsSound-IsKept p (c.sound r p here)))))
    ]

pub controlplane_allocated-Follows :
    (r : ℕ) (i : Option ProcessInstance) (msg : Option Text) (s : Scope) (p : Process)
    → IsConsistent s
    → get_elem? s.processes r ≡ some p
    → Leaves (Follows s) (controlplane_allocated r i msg s)
unfolding controlplane_allocated add_controlplane with_controlplane
controlplane_allocated-Follows r (some i) msg s p c here =
    Leaves-continue (Follows s) (Follows s)
      (at r (do modify (set_handle i); created_callback none) s) (λ _. modify (add_controlplane r))
      (kept-Follows r _ s p here (handled-Leaves i p (c.sound r p here))) (λ t k. k) (λ _ t k. k)
controlplane_allocated-Follows r none (some msg) s p c here =
    kept-Follows r _ s p here (created-Leaves (some msg) p (c.sound r p here))
controlplane_allocated-Follows r none none s p c here = Follows-same s s refl
