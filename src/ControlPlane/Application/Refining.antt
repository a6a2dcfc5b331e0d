-- ===== src/ControlPlane/Application/Refining.antt =====
-- Every call takes every process at most one step further in its life.
use praas.Base.{inl, inr, ◌⊎◌, ℕ, ◌≡◌, refl, some, arith, get_elem?}
use praas.Base.Dict.{find}
use praas.Base.Text.{Text}
use praas.Outcome.{undefined, Leaves, Leaves-option, Leaves-if, Leaves-continue, modify}
use praas.ControlPlane.Process.{Process}
use praas.ControlPlane.Process.Life.{update_metrics, instance_connected}
use praas.ControlPlane.Process.Requests.{add_invocation, finish_invocation}
use praas.ControlPlane.Process.Sound.{
  IsSound-IsKept, add_invocation-IsKept, finish_invocation-IsKept, instance_connected-IsKept,
}
use praas.ControlPlane.Application.{
  Scope, Deployment, get_location, at, is_empty, with_active, with_swapped,
}
use praas.ControlPlane.Application.Calls.{
  Finds, IsStale, IsStale-cases, Call, add, report, request, report_request, swap, confirm, closing,
  delete, connection, invocation, result, address, metrics, Ready, Surroundings, perform, Reach,
  Reach-IsConsistent, empty_application, empty-IsConsistent, metrics-IsKept,
}
use praas.ControlPlane.Application.Consistent.{IsConsistent}
use praas.ControlPlane.Application.Lifecycle.{Follows, Follows-same, Follows-replaced, at-Follows}
use praas.ControlPlane.Application.Swapping.{
  swap_process, confirm_swap, move_to_swapped, swapped_process, close, drop_name, closed_process,
  delete_process,
}
use praas.ControlPlane.Application.Stepping.{
  kept-Follows, connect-Follows, swap_out-Continues, confirm_swap-Continues, close-Continues,
}
use praas.ControlPlane.Application.Growing.{
  add_process-Follows, process_allocated-Follows, get_controlplane_process-Follows,
  controlplane_allocated-Follows,
}

swap_process-Follows :
    (d : Deployment) (name : Text) (s : Scope)
    → IsConsistent s
    → Leaves (Follows s) (swap_process d name s)
unfolding swap_process
swap_process-Follows d name s c =
    Leaves-if (Follows s) (is_empty name) _ _ (Follows-same s s refl) (
      Leaves-option (Follows s) (find name s.application.active_processes) _ _
        (λ e. Follows-same s s refl)
        (λ r e.
          let (p, here, named) = c.active name r e in
          at-Follows r _ s p here (swap_out-Continues (get_location d name) p)))

swapped_process-Follows :
    (name : Text) (s : Scope) → IsConsistent s → Leaves (Follows s) (swapped_process name s)
unfolding swapped_process move_to_swapped with_swapped with_active
swapped_process-Follows name s c =
    Leaves-option (Follows s) (find name s.application.active_processes) _ _
      (λ e. Follows-same s s refl)
      (λ r e.
        let (p, here, named) = c.active name r e in
        Leaves-continue (Follows s) (Follows s) (at r confirm_swap s)
          (λ _. modify (move_to_swapped name r))
          (at-Follows r confirm_swap s p here (confirm_swap-Continues p)) (λ t k. k) (λ _ t k. k))

closed_process-Follows :
    (r : ℕ) (s : Scope) (p : Process)
    → get_elem? s.processes r ≡ some p
    → Leaves (Follows s) (closed_process r s)
unfolding closed_process drop_name with_swapped with_active
closed_process-Follows r s p here =
    let f = Follows-replaced s r p (close p) here (close-Continues p) in
    rw (here, closed_process) (λ j q e. let (u, there, k) = f j q e in (u, ground arith, k))

delete_process-Follows :
    (d : Deployment) (name : Text) (s : Scope)
    → IsConsistent s
    → Leaves (Follows s) (delete_process d name s)
unfolding delete_process with_swapped
delete_process-Follows d name s c =
    Leaves-if (Follows s) (is_empty name) _ _ (Follows-same s s refl) (
      Leaves-option (Follows s) (find name s.application.swapped_processes) _ _
        (λ e. Follows-same s s refl)
        (λ r e.
          let (p, here, placed) = c.swapped name r e in
          Leaves-option (Follows s) (get_elem? s.processes r) _ _ (λ f. absurd (ground arith))
            (λ q f.
              Leaves-option (Follows s) q.swap _ _ (λ g. absurd (ground arith))
                (λ location g. Follows-same s s refl))))

module _ {D : Type 0} (env : Surroundings D) where
  perform-Follows :
      (c : Call) (s : Scope)
      → IsConsistent s
      → Ready c s
      → Finds c s
      → Leaves (Follows s) (perform env c s)
  unfolding perform
  perform-Follows (add name resources callback wait) s k r f =
      add_process-Follows env.doubles env.max_memory env.max_vcpus env.uuids name resources callback
        wait s
  perform-Follows (report name r i error) s k (p, e) f =
      process_allocated-Follows name r i error s p k e f
  perform-Follows (request resources callback) s k r f =
      get_controlplane_process-Follows env.decimal env.uuids resources callback s k
  perform-Follows (report_request r i msg) s k (p, e) f =
      controlplane_allocated-Follows r i msg s p k e
  perform-Follows (swap name) s k r f = swap_process-Follows env.deployment name s k
  perform-Follows (confirm name) s k r f = swapped_process-Follows name s k
  perform-Follows (closing r) s k (p, e) f = closed_process-Follows r s p e
  perform-Follows (delete name) s k r f = delete_process-Follows env.deployment name s k
  perform-Follows (connection r conn) s k (p, e) f = connect-Follows r conn s p e (k.sound r p e)
  perform-Follows (invocation r body client name) s k (p, e) f =
      kept-Follows r (add_invocation body client name) s p e (
        add_invocation-IsKept p.status p.name p.swap body client name p
          (IsSound-IsKept p (k.sound r p e)))
  perform-Follows (result r id code output) s k (p, e) f =
      kept-Follows r (finish_invocation id code output) s p e (
        finish_invocation-IsKept p.status p.name p.swap id code output p
          (IsSound-IsKept p (k.sound r p e)))
  perform-Follows (address r error) s k (p, e) f =
      kept-Follows r (instance_connected error) s p e (
        instance_connected-IsKept p.status p.name p.swap error p (IsSound-IsKept p (k.sound r p e)))
  perform-Follows (metrics r now time count timestamp) s k (p, e) f =
      kept-Follows r (modify (update_metrics now time count timestamp)) s p e
        (metrics-IsKept now time count timestamp p (k.sound r p e))

  -- The code refines the life of a process: in whatever state an application is after a sequence of
  -- calls, the next call, for a process that exists, renames no process and takes each process at
  -- most one step further, by a change that the life allows. This does not hold for a report that an
  -- allocation failed whose process is not in the table any more under its name, which is undefined.
  -- (A process is followed as an object; whether a table still names it is not said.)
  pub Reach-Follows :
      (name : Text) {s : Scope} (c : Call)
      → Reach env (empty_application name) s
      → Ready c s
      → Leaves (Follows s) (perform env c s) ⊎ (IsStale c s × (perform env c s ≡ undefined))
  Reach-Follows name {s} c path r = elim (IsStale-cases env c s) [
    | inl f ↦ inl (perform-Follows c s (Reach-IsConsistent env (empty-IsConsistent name) path) r f)
    | inr gone ↦ inr gone
  ]
