-- ===== src/ControlPlane/Workers.antt =====
-- The requests of the HTTP interface to the resources: control-plane/src/worker.cpp.
use praas.Base.{ℕ, Bool, true, false, Option, none, some, List, [], ◌∷◌}
use praas.Base.Text.{Text, codes}
use praas.ControlPlane.Application.{Deployment, Doubles, get_processes, get_swapped_processes}
use praas.ControlPlane.Application.Allocation.{get_controlplane_process}
use praas.ControlPlane.Application.Allocation as Allocation
use praas.ControlPlane.Application.Swapping as Swapping
use praas.Outcome.{Outcome, done, thrown, undefined, raised, Action, ◌>>◌, pure}
use praas.ControlPlane.Process.{Effect, Resources, CreationCallback, invoke, failed_response}
use praas.ControlPlane.World.{
  World, in_application, scope, new_application, add_application, get_application,
}
use praas.Result.{Exception, object_does_not_exist, invalid_process_state}

-- A `try` whose handlers return for the exceptions that they name.
abbrev pub catching :
    {A : Type 0} → (Exception → Option A) → Outcome Effect World A → Outcome Effect World A
catching handlers (done a w es) = done a w es
catching handlers (thrown (raised e) w es) = elim (handlers e) [
  | none ↦ thrown (raised e) w es
  | some a ↦ done a w es
]
catching handlers (thrown other w es) = thrown other w es
catching handlers undefined = undefined

-- The resources {"1", "2048", ""} of a process for single invocations.
abbrev pub invocation_resources : Resources
invocation_resources = record { vcpus = codes "1"; memory = codes "2048" }

unfoldable pub handle_invocation :
    (ℕ → Text) → (ℕ → Text) → List ℕ → ℕ → Text → Text → Action Effect World (Unit {0})
unfolding get_application get_controlplane_process
handle_invocation decimal uuids body client app_id function_name w =
    elim (get_application app_id w) [
      | none ↦ done tt w (failed_response client 404 (codes "App unknown") ∷ [])
      | some a ↦
          in_application app_id
            (get_controlplane_process decimal uuids invocation_resources
              (invoke body client function_name))
            w
    ]

-- Every subclass of PraaSException is caught.
unfoldable pub create_application : Text → Action Effect World Bool
unfolding add_application new_application
create_application app_name w =
    catching (λ e. some false) ((do add_application (new_application app_name); pure true) w)

unfoldable pub create_process :
    {D : Type 0}
    → Doubles D
    → D
    → D
    → (ℕ → Text)
    → Text
    → Text
    → Resources
    → CreationCallback
    → Action Effect World Bool
unfolding get_application Allocation.add_process
create_process d max_memory max_vcpus uuids app_name proc_id resources callback w =
    elim (get_application app_name w) [
      | none ↦ done false w []
      | some a ↦
          (do
            in_application app_name (
                Allocation.add_process d max_memory max_vcpus uuids proc_id resources callback true)
            pure true)
            w
    ]

abbrev pub no_application : Text
no_application = codes "Application does not exist"

unfoldable pub delete_failed : Exception → Option (Option Text)
delete_failed object_does_not_exist =
    some (some (codes "Process does not exist or is not swapped out."))
delete_failed _ = none

unfoldable pub delete_process : Deployment → Text → Text → Action Effect World (Option Text)
unfolding get_application delete_failed Swapping.delete_process
delete_process deployment app_name proc_id w = elim (get_application app_name w) [
  | none ↦ done (some no_application) w []
  | some a ↦
      catching delete_failed
        ((do in_application app_name (Swapping.delete_process deployment proc_id); pure none) w)
]

unfoldable pub swap_failed : Exception → Option (Option Text)
swap_failed object_does_not_exist = some (some (codes "Process does not exist."))
swap_failed invalid_process_state =
    some (some (codes "Process cannot be swapped out (not allocated, not active)."))
swap_failed _ = none

unfoldable pub swap_process : Deployment → Text → Text → Action Effect World (Option Text)
unfolding get_application swap_failed Swapping.swap_process
swap_process deployment app_name proc_id w = elim (get_application app_name w) [
  | none ↦ done (some no_application) w []
  | some a ↦
      catching swap_failed
        ((do in_application app_name (Swapping.swap_process deployment proc_id); pure none) w)
]

-- The names are appended to the two lists of the caller, here new ones.
pub record Listing : Type 0 where
  pub error : Option Text
  pub active : List Text
  pub swapped : List Text

unfoldable pub list_processes : Text → World → Listing
unfolding get_application get_processes get_swapped_processes
list_processes app_name w = elim (get_application app_name w) [
  | none ↦ record { error = some no_application; active = []; swapped = [] }
  | some a ↦ record {
    error = none;
    active = get_processes (scope w a);
    swapped = get_swapped_processes (scope w a);
  }
]
