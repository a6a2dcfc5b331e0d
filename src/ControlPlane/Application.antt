-- ===== src/ControlPlane/Application.antt =====
-- Application of control-plane/include/praas/control-plane/application.hpp and
-- control-plane/src/application.cpp, with the local deployment of control-plane/src/deployment.cpp.
-- Processes are shared objects: they stand in a store, and the application and the server refer to
-- them by their places there, which are never given up. The mutexes are left out: an operation is
-- one step. What the backend and the event loop do later for an operation is an effect of it here,
-- and the function that they call back is an operation of its own.
use praas.Base.{
  ℕ, ◌+◌, ◌==◌, ltb, Bool, true, false, ◌||◌, not, Option, none, some, List, [], ◌∷◌, ◌++◌, length,
  get_elem?, set, if◌then◌else◌,
}
use praas.Base.Dict.{Dict, find, assign, erase}
use praas.Base.Int.{pos}
use praas.Base.Text.{Text, codes}
use praas.Outcome.{
  Outcome, done, thrown, undefined, bad_optional_access, not_a_number, Action, ◌>>=◌, ◌>>◌, after,
  continue, throw, modify, effect, onto,
}
use praas.ControlPlane.Process.{
  Process, Resources, UuidGenerator, ProcessInstance, CreationCallback, Effect, register, allocate,
  delete_swap, Status, allocating, swapping_out, swapped_out, failure, is_allocated,
  is_swapping_out, is_swapped_out,
}
use praas.ControlPlane.Process.Life.{
  run_creation, created_callback, set_creation_callback, set_handle, set_status, send_swap,
  close_connection,
}
use praas.Result.{
  invalid_configuration, object_exists, object_does_not_exist, invalid_process_state,
}
pub mod Allocation
pub mod Swapping
pub mod Consistent
pub mod Keeping
pub mod Allocating
pub mod OnDemand
pub mod Calls
pub mod Lifecycle
pub mod Stepping
pub mod Growing
pub mod Refining
pub mod Swaps

pub record Application : Type 0 where
  pub name : Text
  pub active_processes : Dict ℕ
  pub swapped_processes : Dict ℕ
  pub controlplane_processes : List ℕ

-- An application with the objects that it can reach.
pub record Scope : Type 0 where
  pub application : Application
  pub processes : List Process

-- deployment::Local, whose location is the same path for every process.
pub record Deployment : Type 0 where
  pub path : Text

unfoldable pub get_location : Deployment → Text → Text
get_location d process_name = d.path

-- Doubles as the code uses them: `std::stod` and the comparisons.
pub record Doubles (D : Type 0) : Type 0 where
  pub stod : Text → Option D
  pub le : D → D → Bool
  pub lt : D → D → Bool
  pub nought : D

-- A method of the process at a place of the store.
abbrev pub at : {A : Type 0} → ℕ → Action Effect Process A → Action Effect Scope A
at r method s = elim (get_elem? s.processes r) [
  | none ↦ undefined
  | some p ↦ onto (λ q. record s { processes = set s.processes r q }) (method p)
]

abbrev pub is_empty : Text → Bool
is_empty [] = true
is_empty (c ∷ cs) = false

unfoldable pub with_active : Dict ℕ → Scope → Scope
with_active d s = record s { application = record s.application { active_processes = d } }

unfoldable pub with_swapped : Dict ℕ → Scope → Scope
with_swapped d s = record s { application = record s.application { swapped_processes = d } }

unfoldable pub with_controlplane : List ℕ → Scope → Scope
with_controlplane l s = record s {
  application = record s.application { controlplane_processes = l };
}

unfoldable pub with_processes : List Process → Scope → Scope
with_processes ps s = record s { processes = ps }

-- get_process and get_swapped_process.
unfoldable pub get_process : Text → Action Effect Scope ℕ
get_process name s = elim (find name s.application.active_processes) [
  | some r ↦ done r s []
  | none ↦ throw object_does_not_exist s
]

unfoldable pub get_swapped_process : Text → Action Effect Scope ℕ
get_swapped_process name s = elim (find name s.application.swapped_processes) [
  | some r ↦ done r s []
  | none ↦ throw object_does_not_exist s
]

unfoldable pub names : List Process → Dict ℕ → List Text
names ps [] = []
names ps ((key, r) ∷ d) = elim (get_elem? ps r) [ none ↦ names ps d | some p ↦ p.name ∷ names ps d ]

unfoldable pub get_processes : Scope → List Text
unfolding names
get_processes s = names s.processes s.application.active_processes

unfoldable pub get_swapped_processes : Scope → List Text
unfolding names
get_swapped_processes s = names s.processes s.application.swapped_processes
