-- ===== src/ControlPlane/Application/Allocation.antt =====
-- Allocation of processes by name and for single invocations: control-plane/src/application.cpp.
use praas.Base.{
  ℕ, ◌==◌, ltb, Bool, true, false, ◌||◌, Option, none, some, List, [], ◌∷◌, ◌++◌, length, get_elem?,
  if◌then◌else◌,
}
use praas.Base.Dict.{find, assign, erase}
use praas.Base.Int.{pos}
use praas.Base.Text.{Text, codes}
use praas.Outcome.{
  done, thrown, undefined, bad_optional_access, not_a_number, Action, ◌>>◌, throw, modify,
}
use praas.ControlPlane.Process.{
  Process, Resources, ProcessInstance, CreationCallback, Effect, register, allocate, allocating,
}
use praas.ControlPlane.Process.Life.{
  run_creation, created_callback, set_creation_callback, set_handle,
}
use praas.Result.{invalid_configuration, object_exists}
use praas.ControlPlane.Application.{
  Scope, Doubles, at, is_empty, with_active, with_controlplane, with_processes,
}

-- The test of a size that the user gives: a number in (0, limit].
unfoldable pub check_size : {D : Type 0} → Doubles D → D → Text → Action Effect Scope (Unit {0})
check_size d limit given s = elim (d.stod given) [
  | none ↦ thrown not_a_number s []
  | some size ↦
      if d.le size d.nought || d.lt limit size then throw invalid_configuration s else done tt s []
]

unfoldable pub new_process : Text → Text → Resources → (ℕ → Text) → Process
new_process name application resources uuids = record {
  name = name;
  uuid_generator = record { value = uuids; used = 0 };
  status = allocating;
  resources = resources;
  metrics = record {
    invocations = pos 0;
    computation_time = pos 0;
    last_invocation = 0;
    last_report = 0;
  };
  connection = none;
  swap = none;
  wait_for_allocation = false;
  creation_callback = none;
  application = application;
  handle = none;
  active_invocations = 0;
  invocations = [];
}

-- The part of add_process behind the checks.
unfoldable pub insert_process : Process → CreationCallback → Bool → Action Effect Scope (Unit {0})
unfolding with_active with_processes set_creation_callback
insert_process p callback wait s = elim (find p.name s.application.active_processes) [
  | some other ↦ throw object_exists s
  | none ↦
      (let r = length s.processes in
        done tt
          (with_active (assign p.name r s.application.active_processes)
            (with_processes (s.processes ++ set_creation_callback callback wait p ∷ []) s))
          (register r ∷ allocate r ∷ []))
]

unfoldable pub add_process :
    {D : Type 0}
    → Doubles D
    → D
    → D
    → (ℕ → Text)
    → Text
    → Resources
    → CreationCallback
    → Bool
    → Action Effect Scope (Unit {0})
unfolding check_size new_process insert_process
add_process d max_memory max_vcpus uuids name resources callback wait s =
    if is_empty name
    then throw invalid_configuration s
    else (do
      check_size d max_memory resources.memory
      check_size d max_vcpus resources.vcpus
      insert_process (new_process name s.application.name resources uuids) callback wait)
        s

-- `erase` through the iterator that add_process kept: the entry has to be there still.
unfoldable pub erase_entry : Text → ℕ → Action Effect Scope (Unit {0})
unfolding with_active
erase_entry name r s = elim (find name s.application.active_processes) [
  | none ↦ undefined
  | some r' ↦
      if r' == r
      then done tt (with_active (erase name s.application.active_processes) s) []
      else undefined
]

-- What the backend calls back for add_process.
unfoldable pub process_allocated :
    Text → ℕ → Option ProcessInstance → Option Text → Action Effect Scope (Unit {0})
unfolding erase_entry set_handle created_callback
process_allocated name r (some instance_handle) error =
    at r (do modify (set_handle instance_handle); created_callback none)
process_allocated name r none error = do erase_entry name r; at r (created_callback error)

abbrev pub max_funcs_per_process : ℕ
max_funcs_per_process = 1

unfoldable pub has_room : List Process → ℕ → Bool
has_room ps r = elim (get_elem? ps r) [
  | none ↦ false
  | some p ↦ ltb p.active_invocations max_funcs_per_process
]

unfoldable pub first_free : List Process → List ℕ → Option ℕ
unfolding has_room
first_free ps [] = none
first_free ps (r ∷ rs) = if has_room ps r then some r else first_free ps rs

-- `decimal` is fmt's print of a number.
unfoldable pub controlplane_name : (ℕ → Text) → ℕ → Text
controlplane_name decimal n = codes "controlplane-" ++ decimal n

unfoldable pub get_controlplane_process :
    (ℕ → Text) → (ℕ → Text) → Resources → CreationCallback → Action Effect Scope (Unit {0})
unfolding first_free controlplane_name new_process with_processes set_creation_callback
get_controlplane_process decimal uuids resources callback s =
    elim (first_free s.processes s.application.controlplane_processes) [
      | some r ↦ at r (run_creation callback none) s
      | none ↦
          (let r = length s.processes in
            let name = controlplane_name decimal (length s.application.controlplane_processes) in
            let p = new_process name s.application.name resources uuids in
            done tt (with_processes (s.processes ++ set_creation_callback callback true p ∷ []) s)
              (register r ∷ allocate r ∷ []))
    ]

unfoldable pub add_controlplane : ℕ → Scope → Scope
unfolding with_controlplane
add_controlplane r s = with_controlplane (s.application.controlplane_processes ++ r ∷ []) s

-- What the backend calls back for get_controlplane_process.
unfoldable pub controlplane_allocated :
    ℕ → Option ProcessInstance → Option Text → Action Effect Scope (Unit {0})
unfolding set_handle created_callback add_controlplane
controlplane_allocated r (some instance_handle) msg = do
  at r (do modify (set_handle instance_handle); created_callback none)
  modify (add_controlplane r)
controlplane_allocated r none (some msg) = at r (created_callback (some msg))
controlplane_allocated r none none = λ s. thrown bad_optional_access s []
