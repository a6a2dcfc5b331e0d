-- ===== src/ControlPlane/Application/Swapping.antt =====
-- Swapping, closing and deleting of processes: control-plane/src/application.cpp.
use praas.Base.{ℕ, none, some, [], ◌∷◌, get_elem?, set, if◌then◌else◌}
use praas.Base.Dict.{Dict, find, assign, erase}
use praas.Base.Text.{Text}
use praas.Outcome.{done, undefined, Action, ◌>>◌, throw, modify}
use praas.ControlPlane.Process.{
  Process, Effect, delete_swap, swapping_out, swapped_out, failure, is_allocated, is_swapping_out,
  is_swapped_out,
}
use praas.ControlPlane.Process.Life.{set_status, send_swap, close_connection}
use praas.Result.{invalid_configuration, object_does_not_exist, invalid_process_state}
use praas.ControlPlane.Application.{
  Scope, Deployment, get_location, at, is_empty, with_active, with_swapped,
}

-- The part of swap_process on the process itself.
unfoldable pub swap_out : Text → Action Effect Process (Unit {0})
unfolding send_swap
swap_out location p =
    if is_allocated p.status
    then send_swap (record p { status = swapping_out; swap = some location })
    else throw invalid_process_state p

unfoldable pub swap_process : Deployment → Text → Action Effect Scope (Unit {0})
unfolding get_location swap_out
swap_process deployment process_name s =
    if is_empty process_name
    then throw invalid_configuration s
    else elim (find process_name s.application.active_processes) [
      | none ↦ throw object_does_not_exist s
      | some r ↦ at r (swap_out (get_location deployment process_name)) s
    ]

-- `insert` of a node does nothing where the key is taken.
unfoldable pub insert_new : Text → ℕ → Dict ℕ → Dict ℕ
insert_new k r d = elim (find k d) [ none ↦ assign k r d | some other ↦ d ]

unfoldable pub confirm_swap : Action Effect Process (Unit {0})
unfolding set_status
confirm_swap p =
    if is_swapping_out p.status
    then done tt (set_status swapped_out p) []
    else throw invalid_process_state p

unfoldable pub move_to_swapped : Text → ℕ → Scope → Scope
unfolding with_active with_swapped insert_new
move_to_swapped name r s =
    with_swapped (insert_new name r s.application.swapped_processes)
      (with_active (erase name s.application.active_processes) s)

unfoldable pub swapped_process : Text → Action Effect Scope (Unit {0})
unfolding confirm_swap move_to_swapped
swapped_process process_name s = elim (find process_name s.application.active_processes) [
  | none ↦ throw object_does_not_exist s
  | some r ↦ (do at r confirm_swap; modify (move_to_swapped process_name r)) s
]

-- The name leaves the active processes, or else the swapped ones.
unfoldable pub drop_name : Text → Scope → Scope
unfolding with_active with_swapped
drop_name name s = elim (find name s.application.active_processes) [
  | some r ↦ with_active (erase name s.application.active_processes) s
  | none ↦ with_swapped (erase name s.application.swapped_processes) s
]

-- The status after a closed connection, and whether the process is dropped.
unfoldable pub close : Process → Process
unfolding close_connection set_status
close p = if is_swapped_out p.status then close_connection p else set_status failure p

unfoldable pub closed_process : ℕ → Action Effect Scope (Unit {0})
unfolding close drop_name
closed_process r s = elim (get_elem? s.processes r) [
  | none ↦ undefined
  | some p ↦
      (let t = record s { processes = set s.processes r (close p) } in
        done tt (if is_swapped_out p.status then t else drop_name p.name t) [])
]

unfoldable pub delete_process : Deployment → Text → Action Effect Scope (Unit {0})
unfolding with_swapped
delete_process deployment process_name s =
    if is_empty process_name
    then throw invalid_configuration s
    else elim (find process_name s.application.swapped_processes) [
      | none ↦ throw object_does_not_exist s
      | some r ↦ elim (get_elem? s.processes r) [
        | none ↦ undefined
        | some p ↦ elim p.swap [
          | none ↦ undefined
          | some location ↦
              done tt (with_swapped (erase process_name s.application.swapped_processes) s)
                (delete_swap location ∷ [])
        ]
      ]
    ]
