-- ===== src/ControlPlane/Application/Swaps.antt =====
-- A process that is swapped out and deleted, and the ways in which swapping goes wrong.
use praas.Base.{
  ℕ, ◌<◌, ◌≡◌, refl, true, false, none, some, List, [], length, arith, get_elem?, get_elem?-set,
}
use praas.Base.Dict.{Dict, find, erase, find-erase_self}
use praas.Base.Text.{Text}
use praas.Outcome.{done, thrown, raised, ◌>>◌}
use praas.ControlPlane.Process.{
  Process, swapping_out, swapped_out, closed, failure, is_allocated, is_swapping_out,
  is_swapped_out,
}
use praas.ControlPlane.Process.Life.{send_swap, set_status, close_connection}
use praas.ControlPlane.Application.{
  Scope, Deployment, get_location, is_empty, with_active, with_swapped,
}
use praas.ControlPlane.Application.Swapping.{
  swap_out, swap_process, confirm_swap, move_to_swapped, swapped_process, close, drop_name,
  closed_process,
}
use praas.ControlPlane.Application.Consistent.{replaced}
use praas.ControlPlane.Application.Keeping.{insert_new-taken}
use praas.Message.SwapRequest
use praas.Message.SwapRequest.{SwapRequest, set_path}
use praas.Result.{invalid_argument, invalid_process_state}
use praas.Wire.Names.{put_name}

-- The request that is sent for a path.
abbrev pub swap_message : Text → List ℕ
swap_message path = put_name 16 6 path SwapRequest.fresh.buf

abbrev pub swapping : Text → Process → Process
swapping path p = record p { status = swapping_out; swap = some path }

-- A path of more than 16 bytes.
swap_out-long :
    (path : Text) (conn : ℕ) (p : Process)
    → is_allocated p.status ≡ true
    → p.connection ≡ some conn
    → 16 < length path
    → swap_out path p ≡ thrown (raised invalid_argument) (swapping path p) []
unfolding swap_out send_swap set_path
swap_out-long path conn p up c long = ground arith

swap_out-again :
    (path : Text) (p : Process)
    → is_allocated p.status ≡ false
    → swap_out path p ≡ thrown (raised invalid_process_state) p []
unfolding swap_out
swap_out-again path p e = ground arith

module _ (d : Deployment) (name : Text) (s : Scope) (r : ℕ) (p : Process) where
  -- With a location whose path is longer than 16 bytes no process can be swapped out: the request is
  -- not sent, the call throws, and the process is left as one that swaps out, so that the next call
  -- for it is refused.
  swap_process-long :
      (conn : ℕ)
      → is_empty name ≡ false
      → find name s.application.active_processes ≡ some r
      → get_elem? s.processes r ≡ some p
      → is_allocated p.status ≡ true
      → p.connection ≡ some conn
      → 16 < length d.path
      → (swap_process d name s
          ≡ thrown (raised invalid_argument) (replaced s r (swapping d.path p)) [])
        × (swap_process d name (replaced s r (swapping d.path p))
            ≡ thrown
                (raised invalid_process_state)
                (replaced (replaced s r (swapping d.path p)) r (swapping d.path p))
                [])
  unfolding swap_process get_location
  swap_process-long conn n e here up c long = (
    ground (arith, swap_out-long d.path conn p up c long),
    ground (
      arith,
      swap_out-again d.path (swapping d.path p) refl,
      get_elem?-set s.processes r r (swapping d.path p) p here,
    ),
  )

swapped_process_lem :
    (name : Text) (r : ℕ) (s : Scope) (p : Process)
    → find name s.application.active_processes ≡ some r
    → get_elem? s.processes r ≡ some p
    → is_swapping_out p.status ≡ true
    → swapped_process name s
      ≡ done tt (move_to_swapped name r (replaced s r (set_status swapped_out p))) []
unfolding swapped_process confirm_swap
swapped_process_lem name r s p e here out = ground arith

pub closed_process_lem :
    (r : ℕ) (s : Scope) (p : Process)
    → get_elem? s.processes r ≡ some p
    → is_swapped_out p.status ≡ true
    → closed_process r s ≡ done tt (replaced s r (close_connection p)) []
unfolding closed_process close
closed_process_lem r s p here out = ground arith

-- A process when it is deleted.
abbrev pub retired : Text → Process → Process
retired path p = record p { status = closed; connection = none; swap = some path }

module _ (d : Deployment) (name : Text) (r conn : ℕ) (s : Scope) (p : Process) where
  abbrev confirmed : Scope
  confirmed =
      move_to_swapped name r
        (replaced (replaced s r (swapping d.path p)) r (set_status swapped_out (swapping d.path p)))

  abbrev shut : Scope
  shut = replaced confirmed r (close_connection (set_status swapped_out (swapping d.path p)))

-- A swap is confirmed for a process whose name a swapped process has already: the call returns, the
-- swapped processes stay as they are, and the process that swapped out is in neither table.
pub swapped_process-taken :
    (name : Text) (r r' : ℕ) (s : Scope) (p : Process)
    → find name s.application.active_processes ≡ some r
    → find name s.application.swapped_processes ≡ some r'
    → get_elem? s.processes r ≡ some p
    → is_swapping_out p.status ≡ true
    → (t : Scope) × (swapped_process name s ≡ done tt t [])
      × (find name t.application.active_processes ≡ none)
      × (t.application.swapped_processes ≡ s.application.swapped_processes)
      × (get_elem? t.processes r ≡ some (set_status swapped_out p))
unfolding move_to_swapped with_active with_swapped
swapped_process-taken name r r' s p e taken here out = (
  move_to_swapped name r (replaced s r (set_status swapped_out p)),
  swapped_process_lem name r s p e here out,
  find-erase_self name s.application.active_processes,
  insert_new-taken name r r' s.application.swapped_processes taken,
  ground (arith, get_elem?-set s.processes r r (set_status swapped_out p) p here),
)

-- What a second report of a closed connection does to a process that was swapped out and closed.
pub closed_process-closed :
    (r : ℕ) (s : Scope) (p : Process)
    → get_elem? s.processes r ≡ some p
    → p.status ≡ closed
    → find p.name s.application.active_processes ≡ none
    → closed_process r s
      ≡ done tt
          (with_swapped
            (erase p.name s.application.swapped_processes)
            (replaced s r (set_status failure p)))
          []
unfolding closed_process close drop_name
closed_process-closed r s p here c free = ground arith
