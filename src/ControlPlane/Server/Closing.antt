-- ===== src/ControlPlane/Server/Closing.antt =====
-- A process that closes its connection itself: the closure message, and then the lost connection.
use praas.Base.{ℕ, ◌≡◌, refl, true, none, some, [], ◌∷◌, arith, get_elem?, get_elem?-set}
use praas.Base.Dict.{find, erase, find-assign_self, find-erase_self}
use praas.Outcome.{done, ◌>>◌}
use praas.ControlPlane.Process.{Process, shut_down, failure, is_swapped_out}
use praas.ControlPlane.Process.Life.{close_connection, set_status}
use praas.ControlPlane.Application.{Application, Scope, with_swapped}
use praas.ControlPlane.Application.Consistent.{replaced}
use praas.ControlPlane.Application.Swapping.{closed_process}
use praas.ControlPlane.Application.Swaps.{closed_process_lem, closed_process-closed}
use praas.ControlPlane.Server.{
  decrement, with_server, close_process, handle_disconnection, handle_closure, disconnected,
}
use praas.ControlPlane.World.{ConnectionData, World, scope, from_scope}

-- The world in which a connection less is counted.
abbrev dropped : World → World
dropped w = record w {
  server = record w.server {
    num_connected_processes = decrement w.server.num_connected_processes;
    num_registered_processes = decrement w.server.num_registered_processes;
  };
}

handle_disconnection_lem :
    (conn : ℕ) (w : World) (context : ConnectionData) (p : Process) (a : Application) (t : Scope)
    → w.server.contexts conn ≡ some context
    → get_elem? w.processes context.process ≡ some p
    → find p.application w.applications ≡ some a
    → closed_process context.process (scope w a) ≡ done tt t []
    → handle_disconnection conn w ≡ done tt (from_scope (dropped w) p.application t) []
unfolding handle_disconnection close_process with_server
handle_disconnection_lem conn w context p a t known here there e = ground (arith, e)

module _ (conn : ℕ) (w : World) (context : ConnectionData) (p : Process) (a : Application) where
  -- A process that is swapped out sends a closure message and its connection ends: the server tells
  -- its application twice, the first time the process is closed, and the second time it is taken
  -- for a failed one and its name is dropped from the swapped processes.
  pub closure-disconnected :
      w.server.is_running ≡ true
      → w.server.contexts conn ≡ some context
      → get_elem? w.processes context.process ≡ some p
      → find p.application w.applications ≡ some a
      → find p.name a.active_processes ≡ none
      → find p.name a.swapped_processes ≡ some context.process
      → is_swapped_out p.status ≡ true
      → (v : World) × (b : Application) × ((do handle_closure conn; disconnected conn) w
          ≡ done tt v (shut_down conn ∷ []))
        × (find p.application v.applications ≡ some b)
        × (find p.name b.swapped_processes ≡ none)
        × (get_elem? v.processes context.process ≡ some (set_status failure (close_connection p)))
  unfolding handle_closure disconnected close_connection with_swapped
  closure-disconnected running known here there free placed out =
      let r = context.process in
      let q = close_connection p in
      let s1 = replaced (scope w a) r q in
      let w1 = from_scope (dropped w) p.application s1 in
      let s2 =
        with_swapped (erase p.name a.swapped_processes) (replaced s1 r (set_status failure q)) in
      let here1 : get_elem? w1.processes r ≡ some q =
        ground (arith, get_elem?-set w.processes r r q p here) in
      let there1 : find p.application w1.applications ≡ some s1.application =
        find-assign_self p.application s1.application w.applications in
      let e1 =
        handle_disconnection_lem conn w context p a s1 known here there
          (closed_process_lem r (scope w a) p here out) in
      let e2 =
        handle_disconnection_lem conn w1 context q s1.application s2 known here1 there1
          (closed_process-closed r s1 q here1 refl free) in
      (
        from_scope (dropped w1) p.application s2,
        s2.application,
        ground (arith, e1, e2),
        find-assign_self p.application s2.application w1.applications,
        find-erase_self p.name a.swapped_processes,
        ground (arith, get_elem?-set w1.processes r r (set_status failure q) q here1),
      )
