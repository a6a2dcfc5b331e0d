-- ===== src/ControlPlane/Server.antt =====
-- The TCP server of the control plane: control-plane/src/tcpserver.cpp. Connections are known by
-- numbers. A call of the event loop is one step, and the buffer of the connection is a parameter.
use praas.Base.{
  ℕ, zero, suc, ◌==◌, ltb, leb, Bool, true, false, ◌&&◌, Option, none, some, List, [], ◌∷◌, take,
  get_elem?, if◌then◌else◌,
}
use praas.Base.Dict.{Dict, find, assign, erase}
use praas.Base.Int.{ℤ, pos, negsuc, to_word}
use praas.Base.Text.{Text}
use praas.ControlPlane.Application.Swapping.{insert_new, swapped_process, closed_process}
use praas.Outcome.{
  Outcome, done, thrown, undefined, Action, ◌>>=◌, ◌>>◌, after, continue, throw, pure, lift, modify,
  effect, onto,
}
use praas.ControlPlane.Process.{Process, Effect, shut_down}
use praas.ControlPlane.Process.Life.{connect, update_metrics}
use praas.ControlPlane.Process.Requests.{finish_invocation}
use praas.ControlPlane.World.{ConnectionData, Server, World, on_process, in_application}
use praas.Message.Header.{buf_size, total_length}
use praas.Message.DataPlaneMetrics
use praas.Message.DataPlaneMetrics.{DataPlaneMetrics}
use praas.Message.InvocationResult
use praas.Message.InvocationResult.{InvocationResult}
use praas.Message.Parser
use praas.Message.Parser.{MessageVariants, parse}
use praas.Message.ProcessConnection.{ProcessConnection, process_name}
use praas.Result.{object_exists}
pub mod Messages
pub mod Closing
pub mod Finishing
pub mod Results

abbrev pub increment : ℤ → ℤ
increment (pos n) = pos (suc n)
increment (negsuc zero) = pos 0
increment (negsuc (suc n)) = negsuc n

abbrev pub decrement : ℤ → ℤ
decrement (pos zero) = negsuc 0
decrement (pos (suc n)) = pos n
decrement (negsuc n) = negsuc (suc n)

unfoldable pub with_server : (Server → Server) → World → World
with_server f w = record w { server = f w.server }

unfoldable pub set_context : ℕ → ConnectionData → Server → Server
set_context conn data' s = record s {
  contexts = λ c. if c == conn then some data' else s.contexts c;
}

-- What the event loop runs for add_process.
unfoldable pub add_process : ℕ → Text → Action Effect World (Unit {0})
unfolding with_server
add_process r name w = elim (find name w.server.pending_processes) [
  | some other ↦ throw object_exists w
  | none ↦
      done tt
        (with_server (λ s. record s { pending_processes = assign name r s.pending_processes }) w) []
]

-- `_logger->error("Not implemented!")`
unfoldable pub remove_process : ℕ → World → World
remove_process r w = w

-- The state of a server that has found the process of a new connection.
unfoldable pub registered : ℕ → Text → ℕ → Text → Server → Server
unfolding set_context insert_new
registered conn announced r name s =
    set_context conn (record { process = r; cur_msg = []; bytes_to_read = 0 })
      (record s {
        pending_processes = erase announced s.pending_processes;
        processes = insert_new name conn s.processes;
      })

unfoldable pub handle_connection : ℕ → ProcessConnection → Action Effect World (Unit {0})
unfolding with_server registered
handle_connection conn msg w = elim (find (process_name msg) w.server.pending_processes) [
  | none ↦ done tt w []
  | some r ↦ elim (get_elem? w.processes r) [
    | none ↦ undefined
    | some p ↦
        (do
          modify (with_server (registered conn (process_name msg) r p.name))
          on_process r (connect conn)
          modify (
              with_server (λ s. record s {
                num_registered_processes = increment s.num_registered_processes;
              })))
          w
  ]
]

-- The application of a process is told that its connection is closed.
unfoldable pub close_process : ℕ → Action Effect World (Unit {0})
unfolding closed_process
close_process r w = elim (get_elem? w.processes r) [
  | none ↦ undefined
  | some p ↦ in_application p.application (closed_process r) w
]

unfoldable pub handle_disconnection : ℕ → Action Effect World (Unit {0})
unfolding close_process with_server
handle_disconnection conn w =
    (do
      modify (
          with_server
            (λ s. record s { num_connected_processes = decrement s.num_connected_processes }))
      λ v. elim (v.server.contexts conn) [
        | none ↦ done tt v []
        | some context ↦
            (do
              modify (
                  with_server (λ s. record s {
                    num_registered_processes = decrement s.num_registered_processes;
                  }))
              close_process context.process)
              v
      ])
      w

unfoldable pub handle_closure : ℕ → Action Effect World (Unit {0})
unfolding handle_disconnection
handle_closure conn = do handle_disconnection conn; effect (shut_down conn ∷ [])

-- The connection callback of the constructor, for a new connection and a lost one.
unfoldable pub connected : World → World
unfolding with_server
connected =
    with_server (λ s. record s { num_connected_processes = increment s.num_connected_processes })

unfoldable pub disconnected : ℕ → Action Effect World (Unit {0})
unfolding handle_disconnection
disconnected conn w = if w.server.is_running then handle_disconnection conn w else done tt w []

-- `now` is the reading of the clock.
unfoldable pub handle_data_metrics : ℕ → ℕ → DataPlaneMetrics → Action Effect World (Unit {0})
unfolding update_metrics
handle_data_metrics now r msg = on_process r (
    modify (
      update_metrics now (DataPlaneMetrics.computation_time msg) (DataPlaneMetrics.invocations msg)
        (DataPlaneMetrics.last_invocation_timestamp msg)))

unfoldable pub handle_swap : ℕ → Action Effect World (Unit {0})
unfolding swapped_process
handle_swap r w = elim (get_elem? w.processes r) [
  | none ↦ undefined
  | some p ↦ in_application p.application (swapped_process p.name) w
]
