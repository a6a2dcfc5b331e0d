-- ===== src/ControlPlane/World.antt =====
-- The state of the control plane: the applications of control-plane/src/resources.cpp, all processes,
-- and the tables of the TCP server of control-plane/include/praas/control-plane/tcpserver.hpp.
use praas.Base.{ℕ, Bool, Option, none, some, List, [], get_elem?, set, if◌then◌else◌}
use praas.Base.Dict.{Dict, find, assign, erase}
use praas.Base.Int.{ℤ}
use praas.Base.Text.{Text}
use praas.ControlPlane.Application.{Application, Scope, is_empty}
use praas.Outcome.{done, undefined, Action, throw, onto}
use praas.ControlPlane.Process.{Process, Effect}
use praas.Result.{invalid_configuration, object_exists, object_does_not_exist}

-- The context of a connection: its process, and the message whose payload has not come whole yet.
pub record ConnectionData : Type 0 where
  pub process : ℕ
  pub cur_msg : List ℕ
  pub bytes_to_read : ℕ

-- `processes` and the connections share the contexts, so the table holds the connections' numbers.
pub record Server : Type 0 where
  pub pending_processes : Dict ℕ
  pub processes : Dict ℕ
  pub contexts : ℕ → Option ConnectionData
  pub num_registered_processes : ℤ
  pub num_connected_processes : ℤ
  pub is_running : Bool

pub record World : Type 0 where
  pub applications : Dict Application
  pub processes : List Process
  pub server : Server

-- A method of a process.
abbrev pub on_process : {A : Type 0} → ℕ → Action Effect Process A → Action Effect World A
on_process r method w = elim (get_elem? w.processes r) [
  | none ↦ undefined
  | some p ↦ onto (λ q. record w { processes = set w.processes r q }) (method p)
]

abbrev pub scope : World → Application → Scope
scope w a = record { application = a; processes = w.processes }

abbrev pub from_scope : World → Text → Scope → World
from_scope w name s = record w {
  applications = assign name s.application w.applications;
  processes = s.processes;
}

-- A method of an application, through a pointer to it: one that was deleted is not there any more.
abbrev pub in_application : {A : Type 0} → Text → Action Effect Scope A → Action Effect World A
in_application name method w = elim (find name w.applications) [
  | none ↦ undefined
  | some a ↦ onto (from_scope w name) (method (scope w a))
]

unfoldable pub new_application : Text → Application
new_application name = record {
  name = name;
  active_processes = [];
  swapped_processes = [];
  controlplane_processes = [];
}

unfoldable pub add_application : Application → Action Effect World (Unit {0})
add_application application w =
    if is_empty application.name
    then throw invalid_configuration w
    else elim (find application.name w.applications) [
      | none ↦
          done tt (record w { applications = assign application.name application w.applications })
            []
      | some other ↦ throw object_exists w
    ]

unfoldable pub get_application : Text → World → Option Application
get_application name w = find name w.applications

unfoldable pub delete_application : Text → Action Effect World (Unit {0})
delete_application name w =
    if is_empty name then throw invalid_configuration w else elim (find name w.applications) [
      | none ↦ throw object_does_not_exist w
      | some a ↦ done tt (record w { applications = erase name w.applications }) []
    ]
