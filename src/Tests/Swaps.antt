-- ===== src/Tests/Swaps.antt =====
-- Processes that swap out, under a location with a short path and one with a long path.
use praas.Base.{ℕ, ◌≡◌, refl, true, Option, none, some, [], ◌∷◌, get_elem?}
use praas.Base.Dict.{Dict, find}
use praas.Base.Int.{pos}
use praas.Base.Text.{Text, codes, text_eq}
use praas.ControlPlane.Application.{Application, Scope, Deployment}
use praas.ControlPlane.Application.Swapping.{swapped_process}
use praas.ControlPlane.Application.Swaps.{swapped_process-taken}
use praas.Outcome.{done, ◌>>◌}
use praas.ControlPlane.Process.{
  Process, Status, shut_down, allocated, swapping_out, swapped_out, failure,
}
use praas.ControlPlane.Process.Life.{set_status, close_connection}
use praas.ControlPlane.Server.{handle_closure, disconnected}
use praas.ControlPlane.Server.Closing.{closure-disconnected}
use praas.ControlPlane.World.{ConnectionData, World}

abbrev local : Deployment
local = record { path = codes "/swaps" }

abbrev far : Deployment
far = record { path = codes "/scratch/praas/swaps" }

abbrev app : Text
app = codes "app"

abbrev worker : Text
worker = codes "worker"

abbrev process : Status → Option Text → Process
process status swap = record {
  name = worker;
  uuid_generator = record { value = λ n. n ∷ []; used = 0 };
  status = status;
  resources = record { vcpus = codes "1"; memory = codes "512" };
  metrics = record {
    invocations = pos 0;
    computation_time = pos 0;
    last_invocation = 0;
    last_report = 0;
  };
  connection = some 7;
  swap = swap;
  wait_for_allocation = true;
  creation_callback = none;
  application = app;
  handle = none;
  active_invocations = 0;
  invocations = [];
}

abbrev application : Dict ℕ → Dict ℕ → Application
application active swapped = record {
  name = app;
  active_processes = active;
  swapped_processes = swapped;
  controlplane_processes = [];
}

abbrev up : Scope
up = record {
  application = application ((codes "other", 3) ∷ (worker, 0) ∷ []) [];
  processes = process allocated none ∷ [];
}

-- A second process of the same name.
abbrev again : Scope
again = record {
  application = application ((worker, 1) ∷ []) ((worker, 0) ∷ []);
  processes = process swapped_out (some local.path) ∷ process swapping_out (some local.path) ∷ [];
}

swapped_process-taken_example :
    (t : Scope) × (swapped_process worker again ≡ done tt t [])
    × (find worker t.application.active_processes ≡ none)
    × (t.application.swapped_processes ≡ again.application.swapped_processes)
    × (get_elem? t.processes 1
        ≡ some (set_status swapped_out (process swapping_out (some local.path))))
unfolding find text_eq
swapped_process-taken_example =
    swapped_process-taken worker 1 0 again (process swapping_out (some local.path)) refl refl refl
      refl

abbrev context : ConnectionData
context = record { process = 0; cur_msg = []; bytes_to_read = 0 }

abbrev world : World
world = record {
  applications = (app, application [] ((worker, 0) ∷ [])) ∷ [];
  processes = process swapped_out (some local.path) ∷ [];
  server = record {
    pending_processes = [];
    processes = (worker, 7) ∷ [];
    contexts = λ c. some context;
    num_registered_processes = pos 1;
    num_connected_processes = pos 1;
    is_running = true;
  };
}

closure-disconnected_example :
    (v : World) × (b : Application) × ((do handle_closure 7; disconnected 7) world
      ≡ done tt v (shut_down 7 ∷ []))
    × (find app v.applications ≡ some b)
    × (find worker b.swapped_processes ≡ none)
    × (get_elem? v.processes 0
        ≡ some (set_status failure (close_connection (process swapped_out (some local.path)))))
unfolding find text_eq
closure-disconnected_example =
    closure-disconnected 7 world context (process swapped_out (some local.path))
      (application [] ((worker, 0) ∷ [])) refl refl refl refl refl refl refl
