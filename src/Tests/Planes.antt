-- ===== src/Tests/Planes.antt =====
-- The control plane with one application and a process or two.
use praas.Base.{
  ◌⊎◌, ℕ, zero, suc, ◌+◌, ◌-◌, ◌*◌, ◌<◌, ◌≤◌, ltb, leb, ◌≡◌, refl, Bool, true, false, Option, none,
  some, List, [], ◌∷◌, ◌++◌, length, get_elem?, arith, if◌then◌else◌, map, ◌⊎◌,
}
use praas.Base.Dict.{Dict, find}
use praas.Base.Int.{pos}
use praas.Base.Text.{Text, codes}
use praas.Outcome.{undefined, done, thrown, raised, ◌>>◌, Leaves}
use praas.ControlPlane.Process.{
  Process, Status, Invocation, CreationCallback, observer, ProcessInstance, docker_instance, Effect,
  sent, answered, created, delete_swap, shut_down, Resources, allocating, allocated, swapping_out,
  swapped_out, failure,
}
use praas.ControlPlane.Process.Clients.{short_id, used_id, finish-add_invocation}
use praas.ControlPlane.Process.Creation.{reported, is_up, reported-connect}
use praas.ControlPlane.Process.Life.{connect}
use praas.ControlPlane.Process.Requests.{
  add_invocation, finish_invocation, new_invocation, accept_invocation, answer_to,
}
use praas.ControlPlane.Process.Waiting
use praas.ControlPlane.Process.Waiting.Announced.{Announces, IsClean}
use praas.ControlPlane.Process.Waiting.Submitting.{Submits, connect-Submits}
use praas.ControlPlane.Process.{Effect}
use praas.Base.{All}
use praas.ControlPlane.Process.Waiting.{sends, submitted, header, connect_lem, connect-long}
use praas.ControlPlane.Application.{Application, Scope, Deployment, Doubles}
use praas.ControlPlane.Application.Calls.{
  Surroundings, add, connection, perform, Reach, here, next, step, empty_application, Reach-perform,
}
use praas.ControlPlane.Application.Consistent.{IsConsistent}
use praas.ControlPlane.Application.Lifecycle.{Follows}
use praas.ControlPlane.Application.Refining.{Reach-Follows}
use praas.Result.{invalid_argument}

abbrev decimal_value : ℕ → Text → ℕ
decimal_value acc [] = acc
decimal_value acc (c ∷ cs) = decimal_value (acc * 10 + (c - 48)) cs

abbrev whole_numbers : Doubles ℕ
whole_numbers = record { stod = λ t. some (decimal_value 0 t); le = leb; lt = ltb; nought = 0 }

abbrev uuid : ℕ → Text
uuid n = (n + 97) ∷ codes "23e4567-e89b-12d3-a456-426614174000"

abbrev deployment : Deployment
deployment = record { path = codes "/swaps" }

abbrev surroundings : Surroundings ℕ
surroundings = record {
  doubles = whole_numbers;
  max_memory = 1024;
  max_vcpus = 1;
  uuids = uuid;
  decimal = λ n. (n + 48) ∷ [];
  deployment = deployment;
}

abbrev app : Text
app = codes "app"

abbrev worker : Text
worker = codes "worker"

abbrev small : Resources
small = record { vcpus = codes "1"; memory = codes "512" }

-- A process that allocates and is waited for by an observer.
abbrev fresh_worker : Process
fresh_worker = record {
  name = worker;
  uuid_generator = record { value = uuid; used = 0 };
  status = allocating;
  resources = small;
  metrics = record {
    invocations = pos 0;
    computation_time = pos 0;
    last_invocation = 0;
    last_report = 0;
  };
  connection = none;
  swap = none;
  wait_for_allocation = true;
  creation_callback = some (observer 5);
  application = app;
  handle = none;
  active_invocations = 0;
  invocations = [];
}

abbrev added : Scope
added = record {
  application = record {
    name = app;
    active_processes = (worker, 0) ∷ [];
    swapped_processes = [];
    controlplane_processes = [];
  };
  processes = fresh_worker ∷ [];
}

added-Reach : Reach surroundings (empty_application app) added
unfolding perform praas.ControlPlane.Application.Allocation.add_process find praas.Base.Dict.assign
added-Reach = next here (step (add worker small (observer 5) true) tt refl)

Reach-perform_example :
    IsConsistent added
    × (Leaves IsConsistent (perform surroundings (connection 0 7) added)
        ⊎ (⊥ × (perform surroundings (connection 0 7) added ≡ undefined)))
Reach-perform_example =
    Reach-perform surroundings app (connection 0 7) added-Reach (fresh_worker, refl)

Reach-Follows_example :
    Leaves (Follows added) (perform surroundings (connection 0 7) added)
    ⊎ (⊥ × (perform surroundings (connection 0 7) added ≡ undefined))
Reach-Follows_example =
    Reach-Follows surroundings app (connection 0 7) added-Reach (fresh_worker, refl)

abbrev request : ℕ → Text → Invocation
request client name = record {
  body = 1 ∷ 2 ∷ 3 ∷ [];
  client = client;
  function_name = name;
  invocation_id = uuid client;
  submitted = false;
}

abbrev with_requests : List Invocation → Process
with_requests is = record fresh_worker { invocations = is; active_invocations = length is }

abbrev two : List Invocation
two = request 0 (codes "f") ∷ request 1 (codes "g") ∷ []

abbrev container : ProcessInstance
container = docker_instance (codes "10.0.0.2") 8000 (codes "c0ffee")

abbrev reported_worker : Process
reported_worker = record (with_requests two) { handle = some container }

two-IsClean : All IsClean two
two-IsClean = ground arith

connect-Submits_example :
    (out : List Effect) × (connect 7 reported_worker
      ≡ done tt
          (record reported_worker {
            connection = some 7;
            status = allocated;
            invocations = map submitted two;
            creation_callback = none;
          })
          (out ++ created 5 ∷ []))
    × Submits 7 two out
connect-Submits_example =
    connect-Submits 7 reported_worker none (created 5 ∷ []) refl (ground arith) two-IsClean
      (Waiting.reported (codes "10.0.0.2") (codes "c0ffee") 8000 5 refl refl)

abbrev up_worker : Process
up_worker = record fresh_worker { status = allocated; connection = some 7 }

abbrev long_name : Text
long_name = codes "a_function_name_of_more_than_32_bytes"

abbrev three : List Invocation
three = request 0 (codes "f") ∷ request 1 long_name ∷ request 2 (codes "g") ∷ []

connect-long_example :
    connect 7 (with_requests three)
    ≡ thrown
        (raised invalid_argument)
        (record (with_requests three) {
          connection = some 7;
          status = allocated;
          invocations =
              map submitted (request 0 (codes "f") ∷ [])
              ++ request 1 long_name ∷ request 2 (codes "g") ∷ [];
        })
        (sends 7 (request 0 (codes "f") ∷ []))
connect-long_example =
    connect-long 7 (with_requests three) (request 0 (codes "f") ∷ []) (request 2 (codes "g") ∷ [])
      (request 1 long_name) refl refl (ground arith) refl (omega arith)

abbrev asked : Invocation
asked = new_invocation (4 ∷ 5 ∷ []) 3 (codes "f") up_worker

asked-IsClean : IsClean asked
unfolding new_invocation
asked-IsClean = ground arith

finish-add_invocation_example :
    (message : List ℕ) × ((do
      add_invocation (4 ∷ 5 ∷ []) 3 (codes "f")
      finish_invocation (short_id asked) (pos 0) (6 ∷ []))
        up_worker
      ≡ done tt (used_id up_worker) (
          sent 7 message
          ∷ sent 7 (4 ∷ 5 ∷ [])
          ∷ answered 3 (record {
            function = codes "f";
            invocation_id = short_id asked;
            return_code = pos 0;
            result = 6 ∷ [];
          })
          ∷ []))
    × Announces asked message
unfolding new_invocation praas.ControlPlane.Process.Requests.find_invocation
finish-add_invocation_example =
    finish-add_invocation 7 (4 ∷ 5 ∷ []) 3 (codes "f") (pos 0) (6 ∷ []) up_worker refl refl
      asked-IsClean refl

reported-connect_example :
    ((q : Process) × (reported container fresh_worker ≡ done tt q [])
      × (connect 7 q ≡ done tt (is_up container 7 fresh_worker) (created 5 ∷ [])))
    × ((q : Process) × (connect 7 fresh_worker ≡ done tt q [])
        × (reported container q ≡ done tt (is_up container 7 fresh_worker) (created 5 ∷ [])))
reported-connect_example =
    reported-connect (codes "10.0.0.2") (codes "c0ffee") 8000 7 5 fresh_worker refl refl refl refl
      refl
