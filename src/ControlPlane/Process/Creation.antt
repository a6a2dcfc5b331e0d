-- ===== src/ControlPlane/Process/Creation.antt =====
-- The allocation of a process ends when the backend has reported and the connection is up, in
-- whatever order.
use praas.Base.{ℕ, ◌≡◌, true, none, some, [], ◌∷◌, arith}
use praas.Base.Text.{Text}
use praas.Outcome.{done, Action, ◌>>◌, modify}
use praas.ControlPlane.Process.{
  Process, Effect, created, allocated, is_allocating, observer, ProcessInstance, docker_instance,
}
use praas.ControlPlane.Process.Requests.{send_waiting}
use praas.ControlPlane.Process.Life.{connect, set_handle, created_callback}

-- The lambda of add_process for an instance that the backend returns.
abbrev pub reported : ProcessInstance → Action Effect Process (Unit {0})
reported i = do modify (set_handle i); created_callback none

-- What both orders lead to.
abbrev pub is_up : ProcessInstance → ℕ → Process → Process
is_up i conn p = record p {
  handle = some i;
  connection = some conn;
  status = allocated;
  creation_callback = none;
}

-- A process without waiting invocations that an observer waits for until it is allocated: whether
-- the Docker backend reports first or the connection comes first, the first of them tells nobody,
-- the second tells the observer, once, and the process is left the same. (The process waits for its
-- allocation and has no instance yet.)
pub reported-connect :
    (ip container : Text) (port conn n : ℕ) (p : Process)
    → is_allocating p.status ≡ true
    → p.invocations ≡ []
    → p.handle ≡ none
    → p.wait_for_allocation ≡ true
    → p.creation_callback ≡ some (observer n)
    → let i = docker_instance ip port container in
      ((q : Process) × (reported i p ≡ done tt q [])
        × (connect conn q ≡ done tt (is_up i conn p) (created n ∷ [])))
      × ((q : Process) × (connect conn p ≡ done tt q [])
          × (reported i q ≡ done tt (is_up i conn p) (created n ∷ [])))
unfolding connect set_handle created_callback send_waiting
reported-connect ip container port conn n p a e h w c = (
  (record p { handle = some (docker_instance ip port container) }, ground arith, ground arith),
  (record p { connection = some conn; status = allocated }, ground arith, ground arith),
)
