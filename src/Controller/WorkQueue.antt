-- ===== src/Controller/WorkQueue.antt =====
-- WorkQueue and Invocation of process/controller/src/workers.cpp: the invocations that wait for a
-- worker and those that run. A pointer of `_pending_invocations` into the map is the key of its node.
-- The clock readings of an invocation, which are only logged, are left out.
pub mod Consistent
pub mod Adding
pub mod Serving
use praas.Base.{
  ℕ, Bool, true, false, Option, none, some, List, [], ◌∷◌, ◌++◌, ◌||◌, not, if◌then◌else◌,
}
use praas.Base.Text.{Text, codes}
use praas.Base.Dict.{Dict, find, assign, erase}
use praas.Controller.Mailbox.{Payload}
use praas.Ipc.InvocationRequest
use praas.Ipc.InvocationRequest.{InvocationRequest}
use praas.Result.{Result, ok, err, undefined, ◌>>=◌}

pub data RemoteType : Type 0 where
  data_plane : RemoteType
  control_plane : RemoteType
  process : RemoteType
  local_function : RemoteType

pub record InvocationSource : Type 0 where
  pub source : RemoteType
  pub remote_process : Option Text

unfoldable pub from_process : Text → InvocationSource
from_process id = record { source = process; remote_process = some id }

unfoldable pub from_local : InvocationSource
from_local = record { source = local_function; remote_process = none }

unfoldable pub from_source : RemoteType → InvocationSource
from_source source = record { source = source; remote_process = none }

unfoldable pub is_remote : InvocationSource → Bool
is_remote s = elim s.source [ local_function ↦ false | _ ↦ true ]

-- `Trigger::parse` accepts direct triggers only.
pub data Trigger : Type 0 where
  direct : Text → Trigger

-- The map of Functions, from a function's name to its trigger.
abbrev pub Functions : Type 0
Functions = Dict Trigger

pub record Invocation : Type 0 where
  pub req : InvocationRequest
  pub payload : List Payload
  pub trigger : Trigger
  pub active : Bool
  pub source : InvocationSource

pub record WorkQueue : Type 0 where
  pub pending : List Text
  pub invocations : Dict Invocation

abbrev pub empty_queue : WorkQueue
empty_queue = record { pending = []; invocations = [] }

-- The constructor of Invocation.
unfoldable pub make_invocation : Text → Text → Trigger → InvocationSource → Result Invocation
make_invocation fname key trigger source = do
  a ← InvocationRequest.set_function_name fname InvocationRequest.fresh
  b ← InvocationRequest.set_invocation_id key a
  ok (record { req = b; payload = []; trigger = trigger; active = false; source = source })

abbrev pub unknown_function : Text → Text
unknown_function fname = codes "Ignoring invocation of an unknown function " ++ fname

abbrev pub failed_insert : Text → Text → Text
failed_insert key fname =
    codes "Failed to insert a new invocation " ++ (key ++ (codes " for function " ++ fname))

-- The branch that creates an invocation. `emplace` builds the node before it looks for the key.
unfoldable pub add_invocation :
    Functions
    → Text
    → Text
    → Payload
    → InvocationSource
    → WorkQueue
    → Result (Option Text × WorkQueue)
unfolding make_invocation
add_invocation functions fname key buffer source q = elim (find fname functions) [
  | none ↦ ok (some (unknown_function fname), q)
  | some trigger ↦ (do
    made ← make_invocation fname key trigger source
    elim (find key q.invocations) [
      | some _ ↦ ok (some (failed_insert key fname), q)
      | none ↦ ok (
        none,
        record {
          pending = q.pending ++ key ∷ [];
          invocations = assign key (record made { payload = buffer ∷ [] }) q.invocations;
        },
      )
    ])
]

-- `none` in the result is success, a text the reason of a failure.
unfoldable pub add_payload :
    Functions
    → Text
    → Text
    → Payload
    → InvocationSource
    → WorkQueue
    → Result (Option Text × WorkQueue)
unfolding add_invocation
add_payload functions fname key buffer source q = elim (find key q.invocations) [
  | none ↦ add_invocation functions fname key buffer source q
  | some i ↦
      if i.active
      then add_invocation functions fname key buffer source q
      else ok (
        none,
        record q {
          invocations = assign key (record i { payload = i.payload ++ buffer ∷ [] }) q.invocations;
        },
      )
]

-- TriggerChecker::visit.
unfoldable pub is_ready : Trigger → Bool
is_ready (direct name) = true

-- The loop of `next`, over the pointers that it has not passed yet. A pointer to no node is dangling.
unfoldable pub next_pending : Dict Invocation → List Text → Result (Option Text × List Text)
unfolding is_ready
next_pending invocations [] = ok (none, [])
next_pending invocations (k ∷ ks) =
    let rest = next_pending invocations ks in
    elim (find k invocations) [
      | none ↦ undefined
      | some i ↦ if is_ready i.trigger then ok (some k, ks) else (rest >>= λ r. ok (r.0, k ∷ r.1))
    ]

unfoldable pub next : WorkQueue → Result (Option Text × WorkQueue)
unfolding next_pending
next q = do r ← next_pending q.invocations q.pending; ok (r.0, record q { pending = r.1 })

-- `none` if the invocation is not there or does not run.
unfoldable pub finish : Text → WorkQueue → Option Invocation × WorkQueue
finish key q = elim (find key q.invocations) [
  | none ↦ (none, q)
  | some i ↦
      if i.active then (some i, record q { invocations = erase key q.invocations }) else (none, q)
]

-- What `Workers::submit` writes through the pointer that `next` returned: the request with the
-- lengths of the inputs, and `active`.
unfoldable pub activate : Text → InvocationRequest → WorkQueue → WorkQueue
activate key req q = elim (find key q.invocations) [
  | none ↦ q
  | some i ↦ record q {
    invocations = assign key (record i { req = req; active = true }) q.invocations;
  }
]
