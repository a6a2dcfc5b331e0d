-- ===== src/ControlPlane/Process.antt =====
-- Process of control-plane/include/praas/control-plane/process.hpp and control-plane/src/process.cpp.
-- A connection, a client's callback and an observer of an allocation belong to other libraries and
-- are known by numbers; what is done with them is an effect. Log lines and the time of an invocation,
-- which is only logged, are left out.
use praas.Base.{
  ℕ, ◌+◌, ◌-◌, ◌≡◌, refl, Bool, true, false, ◌&&◌, not, Option, none, some, List, [], ◌∷◌, ◌++◌,
  leb, length, take, if◌then◌else◌, ◌^◌, ◌%◌,
}
use praas.Base.Int.{ℤ, of_word}
use praas.Base.Text.{Text, text_eq}
use praas.Outcome.{
  Outcome, done, thrown, undefined, Thrown, bad_function_call, Action, ◌>>=◌, ◌>>◌, after, continue,
  throw, pure, lift, modify, effect, onto,
}
use praas.Message.Header.{set_total_length}
use praas.Message.InvocationRequest
use praas.Message.InvocationRequest.{InvocationRequest}
use praas.Message.SwapRequest
use praas.Result.{Result, ok, invalid_process_state}
use praas.Result as R
pub mod Requests
pub mod Life
pub mod Sound
pub mod Waiting
pub mod Clients
pub mod Creation

pub data Status : Type 0 where
  allocating : Status
  allocated : Status
  swapped_out : Status
  swapping_out : Status
  swapping_in : Status
  closed : Status
  failure : Status

-- `==` on Status.
abbrev pub status_code : Status → ℕ
status_code allocating = 0
status_code allocated = 1
status_code swapped_out = 2
status_code swapping_out = 3
status_code swapping_in = 4
status_code closed = 5
status_code failure = 6

abbrev pub is_allocating : Status → Bool
is_allocating allocating = true
is_allocating _ = false

abbrev pub is_allocated : Status → Bool
is_allocated allocated = true
is_allocated _ = false

abbrev pub is_swapping_out : Status → Bool
is_swapping_out swapping_out = true
is_swapping_out _ = false

abbrev pub is_swapped_out : Status → Bool
is_swapped_out swapped_out = true
is_swapped_out _ = false

pub record DataPlaneMetrics : Type 0 where
  pub invocations : ℤ
  pub computation_time : ℤ
  pub last_invocation : ℕ
  pub last_report : ℕ

pub record Resources : Type 0 where
  pub vcpus : Text
  pub memory : Text

-- An HTTP request that waits for its function: the body, the client, and the printed UUID.
pub record Invocation : Type 0 where
  pub body : List ℕ
  pub client : ℕ
  pub function_name : Text
  pub invocation_id : Text
  pub submitted : Bool

-- The JSON answer to a client.
pub record Answer : Type 0 where
  pub function : Text
  pub invocation_id : Text
  pub return_code : ℤ
  pub result : List ℕ

-- Random UUIDs as they print, and how many are used up.
pub record UuidGenerator : Type 0 where
  pub value : ℕ → Text
  pub used : ℕ

-- The instances of the two backends.
pub data ProcessInstance : Type 0 where
  docker_instance : Text → ℕ → Text → ProcessInstance
  fargate_instance : ℕ → Text → Text → ProcessInstance

-- The functions that wait for an allocation: an observer outside, or the lambda of
-- Workers::handle_invocation with the body, the client and the function of its request.
pub data CreationCallback : Type 0 where
  observer : ℕ → CreationCallback
  invoke : List ℕ → ℕ → Text → CreationCallback

pub data Effect : Type 0 where
  sent : ℕ → List ℕ → Effect
  answered : ℕ → Answer → Effect
  failed_response : ℕ → ℕ → Text → Effect
  created : ℕ → Effect
  not_created : ℕ → Text → Effect
  query_address : Text → Effect
  register : ℕ → Effect
  allocate : ℕ → Effect
  shut_down : ℕ → Effect
  delete_swap : Text → Effect

pub record Process : Type 0 where
  pub name : Text
  pub uuid_generator : UuidGenerator
  pub status : Status
  pub resources : Resources
  pub metrics : DataPlaneMetrics
  pub connection : Option ℕ
  pub swap : Option Text
  pub wait_for_allocation : Bool
  pub creation_callback : Option CreationCallback
  pub application : Text
  pub handle : Option ProcessInstance
  pub active_invocations : ℕ
  pub invocations : List Invocation
