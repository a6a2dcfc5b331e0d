-- ===== src/ControlPlane/Process/Requests.antt =====
-- The invocations of a Process: sending them through the connection, accepting and answering them.
-- control-plane/src/process.cpp.
use praas.Base.{
  ℕ, ◌+◌, ◌-◌, true, false, Option, none, some, List, [], ◌∷◌, ◌++◌, length, take, if◌then◌else◌,
  ◌^◌, ◌%◌,
}
use praas.Base.Int.{ℤ, of_word}
use praas.Base.Text.{Text, text_eq}
use praas.Outcome.{done, thrown, undefined, Action, ◌>>=◌, after, lift, onto}
use praas.Message.Header.{set_total_length}
use praas.Message.InvocationRequest
use praas.Message.InvocationRequest.{InvocationRequest}
use praas.Result.{Result, ok, invalid_process_state}
use praas.Result as R
use praas.ControlPlane.Process.{Process, is_allocated, Effect, sent, answered, Invocation, Answer}

-- `size_t` passed for an `int32_t`.
unfoldable pub as_int32 : ℕ → ℤ
as_int32 n = of_word (2 ^ 32) (n % 2 ^ 32)

-- The message of Process::_send_invocation.
unfoldable pub invocation_message : Invocation → Result InvocationRequest
invocation_message invoc =
    R.◌>>=◌ (InvocationRequest.set_function_name invoc.function_name InvocationRequest.fresh) λ a.
      R.◌>>=◌ (InvocationRequest.set_invocation_id (take 16 invoc.invocation_id) a) λ b.
        R.◌>>=◌ (InvocationRequest.set_payload_size (as_int32 (length invoc.body)) b)
          λ c. ok (record c { buf = set_total_length (as_int32 (length invoc.body)) c.buf })

-- The two sends through the connection, which a process without one cannot make.
unfoldable pub send_to : Option ℕ → List ℕ → List ℕ → Action Effect Invocation (Unit {0})
send_to none message payload invoc = undefined
send_to (some conn) message payload invoc =
    done tt (record invoc { submitted = true }) (sent conn message ∷ sent conn payload ∷ [])

unfoldable pub send_invocation : Option ℕ → Action Effect Invocation (Unit {0})
unfolding send_to invocation_message
send_invocation connection invoc =
    (do req ← lift (invocation_message invoc); send_to connection req.buf invoc.body) invoc

-- The loop of send_invocations.
unfoldable pub send_waiting : Option ℕ → Action Effect (List Invocation) (Unit {0})
send_waiting connection [] = done tt [] []
send_waiting connection (i ∷ is) =
    elim (if i.submitted then done tt i [] else send_invocation connection i) [
      | done _ i' es ↦ after es (onto (λ js. i' ∷ js) (send_waiting connection is))
      | thrown e i' es ↦ thrown e (i' ∷ is) es
      | undefined ↦ undefined
    ]

unfoldable pub send_invocations : Action Effect Process (Unit {0})
unfolding send_waiting
send_invocations p =
    onto (λ is. record p { invocations = is }) (send_waiting p.connection p.invocations)

unfoldable pub new_invocation : List ℕ → ℕ → Text → Process → Invocation
new_invocation body client function_name p = record {
  body = body;
  client = client;
  function_name = function_name;
  invocation_id = p.uuid_generator.value p.uuid_generator.used;
  submitted = false;
}

-- `emplace_back` and the count, before anything is sent.
unfoldable pub accept_invocation : Invocation → Process → Process
accept_invocation invoc p = record p {
  uuid_generator = record p.uuid_generator { used = p.uuid_generator.used + 1 };
  active_invocations = p.active_invocations + 1;
  invocations = p.invocations ++ invoc ∷ [];
}

unfoldable pub add_invocation : List ℕ → ℕ → Text → Action Effect Process (Unit {0})
unfolding new_invocation accept_invocation
add_invocation body client function_name p =
    let invoc = new_invocation body client function_name p in
    if is_allocated p.status
    then onto (λ i. accept_invocation i p) (send_invocation p.connection invoc)
    else done tt (accept_invocation invoc p) []

-- The search of finish_invocation, and the erasure of what it found.
unfoldable pub find_invocation : Text → List Invocation → Option Invocation
find_invocation id [] = none
find_invocation id (i ∷ is) =
    if text_eq (take 16 i.invocation_id) id then some i else find_invocation id is

unfoldable pub erase_invocation : Text → List Invocation → List Invocation
erase_invocation id [] = []
erase_invocation id (i ∷ is) =
    if text_eq (take 16 i.invocation_id) id then is else i ∷ erase_invocation id is

unfoldable pub answer_to : Invocation → Text → ℤ → List ℕ → Answer
answer_to i id return_code output = record {
  function = i.function_name;
  invocation_id = id;
  return_code = return_code;
  result = output;
}

unfoldable pub finish_invocation : Text → ℤ → List ℕ → Action Effect Process (Unit {0})
unfolding find_invocation erase_invocation answer_to
finish_invocation id return_code output p = elim (find_invocation id p.invocations) [
  | none ↦ done tt p []
  | some i ↦
      done tt
        (record p {
          active_invocations = p.active_invocations - 1;
          invocations = erase_invocation id p.invocations;
        })
        (answered i.client (answer_to i id return_code output) ∷ [])
]
