-- ===== src/ControlPlane/Process/Waiting.antt =====
-- The invocations that wait for the connection of a process: they are submitted when it is up.
pub mod Announced
pub mod Submitting
use praas.Base.{
  ap, ◌∙◌, ℕ, ◌+◌, ◌≤◌, ◌<◌, ◌≡◌, refl, true, false, Option, none, some, List, [], ◌∷◌, ◌++◌, map,
  length, length-take, arith, All, inl, inr, ◌^◌,
}
use praas.Base.Int.{pos, of_word}
use praas.Base.Text.{Text}
use praas.Outcome.{done, thrown, raised, after}
use praas.ControlPlane.Process.{
  Process, Invocation, Effect, sent, allocated, is_allocated, is_allocating, created,
  CreationCallback, observer, docker_instance,
}
use praas.ControlPlane.Process.Life.{connect, created_callback}
use praas.ControlPlane.Process.Requests.{
  as_int32, invocation_message, send_to, send_invocation, send_waiting, send_invocations,
  add_invocation, accept_invocation, new_invocation,
}
use praas.Message.InvocationRequest
use praas.Message.InvocationRequest.{set_function_name, set_invocation_id, set_payload_size}
use praas.Result.{Result-cases, ok, invalid_argument}

-- A request that the message can carry: the name fits its field, the body's length an `int32_t`.
abbrev pub IsSendable : Invocation → Type 0
IsSendable i = (length i.function_name ≤ 32) × (length i.body < 2 ^ 31)

pub as_int32-pos : (n : ℕ) → n < 2 ^ 31 → as_int32 n ≡ pos n
unfolding as_int32 of_word
as_int32-pos n h = ground arith

-- The bytes that are sent for an invocation.
abbrev pub header : Invocation → List ℕ
header i = elim (invocation_message i) [ ok m ↦ m.buf | _ ↦ [] ]

invocation_message-ok :
    (i : Invocation)
    → IsSendable i
    → (m : InvocationRequest.InvocationRequest) × (invocation_message i ≡ ok m)
unfolding invocation_message set_function_name set_invocation_id set_payload_size
invocation_message-ok i (named, sized) = elim (Result-cases (invocation_message i)) [
  | inl (m, e) ↦ (m, e)
  | inr (inl e) ↦
      absurd (ground (arith, as_int32-pos (length i.body) sized, length-take 16 i.invocation_id))
  | inr (inr e) ↦
      absurd (ground (arith, as_int32-pos (length i.body) sized, length-take 16 i.invocation_id))
]

abbrev pub submitted : Invocation → Invocation
submitted i = record i { submitted = true }

pub send_invocation_lem :
    (conn : ℕ) (i : Invocation)
    → IsSendable i
    → send_invocation (some conn) i
      ≡ done tt (submitted i) (sent conn (header i) ∷ sent conn i.body ∷ [])
unfolding send_invocation send_to
send_invocation_lem conn i h = let (m, e) = invocation_message-ok i h in ground (arith, e)

-- What is sent for a list of waiting invocations, in their order.
abbrev pub sends : ℕ → List Invocation → List Effect
sends conn [] = []
sends conn (i ∷ is) = sent conn (header i) ∷ sent conn i.body ∷ sends conn is

abbrev pub IsWaiting : Invocation → Type 0
IsWaiting i = (i.submitted ≡ false) × IsSendable i

send_waiting_lem :
    (conn : ℕ) (is : List Invocation)
    → All IsWaiting is
    → send_waiting (some conn) is ≡ done tt (map submitted is) (sends conn is)
unfolding send_waiting
send_waiting_lem conn [] h = refl
send_waiting_lem conn (i ∷ is) (h, hs) =
    ground (arith, send_invocation_lem conn i h.1, send_waiting_lem conn is hs)

connect-sends :
    (conn : ℕ) (p : Process)
    → is_allocating p.status ≡ true
    → All IsWaiting p.invocations
    → connect conn p
      ≡ after (sends conn p.invocations) (
          created_callback none (record p {
            connection = some conn;
            status = allocated;
            invocations = map submitted p.invocations;
          }))
unfolding connect send_invocations
connect-sends conn p a h = ground (arith, send_waiting_lem conn p.invocations h)

-- What a connection tells of the creation, and the callback that is left: nothing as long as the
-- backend has not reported, and once the Docker backend has, the observer is told and forgotten.
pub data Told (p : Process) : Option CreationCallback → List Effect → Type 0 where
  unreported : p.handle ≡ none → Told p p.creation_callback []
  reported :
      (ip container : Text) (port n : ℕ)
      → p.handle ≡ some (docker_instance ip port container)
      → p.creation_callback ≡ some (observer n)
      → Told p none (created n ∷ [])

created_callback-Told :
    (p q : Process) (left : Option CreationCallback) (told : List Effect)
    → Told p left told
    → q.handle ≡ p.handle
    → q.creation_callback ≡ p.creation_callback
    → is_allocated q.status ≡ true
    → created_callback none q ≡ done tt (record q { creation_callback = left }) told
unfolding created_callback
created_callback-Told p q left told (unreported nothing) same kept up = ground arith
created_callback-Told p q left told (reported ip container port n h c) same kept up = ground arith

-- The connection of a process whose invocations all wait and can be sent.
pub connect_lem :
    (conn : ℕ) (p : Process) (left : Option CreationCallback) (told : List Effect)
    → is_allocating p.status ≡ true
    → All IsWaiting p.invocations
    → Told p left told
    → connect conn p
      ≡ done tt
          (record p {
            connection = some conn;
            status = allocated;
            invocations = map submitted p.invocations;
            creation_callback = left;
          })
          (sends conn p.invocations ++ told)
connect_lem conn p left told a h t =
    connect-sends conn p a h
    ∙ ap (after (sends conn p.invocations)) (
        created_callback-Told p
          (record p {
            connection = some conn;
            status = allocated;
            invocations = map submitted p.invocations;
          })
          left told t refl refl refl)

-- A request whose function has a name of more than 32 bytes is refused with an exception by a
-- process that is connected, and stays in it all the same: it counts as active, is not submitted,
-- and nothing was sent for it.
add_invocation-long :
    (conn : ℕ) (body : List ℕ) (client : ℕ) (name : Text) (p : Process)
    → p.status ≡ allocated
    → 32 < length name
    → (add_invocation body client name p
        ≡ thrown
            (raised invalid_argument)
            (accept_invocation (new_invocation body client name p) p)
            [])
      × ((accept_invocation (new_invocation body client name p) p).active_invocations
          ≡ p.active_invocations + 1)
unfolding add_invocation send_invocation invocation_message set_function_name accept_invocation
    new_invocation
add_invocation-long conn body client name p a long = (ground arith, refl)

send_invocation-long :
    (c : Option ℕ) (i : Invocation)
    → 32 < length i.function_name
    → send_invocation c i ≡ thrown (raised invalid_argument) i []
unfolding send_invocation invocation_message set_function_name
send_invocation-long c i long = ground arith

send_waiting-long :
    (conn : ℕ) (before behind : List Invocation) (i : Invocation)
    → All IsWaiting before
    → i.submitted ≡ false
    → 32 < length i.function_name
    → send_waiting (some conn) (before ++ i ∷ behind)
      ≡ thrown (raised invalid_argument) (map submitted before ++ i ∷ behind) (sends conn before)
unfolding send_waiting
send_waiting-long conn [] behind i h new long =
    ground (arith, send_invocation-long (some conn) i long)
send_waiting-long conn (j ∷ before) behind i (h, hs) new long =
    ground
      (arith, send_invocation_lem conn j h.1, send_waiting-long conn before behind i hs new long)

-- While a process allocates, the same request is accepted; the connection then fails at it with an
-- exception, and neither it nor any request behind it is submitted.
pub connect-long :
    (conn : ℕ) (p : Process) (before behind : List Invocation) (i : Invocation)
    → is_allocating p.status ≡ true
    → p.invocations ≡ before ++ i ∷ behind
    → All IsWaiting before
    → i.submitted ≡ false
    → 32 < length i.function_name
    → connect conn p
      ≡ thrown
          (raised invalid_argument)
          (record p {
            connection = some conn;
            status = allocated;
            invocations = map submitted before ++ i ∷ behind;
          })
          (sends conn before)
unfolding connect send_invocations
connect-long conn p before behind i a split h new long =
    ground (arith, send_waiting-long conn before behind i h new long)
