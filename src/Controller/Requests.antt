-- ===== src/Controller/Requests.antt =====
-- `put`, `get` and the state keys, seen from the work queue and from the workers.
use praas.Base.{
  ℕ, ◌≡◌, refl, subst, false, Option, none, some, List, arith, inl, inr, Option-cases, Bool-cases,
}
use praas.Base.Dict.{Dict}
use praas.Controller.Internal.{
  process_put, process_get, get_state, get_message, process_state_keys, asked_source,
}
use praas.Controller.Mailbox
use praas.Controller.Mailbox.{Payload, MessageStore}
use praas.Controller.Pending.{insert_get}
use praas.Controller.Replies.{message_reply, state_reply}
use praas.Controller.State
use praas.Controller.State.{Controller, is_self, call_server, send_to}
use praas.Controller.Talking.{Talks, send_to-Talks, arrived-Talks}
use praas.Ipc.Channel.{send, send_header}
use praas.Ipc.GenericRequest
use praas.Ipc.GenericRequest.{GenericRequest}
use praas.Result.{Result, ok, >>=-eq-ok, ok-injective}

pub process_put-Talks :
    (req : GenericRequest) (payload : Payload) (now : ℕ) (c c' : Controller)
    → process_put req payload now c ≡ ok c'
    → Talks c c'
unfolding process_put call_server
process_put-Talks req payload now c c' h = elim (Bool-cases (GenericRequest.state req)) [
  | inl state ↦
      (let (mailbox, stored, e) =
          >>=-eq-ok (Mailbox.state (GenericRequest.name req) payload now c.mailbox)
            (λ m. ok (record c { mailbox = m })) {b = c'} (ground (arith, h, state)) in
        subst (Talks c) (ok-injective e) (refl, refl, refl))
  | inr message ↦ elim (Bool-cases (is_self (GenericRequest.process_id req) c)) [
    | inl self ↦
        arrived-Talks (GenericRequest.name req) c.process_id payload c c'
          (ground (arith, h, message, self))
    | inr other ↦ subst (Talks c) (remote message other) (refl, refl, refl)
  ]
]
  where
    remote :
        GenericRequest.state req ≡ false
        → is_self (GenericRequest.process_id req) c ≡ false
        → call_server
            (State.put_message (GenericRequest.process_id req) (GenericRequest.name req) payload)
            c
          ≡ c'
    remote message other = ok-injective (ground (arith, h, message, other))

abbrev state_answer : ℕ → GenericRequest → Controller → List ℕ → Result Controller
state_answer worker req c reply = elim (Mailbox.try_state (GenericRequest.name req) c.mailbox) [
  | some payload ↦ ok (send_to worker (send c.workers.msg_size reply payload) c)
  | none ↦ ok (send_to worker (send_header c.workers.msg_size reply) c)
]

abbrev message_answer : ℕ → GenericRequest → Controller → Payload → List ℕ → Result Controller
message_answer worker req c payload reply = ok (
    send_to worker (send c.workers.msg_size reply payload) (record c {
      mailbox = (Mailbox.try_get (GenericRequest.name req) (asked_source req c) c.mailbox).0;
    }))

pub process_get-Talks :
    (worker : ℕ) (req : GenericRequest) (c c' : Controller)
    → process_get worker req c ≡ ok c'
    → Talks c c'
unfolding process_get get_state get_message
process_get-Talks worker req c c' h = elim (Bool-cases (GenericRequest.state req)) [
  | inl state ↦
      (let (reply, made, e) =
          >>=-eq-ok (state_reply (GenericRequest.name req)) (state_answer worker req c) {b = c'}
            (ground (arith, h, state)) in
        read reply e)
  | inr message ↦ elim (Option-cases found.1) [
    | inl none_there ↦ subst (Talks c) (written message none_there) (refl, refl, refl)
    | inr (payload, there) ↦
        (let (reply, made, e) =
            >>=-eq-ok (message_reply (GenericRequest.process_id req) (GenericRequest.name req))
              (message_answer worker req c payload) {b = c'} (ground (arith, h, message, there)) in
          subst (Talks c) (ok-injective e) (
            send_to-Talks worker (send c.workers.msg_size reply payload)
              (record c { mailbox = found.0 })))
  ]
]
  where
    found : MessageStore × Option Payload
    found = Mailbox.try_get (GenericRequest.name req) (asked_source req c) c.mailbox

    read : (reply : List ℕ) → state_answer worker req c reply ≡ ok c' → Talks c c'
    read reply e = elim (Option-cases (Mailbox.try_state (GenericRequest.name req) c.mailbox)) [
      | inl none_there ↦
          subst (Talks c) {x = send_to worker (send_header c.workers.msg_size reply) c} {y = c'}
            (ok-injective (ground (arith, e, none_there)))
            (send_to-Talks worker (send_header c.workers.msg_size reply) c)
      | inr (payload, there) ↦
          subst (Talks c) {x = send_to worker (send c.workers.msg_size reply payload) c} {y = c'}
            (ok-injective (ground (arith, e, there)))
            (send_to-Talks worker (send c.workers.msg_size reply payload) c)
    ]

    written :
        GenericRequest.state req ≡ false
        → found.1 ≡ none
        → record c {
          pending_msgs =
              insert_get (GenericRequest.name req) (asked_source req c) worker c.pending_msgs;
        }
          ≡ c'
    written message none_there = ok-injective (ground (arith, h, message, none_there))

pub process_state_keys-Talks :
    (serialize : Dict ℕ → List ℕ) (worker : ℕ) (c : Controller)
    → Talks c (process_state_keys serialize worker c)
unfolding process_state_keys
process_state_keys-Talks serialize worker c = send_to-Talks worker _ c
