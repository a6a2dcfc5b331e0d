-- ===== src/Controller/Rendezvous.antt =====
-- A message and the `get` for it, in either order.
use praas.Base.{
  ℕ, zero, suc, ◌<◌, ◌^◌, ◌++◌, get_elem?, ◌≤◌, ◌≡◌, refl, sym, ap, subst, ◌∙◌, true, false, none,
  some, List, [], ◌∷◌, length, arith, inl, inr,
}
use praas.Base.Text.{Text, text_eq_refl}
use praas.Base.Dict.{Dict, find, assign, erase, find-assign_self}
use praas.Controller.Internal.{process_put, process_get, get_message, asked_source}
use praas.Controller.Mailbox
use praas.Controller.Mailbox.{Payload, MessageStore}
use praas.Controller.Pending.{PendingMessages, find_get, insert_get}
use praas.Controller.Pending.Gets.{NoAnswer, find_get-insert_get}
use praas.Controller.Replies.{message_reply, arrived}
use praas.Controller.State.{Controller, is_self, send_to}
use praas.Controller.Answers.Carried.{HoldsMessage, message_reply-HoldsMessage}
use praas.Controller.Workers.{FunctionWorker, modify, write, deliver}
use praas.Ipc.Channel.{Queue, send}
use praas.Wire.Names.{IsName}
use praas.Ipc.GenericRequest
use praas.Ipc.GenericRequest.{GenericRequest}
use praas.Result.{Result-cases, ok, ◌>>=◌}

erase_absent {ℓ} : {V : Type ℓ} (k : Text) (d : Dict V) → find k d ≡ none → erase k d ≡ d
unfolding find erase
erase_absent k [] h = refl
erase_absent k ((j, v) ∷ d) h = ground (arith, erase_absent k d)

erase-assign {ℓ} :
    {V : Type ℓ} (k : Text) (v : V) (d : Dict V) → find k d ≡ none → erase k (assign k v d) ≡ d
unfolding find erase assign
erase-assign k v [] h = ground (arith, text_eq_refl k)
erase-assign k v ((j, w) ∷ d) h = ground (arith, erase-assign k v d)

put-get :
    (key source : Text) (payload : Payload) (s : MessageStore)
    → find key s.msgs ≡ none
    → Mailbox.try_get key source (Mailbox.put key source payload s).0 ≡ (s, some payload)
unfolding Mailbox.put Mailbox.try_get
put-get key source payload s free = ground (
  arith,
  find-assign_self key (record { source = source; payload = payload }) s.msgs,
  erase-assign key (record { source = source; payload = payload }) s.msgs free,
  text_eq_refl source,
)

pub message_reply-ok :
    (id name : Text)
    → length id ≤ 32
    → length name ≤ 32
    → (reply : List ℕ) × (message_reply id name ≡ ok reply)
unfolding message_reply GenericRequest.set_process_id GenericRequest.set_name
message_reply-ok id name short_id short = elim (Result-cases (message_reply id name)) [
  | inl (reply, e) ↦ (reply, e)
  | inr (inl (x, e)) ↦ absurd (ground arith)
  | inr (inr e) ↦ absurd (ground arith)
]

none_found :
    (key source : Text) (p : PendingMessages)
    → NoAnswer key source p
    → find_get key source p ≡ (none, p)
unfolding find_get
none_found key source [] h = refl
none_found key source (e ∷ p) h = ground (arith, none_found key source p)

not_stored :
    (key source : Text) (s : MessageStore)
    → find key s.msgs ≡ none
    → Mailbox.try_get key source s ≡ (s, none)
unfolding Mailbox.try_get
not_stored key source s h = ground arith

arrived_stores :
    (name source : Text) (payload : Payload) (c : Controller)
    → NoAnswer name source c.pending_msgs
    → arrived name source payload c
      ≡ ok (record c { mailbox = (Mailbox.put name source payload c.mailbox).0 })
unfolding arrived
arrived_stores name source payload c nobody =
    ground (arith, none_found name source c.pending_msgs nobody)

arrived_replies :
    (name source : Text) (payload : Payload) (worker : ℕ) (p : PendingMessages) (c : Controller)
    (reply : List ℕ)
    → find_get name source c.pending_msgs ≡ (some worker, p)
    → message_reply source name ≡ ok reply
    → arrived name source payload c
      ≡ ok (send_to worker (send c.workers.msg_size reply payload) (record c { pending_msgs = p }))
unfolding arrived
arrived_replies name source payload worker p c reply found replied = ground arith

get_replies :
    (worker : ℕ) (g : GenericRequest) (payload : Payload) (s : MessageStore) (c : Controller)
    (reply : List ℕ)
    → Mailbox.try_get (GenericRequest.name g) (asked_source g c) c.mailbox ≡ (s, some payload)
    → message_reply (GenericRequest.process_id g) (GenericRequest.name g) ≡ ok reply
    → get_message worker g c
      ≡ ok (send_to worker (send c.workers.msg_size reply payload) (record c { mailbox = s }))
unfolding get_message
get_replies worker g payload s c reply found replied = ground arith

get_waits :
    (worker : ℕ) (g : GenericRequest) (c : Controller)
    → find (GenericRequest.name g) c.mailbox.msgs ≡ none
    → get_message worker g c
      ≡ ok (record c {
        pending_msgs = insert_get (GenericRequest.name g) (asked_source g c) worker c.pending_msgs;
      })
unfolding get_message
get_waits worker g c free =
    ground (arith, not_stored (GenericRequest.name g) (asked_source g c) c.mailbox free)

module _ (c : Controller) (worker : ℕ) (g : GenericRequest) (name source : Text) (payload : Payload)
    (named : GenericRequest.name g ≡ name) (asks : asked_source g c ≡ source)
    (answers_with : GenericRequest.process_id g ≡ source) (reply : List ℕ)
    (replied : message_reply source name ≡ ok reply) (empty_box : find name c.mailbox.msgs ≡ none)
    (nobody : NoAnswer name source c.pending_msgs) where
  abbrev answered : Controller
  answered = send_to worker (send c.workers.msg_size reply payload) c

  pub arrived-get : (arrived name source payload c >>= get_message worker g) ≡ ok answered
  unfolding asked_source
  arrived-get =
      ap (λ r. r >>= get_message worker g) (arrived_stores name source payload c nobody)
      ∙ get_replies worker g payload c.mailbox
          (record c { mailbox = (Mailbox.put name source payload c.mailbox).0 }) reply
          (rw (named, asks) (put-get name source payload c.mailbox empty_box))
          (rw (named, answers_with) replied)

  pub get-arrived : (get_message worker g c >>= arrived name source payload) ≡ ok answered
  get-arrived =
      ap (λ r. r >>= arrived name source payload) (get_waits worker g c (rw named empty_box))
      ∙ arrived_replies name source payload worker c.pending_msgs
          (record c {
            pending_msgs =
                insert_get (GenericRequest.name g) (asked_source g c) worker c.pending_msgs;
          })
          reply
          (rw (named, asks)
            (find_get-insert_get name source source worker c.pending_msgs (inl refl) nobody))
          replied

put_arrives :
    (now : ℕ) (p : GenericRequest) (payload : Payload) (c : Controller)
    → GenericRequest.state p ≡ false
    → is_self (GenericRequest.process_id p) c ≡ true
    → process_put p payload now c ≡ arrived (GenericRequest.name p) c.process_id payload c
unfolding process_put
put_arrives now p payload c ps self = ground arith

pub get_asks :
    (worker : ℕ) (g : GenericRequest) (c : Controller)
    → GenericRequest.state g ≡ false
    → process_get worker g c ≡ get_message worker g c
unfolding process_get
get_asks worker g c gs = ground arith

names_self :
    (g : GenericRequest) (c : Controller)
    → GenericRequest.process_id g ≡ c.process_id
    → asked_source g c ≡ c.process_id
unfolding asked_source
names_self g c gid = ground arith

-- The n-th worker's channel gains packets, and no other worker changes.
pub data Gains : ℕ → Queue → List FunctionWorker → List FunctionWorker → Type 0 where
  here :
      {q : Queue} {w : FunctionWorker} {ws : List FunctionWorker}
      → Gains 0 q (w ∷ ws) (record { busy = w.busy; ipc_write = w.ipc_write ++ q } ∷ ws)
  there :
      {n : ℕ} {q : Queue} {w : FunctionWorker} {ws ws' : List FunctionWorker}
      → Gains n q ws ws'
      → Gains (suc n) q (w ∷ ws) (w ∷ ws')

modify-Gains :
    (n : ℕ) (q : Queue) (w : FunctionWorker) (ws : List FunctionWorker)
    → get_elem? ws n ≡ some w
    → Gains n q ws (modify n (write q) ws)
unfolding modify
modify-Gains n q w [] e = cc
modify-Gains zero q w (v ∷ ws) e = here
modify-Gains (suc n) q w (v ∷ ws) e = there (modify-Gains n q w ws e)

either_order :
    (c : Controller) (worker now : ℕ) (g p : GenericRequest) (payload : Payload) (reply : List ℕ)
    → GenericRequest.state g ≡ false
    → GenericRequest.state p ≡ false
    → GenericRequest.name g ≡ GenericRequest.name p
    → GenericRequest.process_id g ≡ c.process_id
    → is_self (GenericRequest.process_id p) c ≡ true
    → message_reply c.process_id (GenericRequest.name p) ≡ ok reply
    → find (GenericRequest.name p) c.mailbox.msgs ≡ none
    → NoAnswer (GenericRequest.name p) c.process_id c.pending_msgs
    → ((process_put p payload now c >>= process_get worker g)
        ≡ ok (send_to worker (send c.workers.msg_size reply payload) c))
      × ((process_get worker g c >>= process_put p payload now)
          ≡ ok (send_to worker (send c.workers.msg_size reply payload) c))
unfolding is_self
either_order c worker now g p payload reply gs ps same_name gid self replied free nobody =
    let asks = names_self g c gid in
    let c1 = record c {
      pending_msgs = insert_get (GenericRequest.name g) (asked_source g c) worker c.pending_msgs;
    } in
    let waits = get_waits worker g c (rw same_name free) in
    (
      rw (put_arrives now p payload c ps self) (
          subst
            (λ f.
              (arrived (GenericRequest.name p) c.process_id payload c >>= f)
              ≡ ok (send_to worker (send c.workers.msg_size reply payload) c))
            (λ i c'. sym (get_asks worker g c' gs) i)
            (arrived-get c worker g (GenericRequest.name p) c.process_id payload same_name asks gid
              reply replied free nobody)),
      ap (λ r. r >>= process_put p payload now) (get_asks worker g c gs ∙ waits)
          ∙ put_arrives now p payload c1 ps self
          ∙ sym (ap (λ r. r >>= arrived (GenericRequest.name p) c.process_id payload) waits)
          ∙ get-arrived c worker g (GenericRequest.name p) c.process_id payload same_name asks gid
              reply replied free nobody,
    )

-- A message that a process sends to itself and the `get` of one of its workers, which names the
-- process by its id, meet in either order. If nothing is stored under the key and nobody else waits
-- for the message, then after `put` and `get`, and after `get` and `put`, the controller is in the
-- same state. It is as at the start, but that the channel of the worker has gained packets, which the
-- worker reads as one message: a get request with the process's id, the key and no flag for state,
-- and with the payload. (The key and the id are texts of at most 32 bytes without a 0, the payload
-- has less than 2 GiB, and a packet holds a header.)
pub rendezvous :
    (c : Controller) (worker now : ℕ) (w : FunctionWorker) (g p : GenericRequest)
    (payload : Payload)
    → get_elem? c.workers.workers worker ≡ some w
    → 128 ≤ c.workers.msg_size
    → length payload < 2 ^ 31
    → GenericRequest.state g ≡ false
    → GenericRequest.state p ≡ false
    → GenericRequest.name g ≡ GenericRequest.name p
    → GenericRequest.process_id g ≡ c.process_id
    → is_self (GenericRequest.process_id p) c ≡ true
    → IsName 32 c.process_id
    → IsName 32 (GenericRequest.name p)
    → find (GenericRequest.name p) c.mailbox.msgs ≡ none
    → NoAnswer (GenericRequest.name p) c.process_id c.pending_msgs
    → (packets : Queue) × (ws : List FunctionWorker) × ((process_put p payload now c
          >>= process_get worker g)
        ≡ ok (record c { workers = record c.workers { workers = ws } }))
      × ((process_get worker g c >>= process_put p payload now)
          ≡ ok (record c { workers = record c.workers { workers = ws } }))
      × Gains worker packets c.workers.workers ws
      × HoldsMessage c.process_id (GenericRequest.name p) payload packets
unfolding send_to deliver
rendezvous c worker now w g p payload known room small gs ps same gid self hi hn free nobody =
    let (reply, replied, holds) =
      message_reply-HoldsMessage c.workers.msg_size c.process_id (GenericRequest.name p) payload
        room hi hn small in
    let (first, second) =
      either_order c worker now g p payload reply gs ps same gid self replied free nobody in
    (
      send c.workers.msg_size reply payload,
      modify worker (write (send c.workers.msg_size reply payload)) c.workers.workers,
      first,
      second,
      modify-Gains worker (send c.workers.msg_size reply payload) w c.workers.workers known,
      holds,
    )
