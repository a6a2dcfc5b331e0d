-- ===== src/Tests/Meetings.antt =====
-- A controller of one busy worker, and the messages that it handles.
use praas.Base.{
  ℕ, ◌≡◌, refl, ◌⊎◌, inl, inr, Bool, true, false, Option, none, some, List, [], ◌∷◌, length,
  replicate, arith,
}
use praas.Base.Int.{ℤ, pos, negsuc}
use praas.Base.Text.{Text, codes}
use praas.Base.Dict.{find}
use praas.Ipc.Channel.{Queue}
use praas.Controller.Application.{Application, ApplicationUpdate, active, swapped}
use praas.Controller.Broadcast.{told, Viewed, Announces, process_application_updates_lem}
use praas.Controller.External.{
  process_application_updates, ExternalMessage, process_external_message,
}
use praas.Controller.Internal.{process_put, process_get, process_internal_message}
use praas.Controller.Invariant.{IsWellFormed}
use praas.Controller.Invariant.Local.{process_internal_message-IsWellFormed}
use praas.Controller.Invariant.Remote.{process_external_message-IsWellFormed}
use praas.Controller.Mailbox.{Payload, empty_store}
use praas.Controller.Pending
use praas.Controller.Rendezvous.{Gains, rendezvous}
use praas.Controller.Answers.Carried.{HoldsMessage}
use praas.Controller.Workers.{FunctionWorker}
use praas.Controller.State.{Controller, send_to}
use praas.Controller.WorkQueue.{empty_queue, data_plane}
use praas.Controller.WorkQueue.Consistent.{empty-IsConsistent}
use praas.Ipc.Channel.{send}
use praas.Ipc.GenericRequest.{GenericRequest, of_buffer}
use praas.Message.PutMessage.{PutMessage}
use praas.Result.{ok, ◌>>=◌}
use praas.Wire.Bytes.{read_at}
use praas.Wire.Names.{put_name}
use praas.Wire.Words.{put_int}

abbrev mine : Text
mine = codes "p"

abbrev theirs : Text
theirs = codes "q"

abbrev key : Text
key = codes "k"

abbrev start : Controller
start = record {
  process_id = mine;
  functions = [];
  mailbox = empty_store;
  pending_msgs = [];
  work_queue = empty_queue;
  workers = record {
    workers = record { busy = true; ipc_write = [] } ∷ [];
    idle_workers = 0;
    msg_size = 64;
  };
  application = record { active_processes = []; swapped_processes = [] };
  server = [];
}

-- A request for the key, of the process or from it.
abbrev request_bytes : ℕ → Text → List ℕ
request_bytes kind id =
    put_name 32 42 key (put_name 32 10 id (put_int 2 0 (pos kind) (replicate 128 0)))

abbrev request : Text → GenericRequest
request id = record { buf = request_bytes 1 id; id_len = 1; name_len = 1 }

abbrev answered : List ℕ → Controller
answered reply = send_to 0 (send 64 reply (5 ∷ 6 ∷ [])) start

-- The same with channels whose packets hold a header.
abbrev roomy : Controller
roomy = record start { workers = record start.workers { msg_size = 200 } }

rendezvous_example :
    (packets : Queue) × (ws : List FunctionWorker) × ((process_put
          (request mine)
          (5 ∷ 6 ∷ [])
          9
          roomy
        >>= process_get 0 (request mine))
      ≡ ok (record roomy { workers = record roomy.workers { workers = ws } }))
    × ((process_get 0 (request mine) roomy >>= process_put (request mine) (5 ∷ 6 ∷ []) 9)
        ≡ ok (record roomy { workers = record roomy.workers { workers = ws } }))
    × Gains 0 packets roomy.workers.workers ws
    × HoldsMessage mine key (5 ∷ 6 ∷ []) packets
unfolding praas.Ipc.GenericRequest.state praas.Wire.Words.get_byte praas.Wire.Words.of_bytes read_at
    put_name praas.Wire.Bytes.put_at put_int praas.Wire.Words.to_bytes praas.Wire.Names.strncpy
    praas.Ipc.GenericRequest.process_id praas.Controller.State.is_self praas.Base.Text.text_eq
    praas.Ipc.GenericRequest.name find
rendezvous_example =
    rendezvous roomy 0 9 (record { busy = true; ipc_write = [] }) (request mine) (request mine)
      (5 ∷ 6 ∷ []) refl (omega arith) (omega arith) refl refl refl refl refl
      (omega arith, (omega arith, tt)) (omega arith, (omega arith, tt)) refl tt

abbrev put_bytes : List ℕ
put_bytes =
    put_name 32 38 theirs
      (put_name 32 6 key (put_int 4 2 (pos 2) (put_int 2 0 (pos 9) (replicate 70 0))))

abbrev put_object : PutMessage
put_object = record { buf = put_bytes; name_len = 1; id_len = 1 }

abbrev outside : ExternalMessage
outside = record { source_type = data_plane; source = none; msg = put_bytes; payload = 5 ∷ 6 ∷ [] }

abbrev waiting : Controller
waiting = record start {
  pending_msgs = record { key = key; waiting = Pending.get; source = mine; worker = 0 } ∷ [];
}

abbrev stored : Controller
stored = record start {
  mailbox = record {
    msgs = (key, record { source = theirs; payload = 5 ∷ 6 ∷ [] }) ∷ [];
    state_keys = [];
  };
}

process_internal_message-IsWellFormed_example : IsWellFormed (waiting)
unfolding process_internal_message praas.Ipc.Parser.parse praas.Wire.Words.get_int
    praas.Base.Int.of_word praas.Wire.Words.of_bytes read_at put_name praas.Wire.Bytes.put_at
    put_int praas.Wire.Words.to_bytes praas.Base.Int.to_word praas.Ipc.GenericRequest.state
    praas.Wire.Words.get_byte of_buffer praas.Wire.Names.strncpy praas.Controller.Mailbox.try_get
    find Pending.insert_get praas.Ipc.GenericRequest.name praas.Base.Text.text_eq
    praas.Wire.Names.strnlen praas.Ipc.GenericRequest.process_id
process_internal_message-IsWellFormed_example =
    process_internal_message-IsWellFormed (λ keys. []) 9 0 (request_bytes 1 mine) [] start waiting
      refl (empty-IsConsistent, refl) refl

process_external_message-IsWellFormed_example : IsWellFormed stored
unfolding process_external_message praas.Message.Parser.parse praas.Wire.Words.get_int
    praas.Base.Int.of_word praas.Wire.Words.of_bytes read_at put_name praas.Wire.Bytes.put_at
    put_int praas.Wire.Words.to_bytes praas.Base.Int.to_word praas.Controller.Replies.arrived
    Pending.find_get praas.Controller.Mailbox.put find praas.Base.Dict.assign
    praas.Message.PutMessage.name praas.Message.PutMessage.process_id
    praas.Message.PutMessage.of_buffer praas.Wire.Names.strnlen praas.Wire.Names.strncpy
process_external_message-IsWellFormed_example =
    process_external_message-IsWellFormed outside start stored (empty-IsConsistent, refl) refl

abbrev wide : Controller
wide = record start { workers = record start.workers { msg_size = 128 } }

abbrev news : List ApplicationUpdate
news =
    record { status = active; process_id = theirs }
    ∷ record { status = swapped; process_id = mine }
    ∷ []

process_application_updates_example :
    (packets : Queue) × (view : Application) × (process_application_updates news wide
      ≡ ok (record (told packets wide) { application = view }))
    × Announces news packets
    × Viewed news wide.application view
process_application_updates_example =
    process_application_updates_lem news wide (omega arith)
      ((omega arith, (omega arith, tt)), ((omega arith, (omega arith, tt)), tt))
