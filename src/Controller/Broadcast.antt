-- ===== src/Controller/Broadcast.antt =====
-- What the workers are told of the application.
use praas.Base.{ℕ, ◌^◌, ◌≤◌, ◌≡◌, refl, sym, ap, ◌∙◌, List, [], ◌∷◌, ◌++◌, map, length, arith, All}
use praas.Base.Int.{pos, Fits}
use praas.Controller.Application.Processes.{Views, update_lem}
use praas.Controller.Application.{
  Application, update, Status, active, swapped, status_value, ApplicationUpdate,
}
use praas.Controller.External.{send_to_all, broadcast, update_all, process_application_updates}
use praas.Controller.State.{Controller}
use praas.Controller.Workers.{FunctionWorker, write}
use praas.Ipc.ApplicationUpdate as Update
use mathlib.Core.List.{append_assoc, append-nil}
use praas.Ipc.Channel.Sending.{send_bytes_one}
use praas.Ipc.Channel.{Queue, Packet, send_header}
use praas.Ipc.Header.{set_total_length, kind_value, length-new_buffer, fresh_kind}
use praas.Ipc.Header
use praas.Ipc.Parser
use praas.Ipc.Parser.{parse, parse_as}
use praas.Ipc.RoundTrip.Typed.{parse-typed}
use praas.Result.{ok, ◌>>=◌}
use praas.Wire.Bytes.{read_at}
use praas.Wire.Fields.{fields}
use praas.Wire.Names.{IsName, put_name, strncpy, view_cached, measured}
use praas.Wire.Words.{get_int, put_int, length-put_int}

-- The packet is read as the update.
abbrev pub Tells : ApplicationUpdate → Packet → Type 0
Tells u packet =
    (m : Update.ApplicationUpdate) × (parse packet ≡ ok (Parser.application_update m))
    × (Update.process_id m ≡ u.process_id)
    × (Update.status_change m ≡ status_value u.status)

status-Fits : (s : Status) → Fits (2 ^ 32) (status_value s)
unfolding status_value
status-Fits active = omega arith
status-Fits swapped = omega arith

filled_bytes : ApplicationUpdate → Update.ApplicationUpdate → List ℕ
filled_bytes u m = put_int 4 38 (status_value u.status) (put_name 32 6 u.process_id m.buf)

sent : ApplicationUpdate → Update.ApplicationUpdate → Update.ApplicationUpdate
unfolding filled_bytes
sent u m = record { buf = put_int 4 2 (pos 0) (filled_bytes u m); id_len = length u.process_id }

module _ (u : ApplicationUpdate) (m : Update.ApplicationUpdate) (full : length m.buf ≡ 128) where
  length-filled_bytes : length (filled_bytes u m) ≡ 128
  unfolding filled_bytes
  length-filled_bytes = simp (fields, full)

  filled_kind : get_int 2 0 (filled_bytes u m) ≡ get_int 2 0 m.buf
  unfolding filled_bytes
  filled_kind = simp fields

  sent_id : read_at 6 32 (sent u m).buf ≡ strncpy 32 u.process_id
  unfolding sent
  sent_id = simp (fields, full)

  sent_status : Update.status_change (sent u m) ≡ status_value u.status
  unfolding sent Update.status_change
  sent_status = simp (fields, full, status-Fits)

  sent_kind : get_int 2 0 (sent u m).buf ≡ get_int 2 0 m.buf
  unfolding sent
  sent_kind = simp fields

  of_buffer-sent : IsName 32 u.process_id → Update.of_buffer (sent u m).buf ≡ sent u m
  unfolding Update.of_buffer sent
  of_buffer-sent hi = cc (measured 32 6 u.process_id (sent u m).buf sent_id hi)

  sent_name : IsName 32 u.process_id → Update.process_id (sent u m) ≡ u.process_id
  unfolding Update.process_id sent
  sent_name hi = view_cached 32 6 u.process_id (sent u m).buf sent_id hi

  sent-Tells :
      get_int 2 0 m.buf ≡ pos (kind_value Header.application_update)
      → IsName 32 u.process_id
      → Tells u (sent u m).buf
  unfolding parse_as kind_value
  sent-Tells k hi = (
    sent u m,
    parse-typed Header.application_update _ (sent_kind ∙ k)
        ∙ ap (λ x. ok (Parser.application_update x)) (of_buffer-sent hi),
    sent_name hi,
    sent_status,
  )

  one_packet :
      (msg_size : ℕ)
      → 128 ≤ msg_size
      → send_header msg_size (filled_bytes u m) ≡ (sent u m).buf ∷ []
  unfolding send_header set_total_length sent
  one_packet msg_size room =
      send_bytes_one msg_size (omega arith) _
        (omega (arith, length-put_int 4 2 (pos 0) (filled_bytes u m), length-filled_bytes))
        (omega (arith, length-put_int 4 2 (pos 0) (filled_bytes u m), length-filled_bytes))

  filled : Update.ApplicationUpdate
  filled = record { buf = filled_bytes u m; id_len = length u.process_id }

  fills :
      length u.process_id ≤ 32
      → (Update.set_process_id u.process_id m >>= λ n.
          ok (Update.set_status_change (status_value u.status) n))
        ≡ ok filled
  unfolding filled filled_bytes Update.set_process_id Update.set_status_change
  fills short = ground arith

-- Each update is told by its packet.
pub data Announces : List ApplicationUpdate → Queue → Type 0 where
  none_left : Announces [] []
  next_one :
      {u : ApplicationUpdate} {packet : Packet} {us : List ApplicationUpdate} {packets : Queue}
      → Tells u packet
      → Announces us packets
      → Announces (u ∷ us) (packet ∷ packets)

write_nothing : (ws : List FunctionWorker) → map (write []) ws ≡ ws
write_nothing [] = refl
write_nothing (w ∷ ws) = cc (append-nil w.ipc_write, write_nothing ws)

write_twice :
    (p q : Queue) (ws : List FunctionWorker)
    → map (write q) (map (write p) ws) ≡ map (write (p ++ q)) ws
write_twice p q [] = refl
write_twice p q (w ∷ ws) = cc (append_assoc w.ipc_write p q, write_twice p q ws)

-- The controller after packets were sent to every worker.
abbrev pub told : Queue → Controller → Controller
told packets c = record c {
  workers = record c.workers { workers = map (write packets) c.workers.workers };
}

broadcast_step :
    (u : ApplicationUpdate) (us : List ApplicationUpdate) (m : Update.ApplicationUpdate)
    (c : Controller)
    → (full : length m.buf ≡ 128) → 128 ≤ c.workers.msg_size
    → length u.process_id ≤ 32
    → broadcast (u ∷ us) m c ≡ broadcast us (filled u m full) (told ((sent u m).buf ∷ []) c)
unfolding broadcast send_to_all filled Update.set_process_id Update.set_status_change filled_bytes
broadcast_step u us m c full room short =
    ground (arith, one_packet u m full c.workers.msg_size room)

broadcast_lem :
    (us : List ApplicationUpdate) (m : Update.ApplicationUpdate) (c : Controller)
    → length m.buf ≡ 128
    → get_int 2 0 m.buf ≡ pos (kind_value Header.application_update)
    → 128 ≤ c.workers.msg_size
    → All (λ u. IsName 32 u.process_id) us
    → (packets : Queue) × (broadcast us m c ≡ ok (told packets c)) × Announces us packets
unfolding broadcast filled
broadcast_lem [] m c full k room names = (
  [],
  ap (λ ws. ok (record c { workers = record c.workers { workers = ws } }))
      (sym (write_nothing c.workers.workers)),
  none_left,
)
broadcast_lem (u ∷ us) m c full k room names =
    let (packets, e, rest) =
      broadcast_lem us (filled u m full) (told ((sent u m).buf ∷ []) c)
        (length-filled_bytes u m full) (filled_kind u m full ∙ k) room names.1 in
    (
      (sent u m).buf ∷ packets,
      broadcast_step u us m c full room names.0.0
          ∙ e
          ∙ ap (λ ws. ok (record c { workers = record c.workers { workers = ws } }))
              (write_twice ((sent u m).buf ∷ []) packets c.workers.workers),
      next_one (sent-Tells u m full k names.0) rest,
    )

fresh_length : length Update.fresh.buf ≡ 128
unfolding Update.fresh Update.of_buffer
fresh_length = length-new_buffer Header.application_update

fresh_is_update : get_int 2 0 Update.fresh.buf ≡ pos (kind_value Header.application_update)
unfolding Update.fresh Update.of_buffer
fresh_is_update = fresh_kind Header.application_update

-- What a process sees of a sequence of updates.
pub data Viewed : List ApplicationUpdate → Application → Application → Type 0 where
  up_to_date : {a : Application} → Viewed [] a a
  update_next :
      {u : ApplicationUpdate} {us : List ApplicationUpdate} {a b c : Application}
      → Views u.status u.process_id a b
      → Viewed us b c
      → Viewed (u ∷ us) a c

update_all-Viewed : (us : List ApplicationUpdate) (a : Application) → Viewed us a (update_all us a)
unfolding update_all
update_all-Viewed [] a = up_to_date
update_all-Viewed (u ∷ us) a =
    update_next ((update_lem u.status u.process_id a).0)
      (update_all-Viewed us (update u.status u.process_id a))

-- Updates of the application reach every worker and the controller's own view. If the process ids are
-- texts without a 0 of at most 32 bytes and a packet holds a header, the handler returns; every
-- worker's channel has the same new packets, one for each update in their order, which is read as an
-- application update with the process and the status, though one message object served them all;
-- the controller's view follows the updates one by one: ACTIVE puts the process behind the active
-- ones, SWAPPED moves its first entry behind the swapped ones or changes nothing without one. Nothing
-- else has changed.
pub process_application_updates_lem :
    (updates : List ApplicationUpdate) (c : Controller)
    → 128 ≤ c.workers.msg_size
    → All (λ u. IsName 32 u.process_id) updates
    → (packets : Queue) × (view : Application) × (process_application_updates updates c
        ≡ ok (record (told packets c) { application = view }))
      × Announces updates packets
      × Viewed updates c.application view
unfolding process_application_updates
process_application_updates_lem updates c room names =
    let (packets, e, announced) =
      broadcast_lem updates Update.fresh c fresh_length fresh_is_update room names in
    (
      packets,
      update_all updates c.application,
      rw e refl,
      announced,
      update_all-Viewed updates c.application,
    )
