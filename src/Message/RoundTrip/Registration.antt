-- ===== src/Message/RoundTrip/Registration.antt =====
-- ProcessConnection.
use praas.Base.{ℕ, ◌≡◌, List, length, arith, ◌∙◌, ap, sym, subst}
use praas.Base.Int.{pos}
use praas.Base.Text.{Text}
use praas.Message.Header.{length-new_buffer, fresh_type, new_buffer, type_value}
use praas.Message.Header
use praas.Message.ProcessConnection
use praas.Message.ProcessConnection.{ProcessConnection}
use praas.Message.Parser.{process_connection, parse, parse_as}
use praas.Message.Builders.{connection_message}
use praas.Message.RoundTrip.Typed.{parse-typed}
use praas.Result.{ok, ok-injective}
use praas.Wire.Bytes.{read_at}
use praas.Wire.Words.{get_int}
use praas.Wire.Names.{IsName, put_name, length-put_name, strncpy, view_cached, measured}
use praas.Wire.Fields.{fields}

connection_bytes : Text → List ℕ
connection_bytes id = put_name 32 6 id (new_buffer Header.process_connection)

connection_object : Text → ProcessConnection
unfolding connection_bytes
connection_object id = record { buf = connection_bytes id; process_name_len = length id }

module _ (id : Text) (hi : IsName 32 id) where
  holds_id : read_at 6 32 (connection_bytes id) ≡ strncpy 32 id
  unfolding connection_bytes
  holds_id = simp (fields, length-new_buffer)

  connection_type : get_int 2 0 (connection_bytes id) ≡ pos (type_value Header.process_connection)
  unfolding connection_bytes
  connection_type = simp (fields, fresh_type)

  of_buffer-connection_bytes :
      ProcessConnection.of_buffer (connection_bytes id) ≡ connection_object id
  unfolding ProcessConnection.of_buffer connection_object
  of_buffer-connection_bytes = cc (measured 32 6 id (connection_bytes id) holds_id hi)

  connection_message-eq : connection_message id ≡ ok (connection_object id)
  unfolding connection_message connection_object ProcessConnection.fresh
      ProcessConnection.set_process_name
  connection_message-eq = ground arith

  parse-connection_object :
      parse (connection_object id).buf ≡ ok (process_connection (connection_object id))
  unfolding parse_as connection_object type_value
  parse-connection_object =
      parse-typed Header.process_connection _ connection_type
      ∙ ap (λ m. ok (process_connection m)) of_buffer-connection_bytes

  view_name : ProcessConnection.process_name (connection_object id) ≡ id
  unfolding connection_object ProcessConnection.process_name
  view_name = view_cached 32 6 id _ holds_id hi

-- A process registers under any name of at most 32 bytes, and the peer parses the registration back
-- to the object that was sent, with that name.
pub parse-connection_message :
    (id : Text)
    → IsName 32 id
    → (m : ProcessConnection) × (connection_message id ≡ ok m)
      × (parse m.buf ≡ ok (process_connection m))
      × (ProcessConnection.process_name m ≡ id)
parse-connection_message id hi = (
  connection_object id,
  connection_message-eq id hi,
  parse-connection_object id hi,
  view_name id hi,
)

length-connection_object : (id : Text) → length (connection_object id).buf ≡ 70
unfolding connection_object connection_bytes
length-connection_object id =
    length-put_name 32 6 id _ ∙ length-new_buffer Header.process_connection

-- What the receiver of a registration finds in it.
pub record IsRegistration (id : Text) (m : ProcessConnection) : Type 0 where
  pub parsed : parse m.buf ≡ ok (process_connection m)
  pub size : length m.buf ≡ 70
  pub named : ProcessConnection.process_name m ≡ id

pub connection_message-IsRegistration :
    (id : Text) (m : ProcessConnection)
    → IsName 32 id
    → connection_message id ≡ ok m
    → IsRegistration id m
connection_message-IsRegistration id m hi e =
    subst (IsRegistration id) {x = connection_object id} {y = m}
      (ok-injective (sym (connection_message-eq id hi) ∙ e))
      (record {
        parsed = parse-connection_object id hi;
        size = length-connection_object id;
        named = view_name id hi;
      })
