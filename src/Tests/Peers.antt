-- ===== src/Tests/Peers.antt =====
-- The server of a process with one peer that it does not know yet, or has just connected to.
use praas.Base.{
  ℕ, ◌≡◌, refl, Bool, true, false, Option, none, some, List, [], ◌∷◌, ◌++◌, length, drop, replicate,
  get_elem?, arith, ◌==◌, if◌then◌else◌,
}
use praas.Base.Int.{pos}
use praas.Base.Text.{Text, codes}
use praas.Controller.Mailbox.{Payload}
use praas.Controller.WorkQueue
use praas.Message.ProcessConnection.{ProcessConnection}
use praas.Outcome.{done, ◌>>◌}
use praas.Remote.{
  Status, disconnected, connected, Connection, Effect, sent, start_client, remote_message,
  TcpServer,
}
use praas.Remote.Receiving.{handle_next, hand_remote}
use praas.Remote.Receiving.Registering.{correct, confirmation_misread}
use praas.Remote.Sending.{client_connected}
use praas.Remote.Sending.Pending.{stream, send_each, client_connected-send_each}
use praas.Wire.Buffer.{MsgBuffer, IsBuffer}

abbrev bytes : MsgBuffer (List ℕ)
bytes = record { readable_bytes = λ b. length b; peek = λ b. b; retrieve = λ n b. drop n b }

bytes-IsBuffer : IsBuffer bytes
bytes-IsBuffer = record { readable = λ b. refl; retrieved = λ n b. refl }

abbrev peer : Status → Option ℕ → Connection
peer status conn = record {
  status = status;
  kind = WorkQueue.process;
  id = some (codes "peer");
  conn = conn;
  ip_address = codes "10.0.0.3";
  port = pos 8000;
  cur_msg = [];
  parsed_msg = none;
  bytes_to_read = 0;
  pendings_msgs = [];
}

abbrev own : ProcessConnection
own = record {
  buf = (1 ∷ 0 ∷ 0 ∷ 0 ∷ 0 ∷ 0 ∷ []) ++ (codes "me" ++ replicate 62 0);
  process_name_len = 2;
}

client_connected-send_each_example :
    (out : List Effect) × ((do
      send_each 0 ((1 ∷ [], 2 ∷ []) ∷ (3 ∷ [], []) ∷ [])
      client_connected (codes "me") 4)
        (peer disconnected none)
      ≡ done tt
          (peer connected (some 4))
          (start_client 0 (codes "10.0.0.3") (pos 8000) ∷ sent 4 own.buf ∷ out))
    × (stream 4 out ≡ some (1 ∷ 2 ∷ 3 ∷ []))
unfolding praas.Message.Builders.connection_message praas.Message.ProcessConnection.set_process_name
    praas.Wire.Names.put_name praas.Wire.Bytes.put_at praas.Message.ProcessConnection.fresh
    praas.Message.Header.new_buffer praas.Wire.Words.put_int praas.Wire.Words.to_bytes
    praas.Base.Int.to_word praas.Wire.Names.strncpy
client_connected-send_each_example =
    client_connected-send_each 0 4 (codes "me") own (1 ∷ []) (2 ∷ []) ((3 ∷ [], []) ∷ [])
      (peer disconnected none) refl refl refl refl

abbrev confirmation : ProcessConnection
confirmation = record {
  buf = (1 ∷ 0 ∷ 0 ∷ 0 ∷ 0 ∷ 0 ∷ []) ++ (correct ++ replicate 57 0);
  process_name_len = 7;
}

abbrev server : TcpServer
server = record {
  process_id = codes "me";
  connections = peer connected (some 4) ∷ [];
  connection_data = (codes "peer", 0) ∷ [];
  contexts = λ c. none;
  data_plane = none;
  control_plane = none;
}

confirmation_misread_example :
    (t : TcpServer) × (c : Connection) × (handle_next bytes 4 (confirmation.buf ++ (9 ∷ []), server)
      ≡ done true (drop 70 (confirmation.buf ++ (9 ∷ [])), t) (sent 4 confirmation.buf ∷ []))
    × (t.contexts 4 ≡ some 1)
    × (get_elem? t.connections 1 ≡ some c)
    × ((payload : Payload)
        → hand_remote payload c ≡ done tt c (remote_message [] payload correct ∷ []))
unfolding praas.Base.Dict.find praas.Base.Text.text_eq praas.Message.Builders.connection_message
    praas.Message.ProcessConnection.set_process_name praas.Wire.Names.put_name
    praas.Wire.Bytes.put_at praas.Message.ProcessConnection.fresh praas.Message.Header.new_buffer
    praas.Wire.Words.put_int praas.Wire.Words.to_bytes praas.Base.Int.to_word
    praas.Wire.Names.strncpy
confirmation_misread_example =
    confirmation_misread bytes bytes-IsBuffer 4 (confirmation.buf ++ (9 ∷ [])) (9 ∷ []) server
      confirmation refl refl refl refl
