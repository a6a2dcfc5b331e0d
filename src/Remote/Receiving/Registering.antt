-- ===== src/Remote/Receiving/Registering.antt =====
-- The confirmation of a registration, at the side that registered.
use praas.Base.{
  take_all-append, ℕ, ltb, ◌≡◌, refl, ap, ◌∙◌, true, false, none, some, List, [], ◌∷◌, ◌++◌, arith,
  length, length-append, take, get_elem?, get_elem?-append_last,
}
use praas.Base.Dict.{find}
use praas.Base.Text.{Text, codes, text_eq}
use praas.Controller.WorkQueue
use praas.Controller.Mailbox.{Payload}
use praas.Message.Builders.{connection_message}
use praas.Message.Header.{buf_size}
use praas.Message.Parser.{process_connection, parse}
use praas.Message.ProcessConnection.{ProcessConnection, process_name}
use praas.Message.RoundTrip.Registration.{connection_message-IsRegistration}
use praas.Outcome.{after-nil, done}
use praas.Remote.{connected, Connection, sent, remote_message, TcpServer, new_connection}
use praas.Remote.Receiving.{
  handle_next, handle_unknown, handle_connection, register, set_context, note_plane, new_remote,
  add_connection, hand_remote,
}
use praas.Result.{ok}
use praas.Wire.Buffer.{MsgBuffer, IsBuffer}

abbrev pub correct : Text
correct = codes "CORRECT"

-- The server after it took a confirmation for a registration.
abbrev misread : ℕ → TcpServer → TcpServer
misread conn s = set_context conn (length s.connections) (
    add_connection correct (new_connection connected WorkQueue.process (some correct) (some conn))
      s)

register-correct :
    (conn : ℕ) (s : TcpServer)
    → find correct s.connection_data ≡ none
    → register conn correct s ≡ done tt (misread conn s) []
unfolding register note_plane new_remote text_eq
register-correct conn s e = ground arith

-- A registration that is in the buffer whole, on a connection without a context.
next_unknown :
    {B : Type 0} (m : MsgBuffer B) (laws : IsBuffer m) (conn : ℕ) (b : B) (rest : List ℕ)
    (s : TcpServer) (req : ProcessConnection)
    → s.contexts conn ≡ none
    → parse req.buf ≡ ok (process_connection req)
    → length req.buf ≡ 70
    → m.peek b ≡ req.buf ++ rest
    → handle_next m conn (b, s) ≡ handle_unknown m conn (process_connection req) (b, s)
unfolding handle_next
next_unknown m laws conn b rest s req fresh parsed size e =
    let whole : take buf_size (m.peek b) ≡ req.buf =
      ap (take buf_size) e ∙ take_all-append 70 req.buf rest size in
    let read : parse (take buf_size (m.peek b)) ≡ ok (process_connection req) =
      ap parse whole ∙ parsed in
    let enough : ltb (m.readable_bytes b) buf_size ≡ false =
      ground (arith, laws.readable b, length-append req.buf rest) in
    ground (arith, read, enough, after-nil (handle_unknown m conn (process_connection req) (b, s)))

module _ {B : Type 0} (m : MsgBuffer B) (laws : IsBuffer m) (conn : ℕ) (b : B) (rest : List ℕ)
    (s : TcpServer) (req : ProcessConnection) where
  handle_connection-correct :
      find correct s.connection_data ≡ none
      → connection_message correct ≡ ok req
      → process_name req ≡ correct
      → handle_connection conn req s ≡ done tt (misread conn s) (sent conn req.buf ∷ [])
  unfolding handle_connection
  handle_connection-correct free made named = ground (arith, register-correct conn s free)

  unknown_lem :
      find correct s.connection_data ≡ none
      → connection_message correct ≡ ok req
      → process_name req ≡ correct
      → handle_unknown m conn (process_connection req) (b, s)
        ≡ done true (m.retrieve 70 b, misread conn s) (sent conn req.buf ∷ [])
  unfolding handle_unknown
  unknown_lem free made named = ground (arith, handle_connection-correct free made named)

  -- A process that connected to another one by itself gets the confirmation of its registration on
  -- a connection without a context. It takes it for the registration of a process of the name
  -- CORRECT: it enters a new connection object under that name, ties the connection to it, and
  -- sends a confirmation in its turn. Messages that come on the connection later are handed to the
  -- controller as messages of a process CORRECT.
  pub confirmation_misread :
      s.contexts conn ≡ none
      → find correct s.connection_data ≡ none
      → connection_message correct ≡ ok req
      → m.peek b ≡ req.buf ++ rest
      → (t : TcpServer) × (c : Connection) × (handle_next m conn (b, s)
          ≡ done true (m.retrieve 70 b, t) (sent conn req.buf ∷ []))
        × (t.contexts conn ≡ some (length s.connections))
        × (get_elem? t.connections (length s.connections) ≡ some c)
        × ((payload : Payload)
            → hand_remote payload c ≡ done tt c (remote_message [] payload correct ∷ []))
  unfolding set_context add_connection hand_remote
  confirmation_misread fresh free made e =
      let r = connection_message-IsRegistration correct req (omega arith) made in
      (
        misread conn s,
        new_connection connected WorkQueue.process (some correct) (some conn),
        next_unknown m laws conn b rest s req fresh (r.parsed) r.size e
            ∙ unknown_lem free made r.named,
        ground arith,
        get_elem?-append_last s.connections _,
        λ payload. refl,
      )
