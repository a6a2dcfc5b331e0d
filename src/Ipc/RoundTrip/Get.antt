-- ===== src/Ipc/RoundTrip/Get.antt =====
-- GetRequest and PutRequest, also as the controller's answer to a worker.
use praas.Base.{ℕ, ◌≡◌, Bool, true, false, List, length, arith, ◌∙◌, ap, if◌then◌else◌}
use praas.Base.Int.{pos}
use praas.Base.Text.{Text}
use praas.Ipc.Header.{
  Kind, get_request, put_request, kind_value, new_buffer, length-new_buffer, fresh_kind,
}
use praas.Ipc.GenericRequest
use praas.Ipc.GenericRequest.{GenericRequest}
use praas.Ipc.Parser.{MessageVariants, parse, parse_as}
use praas.Ipc.Parser
use praas.Ipc.RoundTrip.Typed.{parse-typed}
use praas.Result.{Result, ok, ◌>>=◌}
use praas.Wire.Bytes.{read_at}
use praas.Wire.Words.{get_int, get_byte, put_byte}
use praas.Wire.Names.{IsName, put_name, strncpy, view_cached, measured}
use praas.Wire.Fields.{fields}

-- The setters in the order of their calls in `_process_internal_message` and `_process_put`.
unfoldable pub filled : Kind → Text → Text → Bool → Result GenericRequest
filled k id name state = do
  a ← GenericRequest.set_process_id id (GenericRequest.fresh k)
  b ← GenericRequest.set_name name a
  ok (GenericRequest.set_state state b)

flag : Bool → ℕ
flag b = if b then 1 else 0

generic_bytes : Kind → Text → Text → Bool → List ℕ
generic_bytes k id name state =
    put_byte 74 (flag state)
      (put_name 32 42 name (put_name 32 10 id (put_byte 74 0 (new_buffer k))))

generic_object : Kind → Text → Text → Bool → GenericRequest
unfolding generic_bytes
generic_object k id name state = record {
  buf = generic_bytes k id name state;
  id_len = length id;
  name_len = length name;
}

-- How the parser reads a request of either kind.
abbrev pub variant : Bool → GenericRequest → MessageVariants
variant true m = Parser.get_request m
variant false m = Parser.put_request m

abbrev pub kind : Bool → Kind
kind true = get_request
kind false = put_request

module _ (k : Kind) (id name : Text) (state : Bool) where
  holds_id : read_at 10 32 (generic_bytes k id name state) ≡ strncpy 32 id
  unfolding generic_bytes
  holds_id = simp (fields, length-new_buffer)

  holds_name : read_at 42 32 (generic_bytes k id name state) ≡ strncpy 32 name
  unfolding generic_bytes
  holds_name = simp (fields, length-new_buffer)

  holds_flag : get_byte 74 (generic_bytes k id name state) ≡ flag state
  unfolding generic_bytes
  holds_flag = simp (fields, length-new_buffer)

  holds_kind : get_int 2 0 (generic_bytes k id name state) ≡ pos (kind_value k)
  unfolding generic_bytes
  holds_kind = simp (fields, fresh_kind)

  view_state : GenericRequest.state (generic_object k id name state) ≡ state
  unfolding generic_object GenericRequest.state flag
  view_state = ground (arith, holds_flag)

  module _ (hi : IsName 32 id) (hn : IsName 32 name) where
    of_buffer-generic_bytes :
        GenericRequest.of_buffer (generic_bytes k id name state) ≡ generic_object k id name state
    unfolding GenericRequest.of_buffer generic_object
    of_buffer-generic_bytes = cc (
      measured 32 10 id (generic_bytes k id name state) holds_id hi,
      measured 32 42 name (generic_bytes k id name state) holds_name hn,
    )

    filled-eq : filled k id name state ≡ ok (generic_object k id name state)
    unfolding filled generic_object flag GenericRequest.fresh GenericRequest.set_process_id
        GenericRequest.set_name GenericRequest.set_state GenericRequest.of_buffer
    filled-eq = ground arith

    view_names :
        (GenericRequest.process_id (generic_object k id name state) ≡ id)
        × (GenericRequest.name (generic_object k id name state) ≡ name)
    unfolding generic_object GenericRequest.process_id GenericRequest.name
    view_names = (view_cached 32 10 id _ holds_id hi, view_cached 32 42 name _ holds_name hn)

parse-generic_object :
    (is_get : Bool) (id name : Text) (state : Bool)
    → IsName 32 id
    → IsName 32 name
    → parse (generic_object (kind is_get) id name state).buf
      ≡ ok (variant is_get (generic_object (kind is_get) id name state))
unfolding parse_as generic_object kind_value
parse-generic_object true id name state hi hn =
    parse-typed get_request _ (holds_kind get_request id name state)
    ∙ ap (λ m. ok (Parser.get_request m)) (of_buffer-generic_bytes get_request id name state hi hn)
parse-generic_object false id name state hi hn =
    parse-typed put_request _ (holds_kind put_request id name state)
    ∙ ap (λ m. ok (Parser.put_request m)) (of_buffer-generic_bytes put_request id name state hi hn)

-- A get or put request with a process id and a key of at most 32 bytes each and either state flag
-- parses back, as a request of its kind, to the object that was sent; the accessors return the id,
-- the key and the flag.
pub parse-filled :
    (is_get : Bool) (id name : Text) (state : Bool)
    → IsName 32 id
    → IsName 32 name
    → (m : GenericRequest) × (filled (kind is_get) id name state ≡ ok m)
      × (parse m.buf ≡ ok (variant is_get m))
      × (GenericRequest.process_id m ≡ id)
      × (GenericRequest.name m ≡ name)
      × (GenericRequest.state m ≡ state)
parse-filled is_get id name state hi hn =
    let k = kind is_get in
    let (i, n) = view_names k id name state hi hn in
    (
      generic_object k id name state,
      filled-eq k id name state hi hn,
      parse-generic_object is_get id name state hi hn,
      i,
      n,
      view_state k id name state,
    )
