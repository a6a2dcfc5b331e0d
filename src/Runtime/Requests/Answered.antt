-- ===== src/Runtime/Requests/Answered.antt =====
-- A get of a user function from its request to the buffer that it returns.
use praas.Base.{
  ℕ, ◌≤◌, ◌≡◌, refl, false, some, List, [], ◌∷◌, ◌++◌, length, arith, ap, sym, ◌∙◌,
  get_elem?-append_last, take_all,
}
use praas.Base.Int.{pos, of_word}
use praas.Base.Text.{Text, text_eq_iff}
use praas.Ipc.GenericRequest
use praas.Ipc.GenericRequest.{GenericRequest}
use praas.Ipc.Header.{get_request, kind_value, new_buffer, length-new_buffer, fresh_kind}
use praas.Ipc.Parser
use praas.Ipc.Parser.{parse, parse_as}
use praas.Ipc.RoundTrip.Typed.{parse-typed}
use praas.Outcome.{done, after}
use praas.Result.{ok}
use praas.Runtime.{owned, put, Memory, base, Context, Buffer, load}
use praas.Runtime.Output.{view}
use praas.Runtime.Requests.{Reply, get, get_reply, accept, keep_data, is_negative}
use praas.Wire.Bytes.{read_at, put_at}
use praas.Wire.Fields.{fields}
use praas.Wire.Names.{IsName, put_name, strncpy, view_cached, measured}
use praas.Wire.Words.{get_int, put_int, to_bytes, of_bytes, put_byte}

get_bytes : Text → Text → List ℕ
get_bytes source key =
    put_name 32 42 key (put_name 32 10 source (put_byte 74 0 (new_buffer get_request)))

get_object : Text → Text → GenericRequest
unfolding get_bytes
get_object source key = record {
  buf = get_bytes source key;
  id_len = length source;
  name_len = length key;
}

fresh_length : get_int 4 6 (new_buffer get_request) ≡ pos 0
unfolding new_buffer get_int put_int to_bytes of_bytes put_at read_at kind_value of_word
fresh_length = refl

module _ (source key : Text) where
  holds_source : read_at 10 32 (get_bytes source key) ≡ strncpy 32 source
  unfolding get_bytes
  holds_source = simp (fields, length-new_buffer)

  holds_key : read_at 42 32 (get_bytes source key) ≡ strncpy 32 key
  unfolding get_bytes
  holds_key = simp (fields, length-new_buffer)

  holds_kind : get_int 2 0 (get_bytes source key) ≡ pos (kind_value get_request)
  unfolding get_bytes
  holds_kind = simp (fields, fresh_kind)

  no_length : get_int 4 6 (get_bytes source key) ≡ pos 0
  unfolding get_bytes
  no_length = simp (fields, fresh_length)

  module _ (hs : IsName 32 source) (hk : IsName 32 key) where
    of_buffer-get_bytes : GenericRequest.of_buffer (get_bytes source key) ≡ get_object source key
    unfolding GenericRequest.of_buffer get_object
    of_buffer-get_bytes = cc (
      measured 32 10 source (get_bytes source key) holds_source hs,
      measured 32 42 key (get_bytes source key) holds_key hk,
    )

    view_names :
        (GenericRequest.process_id (get_object source key) ≡ source)
        × (GenericRequest.name (get_object source key) ≡ key)
    unfolding get_object GenericRequest.process_id GenericRequest.name
    view_names = (view_cached 32 10 source _ holds_source hs, view_cached 32 42 key _ holds_key hk)

    parse-get_object :
        parse (get_object source key).buf ≡ ok (Parser.get_request (get_object source key))
    unfolding parse_as get_object kind_value
    parse-get_object =
        parse-typed get_request _ holds_kind
        ∙ ap (λ m. ok (Parser.get_request m)) of_buffer-get_bytes

data_len-get_object :
    (source key : Text) → is_negative (GenericRequest.data_len (get_object source key)) ≡ false
unfolding get_object GenericRequest.data_len
data_len-get_object source key = rw (no_length source key) refl

accept_lem :
    (req : GenericRequest) (r : Reply) (s : Context)
    → is_negative (GenericRequest.data_len req) ≡ false
    → GenericRequest.process_id r.request ≡ GenericRequest.process_id req
    → GenericRequest.name r.request ≡ GenericRequest.name req
    → accept req r s ≡ keep_data r.block r.len s
unfolding accept
accept_lem req r s h i n = ground (
  arith,
  h,
  (text_eq_iff (GenericRequest.process_id req) (GenericRequest.process_id r.request)).1 (sym i),
  (text_eq_iff (GenericRequest.name req) (GenericRequest.name r.request)).1 (sym n),
)

get-accept :
    (source key : Text) (r : Reply) (s : Context)
    → length source ≤ 32
    → length key ≤ 32
    → get source key (some r) s
      ≡ after (put (get_object source key).buf [] ∷ []) (accept (get_object source key) r s)
unfolding get get_reply GenericRequest.set_process_id GenericRequest.set_name GenericRequest.fresh
    GenericRequest.of_buffer GenericRequest.set_state get_object get_bytes
get-accept source key r s hs hk = ground arith

load-whole :
    (m : Memory) (bytes : List ℕ)
    → load (m ++ some bytes ∷ []) (base (some (length m))) (length bytes) ≡ some bytes
load-whole m [] = refl
load-whole m (x ∷ bytes) = ground (
  arith,
  get_elem?-append_last m (some (x ∷ bytes)),
  take_all (length (x ∷ bytes)) (x ∷ bytes) (omega arith),
)

kept : List ℕ → Context → Context
kept bytes s = record s {
  memory = s.memory ++ some bytes ∷ [];
  user_buffers =
      s.user_buffers ++ owned (some (length s.memory)) (length bytes) (length bytes) ∷ [];
}

-- A get sends one message, which the controller reads as a get of that process and key, and given
-- an answer that names both it returns a buffer of the answer's bytes, which it keeps among the
-- user's. The length that the answer announces is not looked at, also where it is negative.
pub get-answered :
    (source key : Text) (request : GenericRequest) (bytes : List ℕ) (s : Context)
    → IsName 32 source
    → IsName 32 key
    → GenericRequest.process_id request ≡ source
    → GenericRequest.name request ≡ key
    → (m : GenericRequest) × (b : Buffer) × (t : Context) × (get source key
          (some (record { request = request; block = some bytes; len = length bytes }))
          s
        ≡ done b t (put m.buf [] ∷ []))
      × (parse m.buf ≡ ok (Parser.get_request m))
      × (GenericRequest.process_id m ≡ source)
      × (GenericRequest.name m ≡ key)
      × (load t.memory b.ptr b.len ≡ some bytes)
unfolding keep_data kept
get-answered source key request bytes s hs hk i n =
    let r : Reply = record { request = request; block = some bytes; len = length bytes } in
    let (ip, nk) = view_names source key hs hk in
    (
      get_object source key,
      view (owned (some (length s.memory)) (length bytes) (length bytes)),
      kept bytes s,
      get-accept source key r s hs.0 hk.0
          ∙ ap (after (put (get_object source key).buf [] ∷ [])) (
              accept_lem (get_object source key) r s (data_len-get_object source key) (i ∙ sym ip)
                (n ∙ sym nk)),
      parse-get_object source key hs hk,
      ip,
      nk,
      load-whole s.memory bytes,
    )
