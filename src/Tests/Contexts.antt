-- ===== src/Tests/Contexts.antt =====
-- A context with an output buffer of eight bytes, and one buffer of the user.
use praas.Base.{
  ◌<◌, ◌⊎◌, map, take, length, ℕ, ◌≡◌, refl, none, some, List, [], ◌∷◌, replicate, arith,
}
use praas.Base.Int.{of_word, to_word, negsuc}
use praas.Base.Text.{codes}
use praas.Outcome.{done}
use praas.Ipc.GenericRequest
use praas.Ipc.GenericRequest.{GenericRequest}
use praas.Ipc.Parser
use praas.Ipc.Parser.{parse}
use praas.Result.{ok, err, praas_exception}
use praas.Ipc.InvocationRequest
use praas.Ipc.InvocationRequest.{InvocationRequest}
use praas.Runtime.Invoker.{Invocation, accept_request, lengths, rounds}
use praas.Runtime.Invoker.Arguments.{accept_request-arguments, sum, loads}
use praas.Runtime.Requests.{get}
use praas.Runtime.Requests.Answered.{get-answered}
use praas.Ipc.Header.{get_request, new_buffer}
use praas.Wire.Bytes.{read_at, put_at}
use praas.Wire.Names.{put_name, strncpy}
use praas.Wire.Words.{get_int, of_bytes, put_int, put_byte, to_bytes}
use praas.Runtime.{Memory, owned, Buffer, Context, block_bytes, put, load}
use praas.Runtime.Output.{
  view, start_invocation, end_invocation, set_output_buffer, get_output_buffer, contents,
}
use praas.Runtime.Output.Dangling.{get_output_buffer-dangling}
use praas.Runtime.Output.Written.{start_invocation-write_all, write_all, joined}

abbrev zeroes : ℕ → List ℕ
zeroes n = replicate n 0

abbrev room : List ℕ
room = zeroes 8

abbrev context : Context
context = record {
  memory = some room ∷ some (7 ∷ 9 ∷ []) ∷ [];
  output = owned (some 0) 8 0;
  user_buffers = owned (some 1) 2 2 ∷ [];
  output_buf_view = view (owned (some 0) 8 0);
  invoc_id = [];
  process_id = codes "p";
}

abbrev own_buffer : Buffer
own_buffer = view (owned (some 1) 2 2)

abbrev pieces : List (List ℕ)
pieces = (1 ∷ 2 ∷ 3 ∷ []) ∷ (4 ∷ []) ∷ []

start_invocation-write_all_example :
    (t : Context) × ((write_all pieces 0 (start_invocation (codes "a") context) ≡ done tt t [])
      × (contents t ≡ some (1 ∷ 2 ∷ 3 ∷ 4 ∷ [])))
start_invocation-write_all_example =
    start_invocation-write_all (codes "a") 0 room pieces context refl refl refl (omega arith)

get_output_buffer-dangling_example :
    (t : Context) × ((get_output_buffer zeroes 0
          (start_invocation (codes "b") (end_invocation (set_output_buffer own_buffer context)))
        ≡ done (record own_buffer { len = 0 }) t [])
      × (block_bytes t.memory 1 ≡ none))
get_output_buffer-dangling_example =
    get_output_buffer-dangling zeroes (codes "b") own_buffer 1 (7 ∷ 9 ∷ []) context refl refl refl

-- The answer to a get of "k" from "q"; it announces the length -1.
abbrev answer : GenericRequest
answer =
    elim (GenericRequest.set_process_id (codes "q")
      (GenericRequest.set_data_len (negsuc 0) (GenericRequest.fresh get_request))) [
        | ok m ↦ elim (GenericRequest.set_name (codes "k") m) [ ok n ↦ n | _ ↦ m ]
        | _ ↦ GenericRequest.fresh get_request
      ]

answer_names :
    (GenericRequest.process_id answer ≡ codes "q") × (GenericRequest.name answer ≡ codes "k")
unfolding GenericRequest.process_id read_at GenericRequest.set_process_id GenericRequest.set_name
    put_name put_at GenericRequest.set_data_len put_int GenericRequest.fresh put_byte new_buffer
    to_bytes strncpy GenericRequest.name
answer_names = (refl, refl)

get-answered_example :
    (m : GenericRequest) × (b : Buffer) × (t : Context) × (get
        (codes "q")
        (codes "k")
        (some (record { request = answer; block = some (5 ∷ 6 ∷ []); len = 2 }))
        context
      ≡ done b t (put m.buf [] ∷ []))
    × (parse m.buf ≡ ok (Parser.get_request m))
    × (GenericRequest.process_id m ≡ codes "q")
    × (GenericRequest.name m ≡ codes "k")
    × (load t.memory b.ptr b.len ≡ some (5 ∷ 6 ∷ []))
get-answered_example =
    get-answered (codes "q") (codes "k") answer (5 ∷ 6 ∷ []) context
      (omega arith, (omega arith, tt)) (omega arith, (omega arith, tt)) answer_names.0
      answer_names.1

-- A request with two inputs, of two bytes and of one.
abbrev two_inputs : InvocationRequest
two_inputs = elim (InvocationRequest.set_buffers (2 ∷ 1 ∷ []) InvocationRequest.fresh) [
  | ok m ↦ m
  | _ ↦ InvocationRequest.fresh
]

two_lengths : lengths two_inputs ≡ 2 ∷ 1 ∷ []
unfolding lengths InvocationRequest.buffers get_int of_word of_bytes read_at
    InvocationRequest.set_buffers put_int put_at InvocationRequest.fresh new_buffer to_bytes to_word
    InvocationRequest.buffers_length
two_lengths = refl

two_rounds : rounds (InvocationRequest.buffers two_inputs) ≡ 2
unfolding InvocationRequest.buffers get_int of_word of_bytes read_at InvocationRequest.set_buffers
    put_int put_at InvocationRequest.fresh new_buffer to_bytes to_word
two_rounds = refl

abbrev received : Memory
received = some (8 ∷ 9 ∷ 7 ∷ 0 ∷ []) ∷ []

accept_request-arguments_example :
    ((invoc : Invocation) × (ps : List (List ℕ)) × (accept_request (owned (some 0) 4 3) two_inputs
        ≡ ok invoc)
      × (invoc.key ≡ InvocationRequest.invocation_id two_inputs)
      × (loads received invoc.args ≡ map some ps)
      × (joined ps ≡ take (sum (lengths two_inputs)) (8 ∷ 9 ∷ 7 ∷ 0 ∷ []))
      × (map (λ p. length p) ps ≡ lengths two_inputs))
    ⊎ ((accept_request (owned (some 0) 4 3) two_inputs ≡ err praas_exception)
        × (3 < sum (lengths two_inputs)))
accept_request-arguments_example =
    accept_request-arguments received (owned (some 0) 4 3) 0 (8 ∷ 9 ∷ 7 ∷ 0 ∷ []) two_inputs refl
      refl (omega arith) (omega (arith, two_rounds)) (rw two_lengths (omega arith))
