-- ===== src/Tests/Arrivals.antt =====
-- Messages that arrive at the server of the control plane, from a buffer that is a list of bytes.
use praas.Base.{
  ℕ, ◌+◌, ◌<◌, ◌≡◌, refl, Bool, true, false, Option, none, some, List, [], ◌∷◌, ◌++◌, length, take,
  drop, replicate, arith,
}
use praas.Base.Int.{pos}
use praas.Base.Text.{Text, codes}
use praas.Outcome.{done}
use praas.ControlPlane.Process.{Process, Effect, answered, allocated, Invocation}
use praas.ControlPlane.Process.Requests.{answer_to, finish_invocation}
use praas.ControlPlane.Server.Finishing.{Ends, handle_message-Ends}
use praas.ControlPlane.Server.Messages.{handle_next, handle_message}
use praas.ControlPlane.Server.Results.{begun, answered_world, result_message_arrives}
use praas.ControlPlane.World.{ConnectionData, World}
use praas.Message.Builders.{result_message}
use praas.Message.InvocationResult.{InvocationResult}
use praas.Wire.Buffer.{MsgBuffer, IsBuffer}

abbrev bytes : MsgBuffer (List ℕ)
bytes = record { readable_bytes = λ b. length b; peek = λ b. b; retrieve = λ n b. drop n b }

bytes-IsBuffer : IsBuffer bytes
bytes-IsBuffer = record { readable = λ b. refl; retrieved = λ n b. refl }

abbrev short : Text
short = codes "123e4567-e89b-12"

abbrev waiting : Invocation
waiting = record {
  body = [];
  client = 3;
  function_name = codes "f";
  invocation_id = short ++ codes "d3-a456-426614174000";
  submitted = true;
}

abbrev process : List Invocation → Process
process is = record {
  name = codes "worker";
  uuid_generator = record { value = λ n. n ∷ []; used = 0 };
  status = allocated;
  resources = record { vcpus = codes "1"; memory = codes "512" };
  metrics = record {
    invocations = pos 0;
    computation_time = pos 0;
    last_invocation = 0;
    last_report = 0;
  };
  connection = some 7;
  swap = none;
  wait_for_allocation = true;
  creation_callback = none;
  application = codes "app";
  handle = none;
  active_invocations = length is;
  invocations = is;
}

abbrev context : ConnectionData
context = record { process = 0; cur_msg = []; bytes_to_read = 0 }

abbrev world : World
world = record {
  applications = [];
  processes = process (waiting ∷ []) ∷ [];
  server = record {
    pending_processes = [];
    processes = (codes "worker", 7) ∷ [];
    contexts = λ c. some context;
    num_registered_processes = pos 1;
    num_connected_processes = pos 1;
    is_running = true;
  };
}

-- The message of a result of two bytes.
abbrev message : InvocationResult
message = record {
  buf = (5 ∷ 0 ∷ 2 ∷ 0 ∷ 0 ∷ 0 ∷ 0 ∷ 0 ∷ 0 ∷ 0 ∷ []) ++ (short ++ replicate 44 0);
  invocation_id_len = 16;
}

handle_message-Ends_example : Ends bytes (handle_message bytes 80 1 7 (replicate 75 0, world))
handle_message-Ends_example =
    handle_message-Ends bytes bytes-IsBuffer 80 1 7 (replicate 75 0) world (omega arith)

abbrev after_it : World
after_it = answered_world 7 message (8 ∷ 9 ∷ []) world context (process [])

abbrev reply : List Effect
reply = answered 3 (answer_to waiting short (pos 0) (8 ∷ 9 ∷ [])) ∷ []

result_message_arrives_example :
    (handle_next bytes 1 7 (message.buf ++ (8 ∷ 9 ∷ []) ++ (1 ∷ []), world)
      ≡ done true (drop 2 (drop 70 (message.buf ++ (8 ∷ 9 ∷ []) ++ (1 ∷ []))), after_it) reply)
    × (handle_next bytes 1 7 (message.buf ++ (8 ∷ []), world)
        ≡ done false
            (drop 70 (message.buf ++ (8 ∷ [])), begun 7 message (8 ∷ 9 ∷ []) world context)
            [])
    × (handle_next bytes 1 7 ((8 ∷ 9 ∷ []) ++ [], begun 7 message (8 ∷ 9 ∷ []) world context)
        ≡ done true (drop 2 ((8 ∷ 9 ∷ []) ++ []), after_it) reply)
unfolding result_message praas.Message.InvocationResult.set_invocation_id
    praas.Message.Header.set_total_length praas.Message.InvocationResult.set_return_code
    praas.Wire.Words.put_int praas.Wire.Bytes.put_at praas.Wire.Names.put_name
    praas.Message.InvocationResult.fresh praas.Message.Header.new_buffer praas.Wire.Words.to_bytes
    praas.Base.Int.to_word praas.Wire.Names.strncpy finish_invocation praas.Base.Text.text_eq
result_message_arrives_example =
    result_message_arrives bytes 1 7 message short (pos 0) (8 ∷ 9 ∷ []) (8 ∷ []) (1 ∷ []) []
      (message.buf ++ (8 ∷ 9 ∷ []) ++ (1 ∷ [])) (message.buf ++ (8 ∷ [])) ((8 ∷ 9 ∷ []) ++ []) world
      context (process (waiting ∷ [])) (process []) reply bytes-IsBuffer (omega arith) (omega arith)
      (omega arith) (omega arith) refl refl refl refl refl refl refl (omega arith) refl
