-- ===== src/Ipc/Channel.antt =====
-- POSIXMQChannel of process/runtime/src/internal/ipc.cpp. A POSIX message queue is the list of its
-- packets, the oldest first (every packet is sent with the same priority). An empty queue answers a
-- receive with EAGAIN; errors of the operating system are left out. `msg_size` is the queue's packet
-- size; a message's bytes are an Ipc header of 128 bytes.
pub mod Sending
pub mod Receiving
pub mod RoundTrip
pub mod Twice
pub mod Resume
use praas.Base.{
  ℕ, zero, suc, ◌+◌, ◌-◌, ◌%◌, ◌^◌, Bool, true, false, Option, none, some, List, [], ◌∷◌, ◌++◌,
  length, take, drop, ltb, leb, ◌==◌, if◌then◌else◌,
}
use praas.Base.Int.{ℤ, pos, negsuc}
use praas.Ipc.Header.{buf_size, total_length, set_total_length}
use praas.Result.{Result, ok, err, not_implemented}

abbrev pub Packet : Type 0
Packet = List ℕ

abbrev pub Queue : Type 0
Queue = List Packet

-- The loop of `_send`, on fuel: each round sends min(len - pos, msg_size) bytes.
unfoldable pub packets : ℕ → ℕ → List ℕ → Queue
packets msg_size zero bytes = []
packets msg_size (suc fuel) [] = []
packets msg_size (suc fuel) (b ∷ bytes) =
    take msg_size (b ∷ bytes) ∷ packets msg_size fuel (drop msg_size (b ∷ bytes))

-- `_send(data, len)`: a round sends one byte at least.
unfoldable pub send_bytes : ℕ → List ℕ → Queue
unfolding packets
send_bytes msg_size bytes = packets msg_size (length bytes) bytes

-- `send(Message&)`.
unfoldable pub send_header : ℕ → List ℕ → Queue
unfolding send_bytes
send_header msg_size msg = send_bytes msg_size (set_total_length (pos 0) msg)

-- `send(Message&, BufferAccessor)`, with `if (buf.len > 0)`.
unfoldable pub send : ℕ → List ℕ → List ℕ → Queue
unfolding send_bytes
send msg_size msg payload =
    send_bytes msg_size (set_total_length (pos (length payload)) msg) ++ send_bytes msg_size payload

-- `send(Message&, const std::vector<Buffer<char>>&)`.
unfoldable pub sum_lengths : List (List ℕ) → ℕ
sum_lengths [] = 0
sum_lengths (p ∷ ps) = length p + sum_lengths ps

unfoldable pub send_each : ℕ → List (List ℕ) → Queue
unfolding send_bytes
send_each msg_size [] = []
send_each msg_size (p ∷ ps) = send_bytes msg_size p ++ send_each msg_size ps

unfoldable pub send_all : ℕ → List ℕ → List (List ℕ) → Queue
unfolding send_bytes sum_lengths send_each
send_all msg_size msg payloads =
    send_bytes msg_size (set_total_length (pos (sum_lengths payloads)) msg)
    ++ send_each msg_size payloads

-- The reader's state: `_msg_read`, `_msg` and `_msg_payload`, null or with the bytes so far.
pub record Reader : Type 0 where
  pub msg_read : Bool
  pub msg : List ℕ
  pub payload : Option (List ℕ)

-- The loop of `_recv`: whole packets, until `len` bytes are there or the queue is empty.
unfoldable pub recv : ℕ → List ℕ → Queue → List ℕ × Queue
recv len got [] = (got, [])
recv len got (p ∷ queue) =
    let more = recv len (got ++ p) queue in if ltb (length got) len then more else (got, p ∷ queue)

-- What a call of `receive` returns: a complete message with its payload, or not yet.
pub data Received : Type 0 where
  complete : List ℕ → Received
  incomplete : Received

abbrev pub Outcome : Type 0
Outcome = Received × Reader × Queue

abbrev pub bytes_so_far : Option (List ℕ) → List ℕ
bytes_so_far none = []
bytes_so_far (some bytes) = bytes

-- `size_t data_to_read = total_length() - len`, which wraps.
unfoldable pub to_read : ℕ → ℕ → ℕ
to_read total len = (total + 2 ^ 64 - len) % 2 ^ 64

-- The second half of `receive`: the payload of a message whose header was read.
unfoldable pub receive_payload : ℕ → Reader → Queue → Outcome
unfolding recv to_read
receive_payload total r queue =
    let so_far = bytes_so_far r.payload in
    let wanted = to_read total (length so_far) in
    let (new, rest) = recv wanted [] queue in
    if length new == wanted
    then (complete (so_far ++ new), record r { msg_read = false; payload = none }, rest)
    else (incomplete, record r { payload = some (so_far ++ new) }, rest)

unfoldable pub receive_body : ℤ → Reader → Queue → Outcome
unfolding receive_payload
receive_body (pos zero) r queue = (complete [], record r { msg_read = false }, queue)
receive_body (pos (suc n)) r queue = receive_payload (suc n) r queue
receive_body (negsuc n) r queue = (complete [], record r { msg_read = false }, queue)

-- The first half: the header.
unfoldable pub receive_header : Reader → List ℕ × Queue → Result Outcome
unfolding receive_body
receive_header r (new, rest) =
    if length new == 0
    then ok (incomplete, r, rest)
    else if ltb (length new) buf_size
    then err not_implemented
    else (let msg = take buf_size new in
        ok (receive_body (total_length msg) (record r { msg_read = true; msg = msg }) rest))

unfoldable pub receive : Reader → Queue → Result Outcome
unfolding receive_header receive_body recv
receive r queue =
    if r.msg_read
    then ok (receive_body (total_length r.msg) r queue)
    else receive_header r (recv buf_size [] queue)

-- A channel just opened.
abbrev pub opened : Reader
opened = record { msg_read = false; msg = []; payload = none }
