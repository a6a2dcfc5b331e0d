-- ===== src/Ipc/Channel/RoundTrip.antt =====
-- A message that was sent is received.
use praas.Base.{
  ℕ, zero, suc, ◌≤◌, ◌<◌, ◌≡◌, ◌^◌, refl, ap, ◌∙◌, true, false, none, List, [], ◌∷◌, ◌++◌, length,
  arith, All, length-append, take_all,
}
use mathlib.Core.List.{append-nil}
use praas.Base.Int.{pos}
use praas.Ipc.Header.{set_total_length, total_length}
use praas.Ipc.Channel.{
  Queue, Reader, complete, send, send_all, send_bytes, send_each, sum_lengths, receive,
  receive_header, receive_body, receive_payload, to_read,
}
use praas.Ipc.Channel.Sending.{joined, IsPacket, send_bytes_lem, send_bytes_one, send_each_lem}
use praas.Ipc.Channel.Receiving.{recv_exact}
use praas.Result.{ok}
use praas.Wire.Words.{length-put_int, get_int-put_int}

-- The header that is sent: the message with its total length filled in.
length-set_total_length :
    (n : ℕ) (msg : List ℕ) → length (set_total_length (pos n) msg) ≡ length msg
unfolding set_total_length
length-set_total_length n msg = length-put_int 4 2 (pos n) msg

total_length-set_total_length :
    (n : ℕ) (msg : List ℕ)
    → length msg ≡ 128
    → n < 2 ^ 31
    → total_length (set_total_length (pos n) msg) ≡ pos n
unfolding set_total_length total_length
total_length-set_total_length n msg h f = get_int-put_int 4 2 (pos n) msg (rw h) (omega arith)

-- The reader between two messages, its last header `msg`.
abbrev pub ready : List ℕ → Reader
ready msg = record { msg_read = false; msg = msg; payload = none }

receive_body_exact :
    (msg_size n : ℕ) (r : Reader) (queue rest : Queue)
    → r.payload ≡ none
    → All (IsPacket msg_size) queue
    → length (joined queue) ≡ n
    → n < 2 ^ 31
    → receive_body (pos n) r (queue ++ rest) ≡ (complete (joined queue), ready r.msg, rest)
unfolding receive_body receive_payload to_read
receive_body_exact msg_size zero r [] rest none_yet full e f = ground arith
receive_body_exact msg_size zero r (p ∷ queue) rest none_yet full e f =
    absurd (omega (arith, length-append p (joined queue)))
receive_body_exact msg_size (suc n) r queue rest none_yet full e f =
    ground (arith, recv_exact (suc n) msg_size [] queue rest full)

-- A header packet in front of the packets of its payload.
receive_framed :
    (msg_size n : ℕ) (last header : List ℕ) (queue rest : Queue)
    → 128 ≤ msg_size
    → length header ≡ 128
    → total_length header ≡ pos n
    → All (IsPacket msg_size) queue
    → length (joined queue) ≡ n
    → n < 2 ^ 31
    → receive (ready last) (header ∷ (queue ++ rest))
      ≡ ok (complete (joined queue), ready header, rest)
unfolding receive receive_header
receive_framed msg_size n last header queue rest room h t full e f = ground (
  arith,
  recv_exact 128 msg_size [] (header ∷ []) (queue ++ rest) (omega arith)
      (omega (arith, length-append header [])),
  append-nil header,
  take_all 128 header (omega arith),
  receive_body_exact msg_size n (record (ready last) { msg_read = true; msg = header }) queue rest
      refl full e f,
)

module _ (msg_size : ℕ) (last msg : List ℕ) (rest : Queue) (room : 128 ≤ msg_size)
    (h : length msg ≡ 128) where
  one_packet :
      (n : ℕ)
      → send_bytes msg_size (set_total_length (pos n) msg) ≡ set_total_length (pos n) msg ∷ []
  one_packet n =
      send_bytes_one msg_size (omega arith) _ (omega (arith, length-set_total_length n msg))
        (omega (arith, length-set_total_length n msg))

  -- A message sent with a payload below 2 GiB through a queue whose packets hold a header is received whole by the next call of
  -- `receive`, whatever the packet size and the payload's length; the reader is ready for the next
  -- message and what lies behind in the queue stays.
  pub receive-send :
      (payload : List ℕ)
      → length payload < 2 ^ 31
      → receive (ready last) (send msg_size msg payload ++ rest)
        ≡ ok (complete payload, ready (set_total_length (pos (length payload)) msg), rest)
  unfolding send
  receive-send payload f =
      let (j, full) = send_bytes_lem msg_size (omega arith) payload in
      let n = length payload in
      let e =
        receive_framed msg_size n last (set_total_length (pos n) msg) (send_bytes msg_size payload)
          rest room (length-set_total_length n msg ∙ h) (total_length-set_total_length n msg h f)
          full (ap length j) f in
      cc (one_packet n, e, j)

  -- The same for the inputs of an invocation, which are sent one behind the other: they arrive as
  -- their concatenation.
  pub receive-send_all :
      (payloads : List (List ℕ))
      → sum_lengths payloads < 2 ^ 31
      → receive (ready last) (send_all msg_size msg payloads ++ rest)
        ≡ ok (
          complete (joined payloads),
          ready (set_total_length (pos (sum_lengths payloads)) msg),
          rest,
        )
  unfolding send_all
  receive-send_all payloads f =
      let (l, j, full) = send_each_lem msg_size (omega arith) payloads in
      let n = sum_lengths payloads in
      let e =
        receive_framed msg_size n last (set_total_length (pos n) msg) (send_each msg_size payloads)
          rest room (length-set_total_length n msg ∙ h) (total_length-set_total_length n msg h f)
          full l f in
      cc (one_packet n, e, j)
