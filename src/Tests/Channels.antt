-- ===== src/Tests/Channels.antt =====
-- A channel of packets of 128 bytes, and one of which a part has arrived.
use praas.Base.{
  ℕ, ◌+◌, ◌^◌, ◌<◌, ◌≤◌, ◌≡◌, refl, ◌⊎◌, inl, inr, ◌↔◌, Bool, true, false, Option, none, some, List,
  [], ◌∷◌, ◌++◌, length, replicate, take, drop, arith, All, get_elem?,
}
use praas.Base.Int.{ℤ, pos, Fits}
use praas.Ipc.Channel.{Queue, Reader, complete, receive, send_all, sum_lengths}
use praas.Ipc.Channel.Sending.{joined}
use praas.Ipc.Channel.RoundTrip.{ready, receive-send_all}
use praas.Ipc.Channel.Resume.{receive-append}
use praas.Ipc.Header.{set_total_length}
use praas.Ipc.InvocationRequest.{InvocationRequest, set_buffers, buffers, buffers_length}
use praas.Ipc.RoundTrip.Inputs.{buffers-set_buffers}
use praas.Result.{ok}

abbrev message : List ℕ
message = replicate 128 0

abbrev payload : List ℕ
payload = 1 ∷ 2 ∷ 3 ∷ []

abbrev behind : Queue
behind = (9 ∷ []) ∷ []

receive-send_all_example :
    receive (ready []) (send_all 128 message (payload ∷ (4 ∷ []) ∷ []) ++ behind)
    ≡ ok (
      complete (joined (payload ∷ (4 ∷ []) ∷ [])),
      ready (set_total_length (pos 4) message),
      behind,
    )
unfolding sum_lengths
receive-send_all_example =
    receive-send_all 128 [] message behind (omega arith) refl (payload ∷ (4 ∷ []) ∷ [])
      (omega arith)

-- The header said 3 bytes, and two are there.
abbrev header : List ℕ
header = 1 ∷ 0 ∷ 3 ∷ 0 ∷ 0 ∷ 0 ∷ replicate 122 0

abbrev reading : Reader
reading = record { msg_read = true; msg = header; payload = some (1 ∷ []) }

abbrev further : Reader
further = record { msg_read = true; msg = header; payload = some (1 ∷ 2 ∷ []) }

abbrev nothing : Queue
nothing = []

receive-append_example :
    (nothing ≡ [])
    × (receive reading (((2 ∷ []) ∷ []) ++ ((3 ∷ []) ∷ [])) ≡ receive further ((3 ∷ []) ∷ []))
unfolding receive praas.Ipc.Header.total_length praas.Wire.Words.get_int praas.Base.Int.of_word
    praas.Wire.Words.of_bytes praas.Wire.Bytes.read_at
receive-append_example =
    receive-append reading further ((2 ∷ []) ∷ []) ((3 ∷ []) ∷ []) nothing refl
      (inr (3, refl, omega arith, omega arith))

abbrev empty_request : InvocationRequest
empty_request = record { buf = replicate 128 0; process_id_len = 0; id_len = 0; name_len = 0 }

buffers-set_buffers_example :
    (m : InvocationRequest) × (set_buffers (70000 ∷ 3 ∷ []) empty_request ≡ ok m)
    × (buffers m ≡ pos 2)
    × (buffers_length 1 m ≡ pos 3)
buffers-set_buffers_example =
    buffers-set_buffers (70000 ∷ 3 ∷ []) empty_request 1 3 refl (omega arith) (ground arith) refl
