-- ===== src/Ipc/Channel/Receiving.antt =====
-- The loop of `_recv`.
use praas.Base.{ℕ, ◌+◌, ◌≡◌, List, [], ◌∷◌, ◌++◌, length, arith, All, length-append}
use mathlib.Core.List.{append_assoc, append-nil}
use praas.Ipc.Channel.{Queue, recv}
use praas.Ipc.Channel.Sending.{joined, IsPacket}

-- Packets that hold just the bytes wanted are all read, and nothing behind them is touched.
pub recv_exact :
    (len msg_size : ℕ) (got : List ℕ) (queue rest : Queue)
    → All (IsPacket msg_size) queue
    → length got + length (joined queue) ≡ len
    → recv len got (queue ++ rest) ≡ (got ++ joined queue, rest)
unfolding recv
recv_exact len msg_size got [] [] full e = ground (arith, append-nil got)
recv_exact len msg_size got [] (p ∷ rest) full e = ground (arith, append-nil got)
recv_exact len msg_size got (p ∷ queue) rest full e = ground (
  arith,
  length-append p (joined queue),
  length-append got p,
  append_assoc got p (joined queue),
  recv_exact len msg_size (got ++ p) queue rest full.1,
)
