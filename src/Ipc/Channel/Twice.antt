-- ===== src/Ipc/Channel/Twice.antt =====
-- The loop of `_recv` on a queue that grows.
use praas.Base.{
  ℕ, ◌+◌, ◌-◌, ◌≤◌, ◌<◌, ◌≡◌, ◌^◌, refl, sym, ◌∙◌, List, [], ◌∷◌, ◌++◌, length, arith,
  length-append,
}
use mathlib.Core.List.{append_assoc, append-nil}
use praas.Ipc.Channel.{Queue, recv, to_read}
use mathlib.Core.Path.{ap₂}

-- Too few packets: all are read.
pub recv_short :
    (len : ℕ) (got : List ℕ) (queue : Queue)
    → length (recv len got queue).0 < len
    → (recv len got queue).1 ≡ []
unfolding recv
recv_short len got [] h = refl
recv_short len got (p ∷ queue) h = ground (arith, recv_short len (got ++ p) queue)

-- The loop after a break, with what it had.
pub recv-append :
    (len : ℕ) (got : List ℕ) (front back : Queue)
    → length (recv len got front).0 < len
    → recv len got (front ++ back) ≡ recv len (recv len got front).0 back
unfolding recv
recv-append len got [] back h = refl
recv-append len got (p ∷ front) back h = ground (arith, recv-append len (got ++ p) front back)

-- Reading n more bytes behind some bytes is reading on.
pub recv_behind :
    (len : ℕ) (so_far got : List ℕ) (queue : Queue)
    → recv (length so_far + len) (so_far ++ got) queue
      ≡ (so_far ++ (recv len got queue).0, (recv len got queue).1)
unfolding recv
recv_behind len so_far got [] = refl
recv_behind len so_far got (p ∷ queue) = ground (
  arith,
  length-append so_far got,
  append_assoc so_far got p,
  recv_behind len so_far (got ++ p) queue,
)

-- Enough bytes: what comes behind stays in the queue.
pub recv-append_full :
    (len : ℕ) (got : List ℕ) (front back : Queue)
    → len ≤ length (recv len got front).0
    → 0 < len
    → recv len got (front ++ back) ≡ ((recv len got front).0, (recv len got front).1 ++ back)
unfolding recv
recv-append_full len got [] [] h z = ground arith
recv-append_full len got [] (p ∷ back) h z = ground arith
recv-append_full len got (p ∷ front) back h z =
    ground (arith, recv-append_full len (got ++ p) front back)

pub to_read-eq : (total len : ℕ) → len ≤ total → total < 2 ^ 31 → to_read total len ≡ total - len
unfolding to_read
to_read-eq total len h small = omega arith

-- Reading `wanted` bytes in two goes.
pub recv_twice :
    (wanted : ℕ) (front back : Queue)
    → let new = (recv wanted [] front).0 in
      length new < wanted
      → recv wanted [] (front ++ back)
        ≡ (new ++ (recv (wanted - length new) [] back).0, (recv (wanted - length new) [] back).1)
recv_twice wanted front back h =
    recv-append wanted [] front back h
    ∙ ap₂ (λ w g. recv w g back) (sym exact) (sym (append-nil new))
    ∙ recv_behind (wanted - length new) new [] back
  where
    new : List ℕ
    new = (recv wanted [] front).0

    again : List ℕ × Queue
    again = recv (wanted - length new) [] back

    exact : length new + (wanted - length new) ≡ wanted
    exact = omega arith
