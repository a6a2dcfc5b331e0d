-- ===== src/Ipc/Channel/Sending.antt =====
-- What the sending loops put on the queue.
use praas.Base.{
  ℕ, zero, suc, ◌≤◌, ◌<◌, ◌≡◌, refl, ap, sym, ◌∙◌, List, [], ◌∷◌, ◌++◌, length, drop, arith, All,
  All-append, take-append-drop, length-drop, length-take, take_all, length-append,
}
use mathlib.Core.List.{append_assoc}
use praas.Ipc.Channel.{Packet, Queue, packets, send_bytes, send_each, sum_lengths}

-- The bytes of a queue, in order.
abbrev pub joined : Queue → List ℕ
joined [] = []
joined (p ∷ queue) = p ++ joined queue

abbrev pub IsPacket : ℕ → Packet → Type 0
IsPacket msg_size p = (0 < length p) × (length p ≤ msg_size)

pub joined-append : (a b : Queue) → joined (a ++ b) ≡ joined a ++ joined b
joined-append [] b = refl
joined-append (p ∷ a) b = rw (joined-append a b) (sym (append_assoc p (joined a) (joined b)))

module _ (msg_size : ℕ) (room : 0 < msg_size) where
  joined-packets :
      (fuel : ℕ) (bytes : List ℕ)
      → length bytes ≤ fuel
      → joined (packets msg_size fuel bytes) ≡ bytes
  unfolding packets
  joined-packets zero [] h = refl
  joined-packets zero (b ∷ bytes) h = absurd (omega arith)
  joined-packets (suc fuel) [] h = refl
  joined-packets (suc fuel) (b ∷ bytes) h =
      rw
        (joined-packets fuel (drop msg_size (b ∷ bytes))
          (omega (arith, length-drop msg_size (b ∷ bytes))))
        (take-append-drop msg_size (b ∷ bytes))

  packets-IsPacket :
      (fuel : ℕ) (bytes : List ℕ) → All (IsPacket msg_size) (packets msg_size fuel bytes)
  unfolding packets
  packets-IsPacket zero bytes = tt
  packets-IsPacket (suc fuel) [] = tt
  packets-IsPacket (suc fuel) (b ∷ bytes) = (
    omega (arith, length-take msg_size (b ∷ bytes)),
    packets-IsPacket fuel (drop msg_size (b ∷ bytes)),
  )

  -- The packets of a text are its bytes, each packet non-empty and of the queue's size at most.
  pub send_bytes_lem :
      (bytes : List ℕ)
      → (joined (send_bytes msg_size bytes) ≡ bytes)
        × All (IsPacket msg_size) (send_bytes msg_size bytes)
  unfolding send_bytes
  send_bytes_lem bytes =
      (joined-packets (length bytes) bytes (omega arith), packets-IsPacket (length bytes) bytes)

  pub send_each_lem :
      (payloads : List (List ℕ))
      → (length (joined (send_each msg_size payloads)) ≡ sum_lengths payloads)
        × (joined (send_each msg_size payloads) ≡ joined payloads)
        × All (IsPacket msg_size) (send_each msg_size payloads)
  unfolding send_each sum_lengths
  send_each_lem [] = (refl, refl, tt)
  send_each_lem (p ∷ ps) =
      let (l, j, a) = send_each_lem ps in
      let (pj, pa) = send_bytes_lem p in
      let e : joined (send_bytes msg_size p ++ send_each msg_size ps)
          ≡ p ++ joined (send_each msg_size ps) =
        joined-append (send_bytes msg_size p) (send_each msg_size ps)
        ∙ ap (λ x. x ++ joined (send_each msg_size ps)) pj in
      (
        omega (arith, ap length e, length-append p (joined (send_each msg_size ps)), l),
        e ∙ ap (◌++◌ p) j,
        All-append (IsPacket msg_size) _ _ pa a,
      )

  -- A header that fits one packet is one packet.
  pub send_bytes_one :
      (bytes : List ℕ)
      → 0 < length bytes
      → length bytes ≤ msg_size
      → send_bytes msg_size bytes ≡ bytes ∷ []
  unfolding send_bytes packets
  send_bytes_one [] h fits = absurd (omega arith)
  send_bytes_one (b ∷ bytes) h fits = rw (take_all msg_size (b ∷ bytes) fits) (
      ap (◌∷◌ (b ∷ bytes)) (
        nothing_left (length bytes) (drop msg_size (b ∷ bytes))
          (omega (arith, length-drop msg_size (b ∷ bytes)))))
    where
      nothing_left : (fuel : ℕ) (xs : List ℕ) → length xs ≡ 0 → packets msg_size fuel xs ≡ []
      nothing_left zero xs e = refl
      nothing_left (suc fuel) [] e = refl
      nothing_left (suc fuel) (x ∷ xs) e = absurd (omega arith)
