-- ===== src/Ipc/Channel/Resume.antt =====
-- A read that finds the queue empty goes on where it stopped.
use praas.Base.{
  ℕ, zero, suc, ◌+◌, ◌-◌, ◌≤◌, ◌<◌, ◌≡◌, ◌^◌, refl, ap, sym, ◌∙◌, true, false, some, List, [], ◌∷◌,
  ◌++◌, length, arith, length-append, take, Bool-cases, inl, inr, ltb,
}
use mathlib.Core.List.{append_assoc}
use praas.Base.Int.{ℤ, pos, negsuc}
use praas.Ipc.Header.{total_length}
use praas.Ipc.Channel.{
  Queue, Reader, incomplete, recv, receive, receive_header, receive_body, receive_payload, to_read,
  bytes_so_far,
}
use praas.Ipc.Channel.Twice.{recv_short, recv-append, recv-append_full, to_read-eq, recv_twice}
use praas.Base.{◌⊎◌, ◌==◌, if◌then◌else◌}
use praas.Result.{ok}

module _ (n : ℕ) (r : Reader) (front back : Queue) (small : n < 2 ^ 31) where
  so_far : List ℕ
  so_far = bytes_so_far r.payload

  new : List ℕ
  unfolding so_far
  new = (recv (n - length so_far) [] front).0

  after_front : Reader
  unfolding new
  after_front = record r { payload = some (so_far ++ new) }

  resume_payload :
      length so_far + length new < n
      → (receive_payload n r front ≡ (incomplete, after_front, []))
        × (receive_payload n r (front ++ back) ≡ receive_payload n after_front back)
  unfolding after_front receive_payload
  resume_payload h = (
    ground (
      arith,
      to_read-eq n (length so_far) (omega arith) small,
      recv_short (n - length so_far) [] front,
    ),
    ground (
      arith,
      to_read-eq n (length so_far) (omega arith) small,
      to_read-eq n (length (so_far ++ new)) (omega (arith, length-append so_far new)) small,
      length-append so_far new,
      recv_twice (n - length so_far) front back (omega arith),
      length-append new (recv (n - length so_far - length new) [] back).0,
      append_assoc so_far new (recv (n - length so_far - length new) [] back).0,
    ),
  )

-- The reader has read a part of its message and no more: nothing, a header, or a header and fewer
-- bytes than it announces.
abbrev pub IsPartial : Reader → Type 0
IsPartial r =
    (r.msg_read ≡ false)
    ⊎ ((n : ℕ) × (total_length r.msg ≡ pos n)
        × (length (bytes_so_far r.payload) < n)
        × (n < 2 ^ 31))

-- A call of `receive` that is not complete yet keeps the header and appends what it read.
payload_incomplete :
    (n : ℕ) (r r' : Reader) (queue rest : Queue)
    → receive_payload n r queue ≡ (incomplete, r', rest)
    → r' ≡ record r {
      payload = some (
          bytes_so_far r.payload
          ++ (recv (to_read n (length (bytes_so_far r.payload))) [] queue).0);
    }
unfolding receive_payload
payload_incomplete n r r' queue rest e = ground arith

resume_reading :
    (n : ℕ) (r r' : Reader) (front back rest : Queue)
    → receive_payload n r front ≡ (incomplete, r', rest)
    → length (bytes_so_far r'.payload) < n
    → n < 2 ^ 31
    → (rest ≡ []) × (receive_payload n r (front ++ back) ≡ receive_payload n r' back)
unfolding after_front
resume_reading n r r' front back rest e short small = (cc (e, resumed.0), cc (kept, resumed.1))
  where
    read : List ℕ
    read = (recv (to_read n (length (bytes_so_far r.payload))) [] front).0

    sizes : length (bytes_so_far r.payload) + length read < n
    sizes =
        ground (
          arith,
          payload_incomplete n r r' front rest e,
          length-append (bytes_so_far r.payload) read,
        )

    wanted : to_read n (length (bytes_so_far r.payload)) ≡ n - length (bytes_so_far r.payload)
    wanted = to_read-eq n _ (omega (arith, sizes)) small

    kept : r' ≡ after_front n r front back small
    kept = unfold new so_far in cc (payload_incomplete n r r' front rest e, wanted)

    resumed :
        (receive_payload n r front ≡ (incomplete, after_front n r front back small, []))
        × (receive_payload n r (front ++ back)
            ≡ receive_payload n (after_front n r front back small) back)
    resumed =
        resume_payload n r front back small (unfold new so_far in ground (arith, wanted, sizes))

resume_body :
    (z : ℤ) (r r' : Reader) (front back rest : Queue)
    → total_length r.msg ≡ z
    → r.msg_read ≡ true
    → receive_body z r front ≡ (incomplete, r', rest)
    → IsPartial r'
    → (rest ≡ [])
      × (receive_body z r (front ++ back) ≡ receive_body (total_length r'.msg) r' back)
      × (r'.msg_read ≡ true)
unfolding receive_body
resume_body (pos zero) r r' front back rest t reading e partial = cc
resume_body (negsuc n) r r' front back rest t reading e partial = cc
resume_body (pos (suc n)) r r' front back rest t reading e (inl idle) =
    cc (payload_incomplete (suc n) r r' front rest e)
resume_body (pos (suc n)) r r' front back rest t reading e (inr (m, tm, short, small)) =
    let same : m ≡ suc n = ground (arith, payload_incomplete (suc n) r r' front rest e) in
    let (empty, resumed) =
      resume_reading (suc n) r r' front back rest e (omega arith) (omega arith) in
    (empty, rw (tm, same) resumed, cc (payload_incomplete (suc n) r r' front rest e))

-- The header was not there at all, or it was read and the payload goes on.
resume_header :
    (r r' : Reader) (got : List ℕ) (queue back rest : Queue)
    → receive_header r (got, queue) ≡ ok (incomplete, r', rest)
    → IsPartial r'
    → ((length got ≡ 0) × (r' ≡ r) × (rest ≡ queue))
      ⊎ ((128 ≤ length got)
          × (rest ≡ [])
          × (receive_header r (got, queue ++ back)
              ≡ ok (receive_body (total_length r'.msg) r' back))
          × (r'.msg_read ≡ true))
unfolding receive_header
resume_header r r' got queue back rest e partial = elim (Bool-cases (length got == 0)) [
  | inl nothing ↦ inl (ground arith)
  | inr some_bytes ↦ elim (Bool-cases (ltb (length got) 128)) [
    | inl broken ↦ absurd (ground arith)
    | inr whole ↦
        let body : receive_body (total_length (take 128 got))
              (record r { msg_read = true; msg = take 128 got }) queue
            ≡ (incomplete, r', rest) =
          ground arith in
        let (empty, resumed, reading) =
          resume_body _ (record r { msg_read = true; msg = take 128 got }) r' queue back rest refl
            refl body partial in
        inr (ground arith, empty, rw (some_bytes, whole) (ap ok resumed), reading)
  ]
]

receive_idle :
    (r : Reader) (queue : Queue)
    → r.msg_read ≡ false
    → receive r queue ≡ receive_header r (recv 128 [] queue)
unfolding receive
receive_idle r queue h =
    ap
      (λ b.
        if b
        then ok (receive_body (total_length r.msg) r queue)
        else receive_header r (recv 128 [] queue))
      h

receive_reading :
    (r : Reader) (queue : Queue)
    → r.msg_read ≡ true
    → receive r queue ≡ ok (receive_body (total_length r.msg) r queue)
unfolding receive
receive_reading r queue h =
    ap
      (λ b.
        if b
        then ok (receive_body (total_length r.msg) r queue)
        else receive_header r (recv 128 [] queue))
      h

empty_list : (xs : List ℕ) → length xs ≡ 0 → xs ≡ []
empty_list [] e = refl
empty_list (x ∷ xs) e = absurd (omega arith)

not_reading :
    (r r' : Reader) (front back rest : Queue)
    → receive r front ≡ ok (incomplete, r', rest)
    → IsPartial r'
    → r.msg_read ≡ false
    → (rest ≡ []) × (receive r (front ++ back) ≡ receive r' back)
not_reading r r' front back rest e partial idle =
    elim (resume_header r r' _ _ back rest (sym (receive_idle r front idle) ∙ e) partial) [
      | inl (nothing, same, left) ↦ (
        left ∙ recv_short 128 [] front (omega arith),
        cc (
          receive_idle r (front ++ back) idle,
          receive_idle r back idle,
          recv-append 128 [] front back (omega arith),
          empty_list (recv 128 [] front).0 nothing,
          same,
        ),
      )
      | inr (whole, empty, resumed, reading) ↦ (
        empty,
        cc (
          receive_idle r (front ++ back) idle,
          recv-append_full 128 [] front back whole (omega arith),
          resumed,
          receive_reading r' back reading,
        ),
      )
    ]

-- A call of `receive` that comes too early loses nothing: if it found a part of a message only, it
-- has emptied the queue, and the next call, on what arrived since, does what one call on everything
-- would have done.
pub receive-append :
    (r r' : Reader) (front back rest : Queue)
    → receive r front ≡ ok (incomplete, r', rest)
    → IsPartial r'
    → (rest ≡ []) × (receive r (front ++ back) ≡ receive r' back)
receive-append r r' front back rest e partial = elim (Bool-cases r.msg_read) [
  | inl reading ↦
      let body : receive_body (total_length r.msg) r front ≡ (incomplete, r', rest) =
        cc (e, receive_reading r front reading) in
      let (empty, resumed, still) = resume_body _ r r' front back rest refl reading body partial in
      (
        empty,
        cc (receive_reading r (front ++ back) reading, resumed, receive_reading r' back still),
      )
  | inr idle ↦ not_reading r r' front back rest e partial idle
]
