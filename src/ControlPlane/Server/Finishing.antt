-- ===== src/ControlPlane/Server/Finishing.antt =====
-- handle_message ends: every message that it consumes takes bytes from the buffer.
use praas.Base.{
  ℕ, zero, suc, ◌<◌, ◌≤◌, [], ◌==◌, ltb, leb, ◌≡◌, refl, ◌⊎◌, inl, inr, Bool, true, false, ◌&&◌,
  some, List, length-drop, take, subst, arith, if◌then◌else◌, Bool-cases, Option-cases,
}
use praas.Outcome.{
  Outcome, done, thrown, undefined, Action, ◌>>=◌, ◌>>◌, after, continue, onto, modify, lift, pure,
}
use praas.ControlPlane.Process.{Effect}
use praas.ControlPlane.Process.Requests.{finish_invocation}
use praas.ControlPlane.Server.{
  with_server, set_context, handle_connection, handle_closure, handle_data_metrics, handle_swap,
}
use praas.ControlPlane.Server.Messages.{
  Reading, retrieve, outside, announced_length, start_result, finish_result,
  handle_invocation_result, fixed, has_context, handle_variant, handle_unknown, handle_next,
  handle_message,
}
use praas.ControlPlane.World.{ConnectionData, World, on_process}
use praas.Message.Header.{buf_size}
use praas.Message.InvocationResult
use praas.Message.InvocationResult.{InvocationResult}
use praas.Message.Parser.{MessageVariants, parse}
use praas.Result.{Result-cases}
use praas.Wire.Buffer.{MsgBuffer, IsBuffer}

-- The call did not stop for want of fuel.
abbrev pub Ends : {B : Type 0} (m : MsgBuffer B) → Outcome Effect (Reading m) Bool → Type 0
Ends m (done finished s es) = finished ≡ true
Ends m (thrown e s es) = Unit {0}
Ends m undefined = Unit {0}

module _ {B : Type 0} (m : MsgBuffer B) (laws : IsBuffer m) where
  -- What is left is less than before, or nothing.
  abbrev Less : ℕ → B → Type 0
  Less n b = (m.readable_bytes b < n) ⊎ (m.readable_bytes b ≡ 0)

  -- An answer "consumed" comes with fewer bytes than n.
  abbrev Consumes : ℕ → Outcome Effect (Reading m) Bool → Type 0
  Consumes n (done true (b, w) es) = Less n b
  Consumes n (done false (b, w) es) = Unit {0}
  Consumes n (thrown e s es) = Unit {0}
  Consumes n undefined = Unit {0}

  Consumes-after :
      (n : ℕ) (es : List Effect) (o : Outcome Effect (Reading m) Bool)
      → Consumes n o
      → Consumes n (after es o)
  Consumes-after n es (done true (b, w) fs) h = h
  Consumes-after n es (done false (b, w) fs) h = h
  Consumes-after n es (thrown e s fs) h = h
  Consumes-after n es undefined h = h

  Consumes-if :
      (n : ℕ) (t : Bool) (x y : Outcome Effect (Reading m) Bool)
      → Consumes n x
      → Consumes n y
      → Consumes n (if t then x else y)
  Consumes-if n true x y h k = h
  Consumes-if n false x y h k = k

  retrieve-Less :
      (k n : ℕ) (b : B) → (0 < k) ⊎ Less n b → m.readable_bytes b ≤ n → Less n (m.retrieve k b)
  retrieve-Less k n b pos e = ground (
    arith,
    laws.readable b,
    laws.readable (m.retrieve k b),
    laws.retrieved k b,
    length-drop k (m.peek b),
  )

  retrieve-le : (k : ℕ) (b : B) → m.readable_bytes (m.retrieve k b) ≤ m.readable_bytes b
  retrieve-le k b = ground (
    arith,
    laws.readable b,
    laws.readable (m.retrieve k b),
    laws.retrieved k b,
    length-drop k (m.peek b),
  )

  fixed-Consumes :
      (handler : Action Effect World (Unit {0})) (b : B) (w : World)
      → Consumes (m.readable_bytes b) (fixed m handler (b, w))
  unfolding fixed
  fixed-Consumes handler b w = rest (handler w)
    where
      rest :
          (o : Outcome Effect World (Unit {0}))
          → Consumes
              (m.readable_bytes b)
              (continue (onto (λ v. (b, v)) o) (λ _. do retrieve m buf_size; pure true))
      rest (done u v es) =
          retrieve-Less buf_size (m.readable_bytes b) b (inl (omega arith)) (omega arith)
      rest (thrown e v es) = tt
      rest undefined = tt

  finish_result-Consumes :
      (conn n : ℕ) (c : ConnectionData) (req : InvocationResult) (b : B) (w : World)
      → (0 < c.bytes_to_read) ⊎ Less n b
      → m.readable_bytes b ≤ n
      → Consumes n (finish_result m conn c req (b, w))
  unfolding finish_result
  finish_result-Consumes conn n c req b w h le =
      elim (Bool-cases (leb c.bytes_to_read (m.readable_bytes b))) [
        | inl e ↦
            rw (e, finish_result)
              (rest (
                on_process c.process
                  (finish_invocation (InvocationResult.invocation_id req)
                    (InvocationResult.return_code req) (take c.bytes_to_read (m.peek b)))
                  w))
        | inr e ↦ rw (e, finish_result) tt
      ]
    where
      rest :
          (o : Outcome Effect World (Unit {0}))
          → Consumes n (
              continue (onto (λ v. (b, v)) o) (λ _. do
                retrieve m c.bytes_to_read
                outside m (modify (with_server (set_context conn (record c { bytes_to_read = 0 }))))
                pure true))
      rest (done u v es) = retrieve-Less c.bytes_to_read n b h le
      rest (thrown e v es) = tt
      rest undefined = tt

  handle_invocation_result-Consumes :
      (conn : ℕ) (c : ConnectionData) (req : InvocationResult) (b : B) (w : World)
      → Consumes (m.readable_bytes b) (handle_invocation_result m conn c req (b, w))
  unfolding handle_invocation_result start_result
  handle_invocation_result-Consumes conn c req b w = elim (Bool-cases (c.bytes_to_read == 0)) [
    | inl e ↦
        rw (e, start_result, handle_invocation_result)
          (Consumes-after (m.readable_bytes b) [] _ (
            finish_result-Consumes conn (m.readable_bytes b)
              (record c { bytes_to_read = announced_length m req; cur_msg = req.buf }) req
              (m.retrieve buf_size b)
              (with_server
                (set_context conn
                  (record c { bytes_to_read = announced_length m req; cur_msg = req.buf }))
                w)
              (inr
                (retrieve-Less buf_size (m.readable_bytes b) b (inl (omega arith)) (omega arith)))
              (retrieve-le buf_size b)))
    | inr e ↦
        rw (e, start_result, handle_invocation_result)
          (Consumes-after (m.readable_bytes b) [] _ (
            finish_result-Consumes conn (m.readable_bytes b) c req b w (inl (ground arith))
              (omega arith)))
  ]

  handle_variant-Consumes :
      (now conn : ℕ) (c : ConnectionData) (msg : MessageVariants) (b : B) (w : World)
      → w.server.contexts conn ≡ some c
      → Consumes (m.readable_bytes b) (handle_variant m now conn c msg (b, w))
  unfolding handle_variant
  handle_variant-Consumes now conn c (MessageVariants.process_closure buf) b w h =
      fixed-Consumes (handle_closure conn) b w
  handle_variant-Consumes now conn c (MessageVariants.dataplane_metrics x) b w h =
      subst
        (λ t.
          Consumes (m.readable_bytes b) (
            if t
            then fixed m (handle_data_metrics now c.process x) (b, w)
            else done true (b, w) []))
        {x = true} {y = has_context conn w} (ground arith)
        (fixed-Consumes (handle_data_metrics now c.process x) b w)
  handle_variant-Consumes now conn c (MessageVariants.invocation_result req) b w h =
      handle_invocation_result-Consumes conn c req b w
  handle_variant-Consumes now conn c (MessageVariants.swap_confirmation x) b w h =
      Consumes-if (m.readable_bytes b) (has_context conn w) _ _
        (fixed-Consumes (handle_swap c.process) b w) (fixed-Consumes (pure tt) b w)
  handle_variant-Consumes now conn c (MessageVariants.process_connection x) b w h =
      fixed-Consumes (pure tt) b w
  handle_variant-Consumes now conn c (MessageVariants.swap_request x) b w h =
      fixed-Consumes (pure tt) b w
  handle_variant-Consumes now conn c (MessageVariants.invocation_request x) b w h =
      fixed-Consumes (pure tt) b w
  handle_variant-Consumes now conn c (MessageVariants.application_update x) b w h =
      fixed-Consumes (pure tt) b w
  handle_variant-Consumes now conn c (MessageVariants.put_message x) b w h =
      fixed-Consumes (pure tt) b w

  handle_unknown-Consumes :
      (conn : ℕ) (msg : MessageVariants) (b : B) (w : World)
      → Consumes (m.readable_bytes b) (handle_unknown m conn msg (b, w))
  unfolding handle_unknown
  handle_unknown-Consumes conn (MessageVariants.process_connection x) b w =
      fixed-Consumes (handle_connection conn x) b w
  handle_unknown-Consumes conn (MessageVariants.process_closure x) b w =
      fixed-Consumes (pure tt) b w
  handle_unknown-Consumes conn _ b w = fixed-Consumes (pure tt) b w

  -- What follows the parsing of a message.
  parsed-Consumes :
      (buf : List ℕ) (f : MessageVariants → Action Effect (Reading m) Bool) (n : ℕ) (b : B)
      (w : World)
      → ((msg : MessageVariants) → Consumes n (f msg (b, w)))
      → Consumes n ((do msg ← lift (parse buf); f msg) (b, w))
  parsed-Consumes buf f n b w h = elim (Result-cases (parse buf)) [
    | inl (msg, e) ↦ rw e (Consumes-after n [] (f msg (b, w)) (h msg))
    | inr (inl (x, e)) ↦ rw e tt
    | inr (inr e) ↦ rw e tt
  ]

  handle_next-Consumes :
      (now conn : ℕ) (b : B) (w : World)
      → Consumes (m.readable_bytes b) (handle_next m now conn (b, w))
  unfolding handle_next
  handle_next-Consumes now conn b w = elim (Option-cases (w.server.contexts conn)) [
    | inl e ↦ elim (Bool-cases (ltb (m.readable_bytes b) buf_size)) [
      | inl f ↦ rw (e, handle_next) (rw f tt)
      | inr f ↦
          rw (e, handle_next)
            (rw f (
              parsed-Consumes (take buf_size (m.peek b)) (handle_unknown m conn)
                (m.readable_bytes b) b w (λ msg. handle_unknown-Consumes conn msg b w)))
    ]
    | inr (c, e) ↦ elim (Bool-cases (ltb 0 c.bytes_to_read)) [
      | inl g ↦
          rw (e, handle_next)
            (rw g (
              parsed-Consumes c.cur_msg (handle_variant m now conn c) (m.readable_bytes b) b w
                (λ msg. handle_variant-Consumes now conn c msg b w e)))
      | inr g ↦ elim (Bool-cases (ltb (m.readable_bytes b) buf_size)) [
        | inl f ↦ rw (e, handle_next) (rw g (rw f tt))
        | inr f ↦
            rw (e, handle_next)
              (rw g (
                rw f (
                  parsed-Consumes (take buf_size (m.peek b)) (handle_variant m now conn c)
                    (m.readable_bytes b) b w
                    (λ msg. handle_variant-Consumes now conn c msg b w e))))
      ]
    ]
  ]

  Ends-after :
      (es : List Effect) (o : Outcome Effect (Reading m) Bool) → Ends m o → Ends m (after es o)
  Ends-after es (done finished s fs) h = h
  Ends-after es (thrown e s fs) h = h
  Ends-after es undefined h = h

  Ends-test :
      (t : Bool) (x y : Outcome Effect (Reading m) Bool)
      → (t ≡ true → Ends m x)
      → Ends m y
      → Ends m (if true && t then x else y)
  Ends-test true x y h k = h refl
  Ends-test false x y h k = k

  -- Fuel above the number of bytes in the buffer is enough for handle_message, whatever the bytes
  -- are: it handles messages until it throws or a message cannot be consumed or no byte is left.
  pub handle_message-Ends :
      (fuel now conn : ℕ) (b : B) (w : World)
      → m.readable_bytes b < fuel
      → Ends m (handle_message m fuel now conn (b, w))
  unfolding handle_message
  handle_message-Ends zero now conn b w h = elim h [ ]
  handle_message-Ends (suc fuel) now conn b w h =
      rest (handle_next m now conn (b, w)) (handle_next-Consumes now conn b w)
        (λ c v l. handle_message-Ends fuel now conn c v (omega arith))
    where
      rest :
          (o : Outcome Effect (Reading m) Bool)
          → Consumes (m.readable_bytes b) o
          → ((c : B) (v : World)
              → m.readable_bytes c < m.readable_bytes b
              → Ends m (handle_message m fuel now conn (c, v)))
          → Ends m (
              continue o (λ consumed (c, v).
                let more = handle_message m fuel now conn (c, v) in
                if consumed && ltb 0 (m.readable_bytes c) then more else done true (c, v) []))
      rest (done false (c, v) es) k ih = refl
      rest (done true (c, v) es) k ih = Ends-after es _ (
          Ends-test (ltb 0 (m.readable_bytes c)) (handle_message m fuel now conn (c, v))
            (done true (c, v) []) (λ e. ih c v (ground arith)) refl)
      rest (thrown e v es) k ih = tt
      rest undefined k ih = tt
