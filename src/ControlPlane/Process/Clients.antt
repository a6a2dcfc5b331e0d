-- ===== src/ControlPlane/Process/Clients.antt =====
-- An invocation and its result: the client is answered and the invocation is forgotten.
use praas.Base.{
  ℕ, ◌+◌, ◌≡◌, refl, true, none, some, List, [], ◌∷◌, ◌++◌, take, arith, inl, inr, Bool-cases, ap,
  ◌∙◌,
}
use praas.Base.Int.{ℤ}
use praas.Base.Text.{Text, text_eq, text_eq_iff}
use praas.Outcome.{done, ◌>>◌, after, continue}
use praas.ControlPlane.Process.{Process, Invocation, sent, answered, is_allocated}
use praas.ControlPlane.Process.Requests.{
  new_invocation, accept_invocation, add_invocation, find_invocation, erase_invocation, answer_to,
  finish_invocation,
}
use praas.ControlPlane.Process.Waiting.Announced.{Announces, IsClean, header-Announces}
use praas.ControlPlane.Process.Waiting.{IsSendable, header, send_invocation_lem, submitted}

abbrev pub short_id : Invocation → Text
short_id i = take 16 i.invocation_id

find-append :
    (id : Text) (is : List Invocation) (i : Invocation)
    → find_invocation id is ≡ none
    → short_id i ≡ id
    → find_invocation id (is ++ i ∷ []) ≡ some i
unfolding find_invocation
find-append id [] i free e = ground (arith, text_eq_iff (short_id i) id)
find-append id (j ∷ is) i free e = ground (arith, find-append id is i)

erase-append :
    (id : Text) (is : List Invocation) (i : Invocation)
    → find_invocation id is ≡ none
    → short_id i ≡ id
    → erase_invocation id (is ++ i ∷ []) ≡ is
unfolding find_invocation erase_invocation
erase-append id [] i free e = ground (arith, text_eq_iff (short_id i) id)
erase-append id (j ∷ is) i free e = elim (Bool-cases (text_eq (short_id j) id)) [
  | inl same ↦ absurd (ground arith)
  | inr other ↦ rw (other, erase_invocation) (ap (◌∷◌ j) (erase-append id is i (ground arith) e))
]

-- The process after an invocation that came and was answered: only an id is used up.
abbrev pub used_id : Process → Process
used_id p = record p {
  uuid_generator = record p.uuid_generator { used = p.uuid_generator.used + 1 };
}

-- The result of an accepted invocation, whose short id no other one has, answers the client of that
-- invocation with its function and the output, and leaves the process as it was before the
-- invocation, but for an id that is used up.
pub finish-accept :
    (i : Invocation) (code : ℤ) (output : List ℕ) (p : Process)
    → find_invocation (short_id i) p.invocations ≡ none
    → finish_invocation (short_id i) code output (accept_invocation i p)
      ≡ done tt (used_id p) (
          answered i.client (record {
            function = i.function_name;
            invocation_id = short_id i;
            return_code = code;
            result = output;
          })
          ∷ [])
unfolding finish_invocation accept_invocation answer_to
finish-accept i code output p free = ground (
  arith,
  find-append (short_id i) p.invocations i free refl,
  erase-append (short_id i) p.invocations i free refl,
)

add_invocation_lem :
    (conn : ℕ) (body : List ℕ) (client : ℕ) (name : Text) (p : Process)
    → is_allocated p.status ≡ true
    → p.connection ≡ some conn
    → IsSendable (new_invocation body client name p)
    → add_invocation body client name p
      ≡ done tt
          (accept_invocation (submitted (new_invocation body client name p)) p)
          (sent conn (header (new_invocation body client name p)) ∷ sent conn body ∷ [])
unfolding add_invocation new_invocation
add_invocation_lem conn body client name p up c h =
    ground (arith, send_invocation_lem conn (new_invocation body client name p) h)

-- A process that is connected gets a request whose function has a name of at most 32 bytes without a
-- 0 and whose body has less than 2 GiB, and then the result under the first 16 bytes of its id, which
-- have no 0 and which no other invocation has. It sends a message that is read as a request with the
-- function, these bytes and the size of the body, and the body, and answers the client that asked
-- with the function that was asked for, the short id, the return code and the output. It is left as
-- it was, but for an id that is used up.
pub finish-add_invocation :
    (conn : ℕ) (body : List ℕ) (client : ℕ) (name : Text) (code : ℤ) (output : List ℕ) (p : Process)
    → is_allocated p.status ≡ true
    → p.connection ≡ some conn
    → IsClean (new_invocation body client name p)
    → find_invocation (short_id (new_invocation body client name p)) p.invocations ≡ none
    → (message : List ℕ) × ((do
      add_invocation body client name
      finish_invocation (short_id (new_invocation body client name p)) code output)
          p
        ≡ done tt (used_id p) (
            sent conn message
            ∷ sent conn body
            ∷ answered client (record {
              function = name;
              invocation_id = short_id (new_invocation body client name p);
              return_code = code;
              result = output;
            })
            ∷ []))
      × Announces (new_invocation body client name p) message
unfolding new_invocation
finish-add_invocation conn body client name code output p up c clean free =
    let i = new_invocation body client name p in
    let (hn, hi, small) = clean in
    (
      header i,
      ap (λ o. continue o (λ _. finish_invocation (short_id i) code output))
            (add_invocation_lem conn body client name p up c (hn.0, small))
          ∙ ap (after (sent conn (header i) ∷ sent conn body ∷ []))
              (finish-accept (submitted i) code output p free),
      header-Announces i clean,
    )
