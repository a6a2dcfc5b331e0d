-- ===== src/Runtime/Output/Written.antt =====
-- What a user function writes to the output buffer is what its invocation sends.
use praas.Base.{
  ℕ, suc, ◌+◌, ◌≤◌, ◌≡◌, refl, some, List, [], ◌∷◌, ◌++◌, length, drop, get_elem?, arith,
  length-append, get_elem?-set_same, take-append_all, length-drop, sym, ap, ◌∙◌,
}
use mathlib.Core.List.{append_assoc, append-nil}
use praas.Base.Text.{Text}
use praas.Outcome.{after-nil, done, Action, ◌>>◌, pure}
use praas.Runtime.{Context, Effect, base, load_block}
use praas.Runtime.Output.{written, write_output, as_buffer, contents, overwrite, start_invocation}

-- A function that writes one piece behind the other.
abbrev pub write_all : List (List ℕ) → ℕ → Action Effect Context (Unit {0})
write_all [] pos = pure tt
write_all (p ∷ ps) pos = do write_output p pos; write_all ps (pos + length p)

abbrev pub joined : List (List ℕ) → List ℕ
joined [] = []
joined (p ∷ ps) = p ++ joined ps

-- The output block b starts with the bytes that were written, and the view shows them.
pub record IsWritten (b : ℕ) (bytes rest : List ℕ) (s : Context) : Type 0 where
  pub own : s.output.ptr ≡ some b
  pub block : get_elem? s.memory b ≡ some (some (bytes ++ rest))
  pub shown : s.output_buf_view.ptr ≡ base (some b)
  pub measured : s.output_buf_view.len ≡ length bytes

drop-append_add : (xs ys : List ℕ) (n : ℕ) → drop (length xs + n) (xs ++ ys) ≡ drop n ys
drop-append_add [] ys n = ap (λ k. drop k ys) (omega arith)
drop-append_add (x ∷ xs) ys n =
    ap (λ k. drop k (x ∷ (xs ++ ys))) {x = suc (length xs) + n} {y = suc (length xs + n)}
      (omega arith)
    ∙ drop-append_add xs ys n

overwrite_lem :
    (bytes rest piece : List ℕ)
    → overwrite (length bytes) piece (bytes ++ rest) ≡ (bytes ++ piece) ++ drop (length piece) rest
overwrite_lem bytes rest piece =
    rw
      (
        take-append_all bytes rest,
        drop-append_add bytes rest (length piece),
        append_assoc bytes piece (drop (length piece) rest),
      )
      refl

load_block-append : (bytes rest : List ℕ) → load_block (bytes ++ rest) 0 (length bytes) ≡ some bytes
load_block-append bytes rest = ground (arith, length-append bytes rest, take-append_all bytes rest)

IsWritten-contents :
    (b : ℕ) (bytes rest : List ℕ) (s : Context) → IsWritten b bytes rest s → contents s ≡ some bytes
unfolding contents as_buffer
IsWritten-contents b bytes rest s w =
    ground (arith, load_block-append bytes rest, w.own, w.shown, w.measured, w.block)

write_output-written :
    (b : ℕ) (bytes piece : List ℕ) (pos : ℕ) (s : Context)
    → s.output.ptr ≡ some b
    → get_elem? s.memory b ≡ some (some bytes)
    → pos + length piece ≤ length bytes
    → write_output piece pos s ≡ done tt (written b bytes piece pos s) []
unfolding write_output
write_output-written b bytes piece pos s own block fits = ground arith

write_output-IsWritten :
    (b : ℕ) (bytes rest piece : List ℕ) (s : Context)
    → IsWritten b bytes rest s
    → length piece ≤ length rest
    → (t : Context) × ((write_output piece (length bytes) s ≡ done tt t [])
        × IsWritten b (bytes ++ piece) (drop (length piece) rest) t)
write_output-IsWritten b bytes rest piece s w fits = (
  written b (bytes ++ rest) piece (length bytes) s,
  (
    write_output-written b (bytes ++ rest) piece (length bytes) s w.own w.block
        (omega (arith, length-append bytes rest)),
    record {
      own = w.own;
      block =
          get_elem?-set_same s.memory b _ _ w.block
          ∙ ap (λ k. some (some k)) (overwrite_lem bytes rest piece);
      shown = w.shown;
      measured = omega (arith, length-append bytes piece, w.measured);
    },
  ),
)

write_all-contents :
    (b : ℕ) (ps : List (List ℕ)) (bytes rest : List ℕ) (s : Context)
    → IsWritten b bytes rest s
    → length (joined ps) ≤ length rest
    → (t : Context) × ((write_all ps (length bytes) s ≡ done tt t [])
        × (contents t ≡ some (bytes ++ joined ps)))
write_all-contents b [] bytes rest s w fits =
    (s, (refl, IsWritten-contents b bytes rest s w ∙ ap some (sym (append-nil bytes))))
write_all-contents b (p ∷ ps) bytes rest s w fits =
    let (t, (e, k)) =
      write_output-IsWritten b bytes rest p s w (omega (arith, length-append p (joined ps))) in
    let (u, (f, g)) =
      write_all-contents b ps (bytes ++ p) (drop (length p) rest) t k
        (omega (arith, length-append p (joined ps), length-drop (length p) rest)) in
    (
      u,
      (
        rw (e, after-nil (write_all ps (length bytes + length p) t), sym (length-append bytes p)) f,
        g ∙ ap some (append_assoc bytes p (joined ps)),
      ),
    )

-- Pieces that a function writes one behind the other into the output buffer of its invocation, and
-- that fit in it, are all accepted, and what the invocation sends is their concatenation.
pub start_invocation-write_all :
    (id : Text) (b : ℕ) (room : List ℕ) (ps : List (List ℕ)) (s : Context)
    → s.output.ptr ≡ some b
    → s.output_buf_view.ptr ≡ base (some b)
    → get_elem? s.memory b ≡ some (some room)
    → length (joined ps) ≤ length room
    → (t : Context) × ((write_all ps 0 (start_invocation id s) ≡ done tt t [])
        × (contents t ≡ some (joined ps)))
unfolding start_invocation
start_invocation-write_all id b room ps s own shown block fits =
    write_all-contents b ps [] room (start_invocation id s)
      (record { own = own; block = block; shown = shown; measured = refl }) fits
