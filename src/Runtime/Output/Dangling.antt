-- ===== src/Runtime/Output/Dangling.antt =====
-- The view of the output buffer at the end of an invocation that set one of its own buffers.
use praas.Base.{
  ℕ, zero, suc, sym, subst, ◌⊎◌, ◌≡◌, refl, Bool, true, false, Option, none, some, List, [], ◌∷◌,
  get_elem?, set, arith, get_elem?-set_same, Bool-cases, inl, inr, ◌||◌,
}
use praas.Base.Text.{Text}
use praas.Outcome.{done}
use praas.Runtime.{Memory, Owned, Buffer, Context, block_bytes, base, same_pointer, free, free_all}
use praas.Runtime.Output.{set_output_buffer, end_invocation, start_invocation, get_output_buffer}

-- A block that one of the buffers owns.
abbrev pub owns : ℕ → List Owned → Bool
owns b [] = false
owns b (o ∷ os) = same_pointer (base o.ptr) (base (some b)) || owns b os

-- A place of a list keeps its value or gets the new one.
set-there :
    {A : Type 0} (m : List A) (c b : ℕ) (v x : A)
    → get_elem? m b ≡ some x
    → (get_elem? (set m c v) b ≡ some x) ⊎ (get_elem? (set m c v) b ≡ some v)
set-there [] c b v x h = inl h
set-there (y ∷ m) zero zero v x h = inr refl
set-there (y ∷ m) zero (suc b) v x h = inl h
set-there (y ∷ m) (suc c) zero v x h = inl h
set-there (y ∷ m) (suc c) (suc b) v x h = set-there m c b v x h

free-place :
    (ptr : Option ℕ) (b : ℕ) (m : Memory) (x : Option (List ℕ))
    → get_elem? m b ≡ some x
    → (get_elem? (free ptr m) b ≡ some x) ⊎ (get_elem? (free ptr m) b ≡ some none)
free-place none b m x h = inl h
free-place (some c) b m x h = set-there m c b none x h

free_all-freed :
    (os : List Owned) (b : ℕ) (m : Memory)
    → get_elem? m b ≡ some none
    → get_elem? (free_all os m) b ≡ some none
free_all-freed [] b m h = h
free_all-freed (o ∷ os) b m h = elim (free-place o.ptr b m none h) [
  | inl e ↦ free_all-freed os b (free o.ptr m) e
  | inr e ↦ free_all-freed os b (free o.ptr m) e
]

free-owner :
    (ptr : Option ℕ) (b : ℕ) (m : Memory) (x : Option (List ℕ))
    → get_elem? m b ≡ some x
    → same_pointer (base ptr) (base (some b)) ≡ true
    → get_elem? (free ptr m) b ≡ some none
free-owner none b m x h e = cc
free-owner (some c) b m x h e =
    let same : c ≡ b = ground arith in
    subst (λ k. get_elem? (set m k none) b ≡ some none) {x = b} {y = c} (sym same)
      (get_elem?-set_same m b none x h)

free_all-owner :
    (os : List Owned) (b : ℕ) (m : Memory) (x : Option (List ℕ))
    → get_elem? m b ≡ some x
    → owns b os ≡ true
    → get_elem? (free_all os m) b ≡ some none
free_all-owner [] b m x h e = cc
free_all-owner (o ∷ os) b m x h e = elim (Bool-cases (same_pointer (base o.ptr) (base (some b)))) [
  | inl f ↦ free_all-freed os b (free o.ptr m) (free-owner o.ptr b m x h f)
  | inr f ↦ elim (free-place o.ptr b m x h) [
    | inl k ↦ free_all-owner os b (free o.ptr m) x k (ground arith)
    | inr k ↦ free_all-freed os b (free o.ptr m) k
  ]
]

-- An invocation that set one of its own buffers as the output leaves the next one with an output
-- buffer whose block is freed: the view stays, and get_output_buffer hands it out.
pub get_output_buffer-dangling :
    (fresh : ℕ → List ℕ) (id : Text) (buf : Buffer) (b : ℕ) (bytes : List ℕ) (s : Context)
    → buf.ptr ≡ base (some b)
    → owns b s.user_buffers ≡ true
    → get_elem? s.memory b ≡ some (some bytes)
    → (t : Context) × ((get_output_buffer fresh 0
            (start_invocation id (end_invocation (set_output_buffer buf s)))
          ≡ done (record buf { len = 0 }) t [])
        × (block_bytes t.memory b ≡ none))
unfolding set_output_buffer end_invocation start_invocation get_output_buffer
get_output_buffer-dangling fresh id buf b bytes s p o h = (
  start_invocation id (end_invocation (set_output_buffer buf s)),
  (refl, rw (free_all-owner s.user_buffers b s.memory (some bytes) h o, block_bytes) refl),
)
