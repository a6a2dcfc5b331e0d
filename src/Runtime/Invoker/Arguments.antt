-- ===== src/Runtime/Invoker/Arguments.antt =====
-- The arguments of a user function are the pieces of the payload, one behind the other.
use mathlib.Core.Bool.{true, false}
use praas.Base.{
  ℕ, zero, suc, ◌+◌, ◌*◌, ◌^◌, ◌≤◌, ◌<◌, ◌≡◌, refl, ltb, Option, some, List, [], ◌∷◌, ◌++◌, length,
  take, drop, arith, map, ap, ◌∙◌, ◌⊎◌, inl, inr, Bool-cases, length-take, length-drop, get_elem?,
  if◌then◌else◌,
}
use native.Mathlib.Nat.{mod-eq_of_lt}
use praas.Ipc.Header.{buf_size}
use praas.Ipc.InvocationRequest
use praas.Ipc.InvocationRequest.{InvocationRequest, lengths_offset}
use praas.Result.{ok, err, praas_exception}
use praas.Runtime.{Memory, Owned, Buffer, load}
use praas.Runtime.Output.Written.{joined}
use praas.Runtime.Invoker.{Invocation, accept_request, lengths, rounds, total_len, slices}

abbrev pub sum : List ℕ → ℕ
sum [] = 0
sum (n ∷ ns) = n + sum ns

-- The bytes cut at the lengths.
abbrev pub pieces : List ℕ → List ℕ → List (List ℕ)
pieces [] bytes = []
pieces (n ∷ ns) bytes = take n bytes ∷ pieces ns (drop n bytes)

-- What the user function reads in its arguments.
abbrev pub loads : Memory → List Buffer → List (Option (List ℕ))
loads m [] = []
loads m (b ∷ bs) = load m b.ptr b.len ∷ loads m bs

zero_add : (n : ℕ) → 0 + n ≡ n
zero_add n = omega arith

total_len-sum :
    (total : ℕ) (lens : List ℕ)
    → total + sum lens < 2 ^ 64
    → total_len total lens ≡ total + sum lens
unfolding total_len
total_len-sum total [] h = omega arith
total_len-sum total (len ∷ lens) h =
    rw (mod-eq_of_lt {n = total + len} {m = 2 ^ 64} (omega arith))
      (total_len-sum (total + len) lens (omega arith) ∙ omega arith)

drop-nil : (n : ℕ) → [] ≡ drop {A = ℕ} n []
drop-nil zero = refl
drop-nil (suc n) = refl

drop-drop : (n k : ℕ) (xs : List ℕ) → drop n (drop k xs) ≡ drop (k + n) xs
drop-drop n zero xs = ap (λ j. drop j xs) (omega arith)
drop-drop zero (suc k) [] = drop-nil (suc k + zero)
drop-drop (suc n) (suc k) [] = drop-nil (suc k + suc n)
drop-drop n (suc k) (x ∷ xs) =
    drop-drop n k xs ∙ ap (λ j. drop j (x ∷ xs)) {x = suc (k + n)} {y = suc k + n} (omega arith)

load-slice :
    (m : Memory) (b offset len : ℕ) (bytes : List ℕ)
    → get_elem? m b ≡ some (some bytes)
    → offset + len ≤ length bytes
    → load m (some (record { block = b; offset = offset })) len
      ≡ some (take len (drop offset bytes))
load-slice m b offset zero bytes h k = refl
load-slice m b offset (suc len) bytes h k = ground arith

loads-slices :
    (m : Memory) (b offset : ℕ) (bytes lens : List ℕ)
    → get_elem? m b ≡ some (some bytes)
    → offset + sum lens ≤ length bytes
    → loads m (slices (some b) offset lens) ≡ map some (pieces lens (drop offset bytes))
unfolding slices
loads-slices m b offset bytes [] h k = refl
loads-slices m b offset bytes (len ∷ lens) h k = cc (
  load-slice m b offset len bytes h (omega arith),
  loads-slices m b (offset + len) bytes lens h (omega arith),
  drop-drop len offset bytes,
)

take-nil : (n : ℕ) → [] ≡ take {A = ℕ} n []
take-nil zero = refl
take-nil (suc n) = refl

take-add : (n k : ℕ) (xs : List ℕ) → take n xs ++ take k (drop n xs) ≡ take (n + k) xs
take-add zero k xs = ap (λ j. take j xs) (omega arith)
take-add (suc n) zero [] = take-nil (suc n + zero)
take-add (suc n) (suc k) [] = take-nil (suc n + suc k)
take-add (suc n) k (x ∷ xs) =
    ap (◌∷◌ x) (take-add n k xs)
    ∙ ap (λ j. take j (x ∷ xs)) {x = suc (n + k)} {y = suc n + k} (omega arith)

length-take_le : (n : ℕ) (xs : List ℕ) → n ≤ length xs → length (take n xs) ≡ n
length-take_le n xs h = omega (arith, length-take n xs)

joined-pieces :
    (lens bytes : List ℕ)
    → sum lens ≤ length bytes
    → (joined (pieces lens bytes) ≡ take (sum lens) bytes)
      × (map (λ p. length p) (pieces lens bytes) ≡ lens)
joined-pieces [] bytes h = (refl, refl)
joined-pieces (len ∷ lens) bytes h =
    let (j, k) = joined-pieces lens (drop len bytes) (omega (arith, length-drop len bytes)) in
    (
      ap (◌++◌ (take len bytes)) j ∙ take-add len (sum lens) bytes,
      cc (k, length-take_le len bytes (omega arith)),
    )

ltb-cases : (a b : ℕ) → ((ltb a b ≡ true) × (a < b)) ⊎ ((ltb a b ≡ false) × (b ≤ a))
ltb-cases a b = elim (Bool-cases (ltb a b)) [
  | inl e ↦ inl (e, ground arith)
  | inr e ↦ inr (e, ground arith)
]

ltb-ge : (a b : ℕ) → b ≤ a → ltb a b ≡ false
ltb-ge a b h = ground arith

abbrev invocation : Option ℕ → InvocationRequest → Invocation
invocation ptr req = record {
  key = InvocationRequest.invocation_id req;
  function_name = InvocationRequest.function_name req;
  args = slices ptr 0 (lengths req);
}

accept_request-eq :
    (input : Owned) (req : InvocationRequest)
    → lengths_offset + 4 * rounds (InvocationRequest.buffers req) ≤ buf_size
    → sum (lengths req) < 2 ^ 64
    → accept_request input req ≡ (
        if ltb input.len (sum (lengths req))
        then err praas_exception
        else ok (invocation input.ptr req))
unfolding accept_request
accept_request-eq input req room small =
    rw
      (
        ltb-ge buf_size (lengths_offset + 4 * rounds (InvocationRequest.buffers req)) room,
        total_len-sum 0 (lengths req) (omega arith) ∙ zero_add (sum (lengths req)),
      )
      refl

-- A request whose lengths do not overflow is refused exactly if they are more than the payload; if
-- it is accepted, the arguments read the payload cut at the lengths, one behind the other.
pub accept_request-arguments :
    (m : Memory) (input : Owned) (b : ℕ) (bytes : List ℕ) (req : InvocationRequest)
    → input.ptr ≡ some b
    → get_elem? m b ≡ some (some bytes)
    → input.len ≤ length bytes
    → lengths_offset + 4 * rounds (InvocationRequest.buffers req) ≤ buf_size
    → sum (lengths req) < 2 ^ 64
    → ((invoc : Invocation) × (ps : List (List ℕ)) × (accept_request input req ≡ ok invoc)
        × (invoc.key ≡ InvocationRequest.invocation_id req)
        × (loads m invoc.args ≡ map some ps)
        × (joined ps ≡ take (sum (lengths req)) bytes)
        × (map (λ p. length p) ps ≡ lengths req))
      ⊎ ((accept_request input req ≡ err praas_exception) × (input.len < sum (lengths req)))
accept_request-arguments m input b bytes req own block short room small =
    let e = accept_request-eq input req room small in
    elim (ltb-cases input.len (sum (lengths req))) [
      | inl (over, lt) ↦
          inr (
            e ∙ ap (λ c. if c then err praas_exception else ok (invocation input.ptr req)) over,
            lt,
          )
      | inr (fits, le) ↦
          (let (j, k) = joined-pieces (lengths req) bytes (omega (arith, le, short)) in
            inl (
              invocation (some b) req,
              pieces (lengths req) bytes,
              e
                  ∙ ap (λ c. if c then err praas_exception else ok (invocation input.ptr req)) fits
                  ∙ ap (λ q. ok (invocation q req)) own,
              refl,
              loads-slices m b 0 bytes (lengths req) block (omega (arith, le, short)),
              j,
              k,
            ))
    ]
