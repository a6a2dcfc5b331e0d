-- ===== src/Controller/Pending/Results.antt =====
-- `insert_invocation` and `find_invocation`.
use praas.Base.{
  ℕ, ◌≡◌, inl, inr, refl, ap, true, false, List, [], ◌∷◌, ◌++◌, map, arith, All, Bool-cases,
}
use praas.Base.Text.{Text, text_eq, text_eq_iff}
use praas.Controller.Pending.{PendingMessage, PendingMessages, get, answers, find_invocation}
use praas.Controller.Pending.Gets.{NoAnswer}

abbrev pub HasKey : Text → PendingMessage → Type 0
HasKey key e = text_eq e.key key ≡ true

abbrev pub LacksKey : Text → PendingMessage → Type 0
LacksKey key e = text_eq e.key key ≡ false

-- A list is divided, its order kept on both sides.
pub data Divides : PendingMessages → PendingMessages → PendingMessages → Type 0 where
  done : Divides [] [] []
  left : (e : PendingMessage) {p a b : PendingMessages} → Divides p a b → Divides (e ∷ p) (e ∷ a) b
  right : (e : PendingMessage) {p a b : PendingMessages} → Divides p a b → Divides (e ∷ p) a (e ∷ b)

-- `find_invocation` divides the map: the workers of all entries with the key are the result, in their
-- order, and all entries without it stay.
pub find_invocation_lem :
    (key : Text) (p : PendingMessages)
    → (taken : PendingMessages) × Divides p taken (find_invocation key p).1
      × All (HasKey key) taken
      × All (LacksKey key) (find_invocation key p).1
      × ((find_invocation key p).0 ≡ map (λ e. e.worker) taken)
unfolding find_invocation
find_invocation_lem key [] = ([], done, tt, tt, refl)
find_invocation_lem key (e ∷ p) =
    let (taken, div, has, lacks, ws) = find_invocation_lem key p in
    elim (Bool-cases (text_eq e.key key)) [
      | inl hit ↦
          (e ∷ taken, rw hit (left e div), (hit, has), rw hit lacks, rw hit (ap (◌∷◌ e.worker) ws))
      | inr miss ↦ (taken, rw miss (right e div), has, rw miss (miss, lacks), rw miss ws)
    ]

none_answers :
    (key source : Text) (p : PendingMessages) → All (LacksKey key) p → NoAnswer key source p
none_answers key source [] h = tt
none_answers key source (e ∷ p) h = (unfold answers in ground arith, none_answers key source p h.1)

pub among :
    (key : Text) (e : PendingMessage) (back : PendingMessages)
    → e.key ≡ key
    → (front : PendingMessages)
    → (before : List ℕ) × (after : List ℕ) × ((find_invocation key (front ++ (e ∷ back))).0
        ≡ before ++ (e.worker ∷ after))
unfolding find_invocation
among key e back k [] = ([], (find_invocation key back).0, ground (arith, text_eq_iff e.key key))
among key e back k (x ∷ front) =
    let (before, after, eq) = among key e back k front in
    elim (Bool-cases (text_eq x.key key)) [
      | inl hit ↦ (x.worker ∷ before, after, rw hit (ap (◌∷◌ x.worker) eq))
      | inr miss ↦ (before, after, rw miss eq)
    ]

-- `find_invocation` does not look at what an entry waits for: the result of an invocation whose id is
-- a message key also takes the entries of the workers that wait for that message. Each such worker is
-- among those that are answered, and the message itself finds nobody afterwards.
pub find_invocation_takes_gets :
    (key source : Text) (front back : PendingMessages) (e : PendingMessage)
    → e.key ≡ key
    → e.waiting ≡ get
    → let found = find_invocation key (front ++ (e ∷ back)) in
      ((before : List ℕ) × (after : List ℕ) × (found.0 ≡ before ++ (e.worker ∷ after)))
      × NoAnswer key source found.1
find_invocation_takes_gets key source front back e k w =
    (among key e back k front, unanswered (front ++ (e ∷ back)))
  where
    unanswered : (xs : PendingMessages) → NoAnswer key source (find_invocation key xs).1
    unanswered xs =
        let (taken, div, has, lacks, ws) = find_invocation_lem key xs in
        none_answers key source _ lacks
