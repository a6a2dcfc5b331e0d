-- ===== src/Controller/Pending/Gets.antt =====
-- `insert_get` and `find_get`.
use praas.Base.{
  ℕ, ◌≡◌, ◌⊎◌, inl, inr, refl, ap, true, false, none, some, [], ◌∷◌, ◌++◌, arith, All, Bool-cases,
}
use praas.Base.Text.{Text, text_eq_iff, text_eq_refl}
use praas.Controller.Mailbox.{any_process}
use praas.Controller.Pending.{PendingMessage, PendingMessages, insert_get, answers, find_get}

abbrev pub NoAnswer : Text → Text → PendingMessages → Type 0
NoAnswer key source = All λ e. answers key source e ≡ false

-- `find_get` takes the first entry that answers to the message, its worker is the result and all
-- other entries stay in their order; without such an entry it finds nothing and changes nothing.
pub find_get_lem :
    (key source : Text) (p : PendingMessages)
    → (NoAnswer key source p × (find_get key source p ≡ (none, p)))
      ⊎ ((front : PendingMessages) × (back : PendingMessages) × (e : PendingMessage) × (p
            ≡ front ++ (e ∷ back))
          × NoAnswer key source front
          × (answers key source e ≡ true)
          × (find_get key source p ≡ (some e.worker, front ++ back)))
unfolding find_get
find_get_lem key source [] = inl (tt, refl)
find_get_lem key source (x ∷ p) = elim (Bool-cases (answers key source x)) [
  | inl hit ↦ inr ([], p, x, refl, tt, hit, rw hit)
  | inr miss ↦ elim (find_get_lem key source p) [
    | inl (none_there, e) ↦ inl ((miss, none_there), rw (miss, e))
    | inr (front, back, y, split, before, hit, e) ↦
        inr (x ∷ front, back, y, ap (◌∷◌ x) split, (miss, before), hit, rw (miss, e))
  ]
]

-- A worker that asks for a key from a sender, or from anybody, is found by the sender's message, and
-- the entry is gone.
pub find_get-insert_get :
    (key source asked : Text) (worker : ℕ) (p : PendingMessages)
    → (asked ≡ source) ⊎ (asked ≡ any_process)
    → NoAnswer key source p
    → find_get key source (insert_get key asked worker p) ≡ (some worker, p)
unfolding find_get insert_get
find_get-insert_get key source asked worker [] who free =
    unfold answers in
    ground (arith, text_eq_refl key, text_eq_iff asked source, text_eq_iff asked any_process)
find_get-insert_get key source asked worker (e ∷ p) who free =
    ground (arith, find_get-insert_get key source asked worker p who free.1)
