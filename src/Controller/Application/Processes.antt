-- ===== src/Controller/Application/Processes.antt =====
-- What `update` does to the two lists.
use praas.Base.{
  ◌≢◌, All, ap, false, ℕ, ◌+◌, ◌≡◌, true, List, [], ◌∷◌, ◌++◌, arith, if◌then◌else◌, inl, inr,
  Bool-cases,
}
use praas.Base.Text.{Text, text_eq, text_eq_iff, text_eq_refl}
use praas.Controller.Application.{
  Application, Status, active, swapped, update, erase_first, contains,
}

-- How often a process stands in a list.
abbrev pub count : Text → List Text → ℕ
count k [] = 0
count k (p ∷ ps) = (if text_eq p k then 1 else 0) + count k ps

count-append :
    (k id : Text) (ps : List Text)
    → count k (ps ++ id ∷ []) ≡ count k ps + (if text_eq id k then 1 else 0)
count-append k id [] = omega arith
count-append k id (p ∷ ps) = omega (arith, count-append k id ps)

count-erase_first :
    (k id : Text) (ps : List Text)
    → contains id ps ≡ true
    → count k (erase_first id ps) + (if text_eq id k then 1 else 0) ≡ count k ps
unfolding contains erase_first
count-erase_first k id [] h = ground arith
count-erase_first k id (p ∷ ps) h =
    ground (arith, text_eq_iff p id, text_eq_iff p k, text_eq_iff id k, count-erase_first k id ps)

contains-append : (id : Text) (ps : List Text) → contains id (ps ++ id ∷ []) ≡ true
unfolding contains
contains-append id [] = ground (arith, text_eq_refl id)
contains-append id (p ∷ ps) = ground (arith, contains-append id ps)

-- No entry of a list is the process.
abbrev pub Absent : Text → List Text → Type 0
Absent id ps = All (λ p. p ≢ id) ps

-- What a process may see of an update: ACTIVE puts the process behind the active ones; SWAPPED takes
-- its first entry out of the active ones and puts the process behind the swapped ones, or changes
-- nothing if no active process is it.
pub data Views : Status → Text → Application → Application → Type 0 where
  joins :
      (id : Text) (ps ss : List Text)
      → Views active id
          (record { active_processes = ps; swapped_processes = ss })
          (record { active_processes = ps ++ id ∷ []; swapped_processes = ss })
  moves :
      (id : Text) (before behind ss : List Text)
      → Absent id before
      → Views swapped id
          (record { active_processes = before ++ id ∷ behind; swapped_processes = ss })
          (record { active_processes = before ++ behind; swapped_processes = ss ++ id ∷ [] })
  ignored :
      (id : Text) (ps ss : List Text)
      → Absent id ps
      → Views swapped id
          (record { active_processes = ps; swapped_processes = ss })
          (record { active_processes = ps; swapped_processes = ss })

Absent-contains : (id : Text) (ps : List Text) → contains id ps ≡ false → Absent id ps
unfolding contains
Absent-contains id [] h = tt
Absent-contains id (p ∷ ps) h =
    (λ e. ground (arith, h, text_eq_iff p id), Absent-contains id ps (ground (arith, h)))

-- The entry that erase_first takes out.
first_entry :
    (id : Text) (ps : List Text)
    → contains id ps ≡ true
    → (before : List Text) × (behind : List Text) × (ps ≡ before ++ id ∷ behind)
      × (erase_first id ps ≡ before ++ behind)
      × Absent id before
unfolding contains erase_first
first_entry id [] h = ground arith
first_entry id (p ∷ ps) h = elim (Bool-cases (text_eq p id)) [
  | inl same ↦ ([], ps, ap (λ q. q ∷ ps) ((text_eq_iff p id).0 same), ground (arith, same), tt)
  | inr other ↦
      (let (before, behind, split, erased, absent) = first_entry id ps (ground (arith, h, other)) in
        (
          p ∷ before,
          behind,
          ap (◌∷◌ p) split,
          ground (arith, other, erased),
          (λ e. ground (arith, other, text_eq_iff p id), absent),
        ))
]

-- Every update does what a process may see of it, and no process is lost or counted twice by
-- SWAPPED.
pub update_lem :
    (s : Status) (id : Text) (a : Application)
    → Views s id a (update s id a)
      × ((k : Text)
          → count k (update swapped id a).active_processes
              + count k (update swapped id a).swapped_processes
            ≡ count k a.active_processes + count k a.swapped_processes)
unfolding update
update_lem s id a = (views s, moved)
  where
    views : (s : Status) → Views s id a (update s id a)
    views active = joins id a.active_processes a.swapped_processes
    views swapped = elim (Bool-cases (contains id a.active_processes)) [
      | inl known ↦
          (let (before, behind, split, erased, absent) = first_entry id a.active_processes known in
            rw (known, erased, split) (moves id before behind a.swapped_processes absent))
      | inr unknown ↦ rw unknown (
          ignored id a.active_processes a.swapped_processes
            (Absent-contains id a.active_processes unknown))
    ]

    moved :
        (k : Text)
        → count k (update swapped id a).active_processes
            + count k (update swapped id a).swapped_processes
          ≡ count k a.active_processes + count k a.swapped_processes
    moved k =
        ground
          (arith, count-append k id a.swapped_processes, count-erase_first k id a.active_processes)
