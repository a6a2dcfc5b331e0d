-- ===== src/Controller/WorkQueue/Consistent.antt =====
-- The invariant of the work queue.
use praas.Base.{ℕ, ◌+◌, ◌≡◌, Option, none, some, List, [], ◌∷◌, ◌++◌, arith, if◌then◌else◌}
use praas.Base.Text.{Text, text_eq}
use praas.Base.Dict.{find}
use praas.Controller.WorkQueue.{Invocation, WorkQueue, empty_queue}

abbrev pub count : Text → List Text → ℕ
count k [] = 0
count k (j ∷ js) = (if text_eq j k then 1 else 0) + count k js

-- How often an invocation should stand among the pending ones.
abbrev pub waits : Option Invocation → ℕ
waits none = 0
waits (some i) = if i.active then 0 else 1

-- An invocation stands in the list of pending ones once if it is in the map and does not run, and
-- not at all otherwise.
abbrev pub IsConsistent : WorkQueue → Type 0
IsConsistent q = (k : Text) → count k q.pending ≡ waits (find k q.invocations)

pub count-append :
    (k j : Text) (ks : List Text)
    → count k (ks ++ j ∷ []) ≡ count k ks + (if text_eq j k then 1 else 0)
count-append k j [] = omega arith
count-append k j (x ∷ ks) = omega (arith, count-append k j ks)

pub empty-IsConsistent : IsConsistent empty_queue
unfolding find
empty-IsConsistent k = omega arith
