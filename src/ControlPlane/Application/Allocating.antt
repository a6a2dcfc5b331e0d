-- ===== src/ControlPlane/Application/Allocating.antt =====
-- Allocation keeps the invariant too.
use praas.Base.{
  Option-cases, ◌⊎◌, ◌≢◌, ℕ, ◌==◌, ◌≡◌, refl, Bool, ◌||◌, Option, none, some, [], ◌∷◌, ◌++◌, length,
  get_elem?, arith, Bool-cases, inl, inr, subst, get_elem?-append, get_elem?-append_last,
  get_elem?-append_new,
}
use praas.Base.Dict.{find, find-assign, find-erase}
use praas.Base.Text.{Text, text_eq, text_eq_iff}
use praas.Outcome.{
  undefined, ◌>>◌, Action, Leaves, Leaves-option, Leaves-if, Leaves-test, Leaves-continue,
  Leaves-after, modify,
}
use praas.ControlPlane.Process.{
  Process, Effect, Status, CreationCallback, ProcessInstance, Resources,
}
use praas.ControlPlane.Process.Life.{set_creation_callback, set_handle, created_callback}
use praas.ControlPlane.Process.Sound.{IsSound, IsKept, IsSound-IsKept, created_callback-IsKept}
use praas.ControlPlane.Application.{Scope, Doubles, at, is_empty, with_active, with_processes}
use praas.ControlPlane.Application.Allocation.{
  check_size, new_process, insert_process, add_process, erase_entry, process_allocated,
}
use praas.ControlPlane.Application.Consistent.{
  IsConsistent, Stays, at-Leaves, replaced-IsConsistent,
}

check_size-IsConsistent :
    {D : Type 0} (d : Doubles D) (limit : D) (given : Text) (s : Scope)
    → IsConsistent s
    → Leaves IsConsistent (check_size d limit given s)
unfolding check_size
check_size-IsConsistent d limit given s c =
    Leaves-option IsConsistent (d.stod given) _ _ (λ e. c)
      (λ size e. Leaves-if IsConsistent (d.le size d.nought || d.lt limit size) _ _ c c)

-- A sound process at the end of the store.
pub appended-IsConsistent :
    (p : Process) (s : Scope)
    → IsSound p
    → IsConsistent s
    → IsConsistent (with_processes (s.processes ++ p ∷ []) s)
unfolding with_processes
appended-IsConsistent p s h c = record {
  sound = λ r q e. elim (get_elem?-append_new s.processes r p q e) [
    | inl old ↦ c.sound r q old
    | inr new ↦ subst IsSound {x = p} {y = q} (ground arith) h
  ];
  active = λ k r e.
      let (q, here, named) = c.active k r e in (q, get_elem?-append s.processes r p q here, named);
  swapped = λ k r e.
      let (q, here, placed) = c.swapped k r e in
      (q, get_elem?-append s.processes r p q here, placed);
}

insert_process-IsConsistent :
    (p : Process) (callback : CreationCallback) (wait : Bool) (s : Scope)
    → IsSound p
    → IsConsistent s
    → Leaves IsConsistent (insert_process p callback wait s)
unfolding insert_process with_active with_processes set_creation_callback
insert_process-IsConsistent p callback wait s h c =
    Leaves-option IsConsistent (find p.name s.application.active_processes) _ _
      (λ e.
        let q = set_creation_callback callback wait p in
        let k = appended-IsConsistent q s (ground arith) c in
        record {
          sound = k.sound;
          active = λ n r f. elim (Bool-cases (text_eq p.name n)) [
            | inl same ↦ (
              q,
              subst (λ t. get_elem? (s.processes ++ q ∷ []) t ≡ some q) {x = length s.processes}
                  {y = r}
                  (ground (
                    arith,
                    find-assign p.name n (length s.processes) s.application.active_processes,
                  ))
                  (get_elem?-append_last s.processes q),
              (text_eq_iff p.name n).0 same,
            )
            | inr other ↦ k.active n r (
                ground
                  (arith, find-assign p.name n (length s.processes) s.application.active_processes))
          ];
          swapped = k.swapped;
        })
      (λ r e. c)

pub new_process-IsSound :
    (name application : Text) (resources : Resources) (uuids : ℕ → Text)
    → IsSound (new_process name application resources uuids)
unfolding new_process
new_process-IsSound name application resources uuids = ground arith

pub add_process-IsConsistent :
    {D : Type 0} (d : Doubles D) (max_memory max_vcpus : D) (uuids : ℕ → Text) (name : Text)
    (resources : Resources) (callback : CreationCallback) (wait : Bool) (s : Scope)
    → IsConsistent s
    → Leaves IsConsistent (add_process d max_memory max_vcpus uuids name resources callback wait s)
unfolding add_process
add_process-IsConsistent d max_memory max_vcpus uuids name resources callback wait s c =
    Leaves-if IsConsistent (is_empty name) _ _ c (
      Leaves-continue IsConsistent IsConsistent (check_size d max_memory resources.memory s) _
        (check_size-IsConsistent d max_memory resources.memory s c) (λ t k. k)
        (λ _ t k.
          Leaves-continue IsConsistent IsConsistent (check_size d max_vcpus resources.vcpus t) _
            (check_size-IsConsistent d max_vcpus resources.vcpus t k) (λ u l. l)
            (λ _ u l.
              insert_process-IsConsistent (new_process name s.application.name resources uuids)
                callback wait u (new_process-IsSound name s.application.name resources uuids) l)))

kept-Stays : (s : Status) (p q : Process) → IsKept s p.name p.swap q → IsSound q × Stays p q
kept-Stays s p q k = (ground arith, ground arith)

-- A method that keeps the name and the place, whatever it makes of the status.
pub kept-IsConsistent :
    {A : Type 0} (t : Status) (r : ℕ) (method : Action Effect Process A) (s : Scope) (p : Process)
    → IsConsistent s
    → get_elem? s.processes r ≡ some p
    → Leaves (IsKept t p.name p.swap) (method p)
    → Leaves IsConsistent (at r method s)
kept-IsConsistent t r method s p c here h =
    at-Leaves r method s p (IsKept t p.name p.swap) IsConsistent here h
      (λ q k. let l = kept-Stays t p q k in replaced-IsConsistent s r p q here c l.0 l.1)

pub created-Leaves :
    (error : Option Text) (p : Process)
    → IsSound p
    → Leaves (IsKept p.status p.name p.swap) (created_callback error p)
created-Leaves error p h =
    created_callback-IsKept p.status p.name p.swap error p (IsSound-IsKept p h)

pub handled-Leaves :
    (i : ProcessInstance) (p : Process)
    → IsSound p
    → Leaves (IsKept p.status p.name p.swap) ((do modify (set_handle i); created_callback none) p)
unfolding set_handle
handled-Leaves i p h =
    Leaves-after (IsKept p.status p.name p.swap) [] _
      (created_callback-IsKept p.status p.name p.swap none (set_handle i p) (ground arith))

pub erase_entry-IsConsistent :
    (name : Text) (r : ℕ) (s : Scope)
    → find name s.application.active_processes ≡ some r
    → IsConsistent s
    → Leaves (λ t. IsConsistent t × (t.processes ≡ s.processes)) (erase_entry name r s)
unfolding erase_entry with_active
erase_entry-IsConsistent name r s e c =
    Leaves-option (λ t. IsConsistent t × (t.processes ≡ s.processes))
      (find name s.application.active_processes) _ _ (λ f. absurd (ground arith))
      (λ r' f.
        Leaves-test (λ t. IsConsistent t × (t.processes ≡ s.processes)) (r' == r) _ _
          (λ g. (
            record {
              sound = c.sound;
              active = λ k j m.
                  c.active k j (ground (arith, find-erase name k s.application.active_processes));
              swapped = c.swapped;
            },
            refl,
          ))
          (λ g. absurd (ground arith)))

-- The backend reports for add_process; a failure needs the entry that add_process made.
-- The entry that a failed report erases is there still.
abbrev pub InPlace : Text → ℕ → Option ProcessInstance → Scope → Type 0
InPlace name r none s = find name s.application.active_processes ≡ some r
InPlace name r (some i) s = Unit {0}

pub InPlace-cases :
    (name : Text) (r : ℕ) (i : Option ProcessInstance) (error : Option Text) (s : Scope)
    → InPlace name r i s
      ⊎ ((i ≡ none)
          × (find name s.application.active_processes ≢ some r)
          × (process_allocated name r i error s ≡ undefined))
unfolding process_allocated erase_entry
InPlace-cases name r (some i) error s = inl tt
InPlace-cases name r none error s = elim (Option-cases (find name s.application.active_processes)) [
  | inl e ↦ inr (refl, ground arith, ground arith)
  | inr (j, e) ↦ elim (Bool-cases (j == r)) [
    | inl same ↦ inl (ground arith)
    | inr other ↦ inr (refl, ground arith, ground arith)
  ]
]

pub process_allocated-IsConsistent :
    (name : Text) (r : ℕ) (i : Option ProcessInstance) (error : Option Text) (s : Scope)
    (p : Process)
    → IsConsistent s
    → get_elem? s.processes r ≡ some p
    → InPlace name r i s
    → Leaves IsConsistent (process_allocated name r i error s)
unfolding process_allocated
process_allocated-IsConsistent name r (some i) error s p c here e =
    kept-IsConsistent p.status r _ s p c here (handled-Leaves i p (c.sound r p here))
process_allocated-IsConsistent name r none error s p c here e =
    Leaves-continue (λ t. IsConsistent t × (t.processes ≡ s.processes)) IsConsistent
      (erase_entry name r s) _ (erase_entry-IsConsistent name r s e c) (λ t k. k.0)
      (λ _ t k.
        kept-IsConsistent p.status r (created_callback error) t p k.0 (ground arith)
          (created-Leaves error p (c.sound r p here)))
