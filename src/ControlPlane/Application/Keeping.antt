-- ===== src/ControlPlane/Application/Keeping.antt =====
-- The operations of an application keep the invariant: they are defined, and what they leave is
-- consistent, whether they return or throw.
use praas.Base.{
  get_elem?-set, ℕ, ◌≡◌, refl, true, false, none, some, [], get_elem?, if◌then◌else◌, arith,
  Bool-cases, Option-cases, inl, inr, subst,
}
use praas.Base.Dict.{Dict, find, find-assign, find-erase}
use praas.Base.Text.{Text, text_eq}
use praas.Outcome.{
  done, thrown, raised, ◌>>◌, Leaves, Leaves-option, Leaves-if, Leaves-test, modify,
}
use praas.ControlPlane.Process.{
  Process, swapping_out, swapped_out, is_allocated, is_swapping_out, is_swapped_out,
}
use praas.ControlPlane.Process.Life.{send_swap, set_status, close_connection}
use praas.ControlPlane.Process.Sound.{IsSound, is_some}
use praas.ControlPlane.Application.{
  Scope, Deployment, get_location, at, is_empty, with_active, with_swapped,
}
use praas.ControlPlane.Application.Swapping.{
  swap_out, swap_process, confirm_swap, move_to_swapped, insert_new, swapped_process, close,
  drop_name, closed_process, delete_process,
}
use praas.ControlPlane.Application.Consistent.{
  IsConsistent, Stays, replaced, at-IsConsistent, replaced-IsConsistent,
}
use praas.Message.SwapRequest
use praas.Message.SwapRequest.{SwapRequest, set_path}
use praas.Result.{invalid_process_state, Result, Result-cases}

set_path-defined : (p : Text) (m : SwapRequest) → set_path p m ≡ Result.undefined → ⊥
unfolding set_path
set_path-defined p m h = ground arith

-- A request to swap out is sent or refused; the process stays.
pub send_swap-Leaves :
    (P : Process → Type 0) (location : Text) (p : Process)
    → p.swap ≡ some location
    → P p
    → Leaves P (send_swap p)
unfolding send_swap
send_swap-Leaves P location p placed h =
    Leaves-option P p.connection _ _ (λ e. h)
      (λ conn e.
        Leaves-option P p.swap _ _ (λ f. absurd (ground arith))
          (λ path f. elim (Result-cases (set_path path SwapRequest.fresh)) [
            | inl (m, g) ↦ rw g h
            | inr (inl (m, g)) ↦ rw g h
            | inr (inr g) ↦ absurd (set_path-defined path SwapRequest.fresh g)
          ]))

swap_out-Leaves :
    (location : Text) (p : Process)
    → IsSound p
    → Leaves (λ q. IsSound q × Stays p q) (swap_out location p)
unfolding swap_out
swap_out-Leaves location p h =
    Leaves-if (λ q. IsSound q × Stays p q) (is_allocated p.status) _ _
      (send_swap-Leaves (λ q. IsSound q × Stays p q) location
        (record p { status = swapping_out; swap = some location }) refl
        (ground arith, ground arith))
      (h, (refl, ground arith))

pub swap_process-IsConsistent :
    (d : Deployment) (name : Text) (s : Scope)
    → IsConsistent s
    → Leaves IsConsistent (swap_process d name s)
unfolding swap_process
swap_process-IsConsistent d name s c = Leaves-if IsConsistent (is_empty name) _ _ c (
    Leaves-option IsConsistent (find name s.application.active_processes) _ _ (λ e. c)
      (λ r e.
        let (p, here, named) = c.active name r e in
        at-IsConsistent r _ s p c here
          (swap_out-Leaves (get_location d name) p (c.sound r p here))))

pub insert_new_lem :
    (name k : Text) (r : ℕ) (d : Dict ℕ)
    → find name d ≡ none
    → find k (insert_new name r d) ≡ (if text_eq name k then some r else find k d)
unfolding insert_new
insert_new_lem name k r d e = ground (arith, find-assign name k r d)

pub insert_new-taken :
    (name : Text) (r r' : ℕ) (d : Dict ℕ) → find name d ≡ some r' → insert_new name r d ≡ d
unfolding insert_new
insert_new-taken name r r' d e = ground arith

-- A process whose swap is confirmed has its place, and moves from one table to the other.
abbrev IsPlaced : Text → ℕ → Scope → Type 0
IsPlaced name r s =
    IsConsistent s × (p : Process) × (get_elem? s.processes r ≡ some p) × (is_some p.swap ≡ true)

move_to_swapped-IsConsistent :
    (name : Text) (r : ℕ) (s : Scope) → IsPlaced name r s → IsConsistent (move_to_swapped name r s)
unfolding move_to_swapped with_swapped with_active
move_to_swapped-IsConsistent name r s (c, p, here, placed) = record {
  sound = c.sound;
  active = λ k j e. c.active k j (ground (arith, find-erase name k s.application.active_processes));
  swapped = λ k j e. elim (Option-cases (find name s.application.swapped_processes)) [
    | inl free ↦ elim (Bool-cases (text_eq name k)) [
      | inl same ↦ (
        p,
        subst (λ t. get_elem? s.processes t ≡ some p) {x = r} {y = j}
            (ground (arith, insert_new_lem name k r s.application.swapped_processes free)) here,
        placed,
      )
      | inr other ↦
          c.swapped k j
            (ground (arith, insert_new_lem name k r s.application.swapped_processes free))
    ]
    | inr (r', taken) ↦
        c.swapped k j (ground (arith, insert_new-taken name r r' s.application.swapped_processes))
  ];
}

confirm_swap-Leaves :
    (p : Process) → IsSound p → Leaves (λ q. IsSound q × Stays p q) (confirm_swap p)
unfolding confirm_swap set_status
confirm_swap-Leaves p h =
    Leaves-test (λ q. IsSound q × Stays p q) (is_swapping_out p.status) _ _
      (λ e. (ground arith, ground arith)) (λ e. (h, ground arith))

pub confirm_swap-done :
    (p : Process)
    → is_swapping_out p.status ≡ true
    → confirm_swap p ≡ done tt (set_status swapped_out p) []
unfolding confirm_swap
confirm_swap-done p e = ground arith

pub confirm_swap-refused :
    (p : Process)
    → is_swapping_out p.status ≡ false
    → confirm_swap p ≡ thrown (raised invalid_process_state) p []
unfolding confirm_swap
confirm_swap-refused p e = ground arith

confirmed-IsConsistent :
    (name : Text) (r : ℕ) (s : Scope) (p : Process)
    → IsConsistent s
    → get_elem? s.processes r ≡ some p
    → Leaves IsConsistent ((do at r confirm_swap; modify (move_to_swapped name r)) s)
unfolding set_status
confirmed-IsConsistent name r s p c here = elim (Bool-cases (is_swapping_out p.status)) [
  | inl e ↦
      (let q = set_status swapped_out p in
        let kept = confirm_swap-Leaves p (c.sound r p here) in
        let h : IsSound q × Stays p q =
          subst (Leaves (λ q. IsSound q × Stays p q)) {x = confirm_swap p} {y = done tt q []}
            (confirm_swap-done p e) kept in
        subst (Leaves IsConsistent) {x = done tt (move_to_swapped name r (replaced s r q)) []}
          {y = (do at r confirm_swap; modify (move_to_swapped name r)) s}
          (ground (arith, confirm_swap-done p e))
          (move_to_swapped-IsConsistent name r (replaced s r q) (
            replaced-IsConsistent s r p q here c h.0 h.1,
            q,
            ground (arith, get_elem?-set s.processes r r q p here),
            ground (arith, (c.sound r p here).placed),
          )))
  | inr e ↦
      subst (Leaves IsConsistent) {x = thrown (raised invalid_process_state) (replaced s r p) []}
        {y = (do at r confirm_swap; modify (move_to_swapped name r)) s}
        (ground (arith, confirm_swap-refused p e))
        (replaced-IsConsistent s r p p here c (c.sound r p here) (refl, ground arith))
]

pub swapped_process-IsConsistent :
    (name : Text) (s : Scope) → IsConsistent s → Leaves IsConsistent (swapped_process name s)
unfolding swapped_process
swapped_process-IsConsistent name s c =
    Leaves-option IsConsistent (find name s.application.active_processes) _ _ (λ e. c)
      (λ r e. let (p, here, named) = c.active name r e in confirmed-IsConsistent name r s p c here)

close-Leaves : (p : Process) → IsSound p → IsSound (close p) × Stays p (close p)
unfolding close close_connection set_status
close-Leaves p h = (ground arith, ground arith)

drop_name-IsConsistent :
    (name : Text) (s : Scope) → IsConsistent s → IsConsistent (drop_name name s)
unfolding drop_name with_active with_swapped
drop_name-IsConsistent name s c = elim (Option-cases (find name s.application.active_processes)) [
  | inl e ↦
      rw (e, drop_name)
        (record {
          sound = c.sound;
          active = c.active;
          swapped = λ k j f.
              c.swapped k j (ground (arith, find-erase name k s.application.swapped_processes));
        })
  | inr (r, e) ↦
      rw (e, drop_name)
        (record {
          sound = c.sound;
          active = λ k j f.
              c.active k j (ground (arith, find-erase name k s.application.active_processes));
          swapped = c.swapped;
        })
]

pub closed_process-IsConsistent :
    (r : ℕ) (s : Scope) (p : Process)
    → IsConsistent s
    → get_elem? s.processes r ≡ some p
    → Leaves IsConsistent (closed_process r s)
unfolding closed_process
closed_process-IsConsistent r s p c here =
    let h = close-Leaves p (c.sound r p here) in
    let k = replaced-IsConsistent s r p (close p) here c h.0 h.1 in
    rw (here, closed_process)
      (elim (Bool-cases (is_swapped_out p.status)) [
        | inl e ↦ subst IsConsistent {x = replaced s r (close p)} {y = _} (ground arith) k
        | inr e ↦
            subst IsConsistent {x = drop_name p.name (replaced s r (close p))} {y = _}
              (ground arith) (drop_name-IsConsistent p.name (replaced s r (close p)) k)
      ])

-- The place that is deleted is there.
pub delete_process-IsConsistent :
    (d : Deployment) (name : Text) (s : Scope)
    → IsConsistent s
    → Leaves IsConsistent (delete_process d name s)
unfolding delete_process with_swapped
delete_process-IsConsistent d name s c = Leaves-if IsConsistent (is_empty name) _ _ c (
    Leaves-option IsConsistent (find name s.application.swapped_processes) _ _ (λ e. c)
      (λ r e.
        let (p, here, placed) = c.swapped name r e in
        Leaves-option IsConsistent (get_elem? s.processes r) _ _ (λ f. absurd (ground arith))
          (λ q f.
            Leaves-option IsConsistent q.swap _ _ (λ g. absurd (ground arith))
              (λ location g. record {
                sound = c.sound;
                active = c.active;
                swapped = λ k j m.
                    c.swapped k j
                      (ground (arith, find-erase name k s.application.swapped_processes));
              }))))
