-- ===== src/ControlPlane/Application/Stepping.antt =====
-- Every method of a process that the calls use takes it at most one step further in its life.
use praas.Base.{ℕ, ◌≡◌, refl, true, some, arith, Bool-cases, inl, inr, get_elem?, subst, sym}
use praas.Base.Text.{Text}
use praas.Outcome.{Action, Leaves, Leaves-test, Leaves-mono}
use praas.ControlPlane.Process.{
  Process, Effect, Status, allocating, allocated, swapping_out, swapped_out, closed, failure,
  is_allocated, is_allocating, is_swapping_out, is_swapped_out,
}
use praas.ControlPlane.Process.Life.{connect, close_connection, set_status}
use praas.ControlPlane.Process.Sound.{IsKept, IsSound, connect-IsKept}
use praas.ControlPlane.Application.{Scope, at}
use praas.ControlPlane.Application.Calls.{allocating-IsKept, refused-IsKept}
use praas.ControlPlane.Application.Keeping.{send_swap-Leaves}
use praas.ControlPlane.Application.Lifecycle.{
  Change, connects, leaves, arrives, closes, fails, Continues, Follows, at-Follows,
}
use praas.ControlPlane.Application.Swapping.{swap_out, confirm_swap, close}

allocated_status : (s : Status) → is_allocated s ≡ true → allocated ≡ s
allocated_status allocated e = refl
allocated_status _ e = cc

swapping_out_status : (s : Status) → is_swapping_out s ≡ true → swapping_out ≡ s
swapping_out_status swapping_out e = refl
swapping_out_status _ e = cc

swapped_out_status : (s : Status) → is_swapped_out s ≡ true → swapped_out ≡ s
swapped_out_status swapped_out e = refl
swapped_out_status _ e = cc

allocating_status : (s : Status) → is_allocating s ≡ true → allocating ≡ s
allocating_status allocating e = refl
allocating_status _ e = cc

-- A method that keeps the name and the status.
pub kept-Follows :
    {A : Type 0} (r : ℕ) (method : Action Effect Process A) (s : Scope) (p : Process)
    → get_elem? s.processes r ≡ some p
    → Leaves (IsKept p.status p.name p.swap) (method p)
    → Leaves (Follows s) (at r method s)
kept-Follows r method s p here h = at-Follows r method s p here (
    Leaves-mono (IsKept p.status p.name p.swap) (Continues p) (method p) h
      (λ q k. (k.same_name, inl k.same_status)))

pub connect-Follows :
    (r conn : ℕ) (s : Scope) (p : Process)
    → get_elem? s.processes r ≡ some p
    → IsSound p
    → Leaves (Follows s) (at r (connect conn) s)
connect-Follows r conn s p here h = elim (Bool-cases (is_allocating p.status)) [
  | inl e ↦ at-Follows r (connect conn) s p here (
      Leaves-mono (IsKept allocated p.name p.swap) (Continues p) (connect conn p)
        (connect-IsKept conn p.name p.swap p (allocating-IsKept p e h))
        (λ q k. (
          k.same_name,
          inr (
              subst (λ x. Change p.status x) {x = allocated} {y = q.status} (sym k.same_status)
                (subst (λ x. Change x allocated) {x = allocating} {y = p.status}
                  (allocating_status p.status e) connects)),
        )))
  | inr e ↦ kept-Follows r (connect conn) s p here (refused-IsKept conn p e h)
]

pub swap_out-Continues :
    (location : Text) (p : Process) → Leaves (Continues p) (swap_out location p)
unfolding swap_out
swap_out-Continues location p =
    Leaves-test (Continues p) (is_allocated p.status) _ _
      (λ e.
        send_swap-Leaves (Continues p) location
          (record p { status = swapping_out; swap = some location }) refl
          (
            refl,
            inr (
                subst (λ x. Change x swapping_out) {x = allocated} {y = p.status}
                  (allocated_status p.status e) leaves),
          ))
      (λ e. (refl, inl refl))

pub confirm_swap-Continues : (p : Process) → Leaves (Continues p) (confirm_swap p)
unfolding confirm_swap set_status
confirm_swap-Continues p =
    Leaves-test (Continues p) (is_swapping_out p.status) _ _
      (λ e. (
        refl,
        inr (
            subst (λ x. Change x swapped_out) {x = swapping_out} {y = p.status}
              (swapping_out_status p.status e) arrives),
      ))
      (λ e. (refl, inl refl))

pub close-Continues : (p : Process) → Continues p (close p)
unfolding close close_connection set_status
close-Continues p = elim (Bool-cases (is_swapped_out p.status)) [
  | inl e ↦ subst (Continues p) {x = close_connection p} {y = close p} (ground arith) (
    refl,
    inr (
        subst (λ x. Change x closed) {x = swapped_out} {y = p.status}
          (swapped_out_status p.status e) closes),
  )
  | inr e ↦
      subst (Continues p) {x = set_status failure p} {y = close p} (ground arith)
        (refl, inr (fails p.status e))
]
