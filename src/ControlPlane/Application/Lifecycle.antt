-- ===== src/ControlPlane/Application/Lifecycle.antt =====
-- The life of a process as the user of the control plane sees it, and that the code refines it.
use praas.Base.{
  ◌⊎◌, ℕ, ◌==◌, ◌≡◌, refl, false, some, [], ◌∷◌, ◌++◌, arith, Bool-cases, inl, inr, get_elem?,
  get_elem?-set, get_elem?-append, subst,
}
use praas.Outcome.{Action, Leaves}
use praas.ControlPlane.Process.{
  Process, Effect, Status, allocating, allocated, swapping_out, swapped_out, closed, failure,
  is_swapped_out,
}
use praas.ControlPlane.Application.{Scope, at}
use praas.ControlPlane.Application.Consistent.{replaced, at-Leaves}

-- One step: the connection, the request to swap out, its confirmation, the end of the connection,
-- and a failure, which may come at any time but not to a process that is swapped out.
pub data Change : Status → Status → Type 0 where
  connects : Change allocating allocated
  leaves : Change allocated swapping_out
  arrives : Change swapping_out swapped_out
  closes : Change swapped_out closed
  fails : (s : Status) → is_swapped_out s ≡ false → Change s failure

-- A process is what it was but for at most one step of its life.
abbrev pub Continues : Process → Process → Type 0
Continues p q = (q.name ≡ p.name) × ((q.status ≡ p.status) ⊎ Change p.status q.status)

-- Every process of the first state is there in the second, one step further at most.
abbrev pub Follows : Scope → Scope → Type 0
Follows s t =
    (r : ℕ) (p : Process)
    → get_elem? s.processes r ≡ some p
    → (q : Process) × (get_elem? t.processes r ≡ some q) × Continues p q

pub Follows-same : (s t : Scope) → t.processes ≡ s.processes → Follows s t
Follows-same s t e r p here = (p, ground arith, (refl, inl refl))

pub Follows-replaced :
    (s : Scope) (r : ℕ) (p q : Process)
    → get_elem? s.processes r ≡ some p
    → Continues p q
    → Follows s (replaced s r q)
Follows-replaced s r p q here k j u there = elim (Bool-cases (r == j)) [
  | inl same ↦ (
    q,
    ground (arith, get_elem?-set s.processes r j q p here),
    subst (λ v. Continues v q) {x = p} {y = u} (ground arith) k,
  )
  | inr other ↦ (u, ground (arith, get_elem?-set s.processes r j q p here), (refl, inl refl))
]

pub Follows-append : (s t : Scope) (p : Process) → t.processes ≡ s.processes ++ p ∷ [] → Follows s t
Follows-append s t p e r q here = (
  q,
  subst (λ ps. get_elem? ps r ≡ some q) {x = s.processes ++ p ∷ []} {y = t.processes} (ground arith)
      (get_elem?-append s.processes r p q here),
  (refl, inl refl),
)

pub at-Follows :
    {A : Type 0} (r : ℕ) (method : Action Effect Process A) (s : Scope) (p : Process)
    → get_elem? s.processes r ≡ some p
    → Leaves (Continues p) (method p)
    → Leaves (Follows s) (at r method s)
at-Follows r method s p here h =
    at-Leaves r method s p (Continues p) (Follows s) here h (λ q k. Follows-replaced s r p q here k)
