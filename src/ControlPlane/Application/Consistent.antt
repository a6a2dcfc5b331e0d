-- ===== src/ControlPlane/Application/Consistent.antt =====
-- The invariant of an application with its processes: every process is sound, the tables refer to
-- processes that exist, under their names, and a swapped process has a place where it was swapped to.
use praas.Base.{
  get_elem?-set, ℕ, ◌==◌, ◌≡◌, true, false, ◌&&◌, not, some, get_elem?, set, arith, Bool-cases, inl,
  inr, subst,
}
use praas.Base.Dict.{find}
use praas.Base.Text.{Text}
use praas.Outcome.{Action, Leaves, Leaves-onto, Leaves-option}
use praas.ControlPlane.Process.{Process, Effect}
use praas.ControlPlane.Process.Sound.{IsSound, is_some}
use praas.ControlPlane.Application.{Scope, at}

-- What may change of a process that the tables refer to.
abbrev pub Stays : Process → Process → Type 0
Stays p q = (q.name ≡ p.name) × ((is_some p.swap && not (is_some q.swap)) ≡ false)

pub record IsConsistent (s : Scope) : Type 0 where
  pub sound : (r : ℕ) (p : Process) → get_elem? s.processes r ≡ some p → IsSound p
  pub active :
      (k : Text) (r : ℕ)
      → find k s.application.active_processes ≡ some r
      → (p : Process) × (get_elem? s.processes r ≡ some p) × (p.name ≡ k)
  pub swapped :
      (k : Text) (r : ℕ)
      → find k s.application.swapped_processes ≡ some r
      → (p : Process) × (get_elem? s.processes r ≡ some p) × (is_some p.swap ≡ true)

abbrev pub replaced : Scope → ℕ → Process → Scope
replaced s r q = record s { processes = set s.processes r q }

-- A process that is replaced by itself after a method.
module _ (s : Scope) (r : ℕ) (p q : Process) (here : get_elem? s.processes r ≡ some p) where
  replaced-IsSound :
      IsConsistent s
      → IsSound q
      → (j : ℕ) (t : Process) → get_elem? (set s.processes r q) j ≡ some t
      → IsSound t
  replaced-IsSound c h j t e = elim (Bool-cases (r == j)) [
    | inl same ↦
        subst IsSound {x = q} {y = t} (ground (arith, get_elem?-set s.processes r j q p here)) h
    | inr other ↦ c.sound j t (ground (arith, get_elem?-set s.processes r j q p here))
  ]

  pub replaced-IsConsistent : IsConsistent s → IsSound q → Stays p q → IsConsistent (replaced s r q)
  replaced-IsConsistent c h st = record {
    sound = replaced-IsSound c h;
    active = λ k j e.
        let (t, there, named) = c.active k j e in
        elim (Bool-cases (r == j)) [
          | inl same ↦ (q, ground (arith, get_elem?-set s.processes r j q p here), ground arith)
          | inr other ↦ (t, ground (arith, get_elem?-set s.processes r j q p here), named)
        ];
    swapped = λ k j e.
        let (t, there, placed) = c.swapped k j e in
        elim (Bool-cases (r == j)) [
          | inl same ↦ (q, ground (arith, get_elem?-set s.processes r j q p here), ground arith)
          | inr other ↦ (t, ground (arith, get_elem?-set s.processes r j q p here), placed)
        ];
  }

-- A method of a process in the store.
pub at-Leaves :
    {A : Type 0} (r : ℕ) (method : Action Effect Process A) (s : Scope) (p : Process)
    (P : Process → Type 0) (Q : Scope → Type 0)
    → get_elem? s.processes r ≡ some p
    → Leaves P (method p)
    → ((q : Process) → P q → Q (replaced s r q))
    → Leaves Q (at r method s)
at-Leaves r method s p P Q here h k =
    Leaves-option Q (get_elem? s.processes r) _ _ (λ e. absurd (ground arith))
      (λ t e.
        Leaves-onto P Q (replaced s r) (method t)
          (subst (λ u. Leaves P (method u)) {x = p} {y = t} (ground arith) h) k)

-- A method that keeps a process sound, with its name and its place.
pub at-IsConsistent :
    {A : Type 0} (r : ℕ) (method : Action Effect Process A) (s : Scope) (p : Process)
    → IsConsistent s
    → get_elem? s.processes r ≡ some p
    → Leaves (λ q. IsSound q × Stays p q) (method p)
    → Leaves IsConsistent (at r method s)
at-IsConsistent r method s p c here h =
    at-Leaves r method s p (λ q. IsSound q × Stays p q) IsConsistent here h
      (λ q k. replaced-IsConsistent s r p q here c k.0 k.1)
