-- ===== src/Outcome.antt =====
-- Operations of the servers as values: what a call returns or throws, the state that it leaves
-- in either case, and the effects that the outside sees of it, in their order. An exception keeps
-- what was done before it. `undefined` is an access that C++ leaves undefined.
use praas.Base.{◌≡◌, refl, Option, none, some, Bool, true, false, if◌then◌else◌, List, [], ◌++◌}
use praas.Result.{Exception, Result, ok, err}

-- What a call throws: an exception of the repository or one of the standard library.
pub data Thrown : Type 0 where
  raised : Exception → Thrown
  bad_function_call : Thrown
  bad_optional_access : Thrown
  not_a_number : Thrown

pub data Outcome (E S A : Type 0) : Type 0 where
  done : A → S → List E → Outcome E S A
  thrown : Thrown → S → List E → Outcome E S A
  undefined : Outcome E S A

abbrev pub Action : Type 0 → Type 0 → Type 0 → Type 0
Action E S A = S → Outcome E S A

module _ {E S : Type 0} where
  -- The effects that came before.
  abbrev pub after : {A : Type 0} → List E → Outcome E S A → Outcome E S A
  after es (done a s fs) = done a s (es ++ fs)
  after es (thrown e s fs) = thrown e s (es ++ fs)
  after es undefined = undefined

  abbrev pub continue : {A B : Type 0} → Outcome E S A → (A → Action E S B) → Outcome E S B
  continue (done a s es) f = after es (f a s)
  continue (thrown e s es) f = thrown e s es
  continue undefined f = undefined

  infixl 5 ◌>>=◌ ◌>>◌
  abbrev pub ◌>>=◌ : {A B : Type 0} → Action E S A → (A → Action E S B) → Action E S B
  ◌>>=◌ m f s = continue (m s) f

  abbrev pub ◌>>◌ : {B : Type 0} → Action E S (Unit {0}) → Action E S B → Action E S B
  ◌>>◌ m k s = continue (m s) (λ _. k)

  abbrev pub throw : {A : Type 0} → Exception → Action E S A
  throw e s = thrown (raised e) s []

  abbrev pub pure : {A : Type 0} → A → Action E S A
  pure a s = done a s []

  -- A call of a function of messages.hpp.
  abbrev pub lift : {A : Type 0} → Result A → Action E S A
  lift (ok a) s = done a s []
  lift (err e) s = thrown (raised e) s []
  lift Result.undefined s = undefined

  abbrev pub modify : (S → S) → Action E S (Unit {0})
  modify f s = done tt (f s) []

  abbrev pub effect : List E → Action E S (Unit {0})
  effect es s = done tt s es

  -- An action on a part of the state, whose result is put back.
  abbrev pub onto : {T A : Type 0} → (T → S) → Outcome E T A → Outcome E S A
  onto f (done a t es) = done a (f t) es
  onto f (thrown e t es) = thrown e (f t) es
  onto f undefined = undefined

  -- The call is defined, and whether it returns or throws, the state that it leaves has P.
  abbrev pub Leaves : {A : Type 0} → (S → Type 0) → Outcome E S A → Type 0
  Leaves P (done a s es) = P s
  Leaves P (thrown e s es) = P s
  Leaves P undefined = ⊥

  pub Leaves-after :
      {A : Type 0} (P : S → Type 0) (es : List E) (o : Outcome E S A)
      → Leaves P o
      → Leaves P (after es o)
  Leaves-after P es (done a s fs) h = h
  Leaves-after P es (thrown e s fs) h = h
  Leaves-after P es undefined h = h

  -- The rule for a sequence.
  pub Leaves-continue :
      {A B : Type 0} (P Q : S → Type 0) (o : Outcome E S A) (f : A → Action E S B)
      → Leaves P o
      → ((s : S) → P s → Q s)
      → ((a : A) (s : S) → P s → Leaves Q (f a s))
      → Leaves Q (continue o f)
  Leaves-continue P Q (done a s es) f h weaken keep = Leaves-after Q es (f a s) (keep a s h)
  Leaves-continue P Q (thrown e s es) f h weaken keep = weaken s h
  Leaves-continue P Q undefined f h weaken keep = elim h [ ]

pub Leaves-onto :
    {E S T A : Type 0} (P : T → Type 0) (Q : S → Type 0) (f : T → S) (o : Outcome E T A)
    → Leaves P o
    → ((t : T) → P t → Q (f t))
    → Leaves Q (onto f o)
Leaves-onto P Q f (done a t es) h k = k t h
Leaves-onto P Q f (thrown e t es) h k = k t h
Leaves-onto P Q f undefined h k = h

pub Leaves-if :
    {E S A : Type 0} (P : S → Type 0) (b : Bool) (x y : Outcome E S A)
    → Leaves P x
    → Leaves P y
    → Leaves P (if b then x else y)
Leaves-if P true x y h k = h
Leaves-if P false x y h k = k

-- The same where a branch needs the outcome of its test.
pub Leaves-test :
    {E S A : Type 0} (P : S → Type 0) (b : Bool) (x y : Outcome E S A)
    → (b ≡ true → Leaves P x)
    → (b ≡ false → Leaves P y)
    → Leaves P (if b then x else y)
Leaves-test P true x y h k = h refl
Leaves-test P false x y h k = k refl

pub Leaves-option :
    {E S A B : Type 0} (P : S → Type 0) (o : Option B) (x : Outcome E S A) (f : B → Outcome E S A)
    → (o ≡ none → Leaves P x)
    → ((b : B) → o ≡ some b → Leaves P (f b))
    → Leaves P (elim o [ none ↦ x | some b ↦ f b ])
Leaves-option P none x f h k = h refl
Leaves-option P (some b) x f h k = k b refl

pub Leaves-mono :
    {E S A : Type 0} (P Q : S → Type 0) (o : Outcome E S A)
    → Leaves P o
    → ((s : S) → P s → Q s)
    → Leaves Q o
Leaves-mono P Q (done a s es) h k = k s h
Leaves-mono P Q (thrown e s es) h k = k s h
Leaves-mono P Q undefined h k = h

pub after-nil : {E S A : Type 0} (o : Outcome E S A) → after [] o ≡ o
after-nil (done a s es) = refl
after-nil (thrown e s es) = refl
after-nil undefined = refl
