-- ===== src/Result.antt =====
-- The exceptions of common/include/praas/common/exceptions.hpp as values. A throw is `err`, and what
-- a caller catches it by is the exception's class; the texts of the messages are left out.
-- `undefined` is no value of the code: the model reached an access that C++ leaves undefined.
use praas.Base.{◌≡◌, refl, ◌⊎◌, inl, inr}

pub data Exception : Type 0 where
  praas_exception : Exception
  not_implemented : Exception
  invalid_configuration : Exception
  object_exists : Exception
  object_does_not_exist : Exception
  failed_allocation : Exception
  invalid_process_state : Exception
  invalid_message : Exception
  invalid_json : Exception
  invalid_argument : Exception
  function_get_failure : Exception

pub data Result {ℓ} (A : Type ℓ) : Type ℓ where
  ok : A → Result A
  err : Exception → Result A
  undefined : Result A

infixl 5 ◌>>=◌
abbrev pub ◌>>=◌ {ℓ κ} : {A : Type ℓ} {B : Type κ} → Result A → (A → Result B) → Result B
undefined >>= continue = undefined
err thrown >>= continue = err thrown
ok value >>= continue = continue value

-- To split on a computed result and keep the equation.
pub Result-cases {ℓ} :
    {A : Type ℓ} (r : Result A)
    → ((a : A) × (r ≡ ok a)) ⊎ (((e : Exception) × (r ≡ err e)) ⊎ (r ≡ undefined))
Result-cases (ok a) = inl (a, refl)
Result-cases (err e) = inr (inl (e, refl))
Result-cases undefined = inr (inr refl)

-- A bind that succeeds, taken apart.
pub >>=-eq-ok {ℓ κ} :
    {A : Type ℓ} {B : Type κ} (first : Result A) (continue : A → Result B) {b : B}
    → (first >>= continue) ≡ ok b
    → (value : A) × (first ≡ ok value) × (continue value ≡ ok b)
>>=-eq-ok undefined continue same = cc
>>=-eq-ok (err thrown) continue same = cc
>>=-eq-ok (ok value) continue same = (value, refl, same)

pub ok-injective {ℓ} : {A : Type ℓ} {a b : A} → ok a ≡ ok b → a ≡ b
ok-injective h = cc
