-- ===== src/Base/Result.antt =====
-- How a call of fallible code ends: with a value, with an error value, or with a run-time panic
-- (an index out of range, a nil dereference).
use mathlib.Core.Path.{◌≡◌, refl}
use mathlib.Core.Logic.{◌≢◌, ◌⊎◌, inl, inr}

pub data Result (E A : Type 0) : Type 0 where
  ok : A → Result E A
  err : E → Result E A
  panic : Result E A

infixl 5 ◌>>=◌
abbrev pub ◌>>=◌ : {E A B : Type 0} → Result E A → (A → Result E B) → Result E B
panic >>= next = panic
err why >>= next = err why
ok value >>= next = next value

-- a chain that ends well has two steps that end well
pub >>=-eq-ok :
    {E A B : Type 0} {last : B} (first : Result E A) (next : A → Result E B)
    → (first >>= next) ≡ ok last
    → (a : A) × (first ≡ ok a) × (next a ≡ ok last)
>>=-eq-ok panic next run = cc
>>=-eq-ok (err why) next run = cc
>>=-eq-ok (ok value) next run = (value, refl, run)

-- a chain of calls that do not panic does not
pub >>=-calm :
    {E A B : Type 0} (first : Result E A) (next : A → Result E B)
    → first ≢ panic
    → ((a : A) → next a ≢ panic)
    → (first >>= next) ≢ panic
>>=-calm panic next a b = absurd (a refl)
>>=-calm (err why) next a b = λ h. cc
>>=-calm (ok value) next a b = b value

pub Result-cases :
    {E A : Type 0} (r : Result E A)
    → ((a : A) × (r ≡ ok a)) ⊎ (((e : E) × (r ≡ err e)) ⊎ (r ≡ panic))
Result-cases (ok a) = inl (a, refl)
Result-cases (err e) = inr (inl (e, refl))
Result-cases panic = inr (inr refl)

pub ok-calm : {E A : Type 0} (a : A) → ◌≢◌ {A = Result E A} (ok a) panic
ok-calm a h = cc

pub err-calm : {E A : Type 0} (e : E) → ◌≢◌ {A = Result E A} (err e) panic
err-calm e h = cc

pub ok-injective : {E A : Type 0} {a b : A} → ◌≡◌ {A = Result E A} (ok a) (ok b) → a ≡ b
ok-injective e = cc
