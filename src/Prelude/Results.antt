-- ===== src/Prelude/Results.antt =====
-- Code that may raise: a value or an error, with `do`.
use mathlib.Core.Path.{◌≡◌, refl, subst}
use mathlib.Core.Bool.{Bool, true, false}

pub data Result {ℓ} (E A : Type ℓ) : Type ℓ where
  ok : A → Result E A
  err : E → Result E A

infixl 5 ◌>>=◌ ◌>>◌
abbrev pub ◌>>=◌ {ℓ} : {E A B : Type ℓ} → Result E A → (A → Result E B) → Result E B
ok a >>= f = f a
err e >>= f = err e

abbrev pub ◌>>◌ {ℓ} : {E B : Type ℓ} → Result E (Unit {ℓ}) → Result E B → Result E B
m >> k = m >>= λ _. k

-- `if c: raise e`
abbrev pub raise_if : {E : Type 0} → Bool → E → Result E (Unit {0})
raise_if true e = err e
raise_if false e = ok tt

-- What holds of the value, if the code does not raise.
abbrev pub Ensures {ℓ} : {E A : Type 0} → (A → Type ℓ) → Result E A → Type ℓ
Ensures P (ok a) = P a
Ensures P (err _) = Unit

-- Behind a check that raises, the check is known to have passed.
pub Ensures-raise_if {ℓ} :
    {E A : Type 0} (P : A → Type ℓ) (b : Bool) (e : E) (k : Result E A)
    → (b ≡ false → Ensures P k)
    → Ensures P (raise_if b e >> k)
Ensures-raise_if P true e k h = tt
Ensures-raise_if P false e k h = h refl

pub Ensures-ok {ℓ} :
    {E A : Type 0} (P : A → Type ℓ) (r : Result E A) {a : A} → Ensures P r → r ≡ ok a → P a
Ensures-ok P (ok b) h p = subst P (cc) h
Ensures-ok P (err _) h p = cc

pub Ensures-bind {ℓ κ} :
    {E A B : Type 0} (Q : A → Type ℓ) (P : B → Type κ) (m : Result E A) (f : A → Result E B)
    → Ensures Q m
    → ((a : A) → Q a → Ensures P (f a))
    → Ensures P (m >>= f)
Ensures-bind Q P (ok a) f h k = k a h
Ensures-bind Q P (err _) f h k = tt

-- What a check passes on, where nothing of it is used.
pub Ensures-after {ℓ} :
    {E A B : Type 0} (P : B → Type ℓ) (m : Result E A) (f : A → Result E B)
    → ((a : A) → Ensures P (f a))
    → Ensures P (m >>= f)
Ensures-after P (ok a) f h = h a
Ensures-after P (err e) f h = tt

-- Behind a value there is a value at every step.
pub >>=-ok {ℓ} :
    {E A B : Type ℓ} {last : B} (step : Result E A) (next : A → Result E B)
    → (step >>= next) ≡ ok last
    → (found : A) × (step ≡ ok found) × (next found ≡ ok last)
>>=-ok (err problem) next h = cc
>>=-ok (ok found) next h = (found, refl, h)
