-- ===== src/Base/Results.antt =====
-- How a piece of C ends: with a value, in undefined behaviour, or by `exit(1)`; `unfinished` is a loop
-- that the fuel of the model did not suffice for.
use mathlib.Core.Path.{◌≡◌, refl, ap, subst}
use mathlib.Core.Option.{Option, none, some}

-- `fault` is a read or write outside an allocation, or through a null pointer.
pub data Outcome {ℓ} (A : Type ℓ) : Type ℓ where
  ok : A → Outcome A
  fault : Outcome A
  exited : Outcome A
  unfinished : Outcome A

infixl 5 ◌>>=◌
abbrev pub ◌>>=◌ {ℓ κ} : {A : Type ℓ} {B : Type κ} → Outcome A → (A → Outcome B) → Outcome B
ok a >>= f = f a
fault >>= f = fault
exited >>= f = exited
unfinished >>= f = unfinished

-- A memory read that is in range or faults.
abbrev pub or_fault {ℓ} : {A : Type ℓ} → Option A → Outcome A
or_fault none = fault
or_fault (some a) = ok a

pub >>=-eq-ok {ℓ κ} :
    {A : Type ℓ} {B : Type κ} (first : Outcome A) (next : A → Outcome B) {out : B}
    → (first >>= next) ≡ ok out
    → (mid : A) × (first ≡ ok mid) × (next mid ≡ ok out)
>>=-eq-ok fault next e = cc
>>=-eq-ok exited next e = cc
>>=-eq-ok unfinished next e = cc
>>=-eq-ok (ok mid) next e = (mid, refl, e)

-- Every value that `r` ends with satisfies `P`.
abbrev pub Ends {ℓ κ} : {A : Type ℓ} → (A → Type κ) → Outcome A → Type κ
Ends P (ok a) = P a
Ends P fault = Unit
Ends P exited = Unit
Ends P unfinished = Unit

pub Ends-bind {ℓ κ μ ν} :
    {A : Type ℓ} {B : Type κ} (P : A → Type μ) (Q : B → Type ν) (m : Outcome A) (f : A → Outcome B)
    → Ends P m
    → ((a : A) → P a → Ends Q (f a))
    → Ends Q (m >>= f)
Ends-bind P Q (ok a) f h k = k a h
Ends-bind P Q fault f h k = tt
Ends-bind P Q exited f h k = tt
Ends-bind P Q unfinished f h k = tt

pub Ends-ok {ℓ κ} :
    {A : Type ℓ} (P : A → Type κ) (r : Outcome A) (a : A) → Ends P r → r ≡ ok a → P a
Ends-ok P r a h e = subst (Ends P) e h

pub >>=-cong {ℓ κ} :
    {A : Type ℓ} {B : Type κ} (m : Outcome A) (f g : A → Outcome B)
    → ((a : A) → f a ≡ g a)
    → (m >>= f) ≡ (m >>= g)
>>=-cong (ok a) f g h = h a
>>=-cong fault f g h = refl
>>=-cong exited f g h = refl
>>=-cong unfinished f g h = refl

pub >>=-assoc {ℓ κ μ} :
    {A : Type ℓ} {B : Type κ} {C : Type μ} (m : Outcome A) (f : A → Outcome B) (g : B → Outcome C)
    → ((m >>= f) >>= g) ≡ (m >>= λ a. f a >>= g)
>>=-assoc (ok a) f g = refl
>>=-assoc fault f g = refl
>>=-assoc exited f g = refl
>>=-assoc unfinished f g = refl

-- The value of a normal result.
abbrev value_or {ℓ} : {A : Type ℓ} → A → Outcome A → A
value_or a (ok b) = b
value_or a fault = a
value_or a exited = a
value_or a unfinished = a

pub ok_inj {ℓ} : {A : Type ℓ} {a b : A} → ok a ≡ ok b → a ≡ b
ok_inj {a = a} e = ap (value_or a) e
