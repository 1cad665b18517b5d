-- ===== src/Base/Faults.antt =====
-- Code that may touch memory outside its object. `fault` stands for such an access (undefined
-- behaviour in C++), `ret` for an ordinary return.
use lib_urx.Base.Tests.{if◌then◌else◌}
use mathlib.Core.Bool.{Bool, true, false}
use mathlib.Core.Option.{Option, none, some}
use mathlib.Core.Path.{◌≡◌, refl}

pub data Run {ℓ} (A : Type ℓ) : Type ℓ where
  fault : Run A
  ret : A → Run A

infixl 5 ◌>>=◌
abbrev pub ◌>>=◌ {ℓ κ} : {A : Type ℓ} {B : Type κ} → Run A → (A → Run B) → Run B
fault >>= f = fault
ret a >>= f = f a

-- What a bind that returns has run.
pub >>=-eq-ret {ℓ κ} :
    {A : Type ℓ} {B : Type κ} (m : Run A) (f : A → Run B) {b : B}
    → (m >>= f) ≡ ret b
    → (a : A) × (m ≡ ret a) × (f a ≡ ret b)
>>=-eq-ret fault f h = cc
>>=-eq-ret (ret a) f h = (a, refl, h)

-- A property of the result, where there is one.
abbrev pub Ends {ℓ} : {A : Type ℓ} → (A → Type 0) → Run A → Type 0
Ends P fault = Unit {0}
Ends P (ret a) = P a

pub Ends-bind {ℓ κ} :
    {A : Type ℓ} {B : Type κ} (P : B → Type 0) (m : Run A) (f : A → Run B)
    → ((a : A) → Ends P (f a))
    → Ends P (m >>= f)
Ends-bind P fault f h = tt
Ends-bind P (ret a) f h = h a

pub Ends-if {ℓ} :
    {A : Type ℓ} (P : A → Type 0) (b : Bool) (x y : Run A)
    → Ends P x
    → Ends P y
    → Ends P (if b then x else y)
Ends-if P true x y h k = h
Ends-if P false x y h k = k

pub Ends-some {ℓ κ} :
    {A : Type ℓ} {B : Type κ} (P : B → Type 0) (o : Option A) (f : A → Run B)
    → ((a : A) → Ends P (f a))
    → Ends P (elim o [ none ↦ fault | some a ↦ f a ])
Ends-some P none f h = tt
Ends-some P (some a) f h = h a

-- What the first part ends with is known to the second.
pub Ends-then {ℓ κ} :
    {A : Type ℓ} {B : Type κ} (Q : A → Type 0) (P : B → Type 0) (m : Run A) (f : A → Run B)
    → Ends Q m
    → ((a : A) → Q a → Ends P (f a))
    → Ends P (m >>= f)
Ends-then Q P fault f h k = tt
Ends-then Q P (ret a) f h k = k a h
