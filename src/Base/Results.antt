-- ===== src/Base/Results.antt =====
-- `Result` of the source, with a panic beside the error.
use mathlib.Core.Path.{◌≡◌, refl, subst}

pub data Result {ℓ κ} (E : Type ℓ) (A : Type κ) : Type (ℓ ⊔ κ) where
  ok : A → Result E A
  err : E → Result E A
  panic : Result E A

infixl 5 ◌>>=◌ ◌>>◌
-- The `?` operator.
abbrev pub ◌>>=◌ {ℓ κ μ} :
    {E : Type ℓ} {A : Type κ} {B : Type μ} → Result E A → (A → Result E B) → Result E B
panic >>= next = panic
err e >>= next = err e
ok a >>= next = next a

abbrev pub ◌>>◌ {ℓ κ} : {E : Type ℓ} {B : Type κ} → Result E (Unit {0}) → Result E B → Result E B
m >> k = m >>= λ _. k

module _ {ℓ κ μ} {E : Type ℓ} {A : Type κ} {B : Type μ} where
  pub >>=-eq-ok :
      (r : Result E A) (next : A → Result E B) {b : B}
      → (r >>= next) ≡ ok b
      → (a : A) × (r ≡ ok a) × (next a ≡ ok b)
  >>=-eq-ok panic next stops = cc
  >>=-eq-ok (err e) next stops = cc
  >>=-eq-ok (ok a) next goes = (a, refl, goes)

  pub >>=-ne-panic :
      (m : Result E A) (f : A → Result E B)
      → ¬ (m ≡ panic)
      → ((a : A) → ¬ (f a ≡ panic))
      → ¬ ((m >>= f) ≡ panic)
  >>=-ne-panic (ok a) f n h p = h a p
  >>=-ne-panic (err e) f n h p = cc
  >>=-ne-panic panic f n h p = n refl

pub >>=_assoc {ℓ κ μ ν} :
    {E : Type ℓ} {A : Type κ} {B : Type μ} {C : Type ν} (r : Result E A) (f : A → Result E B)
    (g : B → Result E C)
    → ((r >>= f) >>= g) ≡ (r >>= λ a. f a >>= g)
>>=_assoc (ok a) f g = refl
>>=_assoc (err e) f g = refl
>>=_assoc panic f g = refl

pub >>=_congr {ℓ κ μ} :
    {E : Type ℓ} {A : Type κ} {B : Type μ} (r : Result E A) {f g : A → Result E B}
    → ((a : A) → f a ≡ g a)
    → (r >>= f) ≡ (r >>= g)
>>=_congr r p = λ i. r >>= λ a. p a i

pub >>=-ok {ℓ κ} : {E : Type ℓ} {A : Type κ} (r : Result E A) → (r >>= ok) ≡ r
>>=-ok (ok a) = refl
>>=-ok (err e) = refl
>>=-ok panic = refl

-- The code returns, and what it returns has the property.
pub data Returns {ℓ κ μ} {E : Type ℓ} {A : Type κ} (P : A → Type μ)
    : Result E A → Type (ℓ ⊔ κ ⊔ μ) where
  returned : {a : A} → P a → Returns P (ok a)

pub Returns-bind {ℓ κ μ ν ξ} :
    {E : Type ℓ} {A : Type κ} {B : Type μ} {P : A → Type ν} {Q : B → Type ξ} {r : Result E A}
    {f : A → Result E B}
    → Returns P r
    → ((a : A) → P a → Returns Q (f a))
    → Returns Q (r >>= f)
Returns-bind (returned h) k = k _ h

-- If the code returns, what it returns has the property.
pub data IfOk {ℓ κ μ} {E : Type ℓ} {A : Type κ} (P : A → Type μ)
    : Result E A → Type (ℓ ⊔ κ ⊔ μ) where
  is_ok : {a : A} → P a → IfOk P (ok a)
  is_err : {e : E} → IfOk P (err e)
  is_panic : IfOk P panic

pub IfOk-bind {ℓ κ μ ν ξ} :
    {E : Type ℓ} {A : Type κ} {B : Type μ} {P : A → Type ν} {Q : B → Type ξ} {r : Result E A}
    {f : A → Result E B}
    → IfOk P r
    → ((a : A) → P a → IfOk Q (f a))
    → IfOk Q (r >>= f)
IfOk-bind (is_ok h) k = k _ h
IfOk-bind is_err k = is_err
IfOk-bind is_panic k = is_panic

pub IfOk-any {ℓ κ} : {E : Type ℓ} {A : Type κ} (r : Result E A) → IfOk (λ (_ : A). Unit {0}) r
IfOk-any (ok a) = is_ok tt
IfOk-any (err e) = is_err
IfOk-any panic = is_panic

pub IfOk-eq_ok {ℓ κ μ} :
    {E : Type ℓ} {A : Type κ} (P : A → Type μ) (r : Result E A) (a : A) → IfOk P r → r ≡ ok a → P a
IfOk-eq_ok P (ok b) a (is_ok h) e = let same : b ≡ a = cc in subst P same h
IfOk-eq_ok P (err x) a is_err e = cc
IfOk-eq_ok P panic a is_panic e = cc
