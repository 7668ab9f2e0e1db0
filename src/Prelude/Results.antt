-- ===== src/Prelude/Results.antt =====
-- Rust's `Result` with any type of errors, for the components whose errors wrap each other.
use mathlib.Core.Path.{◌≡◌, refl, ap}
use mathlib.Core.Logic.{◌⊎◌, inl, inr}
use mathlib.Core.Option.{Option, none, some}

pub data Result {ℓ} (E : Type 0) (A : Type ℓ) : Type ℓ where
  ok : A → Result E A
  err : E → Result E A

infixl 5 ◌>>=◌
abbrev pub ◌>>=◌ {ℓ κ} :
    {E : Type 0} {A : Type ℓ} {B : Type κ} → Result E A → (A → Result E B) → Result E B
ok a >>= f = f a
err e >>= f = err e

-- `?` on an error of another type
abbrev pub map_err {ℓ} : {E F : Type 0} {A : Type ℓ} → (E → F) → Result E A → Result F A
map_err wrap (ok a) = ok a
map_err wrap (err e) = err (wrap e)

-- Option::ok_or
abbrev pub ok_or {ℓ} : {E : Type 0} {A : Type ℓ} → Option A → E → Result E A
ok_or none e = err e
ok_or (some a) e = ok a

pub Result-cases {ℓ} :
    {E : Type 0} {A : Type ℓ} (r : Result E A) → ((a : A) × (r ≡ ok a)) ⊎ ((e : E) × (r ≡ err e))
Result-cases (ok a) = inl (a, refl)
Result-cases (err e) = inr (e, refl)

-- What an outcome that is no error comes from.
pub >>=-eq-ok {ℓ κ} :
    {E : Type 0} {A : Type ℓ} {B : Type κ} (r : Result E A) (f : A → Result E B) {b : B}
    → (r >>= f) ≡ ok b
    → (a : A) × (r ≡ ok a) × (f a ≡ ok b)
>>=-eq-ok (ok a) f h = (a, refl, h)
>>=-eq-ok (err e) f h = cc

-- `?` in a function that has changed its state to `s` by then.
abbrev pub attempt {ℓ κ σ} :
    {S : Type σ} {E : Type 0} {A : Type ℓ} {B : Type κ}
    → Result E A
    → S
    → (A → S × Result E B)
    → S × Result E B
attempt (ok a) s f = f a
attempt (err e) s f = (s, err e)

-- `?` on a call that changes the state, whether it fails or not.
abbrev pub and_then {ℓ κ σ} :
    {S : Type σ} {E F : Type 0} {A : Type ℓ} {B : Type κ}
    → S × Result E A
    → (E → F)
    → (S → A → S × Result F B)
    → S × Result F B
and_then (s, ok a) wrap f = f s a
and_then (s, err e) wrap f = (s, err (wrap e))

-- What a chain that ends well comes from.
pub attempt-eq-ok {ℓ κ σ} :
    {S : Type σ} {E : Type 0} {A : Type ℓ} {B : Type κ} (r : Result E A) (s : S)
    (f : A → S × Result E B) {s' : S} {b : B}
    → attempt r s f ≡ (s', ok b)
    → (a : A) × (r ≡ ok a) × (f a ≡ (s', ok b))
attempt-eq-ok (ok a) s f q = (a, refl, q)
attempt-eq-ok (err e) s f q = let wrong : err e ≡ ok _ = ap (λ r. r.1) q in cc wrong

pub and_then-eq-ok {ℓ κ σ} :
    {S : Type σ} {E F : Type 0} {A : Type ℓ} {B : Type κ} (r : S × Result E A) (wrap : E → F)
    (f : S → A → S × Result F B) {s' : S} {b : B}
    → and_then r wrap f ≡ (s', ok b)
    → (s : S) × (a : A) × (r ≡ (s, ok a)) × (f s a ≡ (s', ok b))
and_then-eq-ok (s, ok a) wrap f q = (s, a, refl, q)
and_then-eq-ok (s, err e) wrap f q = let wrong : err (wrap e) ≡ ok _ = ap (λ r. r.1) q in cc wrong
