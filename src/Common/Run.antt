-- ===== src/Common/Run.antt =====
-- How a call ends: with a value, with an error that is returned, or with a panic.
use mathlib.Core.Path.{◌≡◌, refl}
use mathlib.Core.Option.{Option, none, some}

pub data Run {ℓ} (E : Type 0) (A : Type ℓ) : Type ℓ where
  ok : A → Run E A
  err : E → Run E A
  panic : Run E A

-- the Rust type `()`
pub data Done : Type 0 where
  done : Done

module _ {E : Type 0} where
  infixl 5 ◌>>=◌
  abbrev pub ◌>>=◌ {ℓ κ} : {A : Type ℓ} {B : Type κ} → Run E A → (A → Run E B) → Run E B
  ok a >>= f = f a
  err e >>= f = err e
  panic >>= f = panic

  -- `opt.ok_or(e)?`
  abbrev pub ok_or {ℓ} : {A : Type ℓ} → Option A → E → Run E A
  ok_or none e = err e
  ok_or (some a) e = ok a

  -- a computation in which `none` is a panic
  abbrev pub or_panic {ℓ} : {A : Type ℓ} → Option A → Run E A
  or_panic none = panic
  or_panic (some a) = ok a

-- A sequence that ends with a value had a value at each step.
pub >>=-ok_cases {μ ν ξ} :
    {E : Type 0} {S : Type μ} {T : Type ν} {P : Type ξ} (m : Run E S) (k : S → Run E T) {t : T}
    → (m >>= k) ≡ ok t
    → ((s : S) → m ≡ ok s → k s ≡ ok t → P)
    → P
>>=-ok_cases (ok s) k e goal = goal s refl e
>>=-ok_cases (err x) k e goal = absurd (cc)
>>=-ok_cases panic k e goal = absurd (cc)

-- The same as a triple.
pub >>=-eq-ok {μ ν} :
    {E : Type 0} {S : Type μ} {T : Type ν} (m : Run E S) (k : S → Run E T) {t : T}
    → (m >>= k) ≡ ok t
    → (s : S) × (m ≡ ok s) × (k s ≡ ok t)
>>=-eq-ok m k e = >>=-ok_cases m k e λ s first rest. (s, first, rest)

pub ok-injective {ℓ} : {E : Type 0} {A : Type ℓ} {a b : A} → ◌≡◌ {A = Run E A} (ok a) (ok b) → a ≡ b
ok-injective h = cc

-- `.map_err(f)`
abbrev pub map_err {ℓ} : {E F : Type 0} {A : Type ℓ} → (E → F) → Run E A → Run F A
map_err f (ok a) = ok a
map_err f (err e) = err (f e)
map_err f panic = panic
