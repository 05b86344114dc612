-- ===== src/Prelude/Results.antt =====
-- How a Go call ends: with a value, with an error value, or with a panic. `stuck` is no Go
-- behaviour: it marks a loop of the model whose fuel ran out, and the theorems rule it out.
use mathlib.Core.Path.{◌≡◌, refl}
use mathlib.Core.Logic.{◌≢◌}
use mathlib.Core.Bool.{Bool, true, false}

pub data Outcome {ℓ κ} (E : Type ℓ) (A : Type κ) : Type (ℓ ⊔ κ) where
  ok : A → Outcome E A
  err : E → Outcome E A
  panic : Outcome E A
  stuck : Outcome E A

infixl 5 ◌>>=◌ ◌>>◌
abbrev pub ◌>>=◌ {ℓ κ μ} :
    {E : Type ℓ} {A : Type κ} {B : Type μ} → Outcome E A → (A → Outcome E B) → Outcome E B
ok a >>= f = f a
err e >>= f = err e
panic >>= f = panic
stuck >>= f = stuck

abbrev pub ◌>>◌ {ℓ μ} : {E : Type ℓ} {B : Type μ} → Outcome E (Unit {0}) → Outcome E B → Outcome E B
m >> k = m >>= λ _. k

-- `if b { return e }`
abbrev pub fail_if {ℓ} : {E : Type ℓ} → Bool → E → Outcome E (Unit {0})
fail_if true e = err e
fail_if false e = ok tt

abbrev pub panic_if {ℓ} : {E : Type ℓ} → Bool → Outcome E (Unit {0})
panic_if true = panic
panic_if false = ok tt

-- The call returns: it neither panics nor runs out of fuel.
abbrev pub returns {ℓ κ} : {E : Type ℓ} {A : Type κ} → Outcome E A → Bool
returns (ok a) = true
returns (err e) = true
returns panic = false
returns stuck = false

pub returns->>= {ℓ κ μ} :
    {E : Type ℓ} {A : Type κ} {B : Type μ} (m : Outcome E A) (f : A → Outcome E B)
    → returns m ≡ true
    → ((a : A) → m ≡ ok a → returns (f a) ≡ true)
    → returns (m >>= f) ≡ true
returns->>= (ok a) f h k = k a refl
returns->>= (err e) f h k = refl
returns->>= panic f h k = cc
returns->>= stuck f h k = cc

pub returns-fail_if {ℓ μ} :
    {E : Type ℓ} {B : Type μ} (b : Bool) (e : E) (m : Outcome E B)
    → returns m ≡ true
    → returns (fail_if b e >> m) ≡ true
returns-fail_if true e m h = refl
returns-fail_if false e m h = h

pub returns_guarded {ℓ μ} :
    {E : Type ℓ} {B : Type μ} (b : Bool) (e : E) (m : Outcome E B)
    → (b ≡ false → returns m ≡ true)
    → returns (fail_if b e >> m) ≡ true
returns_guarded true e m h = refl
returns_guarded false e m h = h refl

-- What a returning call is.
pub returns-ne-stuck {ℓ κ} :
    {E : Type ℓ} {A : Type κ} (m : Outcome E A) → returns m ≡ true → m ≢ stuck
returns-ne-stuck (ok a) h = λ e. cc
returns-ne-stuck (err x) h = λ e. cc
returns-ne-stuck panic h = cc
returns-ne-stuck stuck h = cc

-- To go on from a successful bind, with the value as a variable.
pub on_ok {ℓ κ μ ν} :
    {E : Type ℓ} {A : Type κ} {B : Type μ} {P : Type ν} (m : Outcome E A) (f : A → Outcome E B)
    {b : B}
    → (m >>= f) ≡ ok b
    → ((a : A) → m ≡ ok a → f a ≡ ok b → P)
    → P
on_ok (ok a) f h k = k a refl h
on_ok (err e) f h k = cc
on_ok panic f h k = cc
on_ok stuck f h k = cc

-- The value of the first call of a successful sequence, and both successes.
pub >>=-eq-ok {ℓ κ μ} :
    {E : Type ℓ} {A : Type κ} {B : Type μ} (call : Outcome E A) (after : A → Outcome E B)
    {result : B}
    → (call >>= after) ≡ ok result
    → (value : A) × (call ≡ ok value) × (after value ≡ ok result)
>>=-eq-ok call after e = on_ok call after e λ value made rest. (value, made, rest)

-- What follows a test that did not fail.
pub passed {ℓ μ} :
    {E : Type ℓ} {B : Type μ} (c : Bool) (e : E) (m : Outcome E B) {b : B}
    → (fail_if c e >> m) ≡ ok b
    → (c ≡ false) × (m ≡ ok b)
passed true e m h = cc
passed false e m h = (refl, h)
