-- ===== src/Errors/Outcome.antt =====
-- What a Go function returns that gives a value and an error, or panics.
use baas_go_sdk.Base.{◌≡◌, refl, Bool, true, false, if◌then◌else◌}
use baas_go_sdk.Errors.{Error}

pub data Outcome {ℓ} (A : Type ℓ) : Type ℓ where
  ok : A → Outcome A
  err : Error → Outcome A
  panic : Outcome A

infixl 5 ◌>>=◌ ◌>>◌
abbrev pub ◌>>=◌ {ℓ κ} : {A : Type ℓ} {B : Type κ} → Outcome A → (A → Outcome B) → Outcome B
ok a >>= f = f a
err e >>= f = err e
panic >>= f = panic

abbrev pub ◌>>◌ {ℓ κ} : {A : Type ℓ} {B : Type κ} → Outcome A → Outcome B → Outcome B
m >> k = m >>= λ _. k

-- `if err != nil { return …, fmt.Errorf(…, err) }`
abbrev pub map_err {ℓ} : {A : Type ℓ} → (Error → Error) → Outcome A → Outcome A
map_err f (ok a) = ok a
map_err f (err e) = err (f e)
map_err f panic = panic

-- What a chain that succeeds has computed on the way.
pub >>=-eq-ok {ℓ} :
    {A B : Type ℓ} {out : B} (first : Outcome A) (next : A → Outcome B)
    → (first >>= next) ≡ ok out
    → (x : A) × (next x ≡ ok out) × (first ≡ ok x)
>>=-eq-ok (ok x) next h = (x, h, refl)
>>=-eq-ok (err e) next h = cc
>>=-eq-ok panic next h = cc

pub map_err-eq-ok {ℓ} :
    {A : Type ℓ} (f : Error → Error) (m : Outcome A) {a : A} → map_err f m ≡ ok a → m ≡ ok a
map_err-eq-ok f (ok a) h = h
map_err-eq-ok f (err e) h = cc
map_err-eq-ok f panic h = cc

-- A test that ends in an error where it holds.
pub guard-eq-ok {ℓ} :
    {A : Type ℓ} (b : Bool) (e : Error) (m : Outcome A) {a : A}
    → (if b then err e else m) ≡ ok a
    → (b ≡ false) × (m ≡ ok a)
guard-eq-ok true e m h = cc
guard-eq-ok false e m h = (refl, h)

-- A test that ends in an error where it fails.
pub require-eq-ok {ℓ} :
    {A : Type ℓ} (b : Bool) (e : Error) (m : Outcome A) {a : A}
    → (if b then m else err e) ≡ ok a
    → (b ≡ true) × (m ≡ ok a)
require-eq-ok true e m h = (refl, h)
require-eq-ok false e m h = cc

pub ok-injective {ℓ} : {A : Type ℓ} {a b : A} → ok a ≡ ok b → a ≡ b
ok-injective h = cc
