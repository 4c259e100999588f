-- ===== src/Common/Errors.antt =====
-- Fallible code: a value or the exception that was raised. In a database transaction an
-- exception rolls every write of the block back, so an operation that raises returns no state.
use Prim.Native.String.{String}
use mathlib.Core.Path.{◌≡◌, refl, subst}
use mathlib.Core.Logic.{◌⊎◌, inl, inr}
use mathlib.Core.Bool.{Bool, true, false}

pub data Error : Type 0 where
  value_error key_error runtime_error : String → Error

pub data Result {ℓ} (A : Type ℓ) : Type ℓ where
  ok : A → Result A
  err : Error → Result A

-- `if c: raise e`
abbrev pub raise_if : Bool → Error → Result (Unit {0})
raise_if true e = err e
raise_if false e = ok tt

infixl 5 ◌>>=◌ ◌>>◌
-- the statements after one that may raise
abbrev pub ◌>>=◌ {κ ℓ} : {B : Type κ} {C : Type ℓ} → Result B → (B → Result C) → Result C
err e >>= rest = err e
ok x >>= rest = rest x

abbrev pub ◌>>◌ {ℓ} : {C : Type ℓ} → Result (Unit {0}) → Result C → Result C
check >> rest = check >>= λ _. rest

-- `try: … except Exception as exc: …`
abbrev pub try_except {κ ℓ} : {B : Type κ} {C : Type ℓ} → Result B → (B → C) → (Error → C) → C
try_except (ok x) rest handler = rest x
try_except (err e) rest handler = handler e

pub >>=-eq-ok {κ ℓ} :
    {B : Type κ} {C : Type ℓ} (first : Result B) (rest : B → Result C) {y : C}
    → (first >>= rest) ≡ ok y
    → (x : B) × (first ≡ ok x) × (rest x ≡ ok y)
>>=-eq-ok (err e) rest returned = cc
>>=-eq-ok (ok x) rest returned = (x, refl, returned)

pub Result-cases {ℓ} :
    {A : Type ℓ} (r : Result A) → ((a : A) × (r ≡ ok a)) ⊎ ((e : Error) × (r ≡ err e))
Result-cases (ok a) = inl (a, refl)
Result-cases (err e) = inr (e, refl)

-- Past a check that may raise.
pub raise_if-eq-ok {ℓ} :
    {B : Type ℓ} (c : Bool) (e : Error) (f : Unit {0} → Result B) {b : B}
    → (raise_if c e >>= f) ≡ ok b
    → (c ≡ false) × (f tt ≡ ok b)
raise_if-eq-ok true e f h = cc
raise_if-eq-ok false e f h = (refl, h)

-- What holds of the value, if no exception was raised.
pub data Returns {ℓ κ} {A : Type ℓ} (P : A → Type κ) : Result A → Type (ℓ ⊔ κ) where
  returned : {a : A} → P a → Returns P (ok a)
  raised : {e : Error} → Returns P (err e)

pub >>=-Returns {ℓ κ μ ν} :
    {B : Type ℓ} {C : Type κ} (P : B → Type μ) (Q : C → Type ν) (first : Result B)
    (rest : B → Result C)
    → Returns P first
    → ((x : B) → P x → Returns Q (rest x))
    → Returns Q (first >>= rest)
>>=-Returns P Q (err e) rest h k = raised
>>=-Returns P Q (ok x) rest (returned h) k = k x h

pub raise_if-Returns {ℓ κ} :
    {C : Type ℓ} (Q : C → Type κ) (c : Bool) (e : Error) (rest : Result C)
    → (c ≡ false → Returns Q rest)
    → Returns Q (raise_if c e >> rest)
raise_if-Returns Q true e rest h = raised
raise_if-Returns Q false e rest h = h refl

pub Returns-ok {ℓ κ} :
    {A : Type ℓ} (P : A → Type κ) (r : Result A) {a : A} → Returns P r → r ≡ ok a → P a
Returns-ok P (err e) h q = cc
Returns-ok P (ok b) {a} (returned h) q = let same : b ≡ a = cc in subst P same h

pub Returns-all {ℓ κ} : {A : Type ℓ} (P : A → Type κ) (r : Result A) → ((a : A) → P a) → Returns P r
Returns-all P (err e) h = raised
Returns-all P (ok a) h = returned (h a)

pub >>=-Returns_any {ℓ κ ν} :
    {B : Type ℓ} {C : Type κ} (Q : C → Type ν) (first : Result B) (rest : B → Result C)
    → ((x : B) → Returns Q (rest x))
    → Returns Q (first >>= rest)
>>=-Returns_any Q (err e) rest k = raised
>>=-Returns_any Q (ok x) rest k = k x

-- A weaker property of the value.
pub Returns-map {ℓ κ μ} :
    {A : Type ℓ} (P : A → Type κ) (Q : A → Type μ) (r : Result A)
    → ((a : A) → P a → Q a)
    → Returns P r
    → Returns Q r
Returns-map P Q (err e) f h = raised
Returns-map P Q (ok a) f (returned h) = returned (f a h)
