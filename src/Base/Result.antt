-- ===== src/Base/Result.antt =====
-- Python's exceptions as values, and methods that change an object and may raise: what was
-- changed before the `raise` stays changed.
use mathlib.Core.Bool.{Bool, true, false}
use mathlib.Core.Path.{◌≡◌, ap, refl}
use pyscript.Base.Tests.{if◌then◌else◌}
use native.Mathlib.Omega.{arith}

-- the exception classes that the source raises or lets through
pub data Error : Type 0 where
  key_error value_error type_error name_error attribute_error runtime_error : Error
  import_error syntax_error overflow_error index_error cancelled_error : Error

pub data Result {ℓ} (A : Type ℓ) : Type ℓ where
  ok : A → Result A
  err : Error → Result A

-- A method of an object in state `S`.
abbrev pub Method {ℓ} : Type ℓ → Type ℓ → Type ℓ
Method S A = S → Result A × S

module _ {ℓ} {S A : Type ℓ} where
  abbrev pub return : A → Method S A
  return a s = (ok a, s)

  abbrev pub raise : Error → Method S A
  raise e s = (err e, s)

module _ {ℓ} {S A B : Type ℓ} where
  abbrev pub and_then : Result A → (A → Method S B) → Method S B
  and_then (ok a) f s = f a s
  and_then (err e) f s = (err e, s)

  infixl 5 ◌>>=◌ ◌>>◌
  abbrev pub ◌>>=◌ : Method S A → (A → Method S B) → Method S B
  ◌>>=◌ m f s = let (r, s') = m s in and_then r f s'

  abbrev pub ◌>>◌ : Method S A → Method S B → Method S B
  m >> n = m >>= λ _. n

-- one step after another that may raise, with no state
abbrev pub then_try {ℓ} : {A B : Type ℓ} → Result A → (A → Result B) → Result B
then_try (ok a) f = f a
then_try (err e) f = err e

pub ok_inj {ℓ} : {A : Type ℓ} {a b : A} → ok a ≡ ok b → a ≡ b
ok_inj {a = a} e = ap (λ r. elim r [ ok x ↦ x | err e ↦ a ]) e

pub err-ok {ℓ κ} : {A : Type ℓ} {B : Type κ} {x : Error} {a : A} → err x ≡ ok a → B
err-ok e = ground (arith, e)

-- a test that raises was not met, or was
pub unless-ok {ℓ} :
    {A : Type ℓ} (b : Bool) (x : Error) (r : Result A) (a : A)
    → (if b then err x else r) ≡ ok a
    → (b ≡ false) × (r ≡ ok a)
unless-ok true x r a e = err-ok e
unless-ok false x r a e = (refl, e)

pub when-ok {ℓ} :
    {A : Type ℓ} (b : Bool) (x : Error) (r : Result A) (a : A)
    → (if b then r else err x) ≡ ok a
    → (b ≡ true) × (r ≡ ok a)
when-ok true x r a e = (refl, e)
when-ok false x r a e = err-ok e

-- what went before a step that ends well ends well
pub try-ok {ℓ} :
    {A B : Type ℓ} (r : Result A) (f : A → Result B) (b : B)
    → then_try r f ≡ ok b
    → (a : A) × (r ≡ ok a) × (f a ≡ ok b)
try-ok (ok a) f b e = (a, refl, e)
try-ok (err x) f b e = err-ok e

abbrev pub is_ok {ℓ} : {A : Type ℓ} → Result A → Bool
is_ok (ok a) = true
is_ok (err e) = false
