-- ===== src/Common/Result.antt =====
-- The HTTP exceptions that the handlers throw, and computations that may throw. An exception
-- carries the class and the `location` that the source gives it; its message is left out.
use Prim.Native.String.{String}
use mathlib.Core.Path.{◌≡◌, refl, ap}
use mathlib.Core.Logic.{◌⊎◌, inl, inr}
use mathlib.Core.Bool.{Bool, true, false}
use mathlib.Core.Option.{Option, none, some}
use procare_backend.Common.Tests.{if◌then◌else◌}

pub data HttpException : Type 0 where
  bad_request unauthorized forbidden not_found conflict : String → HttpException
  too_many_requests service_unavailable : String → HttpException

pub data Result {ℓ} (Value : Type ℓ) : Type ℓ where
  err : (thrown : HttpException) → Result Value
  ok : (value : Value) → Result Value

-- `if (!test) throw exception`
abbrev pub guard : Bool → HttpException → Result (Unit {0})
guard false exception = err exception
guard true exception = ok tt

module _ {ℓ κ} {Value : Type ℓ} {Out : Type κ} where
  infixl 5 ◌>>=◌
  -- `await` of a call that may throw, and what comes after it.
  abbrev pub ◌>>=◌ : Result Value → (Value → Result Out) → Result Out
  err thrown >>= next = err thrown
  ok value >>= next = next value

  -- If the whole succeeds, the call did, and so did what comes after.
  pub >>=-eq-ok :
      (call : Result Value) (next : Value → Result Out) {out : Out}
      → (call >>= next) ≡ ok out
      → (value : Value) × (call ≡ ok value) × (next value ≡ ok out)
  >>=-eq-ok (err thrown) next e = cc
  >>=-eq-ok (ok value) next e = (value, refl, e)

infixl 5 ◌>>◌
abbrev pub ◌>>◌ {κ} : {Out : Type κ} → Result (Unit {0}) → Result Out → Result Out
call >> rest = call >>= λ _. rest

pub guard-eq-ok : (b : Bool) (e : HttpException) {u : Unit {0}} → guard b e ≡ ok u → b ≡ true
guard-eq-ok true e h = refl
guard-eq-ok false e h = cc

-- The branches of a test that succeeds.
pub if-eq-ok {ℓ} :
    {A : Type ℓ} {a : A} (b : Bool) (x y : Result A)
    → (if b then x else y) ≡ ok a
    → ((b ≡ true) × (x ≡ ok a)) ⊎ ((b ≡ false) × (y ≡ ok a))
if-eq-ok true x y e = inl (refl, e)
if-eq-ok false x y e = inr (refl, e)

pub ok-injective {ℓ} : {A : Type ℓ} {a b : A} → ok a ≡ ok b → a ≡ b
ok-injective {A = A} {a = a} e = ap (λ r. elim r [ ok x ↦ x | err x ↦ a ]) e

pub guard->>-eq-ok {ℓ} :
    {A : Type ℓ} {a : A} (b : Bool) (e : HttpException) (m : Result A)
    → (guard b e >> m) ≡ ok a
    → (b ≡ true) × (m ≡ ok a)
guard->>-eq-ok true e m h = (refl, h)
guard->>-eq-ok false e m h = cc

-- `if (!row) throw exception`, and the row
abbrev pub or_throw {ℓ} : {A : Type ℓ} → HttpException → Option A → Result A
or_throw exception none = err exception
or_throw exception (some row) = ok row

pub or_throw-eq-ok {ℓ} :
    {A : Type ℓ} {a : A} (e : HttpException) (o : Option A) → or_throw e o ≡ ok a → o ≡ some a
or_throw-eq-ok e none h = cc
or_throw-eq-ok e (some b) h = ap some (ok-injective h)
