-- ===== src/Data/Results.antt =====
-- How chains of results and of checks compute, and what they say when they give a value.
use famepy.Prelude.{◌^◌, ℤ, fits, ◌≡◌, refl, ap, Bool, true, false, not, ◌&&◌, ◌||◌, if◌then◌else◌}
use famepy.Errors.{Error, Result, ok, err, data_validation}
use famepy.Exec.{Exec, lift, raise, raise_if, ◌>>=◌}
use famepy.Runtime.{int32}
use famepy.Objects.{and_then}

pub err-ok : {A : Type 0} {e : Error} {a : A} → err e ≡ ok a → ⊥
err-ok q = cc

pub ok-injective : {A : Type 0} {a b : A} → ok a ≡ ok b → a ≡ b
ok-injective q = cc q

module _ {A B : Type 0} where
  pub and_then-ok :
      (r : Result A) (f : A → Result B) {b : B}
      → and_then r f ≡ ok b
      → (a : A) × (r ≡ ok a) × (f a ≡ ok b)
  and_then-ok (ok a) f h = (a, refl, h)
  and_then-ok (err e) f h = absurd (err-ok h)

  pub lift-bind : {r : Result A} {a : A} (f : A → Exec B) → r ≡ ok a → (lift r >>= f) ≡ f a
  unfolding lift ◌>>=◌
  lift-bind f e = ap (λ r. lift r >>= f) e

  pub lift-bind-err :
      {r : Result A} {e : Error} (f : A → Exec B) → r ≡ err e → (lift r >>= f) ≡ raise e
  unfolding lift raise ◌>>=◌
  lift-bind-err f e = ap (λ r. lift r >>= f) e

  pub raise-bind : (e : Error) (f : A → Exec B) → (raise e >>= f) ≡ raise e
  unfolding raise ◌>>=◌
  raise-bind e f = refl

module _ {A : Type 0} where
  -- a check that lets a value through
  pub guard-ok :
      (b : Bool) (e : Error) {a c : A} → (if b then ok a else err e) ≡ ok c → (b ≡ true) × (a ≡ c)
  guard-ok true e h = (refl, cc h)
  guard-ok false e h = absurd (err-ok h)

  -- a check that did not refuse
  pub refuse-ok :
      (b : Bool) (e : Error) {r : Result A} {c : A}
      → (if b then err e else r) ≡ ok c
      → (b ≡ false) × (r ≡ ok c)
  refuse-ok true e h = absurd (err-ok h)
  refuse-ok false e h = (refl, h)

  pub raise_if-bind :
      (b : Bool) (e : Error) (f : Unit {0} → Exec A) → b ≡ false → (raise_if b e >>= f) ≡ f tt
  unfolding raise_if famepy.Exec.pure ◌>>=◌
  raise_if-bind true e f h = absurd (refused h)
    where
      refused : true ≡ false → ⊥
      refused q = cc
  raise_if-bind false e f h = refl

pub int32-ok : (n : ℤ) → fits (2 ^ 31) n ≡ true → int32 n ≡ ok n
unfolding int32
int32-ok n h = rw h refl

pub int32-err : (n : ℤ) → fits (2 ^ 31) n ≡ false → int32 n ≡ err data_validation
unfolding int32
int32-err n h = rw h refl

pub and_parts : (a b : Bool) → (a && b) ≡ true → (a ≡ true) × (b ≡ true)
and_parts true b h = (refl, h)
and_parts false b h = absurd (refused h)
  where
    refused : false ≡ true → ⊥
    refused q = cc

pub or_parts : (a b : Bool) → (a || b) ≡ false → (a ≡ false) × (b ≡ false)
or_parts false b h = (refl, h)
or_parts true b h = absurd (refused h)
  where
    refused : true ≡ false → ⊥
    refused q = cc

pub not-false : (b : Bool) → not b ≡ false → b ≡ true
not-false true h = refl
not-false false h = absurd (refused h)
  where
    refused : true ≡ false → ⊥
    refused q = cc
