-- ===== src/Runtime/Returns.antt =====
-- How actions compute where the parts of them are known to return or to raise.
use famepy.Prelude.{refl}
use famepy.Prelude.{ℕ, ℤ, pos, ◌≡◌, ap, none, some, ◌∷◌}
use famepy.Errors.{Error, ok, err, check_status}
use famepy.Native.{Native, Call, Reply, returned}
use famepy.World.{World}
use famepy.Exec.{actions, Exec, raise, catch, call, checked, ◌>>=◌}
use famepy.Runtime.{operation, attach_extended_error}
use famepy.Runtime.Gate.{gate, operation_lem}

module _ {A B : Type 0} (m : Exec A) (f : A → Exec B) where
  pub bind-ok : {w w' : World} {a : A} → m w ≡ (ok a, w') → (m >>= f) w ≡ f a w'
  unfolding ◌>>=◌
  bind-ok e = rw e

  pub bind-err : {w w' : World} {x : Error} → m w ≡ (err x, w') → (m >>= f) w ≡ (err x, w')
  unfolding ◌>>=◌
  bind-err e = rw e

module _ {A : Type 0} (m : Exec A) (h : Error → Exec A) where
  pub catch-ok : {w w' : World} {a : A} → m w ≡ (ok a, w') → catch m h w ≡ (ok a, w')
  unfolding catch
  catch-ok e = rw e

  pub catch-err : {w w' : World} {x : Error} → m w ≡ (err x, w') → catch m h w ≡ h x w'
  unfolding catch
  catch-err e = rw e

-- The world after one more call.
abbrev pub called : Call → World → World
called c w = record w { calls = c ∷ w.calls }

pub checked-ok :
    {A : Type 0} (a : A) (status : ℤ) → check_status status ≡ ok tt → checked (status, a) ≡ ok a
checked-ok a status e = rw (checked, e)

pub checked-err :
    {A : Type 0} (a : A) (status : ℤ) {x : Error}
    → check_status status ≡ err x
    → checked (status, a) ≡ err x
checked-err a status e = rw (checked, e)

module _ (native : Native) (c : Call) (w : World) where
  pub call_lem :
      (status : ℤ) (a : Reply c)
      → native.respond w.calls c ≡ returned status a
      → call native c w ≡ (checked (status, a), called c w)
  unfolding actions
  call_lem status a e = rw e refl

  pub call-ok :
      {a : Reply c}
      → native.respond w.calls c ≡ returned (pos 0) a
      → call native c w ≡ (ok a, called c w)
  unfolding actions check_status
  call-ok e = rw e

  pub call-err :
      {a : Reply c} {status : ℤ} {x : Error}
      → native.respond w.calls c ≡ returned status a
      → check_status status ≡ err x
      → call native c w ≡ (err x, called c w)
  unfolding actions
  call-err {a = a} {status = status} e f = rw e (ap (λ r. (r, called c w)) (checked-err a status f))

module _ (native : Native) (sid : ℕ) {A : Type 0} (body : Exec A) where
  pub operation-ok :
      {w w' : World} {a : A}
      → gate sid w ≡ none
      → body w ≡ (ok a, w')
      → operation native sid body w ≡ (ok a, w')
  unfolding actions
  operation-ok g e = rw (operation_lem, g, e)

  pub operation-shut :
      {w : World} {x : Error} → gate sid w ≡ some x → operation native sid body w ≡ (err x, w)
  operation-shut g = rw (operation_lem, g)

  pub operation-err :
      {w w' : World} {x : Error}
      → gate sid w ≡ none
      → body w ≡ (err x, w')
      → operation native sid body w ≡ (attach_extended_error native sid x >>= raise) w'
  unfolding catch
  operation-err g e = rw (operation_lem, g, e)
