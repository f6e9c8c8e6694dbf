-- ===== src/Exec.antt =====
-- Python methods as actions on the process: what was written before a raise stays written, so the
-- state comes back beside an exception too.
pub mod Ends
use famepy.Prelude.{◌∷◌, ℤ, Bool, true, false}
use famepy.Errors.{Error, Result, ok, err, check_status}
use famepy.Native.{Call, Reply, Outcome, returned, raised, Native}
use famepy.World.{World}

abbrev pub Exec : Type 0 → Type 0
Exec A = World → Result A × World

module _ {A : Type 0} where
  unfoldable pub pure : A → Exec A
  pure a w = (ok a, w)

  unfoldable pub raise : Error → Exec A
  raise e w = (err e, w)

  unfoldable pub lift : Result A → Exec A
  lift r w = (r, w)

  unfoldable pub gets : (World → A) → Exec A
  gets f w = (ok (f w), w)

  abbrev pub handle : Result A → (Error → Exec A) → Exec A
  handle (ok a) h w = (ok a, w)
  handle (err e) h w = h e w

  -- `try: m` with `except BaseException as e: h(e)`
  unfoldable pub catch : Exec A → (Error → Exec A) → Exec A
  catch m h w = let (r, w') = m w in handle r h w'

  abbrev pub finish : Result A → Result (Unit {0}) → Result A
  finish r (ok _) = r
  finish r (err e) = err e

  -- `try: m` with `finally: c`: an exception of the cleanup replaces what `m` did.
  unfoldable pub finally : Exec A → Exec (Unit {0}) → Exec A
  finally m c w = let (r, w') = m w in let (r', w'') = c w' in (finish r r', w'')

unfoldable pub modify : (World → World) → Exec (Unit {0})
modify f w = (ok tt, f w)

module _ {A B : Type 0} where
  abbrev pub continue : Result A → (A → Exec B) → Exec B
  continue (ok a) f w = f a w
  continue (err e) f w = (err e, w)

  infixl 10 ◌>>=◌ ◌>>◌
  -- Opening this opens the actions above too.
  unfoldable pub ◌>>=◌ : Exec A → (A → Exec B) → Exec B
  ◌>>=◌ m f w = let (r, w') = m w in continue r f w'

  abbrev pub ◌>>◌ : Exec A → Exec B → Exec B
  m >> n = m >>= λ _. n

unfoldable pub skip : Exec (Unit {0})
skip = pure tt

-- `if test: raise error`
unfoldable pub raise_if : Bool → Error → Exec (Unit {0})
raise_if true e = raise e
raise_if false e = pure tt

abbrev pub answer : {A : Type 0} → Outcome A → Result (ℤ × A)
answer (returned status a) = ok (status, a)
answer (raised e) = err e

abbrev pub checked : {A : Type 0} → ℤ × A → Result A
checked (status, a) = elim (check_status status) [ ok _ ↦ ok a | err e ↦ err e ]

module _ (native : Native) where
  -- `Binding.call_status`: the status is given back and not checked.
  unfoldable pub call_status : (c : Call) → Exec (ℤ × Reply c)
  call_status c w = (answer (native.respond w.calls c), record w { calls = c ∷ w.calls })

  -- `Binding.call`
  unfoldable pub call : (c : Call) → Exec (Reply c)
  call c = call_status c >>= λ r. lift (checked r)

-- To unfold this is to unfold every way to build an action.
unfoldable pub actions : Unit {0}
unfolding pure raise lift gets modify catch finally skip raise_if call_status call ◌>>=◌
actions = tt
