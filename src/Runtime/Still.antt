-- ===== src/Runtime/Still.antt =====
-- Actions that are steady from every state: the process check and the load of the library.
use famepy.Exec
use famepy.Prelude.{
  ℕ, ◌≡◌, refl, ◌∙◌, inl, inr, Bool, true, false, Option, none, some, arith, ◌==◌, Bool-cases, ap,
  if◌then◌else◌, ◌==ℤ◌, pos,
}
use famepy.Errors.{Error, Result, ok, err, inherited_runtime, library_load}
use famepy.Native.{Native, Outcome, returned, raised}
use famepy.World.{World, Session, Runtime}
use famepy.Exec.{Exec, actions, pure, raise, gets, modify, raise_if, skip, ◌>>=◌, lift}
use famepy.Runtime.{
  update, session, check_process, check_not_inherited, load_runtime, ensure_loaded, load_library,
}
use famepy.Runtime.Steady.{Steady, Steady-refl, Steady-trans, Steady-update}
use famepy.Runtime.Invariant.{Inv, Inv-Steady}

-- The action is steady from every state.
abbrev pub Still : {A : Type 0} → Exec A → Type 0
Still m = (w : World) → Steady w (m w).1

module _ {A B : Type 0} where
  continue-Still :
      (r : Result A) (f : A → Exec B) (w w' : World)
      → Steady w w'
      → ((a : A) → Still (f a))
      → Steady w (Exec.continue r f w').1
  continue-Still (ok a) f w w' st q = Steady-trans st (q a w')
  continue-Still (err e) f w w' st q = st

  pub Still-bind :
      (m : Exec A) (f : A → Exec B) → Still m → ((a : A) → Still (f a)) → Still (m >>= f)
  unfolding ◌>>=◌
  Still-bind m f sm sf w = continue-Still (m w).0 f w (m w).1 (sm w) sf

-- A change of none of the fields that `Steady` reads.
pub Steady-same :
    (w w' : World)
    → w'.owner ≡ w.owner
    → w'.pid ≡ w.pid
    → w'.inherited ≡ w.inherited
    → w'.sessions ≡ w.sessions
    → w'.next_session ≡ w.next_session
    → w'.default_session ≡ w.default_session
    → w'.calls ≡ w.calls
    → Steady w w'
Steady-same w w' o p i s n d c = record {
  owner = o;
  pid = p;
  inherited = i;
  states = λ j. ap (λ (f : ℕ → Session). (f j).state) s;
  pids = λ j. ap (λ (f : ℕ → Session). (f j).pid) s;
  natives = λ j. ap (λ (f : ℕ → Session). (f j).native) s;
  allocated = n;
  default' = d;
  talked = inl c;
}

-- What `_check_process` answers.
abbrev pub process_gate : ℕ → World → Result (Unit {0})
process_gate sid w =
    if w.inherited
    then err inherited_runtime
    else if (w.sessions sid).pid == w.pid
    then ok tt
    else err inherited_runtime

pub check_process_lem : (sid : ℕ) (w : World) → check_process sid w ≡ (process_gate sid w, w)
unfolding actions check_process check_not_inherited session
check_process_lem sid w = ground arith

pub pure-Still : {A : Type 0} (a : A) → Still (pure a)
unfolding pure
pure-Still a w = Steady-refl w

pub raise-Still : (A : Type 0) (e : Error) → Still (raise {A = A} e)
unfolding raise
raise-Still A e w = Steady-refl w

pub lift-Still : {A : Type 0} (r : Result A) → Still (lift r)
unfolding lift
lift-Still r w = Steady-refl w

-- The process check in front of an action that reads the session.
module _ {B : Type 0} (sid : ℕ) where
  pub check_process-bind :
      (f : Unit {0} → Exec B) (w : World)
      → (check_process sid >>= f) w
        ≡ elim (process_gate sid w) [ ok _ ↦ f tt w | err e ↦ (err e, w) ]
  unfolding ◌>>=◌
  check_process-bind f w = rw check_process_lem (go (process_gate sid w))
    where
      go :
          (r : Result (Unit {0}))
          → Exec.continue r f w ≡ elim r [ ok _ ↦ f tt w | err e ↦ (err e, w) ]
      go (ok u) = refl
      go (err e) = refl

  pub session-bind :
      (f : Session → Exec B) (w : World) → (session sid >>= f) w ≡ f (w.sessions sid) w
  unfolding session gets ◌>>=◌
  session-bind f w = refl

pub check_not_inherited-Still : Still check_not_inherited
unfolding actions check_not_inherited
check_not_inherited-Still w = go w.inherited
  where
    go : (b : Bool) → Steady w (raise_if b inherited_runtime w).1
    go true = Steady-refl w
    go false = Steady-refl w

pub raise_if-Still : (b : Bool) (e : Error) → Still (raise_if b e)
unfolding raise_if pure raise
raise_if-Still true e w = Steady-refl w
raise_if-Still false e w = Steady-refl w

pub gets-Still : {A : Type 0} (f : World → A) → Still (gets f)
unfolding gets
gets-Still f w = Steady-refl w

mark_loaded-Still : Still (modify (λ w. record w { loaded_native = true }))
unfolding modify
mark_loaded-Still w = Steady-same w _ refl refl refl refl refl refl refl

count_load-Still : (n : ℕ) → Still (modify (λ w. record w { loads = n }))
unfolding modify
count_load-Still n w = Steady-same w _ refl refl refl refl refl refl refl

pub skip-Still : Still skip
unfolding skip pure
skip-Still w = Steady-refl w

module _ (native : Native) where
  answer-Still :
      (o : Outcome (Unit {0}))
      → Still (elim o [
        | returned status _ ↦ if status ==ℤ pos 0 then skip else raise library_load
        | raised e ↦ raise e
      ])
  unfolding skip pure raise
  answer-Still (returned status u) w = elim (Bool-cases (status ==ℤ pos 0)) [
    | inl e ↦ rw e (Steady-refl w)
    | inr e ↦ rw e (Steady-refl w)
  ]
  answer-Still (raised e) w = Steady-refl w

  load_library-Still : Still (load_library native)
  unfolding load_library
  load_library-Still =
      Still-bind _ _ (gets-Still _)
        λ n. Still-bind _ _ (count_load-Still _) λ _. answer-Still (native.cdll n)

  load_runtime-Still : (sid : ℕ) (r : Runtime) → Still (load_runtime native sid r)
  unfolding load_runtime
  load_runtime-Still sid r = Still-bind _ _ (gets-Still _) λ pid.
      Still-bind _ _ (raise_if-Still _ _) λ _.
        Still-bind _ _ check_not_inherited-Still λ _ w. elim (Bool-cases r.library) [
          | inl e ↦ rw e (skip-Still w)
          | inr e ↦ rw e (fetch w)
        ]
    where
      fetch : Still (
          load_library native >>= λ _.
          update sid (λ s. record s { runtime = some (record r { library = true }) }) >>= λ _.
          modify (λ w. record w { loaded_native = true }))
      fetch = Still-bind _ _ load_library-Still λ _.
          Still-bind _ _ (λ w. Steady-update sid _ w (λ x. refl) (λ x. refl) (λ x. refl))
            λ _. mark_loaded-Still

  pub ensure_loaded-Still : (sid : ℕ) (o : Option Runtime) → Still (ensure_loaded native sid o)
  unfolding ensure_loaded raise
  ensure_loaded-Still sid none w = Steady-refl w
  ensure_loaded-Still sid (some r) w = load_runtime-Still sid r w

-- The facts that the load of a library leaves alone, and the one that it adds.
pub record Pending (sid : ℕ) (o : Option ℕ) (n : ℕ) (w : World) : Type 0 where
  pub inv : Inv w
  pub owner : w.owner ≡ o
  pub allocated : w.next_session ≡ n

pub Pending-Steady :
    (sid : ℕ) {o : Option ℕ} {n : ℕ} {w w' : World}
    → Pending sid o n w
    → Steady w w'
    → Pending sid o n w'
Pending-Steady sid h st = record {
  inv = Inv-Steady h.inv st;
  owner = st.owner ∙ h.owner;
  allocated = st.allocated ∙ h.allocated;
}
