-- ===== src/Database/Steady.antt =====
-- The operations of src/famepy/_database.py and the module functions of src/famepy/_runtime.py
-- that use a running session are steady from every state.
use famepy.Prelude.{ℕ, ℤ, refl, Bool, true, false, Option, none, some, Bytes}
use famepy.Native.{Native, cfmopwk, cfmopdb, cfmpodb}
use famepy.World.{Handle, AccessMode}
use famepy.Exec.{Exec, modify}
use famepy.Text.{Text}
use famepy.Constants.{CodeArg}
use famepy.Runtime.Steady.{
  Steady-update, Quiet, Quiet-bind, Quiet-pure, Quiet-raise_if, Quiet-lift, Quiet-gets,
  Quiet-session, Quiet-update, Quiet-call,
}
use famepy.Runtime.Gate.{operation-Steady}
use famepy.Runtime.Still.{
  Still, Still-bind, pure-Still, raise-Still, lift-Still, Steady-same, gets-Still, raise_if-Still,
  skip-Still, check_not_inherited-Still,
}
use famepy.Runtime.Process.{usable_owner, current_session, check_process_unused}
use famepy.Runtime.Lifecycle.{invalidate}
use famepy.Runtime.OneShot.{close_database-Quiet}
use famepy.Database.{
  register, unregister, add_handle, new_database, check_open, session_or_current, open_arguments,
  open_database, db_operation, opendb, work_or_open, workdb, postdb, forget, close_handle, closedb,
}

check_process_unused-Still : Still check_process_unused
unfolding check_process_unused
check_process_unused-Still = Still-bind _ _ (gets-Still _) (λ b. raise_if-Still b _)

usable_owner-Still : (o : Option ℕ) → Still (usable_owner o)
unfolding usable_owner
usable_owner-Still none = raise-Still _ _
usable_owner-Still (some o) = Still-bind _ _ check_process_unused-Still (λ _. pure-Still o)

pub current_session-Still : Still current_session
unfolding current_session
current_session-Still =
    Still-bind _ _ check_not_inherited-Still
      λ _. Still-bind _ _ (gets-Still _) (λ w. usable_owner-Still w.owner)

pub session_or_current-Still : (o : Option ℕ) → Still (session_or_current o)
unfolding session_or_current
session_or_current-Still none = current_session-Still
session_or_current-Still (some s) = pure-Still s

open_arguments-Still : (dbname : Text) (mode : CodeArg) → Still (open_arguments dbname mode)
unfolding open_arguments
open_arguments-Still dbname mode = Still-bind _ _ (raise_if-Still _ _) λ _.
    Still-bind _ _ (lift-Still _) λ text.
      Still-bind _ _ (lift-Still _)
        λ selected. Still-bind _ _ (raise_if-Still _ _) (λ _. pure-Still _)

check_open-Still : (hid : ℕ) → Still (check_open hid)
unfolding check_open
check_open-Still hid = Still-bind _ _ (gets-Still _) λ w.
    Still-bind _ _ (raise_if-Still _ _) λ _. Still-bind _ _ (raise_if-Still _ _) (λ _. pure-Still _)

add_handle-Still : (hid : ℕ) (h : Handle) → Still (add_handle hid h)
unfolding add_handle modify
add_handle-Still hid h w = Steady-same w _ refl refl refl refl refl refl refl

invalidate-Still : (hid : ℕ) → Still (invalidate hid)
unfolding invalidate modify
invalidate-Still hid w = Steady-same w _ refl refl refl refl refl refl refl

register-Still : (sid hid : ℕ) (key : ℤ) → Still (register sid hid key)
unfolding register
register-Still sid hid key w = Steady-update sid _ w (λ x. refl) (λ x. refl) (λ x. refl)

unregister-Still : (sid hid : ℕ) (key : ℤ) → Still (unregister sid hid key)
unfolding unregister
unregister-Still sid hid key w = Steady-update sid _ w (λ x. refl) (λ x. refl) (λ x. refl)

-- What is steady from every state is quiet in every session.
Still-Quiet : {A : Type 0} (sid : ℕ) (m : Exec A) → Still m → Quiet sid m
Still-Quiet sid m h = record { at = λ w _. h w }

module _ (native : Native) (sid : ℕ) where
  new_database-Quiet :
      (key : ℤ) (mode : AccessMode) (is_work : Bool) → Quiet sid (new_database sid key mode is_work)
  unfolding new_database
  new_database-Quiet key mode is_work = Quiet-bind sid _ _ (Quiet-session sid sid) λ s.
      Quiet-bind sid _ _ (Quiet-gets sid _) λ hid.
        Quiet-bind sid _ _ (Still-Quiet sid _ (add_handle-Still hid _)) λ _.
          Quiet-bind sid _ _ (Still-Quiet sid _ (register-Still sid hid key))
            λ _. Quiet-pure sid hid

  open_database-Quiet : (text : Bytes) (mode : ℤ) → Quiet sid (open_database native text mode)
  unfolding open_database
  open_database-Quiet text mode =
      Quiet-bind sid _ _ (Quiet-raise_if sid _ _) λ _.
        Quiet-bind sid _ _ (Quiet-lift sid _) (λ m. Quiet-call native sid (cfmopdb text m) refl)

  work_or_open-Quiet : (o : Option ℕ) → Quiet sid (work_or_open native sid o)
  unfolding work_or_open
  work_or_open-Quiet (some h) = Quiet-pure sid h
  work_or_open-Quiet none = Quiet-bind sid _ _ (Quiet-call native sid cfmopwk refl) λ key.
      Quiet-bind sid _ _ (new_database-Quiet key _ _) λ hid.
        Quiet-bind sid _ _ (Quiet-update sid sid _ (λ x. refl) (λ x. refl) (λ x. refl))
          λ _. Quiet-pure sid hid

module _ (native : Native) where
  pub opendb-Still :
      (dbname : Text) (mode : CodeArg) (given : Option ℕ) → Still (opendb native dbname mode given)
  unfolding opendb
  opendb-Still dbname mode given = Still-bind _ _ (open_arguments-Still dbname mode) λ args.
      Still-bind _ _ (session_or_current-Still given) λ owner. operation-Steady native owner _ (
        Quiet-bind owner _ _ (open_database-Quiet native owner _ _)
          (λ key. new_database-Quiet native owner key _ _))

  pub workdb-Still : (given : Option ℕ) → Still (workdb native given)
  unfolding workdb
  workdb-Still given = Still-bind _ _ (session_or_current-Still given) λ owner.
      operation-Steady native owner _
        (Quiet-bind owner _ _ (Quiet-gets owner _) (λ w. work_or_open-Quiet native owner _))

  pub db_operation-Still :
      {A : Type 0} (hid : ℕ) (body : ℤ → Exec A)
      → ((sid : ℕ) (key : ℤ) → Quiet sid (body key))
      → Still (db_operation native hid body)
  unfolding db_operation
  db_operation-Still hid body q =
      Still-bind _ _ (check_open-Still hid) (λ h. operation-Steady native h.session _ (q _ _))

  pub postdb-Still : (hid : ℕ) → Still (postdb native hid)
  unfolding postdb
  postdb-Still hid = db_operation-Still hid _ (λ sid key.
      Quiet-bind sid _ _ (Quiet-lift sid _) (λ k. Quiet-call native sid (cfmpodb k) refl))

  forget-Still : (hid : ℕ) (h : Handle) → Still (forget native hid h)
  unfolding forget
  forget-Still hid h =
      Still-bind _ _ (invalidate-Still hid) (λ _. unregister-Still h.session hid h.key)

  close_handle-Still :
      (hid : ℕ) (h : Handle) (o stale : Bool) → Still (close_handle native hid h o stale)
  unfolding close_handle
  close_handle-Still hid h false stale = skip-Still
  close_handle-Still hid h true true = forget-Still hid h
  close_handle-Still hid h true false =
      Still-bind _ _
        (operation-Steady native h.session _ (close_database-Quiet native h.session h.key))
        (λ _. forget-Still hid h)

  pub closedb-Still : (hid : ℕ) → Still (closedb native hid)
  unfolding closedb
  closedb-Still hid = Still-bind _ _ (gets-Still _) (λ w. close_handle-Still hid _ _ _)
