-- ===== src/Api/Clients.antt =====
-- The listing, the query, the commands, the reads and the writes are steady from every state.
use famepy.Prelude.{ℕ, ℤ, Bool, Option}
use famepy.Native.{Native}
use famepy.Text.{Text}
use famepy.Runtime.Gate.{operation-Steady}
use famepy.Runtime.Keeps.Steadily.{Quiet-Keeps}
use famepy.Runtime.Still.{Still, Still-bind, pure-Still, lift-Still, gets-Still, raise_if-Still}
use famepy.Database.Steady.{session_or_current-Still, db_operation-Still}
use famepy.Objects.{quick_info}
use famepy.Wildcard.{listdb}
use famepy.Wildcard.Filters.{Words, Frequencies}
use famepy.Wildcard.Keeps.{query_info-Keeps, list_locked-Keeps}
use famepy.Command.{Output, fame}
use famepy.Command.Include.{Files}
use famepy.Command.Keeps.{run_command-Keeps}
use famepy.Errors.{runtime_state}
use famepy.Prelude.{none, some}
use famepy.Runtime.{sentinels}
use famepy.Runtime.Steady.{Steady, Steady-refl}
use famepy.Constants.{CodeArg}
use famepy.Exec.{Exec, actions, pure, raise}
use famepy.Native.{Sentinels}
use famepy.Data.{Numpy}
use famepy.Data.Reading.{DataObject, do_read}
use famepy.Data.Writing.{write_raw, do_write, delete_object}
use famepy.Data.Carriers.{RawObject}
use famepy.Data.Keeps.{read_object-Keeps, write_plan-Keeps, delete_or_ignore-Keeps}

sentinels-Still : (sid : ℕ) → Still (sentinels sid)
unfolding sentinels actions famepy.Runtime.session
sentinels-Still sid w = go (w.sessions sid).sentinels
  where
    go :
        (o : Option Sentinels)
        → Steady w
            ((elim o as (λ _. Exec Sentinels) [
              | none ↦ raise runtime_state
              | some values ↦ pure values
            ])
              w).1
    go none = Steady-refl w
    go (some values) = Steady-refl w

module _ (native : Native) where
  pub quick_info-Still : (hid : ℕ) (name : Text) → Still (quick_info native hid name)
  unfolding quick_info
  quick_info-Still hid name = Still-bind _ _ (lift-Still _) λ text.
      db_operation-Still native hid _
        (λ sid key. Quiet-Keeps _ sid (λ P stable. query_info-Keeps native P stable key text))

  pub listdb-Still :
      (fuel hid : ℕ) (wildcard : Text) (alias : Bool) (cs ts : Words) (fs : Frequencies)
      (capacity : ℤ)
      → Still (listdb native fuel hid wildcard alias cs ts fs capacity)
  unfolding listdb
  listdb-Still fuel hid wildcard alias cs ts fs capacity = Still-bind _ _ (lift-Still _) λ l.
      Still-bind _ _ (gets-Still _) λ s.
        db_operation-Still native hid _ (λ sid key.
          Quiet-Keeps _ sid (λ P stable. list_locked-Keeps native P stable fuel s l key))

  pub fame-Still :
      (files : Files) (output : Output) (text : Text) (given : Option ℕ) (quiet includes : Bool)
      → Still (fame native files output text given quiet includes)
  unfolding fame
  fame-Still files output text given quiet includes = Still-bind _ _ (lift-Still _) λ t.
      Still-bind _ _ (session_or_current-Still given) λ owner. Still-bind _ _ (lift-Still _) λ full.
        Still-bind _ _ (raise_if-Still _ _) λ _.
          Still-bind _ _
            (operation-Steady native owner _ (
              Quiet-Keeps _ owner
                (λ P stable. run_command-Keeps native P stable output owner full)))
            (λ captured. pure-Still _)

  module _ (numpy : Numpy) where
    pub do_read-Still : (hid : ℕ) (obj : DataObject) → Still (do_read native numpy hid obj)
    unfolding do_read
    do_read-Still hid obj = Still-bind _ _ (gets-Still _) λ w.
        Still-bind _ _
          (db_operation-Still native hid _ (λ sid key.
            Quiet-Keeps _ sid (λ P stable. read_object-Keeps native P stable numpy _ key obj.info)))
          (λ r. pure-Still _)

    write_raw-Still :
        (hid : ℕ) (name : Text) (raw : RawObject) (replace : Bool) (basis observed : Option CodeArg)
        → Still (write_raw native numpy hid name raw replace basis observed)
    unfolding write_raw
    write_raw-Still hid name raw replace basis observed = Still-bind _ _ (gets-Still _) λ w.
        Still-bind _ _ (lift-Still _) λ plan. db_operation-Still native hid _ (λ sid key.
          Quiet-Keeps _ sid (λ P stable. write_plan-Keeps native P stable replace plan key))

    pub do_write-Still :
        (hid : ℕ) (obj : DataObject) (replace : Bool) (basis observed : Option CodeArg)
        → Still (do_write native numpy hid obj replace basis observed)
    unfolding do_write
    do_write-Still hid obj replace basis observed = Still-bind _ _ (gets-Still _) λ w.
        Still-bind _ _ (sentinels-Still _) λ s.
          Still-bind _ _ (lift-Still _) (λ raw. write_raw-Still hid _ raw replace basis observed)

  pub delete_object-Still :
      (hid : ℕ) (name : Text) (missing_ok : Bool) → Still (delete_object native hid name missing_ok)
  unfolding delete_object
  delete_object-Still hid name missing_ok = Still-bind _ _ (lift-Still _) λ t.
      db_operation-Still native hid _ (λ sid key.
        Quiet-Keeps _ sid (λ P stable. delete_or_ignore-Keeps native P stable missing_ok key t))
