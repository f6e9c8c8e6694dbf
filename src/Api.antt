-- ===== src/Api.antt =====
-- The operations that the package offers over the modelled modules of src/famepy, in any
-- order: every operation holds the process lock, so what several threads do is one sequence.
pub mod Operations
pub mod OneShot
pub mod Fork
pub mod Clients
use famepy.Prelude.{ℕ, Bytes, Bool, false, ℤ, pos, Option, none, List, [], ◌∷◌, ltb, if◌then◌else◌}
use famepy.Errors.{Result}
use famepy.Native.{Native}
use famepy.Api.Operations.{Op}
use famepy.World.{World, Session, Handle, State, created, AccessMode, readonly}
use famepy.World.{put_session}
use famepy.Exec.{Exec}
use famepy.Text.{Text}
use famepy.Constants.{CodeArg}
use famepy.Runtime
use famepy.Runtime.{new_session, fresh_session, load, version, enable_extended_errors, after_fork}
use famepy.Runtime.Lifecycle.{initialize, finalize}
use famepy.Runtime.Process.{default_session, init_chli, close_chli}
use famepy.Objects.{quick_info}
use famepy.Wildcard.{listdb}
use famepy.Command.{fame}
use famepy.Data.Reading.{do_read}
use famepy.Data.Writing.{do_write, delete_object}
use famepy.Database.{opendb, workdb, postdb, closedb}

-- The state in which a process starts; the object stores hold objects that no name reaches yet.
abbrev pub boot : ℕ → Option Bytes → World
boot pid environ = record {
  pid = pid;
  inherited = false;
  loaded_native = false;
  owner = none;
  default_session = none;
  environ = environ;
  sessions = λ _. fresh_session pid false false none none;
  next_session = 0;
  handles = λ _. record {
    session = 0;
    key = pos 0;
    mode = readonly;
    is_work = false;
    generation = 0;
    is_open = false;
  };
  next_handle = 0;
  calls = [];
  loads = 0;
}

-- what an action leaves behind, whether it returns or raises
abbrev after : {A : Type 0} → Exec A → World → World
after m w = (m w).1

-- An operation of a session needs that session to exist.
abbrev with_session : ℕ → World → World → World
with_session sid w w' = if ltb sid w.next_session then w' else w

module _ (native : Native) where
  pub step : Op → World → World
  step (Op.new_session candidate injected environ require) w =
      after (new_session candidate injected environ require) w
  step (Op.load sid) w = with_session sid w (after (load native sid) w)
  step (Op.initialize sid) w = with_session sid w (after (initialize native sid) w)
  step (Op.finalize sid) w = with_session sid w (after (finalize native sid) w)
  step (Op.version sid) w = with_session sid w (after (version native sid) w)
  step (Op.enable_extended_errors sid) w = with_session sid w (after (enable_extended_errors sid) w)
  step (Op.default_session chosen discovery) w = after (default_session chosen discovery) w
  step (Op.init_chli chosen discovery) w = after (init_chli native chosen discovery) w
  step Op.close_chli w = after (close_chli native) w
  step (Op.opendb dbname mode given) w = after (opendb native dbname mode given) w
  step (Op.workdb given) w = after (workdb native given) w
  step (Op.postdb hid) w = after (postdb native hid) w
  step (Op.closedb hid) w = after (closedb native hid) w
  step (Op.quick_info hid name) w = after (quick_info native hid name) w
  step (Op.listdb fuel hid wildcard alias cs ts fs capacity) w =
      after (listdb native fuel hid wildcard alias cs ts fs capacity) w
  step (Op.fame files output text given quiet includes) w =
      after (fame native files output text given quiet includes) w
  step (Op.do_read numpy hid obj) w = after (do_read native numpy hid obj) w
  step (Op.do_write numpy hid obj replace basis observed) w =
      after (do_write native numpy hid obj replace basis observed) w
  step (Op.delete_object hid name missing_ok) w = after (delete_object native hid name missing_ok) w
  step (Op.fork pid) w = after_fork pid w

  pub run : List Op → World → World
  run [] w = w
  run (op ∷ ops) w = run ops (step op w)
