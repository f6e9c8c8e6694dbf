-- ===== src/Tests/Sessions.antt =====
-- The theorems of the session and of the databases at concrete inputs.
use famepy.Text.{normalized, strip, strip_start}
use famepy.Prelude.{
  inl, ◌↔◌, pos, ◌≡◌, ◌≤◌, refl, inl, true, false, none, some, List, [], ◌∷◌, codes, length,
  contains_byte,
}
use famepy.Errors.{Error, ok, err, check_status, hli_status}
use famepy.Native.{cfmopdb, cfmcldb}
use famepy.World.{AccessMode}
use famepy.Exec.{pure}
use famepy.Text.{Text, str, to_native, is_ascii, no_nul, object_name, name_capacity, is_blank}
use famepy.Text.Names.{object_name-bounds}
use famepy.Constants.{CodeArg, number, has_code, lookup, mode_of, access_mode}
use famepy.Constants.Codes.{access_mode_iff}
use famepy.Runtime.{fresh_session, after_fork, operation, int32}
use famepy.Runtime.Returns.{called}
use famepy.Database.{opendb, closedb, handle_open, db_operation}
use famepy.Database.{workdb}
use famepy.Database.Working.{worked, workdb-once, opendb-refused}
use famepy.Database.Opening.{opened, opendb-opened}
use famepy.Database.Closing.{
  closed, closedb-closed, closedb-stale, closedb_failed-open, db_operation-is_open, Tracked,
}
use famepy.Api.{boot, run}
use famepy.Wildcard.Filters.{Words, Frequencies}
use famepy.Api.Operations.{Op}
use famepy.Api.OneShot.{OneShot, run-OneShot}
use famepy.Api.Fork.{fork_makes_no_call}
use famepy.Runtime.Answers.{Answers}
use famepy.Runtime.Still.{process_gate}
use famepy.Runtime.Closing.{KeysFit, FinishedAs}
use famepy.Runtime.Closing.Ending.{finalize-Finished}
use famepy.Runtime.Lifecycle.{finalize}
use famepy.Tests.Samples.{reply_of, willing, failing, live, with_handle}

abbrev program : List Op
program =
    Op.new_session true false none (some false)
    ∷ Op.initialize 0
    ∷ Op.workdb (some 0)
    ∷ Op.version 0
    ∷ Op.listdb 5 0 (str (codes "?")) true Words.absent Words.absent Frequencies.absent (pos 242)
    ∷ Op.finalize 0
    ∷ Op.initialize 0
    ∷ []

run-OneShot_example : OneShot (run willing program (boot 1 none)).calls
run-OneShot_example = run-OneShot willing program 1 none

fork_makes_no_call_example : (run willing program (after_fork 2 live)).calls ≡ live.calls
fork_makes_no_call_example = fork_makes_no_call willing program 2 live (inl refl)

abbrev path : Text
path = str (codes "a.db")

path-native : to_native path ≡ ok (codes "a.db")
unfolding to_native is_ascii no_nul
path-native = refl

abbrev readonly' : CodeArg
readonly' = number (pos 1)

readonly-mode : access_mode readonly' ≡ ok AccessMode.readonly
unfolding access_mode lookup has_code mode_of
readonly-mode = refl

path-not_blank : is_blank (codes "a.db") ≡ false
unfolding is_blank
path-not_blank = refl

opendb-opened_example :
    let w' =
      opened 0 (pos 3) AccessMode.readonly false (called (cfmopdb (codes "a.db") (pos 1)) live) in
    (opendb willing path readonly' (some 0) live ≡ (ok 0, w')) × (handle_open w' 0 ≡ true)
unfolding fresh_session
opendb-opened_example =
    opendb-opened willing path readonly' 0 live (codes "a.db") AccessMode.readonly (pos 3)
      path-not_blank path-native readonly-mode refl refl refl

key-int32 : int32 (pos 3) ≡ ok (pos 3)
unfolding int32
key-int32 = refl

db_operation-is_open_example :
    db_operation willing 0 pure with_handle ≡ operation willing 0 (pure (pos 3)) with_handle
db_operation-is_open_example = db_operation-is_open willing 0 pure with_handle

closedb-closed_example :
    let w' = closed 0 (called (cfmcldb (pos 3)) with_handle) in
    (closedb willing 0 with_handle ≡ (ok tt, w'))
    × (handle_open w' 0 ≡ false)
    × (closedb willing 0 w' ≡ (ok tt, w'))
unfolding fresh_session
closedb-closed_example = closedb-closed willing 0 with_handle refl refl key-int32 refl

closedb-stale_example : closedb willing 0 live ≡ (ok tt, live)
closedb-stale_example = closedb-stale willing 0 live refl

failing-status : check_status (pos 20) ≡ err (hli_status (pos 20))
unfolding check_status
failing-status = refl

closedb_failed-open_example :
    let (r, w') = closedb failing 0 with_handle in
    ((e : Error) × (r ≡ err e)) × Tracked with_handle w' × (handle_open w' 0 ≡ true)
unfolding fresh_session
closedb_failed-open_example =
    closedb_failed-open failing 0 with_handle (pos 20) (hli_status (pos 20)) refl refl key-int32
      refl failing-status

gdp-name : object_name (str (codes "GDP")) ≡ ok (codes "GDP")
unfolding object_name to_native is_ascii no_nul
gdp-name = refl

object_name-bounds_example :
    (codes "GDP" ≡ codes "GDP")
    × (1 ≤ length (codes "GDP"))
    × (length (codes "GDP") ≤ name_capacity)
    × (contains_byte 0 (codes "GDP") ≡ false)
object_name-bounds_example = object_name-bounds (str (codes "GDP")) (codes "GDP") gdp-name

server_words : normalized (codes " Direct-Write ") ≡ codes "direct_write"
unfolding normalized strip strip_start is_blank
server_words = refl

access_mode_iff_example :
    (access_mode (CodeArg.name (codes " Direct-Write ")) ≡ ok AccessMode.direct_write)
    ↔ (normalized (codes " Direct-Write ") ≡ codes "direct_write")
access_mode_iff_example =
    access_mode_iff (CodeArg.name (codes " Direct-Write ")) AccessMode.direct_write

willing-Answers : Answers willing
willing-Answers = record { status = λ cs c. (pos 0, reply_of c, refl, refl) }

with_handle-gate : process_gate 0 with_handle ≡ ok tt
unfolding fresh_session
with_handle-gate = refl

with_handle-KeysFit : KeysFit with_handle
unfolding int32
with_handle-KeysFit h = refl

finalize-Finished_example : FinishedAs 0 with_handle (finalize willing 0 with_handle)
finalize-Finished_example =
    finalize-Finished willing willing-Answers 0 with_handle with_handle-gate refl
      with_handle-KeysFit

workdb-once_example :
    (workdb willing (some 0) live ≡ (ok 0, worked willing 0 (pos 7) live))
    × (workdb willing (some 0) (worked willing 0 (pos 7) live)
        ≡ (ok 0, worked willing 0 (pos 7) live))
unfolding fresh_session
workdb-once_example = workdb-once willing 0 (pos 7) live refl refl refl

abbrev server_mode : CodeArg
server_mode = number (pos 6)

server_mode-write : access_mode server_mode ≡ ok AccessMode.write
unfolding access_mode lookup has_code mode_of
server_mode-write = refl

opendb-refused_example : (e : Error) × (opendb willing path server_mode none live ≡ (err e, live))
opendb-refused_example =
    opendb-refused willing path server_mode none live AccessMode.write server_mode-write (inl refl)
