-- ===== src/Lib.antt =====
-- FAMEPy: a Python binding of the FAME database library, in src/famepy.
--
-- A process loads the library once, initializes it once and finalizes it once. A `Session` holds
-- that runtime, `FameDatabase` handles are open databases of a session, and every operation runs
-- under one process lock. The foreign library is no part of the repository: `Native` is any answer
-- to any call after any history of calls, and every theorem holds for all of them or names what it
-- asks of the library.
--
-- Which file models which part:
-- - Errors: src/famepy/_errors.py, the exception classes as one data type, `check_status`.
-- - Native: the calls that src/famepy/_native.py makes, with their arguments and replies.
-- - World: the module globals, the `Session` and `FameDatabase` objects by allocation number, and
--   the calls made so far, newest first.
-- - Exec: a method as an action on the world; what was written before a raise stays written.
-- - Runtime, with Lifecycle and Process: src/famepy/_runtime.py, `Session` and the module functions
--   (`load`, `initialize`, `finalize`, `operation`, `default_session`, `init_chli`, `close_chli`).
-- - Text, with Values and Values/Utf8: src/famepy/_text.py. Constants: src/famepy/_constants.py.
-- - Database: src/famepy/_database.py, `opendb`, `workdb`, `postdb`, `closedb` and the checks.
-- - Objects: the metadata of src/famepy/_objects.py.
-- - Wildcard, with Filters: src/famepy/_wildcard.py, `listdb`.
-- - Data: the kinds, values and buffers of src/famepy/_data.py. Data/Carriers: `RawScalar`, `RawSeries`
--   and `FameRange`. Data/Namelist: `namelist_members`. Data/Sentinels: the classification. Data/Buffers,
--   Data/Reading and Data/Writing: `do_read`, `do_write`, `delete_object` and the native calls. What
--   NumPy computes is the parameter `Numpy`.
-- - Command, with Include: src/famepy/_command.py, `fame` and the expansion of INPUT. The file
--   system is a parameter, `Files`, and so is the temporary output file, `Output`.
-- - Bridge/Naming, Bridge/Resolving, Bridge/Workspaces, Bridge/Flattening and Bridge/Writes: the parts
--   of src/famepy/bridge/_workspace.py that name, resolve and read the objects of a workspace, that
--   flatten a workspace to names, and that write it (`readfame`, `writefame` and their reports). The
--   conversions `unfame`, `to_fame` and `validate_value` of a value are parameters.
-- - Bridge/Frequencies: the frequency maps of src/famepy/bridge/_frequencies.py. A frequency of the
--   tsecon package is its class and its ending, which is all that the source looks at.
-- - Api: sequences of these operations, which is what the threads of a process do under the lock.
-- - Tests: runs on concrete inputs.
-- The other modules below a part hold its proofs: Steady, Gate, Still, Hoare and Keeps are rules
-- that carry a condition through an action, Returns computes an action whose parts are known, and
-- Answers is a library none of whose calls is cut short.
--
-- An integer is a `pos` or a `negsuc` over the native numbers, and its bounds are tested where the
-- source tests them. A float is its bit pattern. The cursor loop of `listdb` takes fuel, one round
-- each; a theorem gives the fuel that is enough for a library whose listing ends. The expansion of
-- INPUT recurs on the depth that is left, which the source bounds too.
--
-- Not modelled: the text of messages, `repr`, type checks of arguments that the types rule out,
-- ctypes buffers, the Windows directories of the loader, custom retrievals of extended errors; of the
-- bridge the conversion of values, periods and indices, the check of the policies, containers that contain themselves, and prefixes, glues and names of a collect
-- specification that are not ASCII, whose upper case is not the one of the model; and the components
-- of src/famepy for the migration, the discovery, the validation campaign and the benchmarks.
pub mod Prelude
pub mod Errors
pub mod Native
pub mod World
pub mod Exec
pub mod Runtime
pub mod Text
pub mod Constants
pub mod Database
pub mod Api
pub mod Objects
pub mod Wildcard
pub mod Data
pub mod Bridge
pub mod Command
pub mod Tests
