-- ===== src/Runtime.antt =====
-- `Session` of src/famepy/_runtime.py, method by method. A method holds the one process lock for
-- its whole duration, so it is one action; the text of messages is left out.
pub mod Lifecycle
pub mod Process
pub mod Steady
pub mod Gate
pub mod Returns
pub mod Hoare
pub mod Keeps
pub mod Answers
pub mod Closing
pub mod Invariant
pub mod Claim
pub mod Still
pub mod Loading
pub mod OneShot
pub mod Defaults
use famepy.Prelude.{
  ℕ, suc, ◌+◌, ◌^◌, Bytes, ℤ, pos, fits, ltb_ℤ, ◌==ℤ◌, Bool, true, false, not, ◌&&◌, ◌||◌, Option,
  none, some, List, [], ◌∷◌, ◌++◌, ◌==◌, if◌then◌else◌,
}
use famepy.Errors.{
  Error, Hli, Result, ok, err, hli_error, command_error, is_exception, runtime_state,
  inherited_runtime, licensing, unsupported_operation, data_validation, type_error, library_load,
  other,
}
use famepy.Native.{
  Native, Sentinels, cfmini, cfmfin, cfmver, read_globals, cfmlerr, cfmferr, cfmcldb, Outcome,
  returned, raised,
}
use famepy.World.{
  World, Session, Runtime, Handle, State, created, loaded, initialized, failed, broken, finalized,
  is_terminal, is_initialized, set_at, put_session, put_handle,
}
use famepy.Exec.{
  Exec, pure, raise, lift, gets, modify, catch, skip, raise_if, call, call_status, ◌>>=◌, ◌>>◌,
}

-- `self`, and an assignment to its attributes
unfoldable pub session : ℕ → Exec Session
session sid = gets (λ w. w.sessions sid)

unfoldable pub update : ℕ → (Session → Session) → Exec Unit
update sid f = modify (λ w. put_session sid (f (w.sessions sid)) w)

-- `_int32`
unfoldable pub int32 : ℤ → Result ℤ
int32 n = if fits (2 ^ 31) n then ok n else err data_validation

-- `bytes(buffer.value)` of a character buffer
unfoldable pub up_to_nul : Bytes → Bytes
up_to_nul [] = []
up_to_nul (b ∷ bs) = if b == 0 then [] else b ∷ up_to_nul bs

-- `isinstance(error, HLIError)`
abbrev pub hli_of : Error → Option Hli
hli_of (hli_error h) = some h
hli_of (command_error c) = some c.hli
hli_of _ = none

-- the same exception object with its extended text attached
abbrev pub with_text : Option Bytes → Error → Error
with_text t (hli_error h) = hli_error (record h { extended_text = t; extended_captured = true })
with_text t (command_error c) =
    command_error (record c { hli = record c.hli { extended_text = t; extended_captured = true } })
with_text t e = e

-- `_after_fork`: the child of a process that had loaded or used the library is marked.
unfoldable pub after_fork : ℕ → World → World
after_fork pid w =
    let used =
      w.loaded_native
      || elim w.owner [ none ↦ false | some _ ↦ true ]
      || elim w.default_session [ none ↦ false | some d ↦ (w.sessions d).native ] in
    record w { pid = pid; inherited = w.inherited || used }

unfoldable pub check_not_inherited : Exec Unit
check_not_inherited = gets (λ w. w.inherited) >>= λ inherited. raise_if inherited inherited_runtime

unfoldable pub check_process : ℕ → Exec Unit
check_process sid = do
  check_not_inherited
  s ← session sid
  pid ← gets (λ w. w.pid)
  raise_if (not (s.pid == pid)) inherited_runtime

-- The attributes that `Session.__init__` sets.
unfoldable pub fresh_session : ℕ → Bool → Bool → Option (Option Bytes) → Option Bool → Session
fresh_session pid candidate injected environ require = record {
  runtime = if candidate then some (record { pid = pid; library = false }) else none;
  native = injected;
  environ = environ;
  require_licensing = elim require [ none ↦ not injected | some r ↦ r ];
  pid = pid;
  state = if injected then loaded else created;
  generation = 0;
  sentinels = none;
  databases = [];
  work = none;
  version = none;
  last_extended_error = none;
  retrieval = false;
  capture_failure = none;
  last_cleanup_statuses = [];
  finalize_status = none;
}

-- a new session object
unfoldable pub add_session : Session → World → World
add_session s w = record (put_session w.next_session s w) { next_session = w.next_session + 1 }

-- `Session(candidate, native=..., environ=..., require_licensing_environment=...)`
unfoldable pub new_session : Bool → Bool → Option (Option Bytes) → Option Bool → Exec ℕ
new_session candidate injected environ require = do
  raise_if (not candidate && not injected) type_error
  w ← gets (λ w. w)
  modify (add_session (fresh_session w.pid candidate injected environ require))
  pure w.next_session

-- `enable_extended_errors`
unfoldable pub enable_extended_errors : ℕ → Exec Unit
enable_extended_errors sid = update sid (λ s. record s { retrieval = true })

-- `extended_error_text`
unfoldable pub extended_error_text : ℕ → Exec Bytes
extended_error_text sid = do
  s ← session sid
  raise_if (not s.retrieval) unsupported_operation
  elim s.last_extended_error [ none ↦ raise runtime_state | some text ↦ pure text ]

-- the `sentinels` property
unfoldable pub sentinels : ℕ → Exec Sentinels
sentinels sid = do
  s ← session sid
  elim s.sentinels [ none ↦ raise runtime_state | some values ↦ pure values ]

module _ (native : Native) where
  -- the load of the library in `Runtime.load`: an `OSError` is a load error
  unfoldable pub load_library : Exec Unit
  load_library = do
    n ← gets (λ w. w.loads)
    modify (λ w. record w { loads = n + 1 })
    elim (native.cdll n) [
      | returned status _ ↦ if status ==ℤ pos 0 then skip else raise library_load
      | raised e ↦ raise e
    ]

  -- `Runtime.load`
  unfoldable pub load_runtime : ℕ → Runtime → Exec Unit
  load_runtime sid r = do
    pid ← gets (λ w. w.pid)
    raise_if (not (r.pid == pid)) inherited_runtime
    check_not_inherited
    if r.library then skip else do
      load_library
      update sid (λ s. record s { runtime = some (record r { library = true }) })
      modify (λ w. record w { loaded_native = true })

  -- `assert self._runtime is not None`, and the load of the library
  unfoldable pub ensure_loaded : ℕ → Option Runtime → Exec Unit
  ensure_loaded sid none = raise other
  ensure_loaded sid (some r) = load_runtime sid r

  -- `Session.load`; an injected backend is loaded from the start
  unfoldable pub load : ℕ → Exec Unit
  load sid = do
    check_process sid
    s ← session sid
    if s.native then skip else do
      ensure_loaded sid s.runtime
      update sid (λ s. record s { native = true; state = loaded })

  -- `read_extended_error` over `cfmlerr` and `cfmferr`
  unfoldable pub read_extended_error : Exec Bytes
  read_extended_error = do
    length ← call native cfmlerr
    raise_if (ltb_ℤ length (pos 0) || ltb_ℤ (pos (2 ^ 16)) length) data_validation
    buffer ← call native (cfmferr length)
    pure (up_to_nul buffer)

  unfoldable pub capture_failed : ℕ → Error → Exec (Option Bytes)
  capture_failed sid e =
      if is_exception e
      then (do
        update sid (λ s. record s { capture_failure = some e; last_extended_error = none })
        pure none)
      else raise e

  -- `_capture_extended_error`: no `Exception` of the retrieval leaves it
  unfoldable pub capture_extended_error : ℕ → Exec (Option Bytes)
  capture_extended_error sid = do
    s ← session sid
    if not s.retrieval
        then pure none
        else catch
            (do
              text ← read_extended_error
              update sid (λ s. record s { capture_failure = none; last_extended_error = some text })
              pure (some text))
            (capture_failed sid)

  -- the text is captured once for an exception, and only where a retrieval is configured
  unfoldable pub attach_to : ℕ → Session → Error → Option Hli → Exec Error
  attach_to sid s e none = pure e
  attach_to sid s e (some h) =
      if h.extended_captured || not s.retrieval
      then pure e
      else do text ← capture_extended_error sid; pure (with_text text e)

  -- `_attach_extended_error`, giving the exception back
  unfoldable pub attach_extended_error : ℕ → Error → Exec Error
  attach_extended_error sid e = do s ← session sid; attach_to sid s e (hli_of e)

  -- the `with session.operation(name)` block around `body`
  unfoldable pub operation : {A : Type 0} → ℕ → Exec A → Exec A
  operation sid body = do
    check_process sid
    s ← session sid
    raise_if (not (is_initialized s.state && s.native)) runtime_state
    catch body (λ e. attach_extended_error sid e >>= raise)

  -- the cached version, or the library's
  unfoldable pub cached_version : ℕ → Option ℕ → Exec ℕ
  cached_version sid (some v) = pure v
  cached_version sid none = do
    v ← call native cfmver
    update sid (λ s. record s { version = some v })
    pure v

  -- `version`
  unfoldable pub version : ℕ → Exec ℕ
  version sid = operation sid do s ← session sid; cached_version sid s.version
