-- ===== src/Runtime/Process.antt =====
-- The module functions of src/famepy/_runtime.py, which act on the process's sessions: the default
-- session, `init_chli`, `current_session`, `close_chli`, `version` and `reset`.
use famepy.Prelude.{ℕ, Bool, true, false, not, Option, none, some, ◌==◌, if◌then◌else◌}
use famepy.Errors.{Result, runtime_state, unsupported_operation}
use famepy.Native.{Native}
use famepy.World.{World, is_terminal, is_initialized}
use famepy.Exec.{Exec, pure, raise, lift, gets, modify, skip, raise_if, ◌>>=◌, ◌>>◌}
use famepy.Runtime.{check_not_inherited, new_session, version}
use famepy.Runtime.Lifecycle.{initialize, finalize}

-- `_OWNER is not None and _OWNER.is_terminal`
abbrev pub owner_terminal : World → Bool
owner_terminal w = elim w.owner [ none ↦ false | some o ↦ is_terminal (w.sessions o).state ]

-- `_check_process_unused`
unfoldable pub check_process_unused : Exec Unit
check_process_unused = do used ← gets owner_terminal; raise_if used runtime_state

-- `_DEFAULT = Session(discover(library, root=root))`
unfoldable pub make_default : Result (Unit {0}) → Exec ℕ
make_default discovery = do
  lift discovery
  sid ← new_session true false none none
  modify (λ w. record w { default_session = some sid })
  pure sid

-- a fixed library may not be chosen again
unfoldable pub replace_default : Bool → Result (Unit {0}) → ℕ → Exec ℕ
replace_default chosen discovery d = do
  s ← gets (λ w. w.sessions d)
  if not chosen then pure d else do raise_if s.native runtime_state; make_default discovery

-- the default session of this process, kept or replaced, or a new one
unfoldable pub keep_or_make : World → Bool → Result (Unit {0}) → Option ℕ → Exec ℕ
keep_or_make w chosen discovery none = check_process_unused >>= λ _. make_default discovery
keep_or_make w chosen discovery (some d) =
    if (w.sessions d).pid == w.pid
    then replace_default chosen discovery d
    else (check_process_unused >>= λ _. make_default discovery)

-- `default_session`: `chosen` says whether a library or a root was given, and `discovery` is what
-- `discover` answers.
unfoldable pub default_session : Bool → Result (Unit {0}) → Exec ℕ
default_session chosen discovery = do
  check_not_inherited
  if chosen then check_process_unused else skip
  w ← gets (λ w. w)
  keep_or_make w chosen discovery w.default_session

-- `_OWNER is not None and (_DEFAULT is None or _OWNER is not _DEFAULT)`
abbrev pub other_owner : World → Bool
other_owner w = elim w.owner [
  | none ↦ false
  | some o ↦ elim w.default_session [ none ↦ true | some d ↦ not (o == d) ]
]

-- `_DEFAULT is not None and _DEFAULT.state == "initialized"`
abbrev pub active_default : World → Option ℕ
active_default w = elim w.default_session [
  | none ↦ none
  | some d ↦ if is_initialized (w.sessions d).state then some d else none
]

-- the owner, unless it is used up
unfoldable pub usable_owner : Option ℕ → Exec ℕ
usable_owner none = raise runtime_state
usable_owner (some o) = check_process_unused >>= λ _. pure o

-- `current_session`
unfoldable pub current_session : Exec ℕ
current_session = do check_not_inherited; w ← gets (λ w. w); usable_owner w.owner

-- `reset`, of a session and of the module
unfoldable pub reset : Exec ℕ
reset = raise unsupported_operation

module _ (native : Native) where
  -- the initialized default session, or the default session initialized
  unfoldable pub active_or_start : Bool → Result (Unit {0}) → Option ℕ → Exec ℕ
  active_or_start chosen discovery (some d) = raise_if chosen runtime_state >>= λ _. pure d
  active_or_start chosen discovery none = do
    d ← default_session chosen discovery
    initialize native d
    pure d

  -- `init_chli`
  unfoldable pub init_chli : Bool → Result (Unit {0}) → Exec ℕ
  init_chli chosen discovery = do
    check_not_inherited
    check_process_unused
    w ← gets (λ w. w)
    raise_if (other_owner w) runtime_state
    active_or_start chosen discovery (active_default w)

  -- the owner's `finalize`, if there is an owner
  unfoldable pub finalize_owner : Option ℕ → Exec Unit
  finalize_owner none = skip
  finalize_owner (some o) = finalize native o

  -- `close_chli`
  unfoldable pub close_chli : Exec Unit
  close_chli = do owner ← gets (λ w. w.owner); finalize_owner owner

  -- the module's `version`
  unfoldable pub process_version : Exec ℕ
  process_version = do o ← current_session; version native o
