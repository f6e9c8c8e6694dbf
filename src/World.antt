-- ===== src/World.antt =====
-- The state of a process that uses src/famepy/_runtime.py and src/famepy/_database.py: the module
-- globals, the `Session` and `FameDatabase` objects by their allocation number, and the native
-- calls that the process has made.
use famepy.Prelude.{ℕ, Bytes, ℤ, Bool, true, false, Option, List, ◌==◌, if◌then◌else◌}
use famepy.Errors.{Error}
use famepy.Native.{Sentinels, Call}

pub data State : Type 0 where
  created loaded initialized failed broken finalized : State

-- `TERMINAL_STATES`
abbrev pub is_terminal : State → Bool
is_terminal finalized = true
is_terminal broken = true
is_terminal failed = true
is_terminal _ = false

abbrev pub is_initialized : State → Bool
is_initialized initialized = true
is_initialized _ = false

-- `Runtime`: the process that made it, and whether `_library` is set.
pub record Runtime : Type 0 where
  pub pid : ℕ
  pub library : Bool

-- `Session`. `native` says whether `_native` is set; `retrieval` whether the declared extended
-- error retrieval is configured; `environ` is the `FAME` entry of an explicit environment.
pub record Session : Type 0 where
  pub runtime : Option Runtime
  pub native : Bool
  pub environ : Option (Option Bytes)
  pub require_licensing : Bool
  pub pid : ℕ
  pub state : State
  pub generation : ℕ
  pub sentinels : Option Sentinels
  pub databases : List (ℤ × ℕ)
  pub work : Option ℕ
  pub version : Option ℕ
  pub last_extended_error : Option Bytes
  pub retrieval : Bool
  pub capture_failure : Option Error
  pub last_cleanup_statuses : List ℤ
  pub finalize_status : Option ℤ

-- The seven access modes.
pub data AccessMode : Type 0 where
  readonly create overwrite update shared write direct_write : AccessMode

-- `FameDatabase`
pub record Handle : Type 0 where
  pub session : ℕ
  pub key : ℤ
  pub mode : AccessMode
  pub is_work : Bool
  pub generation : ℕ
  pub is_open : Bool

-- `sessions` and `handles` are the objects by allocation number; `calls` has the newest call
-- first; `environ` is the `FAME` entry of `os.environ`; `loads` counts the attempts to load the
-- library.
pub record World : Type 0 where
  pub pid : ℕ
  pub inherited : Bool
  pub loaded_native : Bool
  pub owner : Option ℕ
  pub default_session : Option ℕ
  pub environ : Option Bytes
  pub sessions : ℕ → Session
  pub next_session : ℕ
  pub handles : ℕ → Handle
  pub next_handle : ℕ
  pub calls : List Call
  pub loads : ℕ

abbrev pub set_at {ℓ} : {A : Type ℓ} → (ℕ → A) → ℕ → A → ℕ → A
set_at f i a j = if i == j then a else f j

abbrev pub put_session : ℕ → Session → World → World
put_session sid s w = record w { sessions = set_at w.sessions sid s }

abbrev pub put_handle : ℕ → Handle → World → World
put_handle hid h w = record w { handles = set_at w.handles hid h }
