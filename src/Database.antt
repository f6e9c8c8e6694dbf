-- ===== src/Database.antt =====
-- src/famepy/_database.py: the handles of the open databases, which the session tracks by key.
pub mod Steady
pub mod Opening
pub mod Closing
pub mod Working
use famepy.Prelude.{
  ℕ, ◌+◌, Bytes, ℤ, ◌==ℤ◌, Bool, true, false, not, ◌&&◌, ◌||◌, Option, none, some, List, [], ◌∷◌,
  ◌==◌, contains_byte, if◌then◌else◌,
}
use famepy.Errors.{stale_handle, unsupported_operation, data_validation, value_error}
use famepy.Native.{Native, cfmopwk, cfmopdb, cfmpodb}
use famepy.World.{World, Handle, AccessMode, is_terminal, put_handle}
use famepy.Exec.{Exec, pure, lift, gets, modify, skip, raise_if, call, ◌>>=◌, ◌>>◌}
use famepy.Runtime.{session, update, int32, operation}
use famepy.Runtime.Lifecycle.{invalidate, close_database}
use famepy.Runtime.Process.{current_session}
use famepy.Constants.{CodeArg, mode_code, is_local, access_mode}
use famepy.Text.{Text, str, bytes, to_native, is_blank}

-- `d[key] = value` of a dictionary by keys
unfoldable pub dict_set : ℤ → ℕ → List (ℤ × ℕ) → List (ℤ × ℕ)
dict_set k v [] = (k, v) ∷ []
dict_set k v ((j, u) ∷ d) = if j ==ℤ k then (j, v) ∷ d else (j, u) ∷ dict_set k v d

-- `d.pop(key, None)`
unfoldable pub dict_pop : ℤ → List (ℤ × ℕ) → List (ℤ × ℕ)
dict_pop k [] = []
dict_pop k ((j, u) ∷ d) = if j ==ℤ k then d else (j, u) ∷ dict_pop k d

-- `owner._work is database`
abbrev pub is_handle : ℕ → Option ℕ → Bool
is_handle hid none = false
is_handle hid (some h) = h == hid

-- `Session._register`
unfoldable pub register : ℕ → ℕ → ℤ → Exec Unit
register sid hid key = update sid (λ s. record s { databases = dict_set key hid s.databases })

-- `Session._unregister`
unfoldable pub unregister : ℕ → ℕ → ℤ → Exec Unit
unregister sid hid key = update sid (λ s. record s {
  databases = dict_pop key s.databases;
  work = if is_handle hid s.work then none else s.work;
})

-- a new handle object
unfoldable pub add_handle : ℕ → Handle → Exec Unit
add_handle hid h = modify (λ w. record (put_handle hid h w) { next_handle = hid + 1 })

-- `FameDatabase.__init__`
unfoldable pub new_database : ℕ → ℤ → AccessMode → Bool → Exec ℕ
new_database sid key mode is_work = do
  s ← session sid
  hid ← gets (λ w. w.next_handle)
  add_handle hid (record {
    session = sid;
    key = key;
    mode = mode;
    is_work = is_work;
    generation = s.generation;
    is_open = true;
  })
  register sid hid key
  pure hid

-- the `is_open` property
abbrev pub handle_open : World → ℕ → Bool
handle_open w hid =
    let h = w.handles hid in
    h.is_open
    && h.generation == (w.sessions h.session).generation
    && not (is_terminal (w.sessions h.session).state)

-- `self._generation != self._session.generation or self._session.is_terminal`
abbrev pub handle_stale : World → ℕ → Bool
handle_stale w hid =
    let h = w.handles hid in
    not (h.generation == (w.sessions h.session).generation)
    || is_terminal (w.sessions h.session).state

-- `_check_open`, giving the handle
unfoldable pub check_open : ℕ → Exec Handle
check_open hid = do
  w ← gets (λ w. w)
  raise_if (handle_stale w hid) stale_handle
  raise_if (not (w.handles hid).is_open) stale_handle
  pure (w.handles hid)

-- `current_session() if session is None else session`
unfoldable pub session_or_current : Option ℕ → Exec ℕ
session_or_current none = current_session
session_or_current (some s) = pure s

-- `isinstance(dbname, str) and not dbname.strip()`
abbrev pub blank_name : Text → Bool
blank_name (str cs) = is_blank cs
blank_name (bytes _) = false

-- the arguments of `opendb` that are checked before any session is looked at
unfoldable pub open_arguments : Text → CodeArg → Exec (Bytes × AccessMode)
open_arguments dbname mode = do
  raise_if (blank_name dbname) value_error
  text ← lift (to_native dbname)
  selected ← lift (access_mode mode)
  raise_if (not (is_local selected)) unsupported_operation
  pure (text, selected)

module _ (native : Native) where
  -- the `with db.operation(action)` block
  unfoldable pub db_operation : {A : Type 0} → ℕ → (ℤ → Exec A) → Exec A
  db_operation hid body = do h ← check_open hid; operation native h.session (body h.key)

  -- `native.open_database`
  unfoldable pub open_database : Bytes → ℤ → Exec ℤ
  open_database text mode = do
    raise_if (contains_byte 0 text) data_validation
    m ← lift (int32 mode)
    call native (cfmopdb text m)

  -- `opendb`
  unfoldable pub opendb : Text → CodeArg → Option ℕ → Exec ℕ
  opendb dbname mode given = do
    args ← open_arguments dbname mode
    owner ← session_or_current given
    operation native owner
        do key ← open_database args.0 (mode_code args.1); new_database owner key args.1 false

  -- the work database that is open, or none
  abbrev open_work : World → Option ℕ → Option ℕ
  open_work w none = none
  open_work w (some h) = if handle_open w h then some h else none

  -- the open work database, or a new one
  unfoldable pub work_or_open : ℕ → Option ℕ → Exec ℕ
  work_or_open owner (some h) = pure h
  work_or_open owner none = do
    key ← call native cfmopwk
    hid ← new_database owner key AccessMode.update true
    update owner (λ s. record s { work = some hid })
    pure hid

  -- `workdb`
  unfoldable pub workdb : Option ℕ → Exec ℕ
  workdb given = do
    owner ← session_or_current given
    operation native owner
        do w ← gets (λ w. w); work_or_open owner (open_work w (w.sessions owner).work)

  -- `postdb`
  unfoldable pub postdb : ℕ → Exec Unit
  postdb hid = db_operation hid λ key. do k ← lift (int32 key); call native (cfmpodb k)

  -- the handle is marked closed and forgotten
  unfoldable pub forget : ℕ → Handle → Exec Unit
  forget hid h = do invalidate hid; unregister h.session hid h.key

  -- The branches of `closedb`, by `db._open` and by whether the runtime of the handle is gone. A
  -- native close that fails raises before the handle is marked.
  unfoldable pub close_handle : ℕ → Handle → Bool → Bool → Exec Unit
  close_handle hid h false stale = skip
  close_handle hid h true true = forget hid h
  close_handle hid h true false = do
    operation native h.session (close_database native h.key)
    forget hid h

  -- `closedb`
  unfoldable pub closedb : ℕ → Exec Unit
  closedb hid = do
    w ← gets (λ w. w)
    close_handle hid (w.handles hid) (w.handles hid).is_open (handle_stale w hid)
