-- ===== src/Runtime/Lifecycle.antt =====
-- The lifecycle of `Session` in src/famepy/_runtime.py: `initialize`, `_teardown` and `finalize`.
use famepy.Prelude.{
  ℕ, Bytes, ℤ, pos, Bool, true, false, not, ◌&&◌, Option, none, some, List, [], ◌∷◌, ◌++◌, ◌==◌,
  if◌then◌else◌,
}
use famepy.Errors.{Error, runtime_state, licensing}
use famepy.Native.{Native, Sentinels, cfmini, cfmfin, read_globals, cfmcldb}
use famepy.World.{initialized, failed, broken, finalized, is_terminal, is_initialized, put_handle}
use famepy.Exec.{
  Exec, pure, raise, lift, gets, modify, catch, skip, raise_if, call, call_status, ◌>>=◌, ◌>>◌,
}
use famepy.Runtime.{session, update, int32, hli_of, check_process, load}

-- `_OWNER is not None and _OWNER is not self`
abbrev pub owned_by_other : ℕ → Option ℕ → Bool
owned_by_other sid none = false
owned_by_other sid (some o) = not (o == sid)

-- `not environ.get("FAME")`, in the session's environment or the process's
abbrev pub unlicensed : Option (Option Bytes) → Option Bytes → Bool
unlicensed none none = true
unlicensed none (some v) = elim v [ [] ↦ true | _ ∷ _ ↦ false ]
unlicensed (some none) _ = true
unlicensed (some (some v)) _ = elim v [ [] ↦ true | _ ∷ _ ↦ false ]

-- `FameDatabase._invalidate`
unfoldable pub invalidate : ℕ → Exec Unit
invalidate hid = modify (λ w. put_handle hid (record (w.handles hid) { is_open = false }) w)

unfoldable pub check_licensing : ℕ → Exec Unit
check_licensing sid = do
  s ← session sid
  environ ← gets (λ w. w.environ)
  raise_if (s.require_licensing && unlicensed s.environ environ) licensing

module _ (native : Native) where
  -- `native.sentinels()`: a read of globals, which has no status
  unfoldable pub read_sentinels : Exec Sentinels
  read_sentinels = do r ← call_status native read_globals; pure r.1

  -- `native.close_database`
  unfoldable pub close_database : ℤ → Exec Unit
  close_database key = do k ← lift (int32 key); call native (cfmcldb k)

  -- what the handler of a failed `cfmfin` records
  unfoldable pub record_status : ℕ → Error → Exec Unit
  record_status sid e = elim (hli_of e) [
    | none ↦ skip
    | some h ↦ update sid (λ s. record s { finalize_status = some h.status })
  ]

  unfoldable pub mark_finalized : ℕ → Exec Unit
  mark_finalized sid =
      update sid (λ s. record s { finalize_status = some (pos 0); state = finalized })

  -- `_teardown`
  unfoldable pub teardown : ℕ → Exec Unit
  teardown sid = do
    update sid (λ s. record s { sentinels = none; state = broken })
    catch (call native cfmfin >> mark_finalized sid) (record_status sid)

  -- The part of `initialize` that uses up the process's one initialization.
  unfoldable pub claim : ℕ → Exec Unit
  claim sid = do
    modify (λ w. record w { owner = some sid })
    update sid (λ s. record s { state = failed })
    call native cfmini
    update sid (λ s. record s { generation = 1; state = initialized })
    values ← catch read_sentinels (λ e. teardown sid >> raise e)
    update sid (λ s. record s { sentinels = some values })

  -- `initialize`, from the point where the session is neither active nor used up
  unfoldable pub start : ℕ → Exec Unit
  start sid = do
    owner ← gets (λ w. w.owner)
    raise_if (owned_by_other sid owner) runtime_state
    load native sid
    check_licensing sid
    claim sid

  -- `initialize`
  unfoldable pub initialize : ℕ → Exec Unit
  initialize sid = do
    check_process sid
    s ← session sid
    if is_initialized s.state
        then skip
        else do raise_if (is_terminal s.state) runtime_state; start sid

  -- the handler of a failed close in `finalize`: only a status is kept
  unfoldable pub close_failed : Error → Exec (List ℤ)
  close_failed e = elim (hli_of e) [ none ↦ raise e | some h ↦ pure (h.status ∷ []) ]

  -- the loop over the tracked databases in `finalize`
  unfoldable pub close_all : List (ℤ × ℕ) → Exec (List ℤ)
  close_all [] = pure []
  close_all ((key, hid) ∷ rest) = do
    h ← gets (λ w. w.handles hid)
    statuses ← catch (close_database h.key >> pure []) close_failed
    invalidate hid
    others ← close_all rest
    pure (statuses ++ others)

  -- `finalize` of an initialized session
  unfoldable pub shut_down : ℕ → Exec Unit
  shut_down sid = do
    s ← session sid
    statuses ← close_all s.databases
    update sid (λ s. record s {
      databases = [];
      work = none;
      last_cleanup_statuses = statuses;
      version = none;
      sentinels = none;
      state = broken;
    })
    catch (call native cfmfin) (λ e. record_status sid e >> raise e)
    mark_finalized sid

  -- `finalize`
  unfoldable pub finalize : ℕ → Exec Unit
  finalize sid = do
    check_process sid
    s ← session sid
    if is_initialized s.state then shut_down sid else skip
