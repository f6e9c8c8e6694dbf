-- ===== src/Database/Working.antt =====
-- `workdb` opens the work database once, and `opendb` refuses the modes of a server connection.
use famepy.Prelude.{
  ℕ, ℤ, pos, ◌≡◌, ◌⊎◌, inl, inr, refl, ◌∙◌, ap, ◌==◌, ==_iff, Bool, true, false, Option, none, some,
  Bytes,
}
use famepy.Errors.{Error, Result, ok, err, value_error, unsupported_operation}
use famepy.Native.{Native, cfmopwk, returned}
use famepy.World.{World, AccessMode, put_session}
use famepy.Exec.{actions, pure, gets, modify, call, ◌>>=◌}
use famepy.Text.{Text, to_native}
use famepy.Constants.{CodeArg, access_mode, is_local}
use famepy.Runtime.{update}
use famepy.Runtime.Gate.{gate, gate-IsLive}
use famepy.Runtime.Returns.{called, bind-ok, bind-err, call-ok, operation-ok}
use famepy.Database.{
  handle_open, session_or_current, blank_name, open_arguments, opendb, open_work, work_or_open,
  workdb, new_database,
}
use famepy.Database.Opening.{opened, new_database_lem}

module _ (native : Native) (sid : ℕ) where
  workdb_lem :
      (w v : World) (h : ℕ)
      → gate sid w ≡ none
      → work_or_open native sid (open_work native w (w.sessions sid).work) w ≡ (ok h, v)
      → workdb native (some sid) w ≡ (ok h, v)
  unfolding workdb session_or_current
  workdb_lem w v h g e =
      bind-ok (pure sid) _ {w' = w} {a = sid} (unfold pure in refl)
      ∙ operation-ok native sid _ g
          (bind-ok (gets (λ u. u)) _ {w' = w} {a = w} (unfold gets in refl) ∙ e)

  -- While the session's work database is open, `workdb` gives it and does nothing.
  workdb-open :
      (w : World) (h : ℕ)
      → gate sid w ≡ none
      → (w.sessions sid).work ≡ some h
      → handle_open w h ≡ true
      → workdb native (some sid) w ≡ (ok h, w)
  workdb-open w h g e o = workdb_lem w w h g (reuse (w.sessions sid).work e)
    where
      reuse :
          (k : Option ℕ) → k ≡ some h → work_or_open native sid (open_work native w k) w ≡ (ok h, w)
      reuse k q = rw (q, o) (unfold work_or_open pure in refl)

  -- the world in which the work database was opened
  abbrev pub worked : ℤ → World → World
  worked key w =
      let v = opened sid key AccessMode.update true (called cfmopwk w) in
      put_session sid (record (v.sessions sid) { work = some w.next_handle }) v

  open_first :
      (key : ℤ) (w : World)
      → native.respond w.calls cfmopwk ≡ returned (pos 0) key
      → work_or_open native sid none w ≡ (ok w.next_handle, worked key w)
  unfolding work_or_open
  open_first key w r =
      bind-ok (call native cfmopwk) _ (call-ok native cfmopwk w r)
      ∙ bind-ok (new_database sid key AccessMode.update true) _
          (new_database_lem sid key AccessMode.update true (called cfmopwk w))
      ∙ (unfold update modify pure ◌>>=◌ in refl)

  same : (n : ℕ) → (n == n) ≡ true
  same n = (==_iff n n).1 refl

  worked-gate : (key : ℤ) (w : World) → gate sid w ≡ none → gate sid (worked key w) ≡ none
  worked-gate key w g = rw (same sid) g

  worked-open :
      (key : ℤ) (w : World) → gate sid w ≡ none → handle_open (worked key w) w.next_handle ≡ true
  worked-open key w g =
      let live = gate-IsLive sid w g in
      rw (same w.next_handle, same sid, same (w.sessions sid).generation, live.active) refl

  -- Where no work database is open, the session is live and the library opens one, `workdb` makes
  -- that one call and gives a new handle; and a second `workdb` gives the same handle and makes no
  -- call.
  pub workdb-once :
      (key : ℤ) (w : World)
      → gate sid w ≡ none
      → open_work native w (w.sessions sid).work ≡ none
      → native.respond w.calls cfmopwk ≡ returned (pos 0) key
      → (workdb native (some sid) w ≡ (ok w.next_handle, worked key w))
        × (workdb native (some sid) (worked key w) ≡ (ok w.next_handle, worked key w))
  workdb-once key w g n r = (
    workdb_lem w (worked key w) w.next_handle g
        (ap (λ k. work_or_open native sid k w) n ∙ open_first key w r),
    workdb-open (worked key w) w.next_handle (worked-gate key w g) (rw (same sid) refl)
        (worked-open key w g),
  )

open_arguments-refused :
    (dbname : Text) (mode : CodeArg) (w : World) (m : AccessMode) (b : Bool) (t : Result Bytes)
    → access_mode mode ≡ ok m
    → is_local m ≡ false
    → blank_name dbname ≡ b
    → to_native dbname ≡ t
    → (e : Error) × (open_arguments dbname mode w ≡ (err e, w))
unfolding open_arguments actions
open_arguments-refused dbname mode w m true t a l p q = (value_error, rw p refl)
open_arguments-refused dbname mode w m false (err x) a l p q = (x, rw (p, q) refl)
open_arguments-refused dbname mode w m false (ok text) a l p q =
    (unsupported_operation, rw (p, q, a, l) refl)

module _ (native : Native) where
  -- The two modes of a server connection, `write` and `direct_write`, are never opened: `opendb`
  -- raises and changes nothing, whatever the name and the session are.
  pub opendb-refused :
      (dbname : Text) (mode : CodeArg) (given : Option ℕ) (w : World) (m : AccessMode)
      → access_mode mode ≡ ok m
      → (m ≡ AccessMode.write) ⊎ (m ≡ AccessMode.direct_write)
      → (e : Error) × (opendb native dbname mode given w ≡ (err e, w))
  unfolding opendb
  opendb-refused dbname mode given w m a server =
      let (e, q) =
        open_arguments-refused dbname mode w m (blank_name dbname) (to_native dbname) a
          (remote server) refl refl in
      (e, bind-err (open_arguments dbname mode) _ q)
    where
      remote : (m ≡ AccessMode.write) ⊎ (m ≡ AccessMode.direct_write) → is_local m ≡ false
      remote (inl q) = ap is_local q
      remote (inr q) = ap is_local q
