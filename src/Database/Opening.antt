-- ===== src/Database/Opening.antt =====
-- What `opendb` and `workdb` give, and what they refuse.
use famepy.Prelude.{
  ℕ, ℤ, pos, ◌≡◌, refl, ◌∙◌, subst, Bool, true, false, none, some, List, Bytes, ◌+◌, ◌==◌, ==_iff,
  Bool-cases, inl, inr, contains_byte,
}
use famepy.Errors.{ok, err, check_status, text_encoding}
use famepy.Native.{Native, cfmopdb, returned}
use famepy.World.{World, Handle, AccessMode, put_session, put_handle}
use famepy.Exec.{actions, pure}
use famepy.Text.{Text, str, bytes, to_native, no_nul, is_ascii}
use famepy.Constants.{CodeArg, mode_code, is_local, access_mode}
use famepy.Runtime.{session, update, int32}
use famepy.Runtime.Gate.{gate, gate-IsLive}
use famepy.Runtime.Returns.{bind-ok, called, operation-ok}
use famepy.Database.{
  dict_set, register, add_handle, new_database, handle_open, session_or_current, blank_name,
  open_arguments, open_database, opendb,
}

-- The world after a handle was made and tracked.
abbrev pub opened : ℕ → ℤ → AccessMode → Bool → World → World
opened sid key mode is_work w =
    let h : Handle = record {
      session = sid;
      key = key;
      mode = mode;
      is_work = is_work;
      generation = (w.sessions sid).generation;
      is_open = true;
    } in
    let s = w.sessions sid in
    put_session sid (record s { databases = dict_set key w.next_handle s.databases })
      (record (put_handle w.next_handle h w) { next_handle = w.next_handle + 1 })

pub new_database_lem :
    (sid : ℕ) (key : ℤ) (mode : AccessMode) (is_work : Bool) (w : World)
    → new_database sid key mode is_work w ≡ (ok w.next_handle, opened sid key mode is_work w)
unfolding actions new_database session add_handle register update
new_database_lem sid key mode is_work w = refl

opened-open :
    (sid : ℕ) (key : ℤ) (mode : AccessMode) (w : World)
    → gate sid w ≡ none
    → handle_open (opened sid key mode false w) w.next_handle ≡ true
opened-open sid key mode w g =
    let live = gate-IsLive sid w g in
    rw (same w.next_handle, same sid, same (w.sessions sid).generation, live.active) refl
  where
    same : (n : ℕ) → (n == n) ≡ true
    same n = (==_iff n n).1 refl

no_nul-contains : (cs : List ℕ) (t : Bytes) → no_nul cs ≡ ok t → contains_byte 0 t ≡ false
unfolding no_nul
no_nul-contains cs t e = elim (Bool-cases (contains_byte 0 cs)) [
  | inl yes' ↦ absurd (refused (cc (yes', e)))
  | inr no' ↦ (let q : cs ≡ t = cc (no', e) in subst (λ x. contains_byte 0 x ≡ false) q no')
]
  where
    refused : err text_encoding ≡ ok t → ⊥
    refused q = cc

to_native-contains : (x : Text) (t : Bytes) → to_native x ≡ ok t → contains_byte 0 t ≡ false
unfolding to_native
to_native-contains (bytes bs) t e = no_nul-contains bs t e
to_native-contains (str cs) t e = elim (Bool-cases (is_ascii cs)) [
  | inl yes' ↦ no_nul-contains cs t (cc (yes', e))
  | inr no' ↦ absurd (refused (cc (no', e)))
]
  where
    refused : err text_encoding ≡ ok t → ⊥
    refused q = cc

mode_code-int32 : (m : AccessMode) → int32 (mode_code m) ≡ ok (mode_code m)
unfolding int32
mode_code-int32 AccessMode.readonly = refl
mode_code-int32 AccessMode.create = refl
mode_code-int32 AccessMode.overwrite = refl
mode_code-int32 AccessMode.update = refl
mode_code-int32 AccessMode.shared = refl
mode_code-int32 AccessMode.write = refl
mode_code-int32 AccessMode.direct_write = refl

open_arguments-ok :
    (dbname : Text) (mode : CodeArg) {text : Bytes} {m : AccessMode} (w : World)
    → blank_name dbname ≡ false
    → to_native dbname ≡ ok text
    → access_mode mode ≡ ok m
    → is_local m ≡ true
    → open_arguments dbname mode w ≡ (ok (text, m), w)
unfolding actions open_arguments
open_arguments-ok dbname mode w a b c d = rw (a, b, c, d)

module _ (native : Native) where
  open_database-ok :
      (text : Bytes) (m : AccessMode) (w : World) {key : ℤ}
      → contains_byte 0 text ≡ false
      → native.respond w.calls (cfmopdb text (mode_code m)) ≡ returned (pos 0) key
      → open_database native text (mode_code m) w ≡ (ok key, called (cfmopdb text (mode_code m)) w)
  unfolding actions open_database check_status
  open_database-ok text m w a b = rw (a, mode_code-int32 m, b)

  -- Where the name and the mode are accepted, the session is live and the library opens the
  -- database, `opendb` makes the one native call and gives a new handle that is open and that the
  -- session tracks under the key that the library gave.
  pub opendb-opened :
      (dbname : Text) (mode : CodeArg) (sid : ℕ) (w : World) (text : Bytes) (m : AccessMode)
      (key : ℤ)
      → blank_name dbname ≡ false
      → to_native dbname ≡ ok text
      → access_mode mode ≡ ok m
      → is_local m ≡ true
      → gate sid w ≡ none
      → native.respond w.calls (cfmopdb text (mode_code m)) ≡ returned (pos 0) key
      → let w' = opened sid key m false (called (cfmopdb text (mode_code m)) w) in
        (opendb native dbname mode (some sid) w ≡ (ok w.next_handle, w'))
        × (handle_open w' w.next_handle ≡ true)
  unfolding opendb session_or_current
  opendb-opened dbname mode sid w text m key a b c d g r = (
    bind-ok (open_arguments dbname mode) _ (open_arguments-ok dbname mode w a b c d)
        ∙ bind-ok (pure sid) _ pure_lem
        ∙ operation-ok native sid _ g (
            bind-ok (open_database native text (mode_code m)) _
              (open_database-ok text m w (to_native-contains dbname text b) r)
            ∙ new_database_lem sid key m false (called (cfmopdb text (mode_code m)) w)),
    opened-open sid key m (called (cfmopdb text (mode_code m)) w) g,
  )
    where
      pure_lem : pure sid w ≡ (ok sid, w)
      pure_lem = unfold pure in refl
