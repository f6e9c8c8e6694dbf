-- ===== src/Runtime/Closing.antt =====
-- What `finalize` does with the databases that the session tracks, for every status of the calls.
pub mod Ending
use famepy.Prelude.{
  ℕ, ℤ, pos, ◌≡◌, refl, ◌∙◌, ap, sym, subst, ◌==◌, ==_iff, ◌⊎◌, inl, inr, List, [], ◌∷◌, ◌++◌, Bool,
  true, false, Option, none, some, All, if◌then◌else◌,
}
use famepy.Errors.{Error, Hli, Result, ok, err}
use famepy.Native.{Native, cfmcldb, cfmfin}
use famepy.World.{
  World, Session, initialized, finalized, broken, is_initialized, put_handle, put_session,
}
use famepy.Exec.{Exec, pure, raise, lift, gets, modify, catch, skip, call, ◌>>=◌, ◌>>◌}
use famepy.Runtime.{session, update, int32, hli_of}
use famepy.Runtime.Returns.{called, bind-ok, bind-err, catch-ok, catch-err}
use famepy.Runtime.Answers.{Answers, call-Settled}
use famepy.Runtime.Still.{process_gate, check_process-bind, session-bind}
use famepy.Runtime.Lifecycle.{
  invalidate, close_database, close_failed, close_all, shut_down, finalize, record_status,
  mark_finalized,
}

-- the world in which one database was closed
abbrev pub shut : ℕ → World → World
shut hid w =
    put_handle hid (record (w.handles hid) { is_open = false })
      (called (cfmcldb (w.handles hid).key) w)

-- the world in which the tracked databases were closed, from the first to the last
abbrev pub shut_all : List (ℤ × ℕ) → World → World
shut_all [] w = w
shut_all (d ∷ ds) w = shut_all ds (shut d.1 w)

-- every key is a 32-bit integer
abbrev pub KeysFit : World → Type 0
KeysFit w = (h : ℕ) → int32 (w.handles h).key ≡ ok (w.handles h).key

shut-KeysFit : (hid : ℕ) (w : World) → KeysFit w → KeysFit (shut hid w)
shut-KeysFit hid w k h = pick (hid == h)
  where
    pick :
        (b : Bool)
        → (let key = (if b then record (w.handles hid) { is_open = false } else w.handles h).key in
            int32 key ≡ ok key)
    pick true = k hid
    pick false = k h

shut-stays :
    (hid g : ℕ) (w : World)
    → (w.handles g).is_open ≡ false
    → ((shut hid w).handles g).is_open ≡ false
shut-stays hid g w h = pick (hid == g)
  where
    pick :
        (b : Bool)
        → (if b then record (w.handles hid) { is_open = false } else w.handles g).is_open ≡ false
    pick true = refl
    pick false = h

shut_all-stays :
    (ds : List (ℤ × ℕ)) (g : ℕ) (w : World)
    → (w.handles g).is_open ≡ false
    → ((shut_all ds w).handles g).is_open ≡ false
shut_all-stays [] g w h = h
shut_all-stays (d ∷ ds) g w h = shut_all-stays ds g (shut d.1 w) (shut-stays d.1 g w h)

shut_all-closed :
    (ds : List (ℤ × ℕ)) (w : World) → All (λ d. ((shut_all ds w).handles d.1).is_open ≡ false) ds
shut_all-closed [] w = tt
shut_all-closed (d ∷ ds) w = (
  shut_all-stays ds d.1 (shut d.1 w) (rw ((==_iff d.1 d.1).1 refl) refl),
  shut_all-closed ds (shut d.1 w),
)

-- What is left of a session whose runtime was shut down: no database is tracked and every one
-- that was is closed, and the calls were one close for each, in their order, and then `cfmfin`.
pub record Finished (sid : ℕ) (w w' : World) : Type 0 where
  pub databases : (w'.sessions sid).databases ≡ []
  pub handles : All (λ d. (w'.handles d.1).is_open ≡ false) (w.sessions sid).databases
  pub calls : w'.calls ≡ cfmfin ∷ (shut_all (w.sessions sid).databases w).calls

abbrev pub FinishedAs : ℕ → World → Result (Unit {0}) × World → Type 0
FinishedAs sid w p =
    Finished sid w p.1
    × (((p.0 ≡ ok tt) × ((p.1.sessions sid).state ≡ finalized))
        ⊎ ((e : Error) × (p.0 ≡ err e) × ((p.1.sessions sid).state ≡ broken)))

-- the world in which `_databases` was cleared and only `cfmfin` is left to do
abbrev cleared : ℕ → List ℤ → World → World
cleared sid ss w =
    put_session sid
      (record (w.sessions sid) {
        databases = [];
        work = none;
        last_cleanup_statuses = ss;
        version = none;
        sentinels = none;
        state = broken;
      })
      w

module _ (native : Native) (answers : Answers native) where
  pure_lem : {A : Type 0} (a : A) (w : World) → pure a w ≡ (ok a, w)
  pure_lem a w = unfold pure in refl

  gets_lem : {A : Type 0} (f : World → A) (w : World) → gets f w ≡ (ok (f w), w)
  gets_lem f w = unfold gets in refl

  invalidate_lem :
      (hid : ℕ) (w : World)
      → invalidate hid w ≡ (ok tt, put_handle hid (record (w.handles hid) { is_open = false }) w)
  invalidate_lem hid w = unfold invalidate modify in refl

  close_database_lem :
      (key : ℤ) (w : World)
      → int32 key ≡ ok key
      → close_database native key w ≡ call native (cfmcldb key) w
  unfolding close_database
  close_database_lem key w k =
      bind-ok (lift (int32 key)) _ {w' = w} {a = key} (unfold lift in ap (λ r. (r, w)) k)

  close_failed_lem :
      (e : Error) (h : Hli) (w : World)
      → hli_of e ≡ some h
      → close_failed native e w ≡ (ok (h.status ∷ []), w)
  unfolding close_failed
  close_failed_lem e h w k =
      ap
        (λ (o : Option Hli).
          (elim o as (λ (x : Option Hli). Exec (List ℤ)) [
            | none ↦ raise e
            | some h ↦ pure (h.status ∷ [])
          ])
            w)
        k
      ∙ pure_lem (h.status ∷ []) w

  close_one :
      (key : ℤ) (w : World)
      → int32 key ≡ ok key
      → (ss : List ℤ) × (catch (close_database native key >> pure []) (close_failed native) w
          ≡ (ok ss, called (cfmcldb key) w))
  close_one key w k =
      let (r, e, s) = call-Settled native answers (cfmcldb key) w in
      let q : close_database native key w ≡ (r, called (cfmcldb key) w) =
        close_database_lem key w k ∙ e in
      elim s [
        | inl (u, f) ↦ (
          [],
          catch-ok _ _ (
              bind-ok (close_database native key) _ (q ∙ ap (λ x. (x, called (cfmcldb key) w)) f)
              ∙ pure_lem [] (called (cfmcldb key) w)),
        )
        | inr (h, x, f, g) ↦ (
          h.status ∷ [],
          catch-err _ _ (
                bind-err (close_database native key) _
                  (q ∙ ap (λ x. (x, called (cfmcldb key) w)) f))
              ∙ close_failed_lem x h (called (cfmcldb key) w) g,
        )
      ]

  close_all_lem :
      (ds : List (ℤ × ℕ)) (w : World)
      → KeysFit w
      → (ss : List ℤ) × (close_all native ds w ≡ (ok ss, shut_all ds w))
  unfolding close_all
  close_all_lem [] w k = ([], pure_lem [] w)
  close_all_lem ((key, hid) ∷ ds) w k =
      let (ss, e) = close_one (w.handles hid).key w (k hid) in
      let (ts, f) = close_all_lem ds (shut hid w) (shut-KeysFit hid w k) in
      (
        ss ++ ts,
        bind-ok (gets (λ v. v.handles hid)) _ (gets_lem (λ v. v.handles hid) w)
            ∙ bind-ok
                (catch (close_database native (w.handles hid).key >> pure []) (close_failed native))
                _ e
            ∙ bind-ok (invalidate hid) _
                (invalidate_lem hid (called (cfmcldb (w.handles hid).key) w))
            ∙ bind-ok (close_all native ds) _ f
            ∙ pure_lem (ss ++ ts) (shut_all ((key, hid) ∷ ds) w),
      )
