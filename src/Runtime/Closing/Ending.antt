-- ===== src/Runtime/Closing/Ending.antt =====
-- How `finalize` ends, by the answer to `cfmfin`.
use famepy.Prelude.{
  ℕ, ℤ, pos, ◌≡◌, refl, ◌∙◌, ap, sym, subst, ◌==◌, ==_iff, ◌⊎◌, inl, inr, List, [], ◌∷◌, true,
  Option, none, some, if◌then◌else◌,
}
use famepy.Errors.{Error, Hli, Result, ok, err}
use famepy.Native.{Native, cfmfin}
use famepy.World.{World, Session, initialized, finalized, broken, is_initialized, put_session}
use famepy.Exec.{Exec, raise, modify, catch, skip, call, ◌>>=◌, ◌>>◌}
use famepy.Runtime.{session, update, hli_of}
use famepy.Runtime.Returns.{called, bind-ok, bind-err, catch-ok, catch-err}
use famepy.Runtime.Answers.{Answers, call-Settled}
use famepy.Runtime.Still.{process_gate, check_process-bind, session-bind}
use famepy.Runtime.Lifecycle.{close_all, shut_down, finalize, record_status, mark_finalized}
use famepy.Runtime.Closing.{
  Finished, FinishedAs, KeysFit, cleared, close_all_lem, shut, shut_all, shut_all-closed,
}

module _ (native : Native) (answers : Answers native) where
  -- the world after the status of a failed `cfmfin` was recorded
  abbrev recorded : ℕ → ℤ → World → World
  recorded sid status w =
      put_session sid (record (w.sessions sid) { finalize_status = some status }) w

  record_status_lem :
      (sid : ℕ) (e : Error) (h : Hli) (w : World)
      → hli_of e ≡ some h
      → record_status native sid e w ≡ (ok tt, recorded sid h.status w)
  unfolding record_status
  record_status_lem sid e h w k =
      ap
        (λ (o : Option Hli).
          (elim o as (λ (x : Option Hli). Exec Unit) [
            | none ↦ skip
            | some h ↦ update sid (λ s. record s { finalize_status = some h.status })
          ])
            w)
        k
      ∙ (unfold update modify in refl)

  same : (n : ℕ) → (n == n) ≡ true
  same n = (==_iff n n).1 refl

  shut_all-sessions : (ds : List (ℤ × ℕ)) (w : World) → (shut_all ds w).sessions ≡ w.sessions
  shut_all-sessions [] w = refl
  shut_all-sessions (d ∷ ds) w = shut_all-sessions ds (shut d.1 w)

  -- the end of `shut_down`, by the answer to `cfmfin`
  last : ℕ → Exec Unit
  last sid =
      catch (call native cfmfin) (λ e. record_status native sid e >> raise e)
      >> mark_finalized native sid

  last_lem :
      (sid : ℕ) (v : World)
      → (v.sessions sid).state ≡ broken
      → (w' : World) × (w'.handles ≡ v.handles)
        × (w'.calls ≡ cfmfin ∷ v.calls)
        × ((w'.sessions sid).databases ≡ (v.sessions sid).databases)
        × (((last sid v ≡ (ok tt, w')) × ((w'.sessions sid).state ≡ finalized))
            ⊎ ((e : Error) × (last sid v ≡ (err e, w')) × ((w'.sessions sid).state ≡ broken)))
  unfolding last
  last_lem sid v b =
      let (r, e, s) = call-Settled native answers cfmfin v in
      elim s [
        | inl (u, f) ↦ (
          put_session sid
              (record (v.sessions sid) { finalize_status = some (pos 0); state = finalized })
              (called cfmfin v),
          refl,
          refl,
          rw (same sid) refl,
          inl (
            bind-ok (catch (call native cfmfin) (λ e. record_status native sid e >> raise e)) _
                  (catch-ok (call native cfmfin) _ (e ∙ ap (λ x. (x, called cfmfin v)) f))
                ∙ (unfold mark_finalized update modify in refl),
            rw (same sid) refl,
          ),
        )
        | inr (h, x, f, g) ↦ (
          recorded sid h.status (called cfmfin v),
          refl,
          refl,
          rw (same sid) refl,
          inr (
            x,
            bind-err (catch (call native cfmfin) (λ e. record_status native sid e >> raise e)) _ (
                catch-err (call native cfmfin) _ (e ∙ ap (λ y. (y, called cfmfin v)) f)
                ∙ bind-ok (record_status native sid x) _
                    (record_status_lem sid x h (called cfmfin v) g)
                ∙ (unfold raise in refl)),
            rw (same sid) b,
          ),
        )
      ]

  update_lem :
      (sid : ℕ) (f : Session → Session) (w : World)
      → update sid f w ≡ (ok tt, put_session sid (f (w.sessions sid)) w)
  update_lem sid f w = unfold update modify in refl

  shut_down_lem :
      (sid : ℕ) (w : World)
      → KeysFit w
      → (ss : List ℤ) × (shut_down native sid w
          ≡ last sid (cleared sid ss (shut_all (w.sessions sid).databases w)))
  unfolding shut_down last
  shut_down_lem sid w k =
      let (ss, e) = close_all_lem native answers (w.sessions sid).databases w k in
      (
        ss,
        session-bind sid _ w
            ∙ bind-ok (close_all native (w.sessions sid).databases) _ e
            ∙ bind-ok (update sid _) _ (update_lem sid _ (shut_all (w.sessions sid).databases w)),
      )

  finalize_lem :
      (sid : ℕ) (w : World)
      → process_gate sid w ≡ ok tt
      → (w.sessions sid).state ≡ initialized
      → finalize native sid w ≡ shut_down native sid w
  unfolding finalize
  finalize_lem sid w g h =
      check_process-bind sid _ w
      ∙ ap
          (λ (r : Result (Unit {0})). elim r [
            | ok _ ↦ (session sid >>= next) w
            | err e ↦ (err e, w)
          ])
          g
      ∙ session-bind sid next w
      ∙ rw h refl
    where
      next : Session → Exec Unit
      next s = if is_initialized s.state then shut_down native sid else skip

  -- Where every call comes back with a status and the keys fit 32 bits, `finalize` of an
  -- initialized session tries to close each tracked database once, in order, and then makes its
  -- one `cfmfin`, whatever the statuses. No database is tracked any more, every handle that was is
  -- closed, and the session is finalized where `finalize` returns and broken where it raises.
  pub finalize-Finished :
      (sid : ℕ) (w : World)
      → process_gate sid w ≡ ok tt
      → (w.sessions sid).state ≡ initialized
      → KeysFit w
      → FinishedAs sid w (finalize native sid w)
  finalize-Finished sid w g h k =
      let (ss, e) = shut_down_lem sid w k in
      let v = shut_all (w.sessions sid).databases w in
      let (w', hs, cs, ds, r) = last_lem sid (cleared sid ss v) (rw (same sid) refl) in
      let f : Finished sid w w' = record {
        databases = ds ∙ rw (same sid) refl;
        handles = rw hs (shut_all-closed (w.sessions sid).databases w);
        calls = cs;
      } in
      elim r [
        | inl (q, st) ↦
            subst (FinishedAs sid w) (sym (finalize_lem sid w g h ∙ e ∙ q)) (f, inl (refl, st))
        | inr (x, q, st) ↦
            subst (FinishedAs sid w) (sym (finalize_lem sid w g h ∙ e ∙ q)) (f, inr (x, refl, st))
      ]
