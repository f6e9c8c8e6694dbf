-- ===== src/Runtime/Loading.antt =====
-- `load`: it makes no native call, and an unloaded session is not yet anything else.
use famepy.Exec
use famepy.Prelude.{
  ℕ, ◌≡◌, ◌≢◌, refl, sym, ◌∙◌, inl, inr, true, false, Option, none, some, arith, ◌≤◌, ==_iff, subst,
  ◌==◌, Bool-cases, ap, if◌then◌else◌,
}
use famepy.Errors.{Result, ok, err}
use famepy.Native.{Native}
use famepy.World.{World, Session, State, created, loaded, initialized, put_session}
use famepy.Exec.{Exec, actions, pure, raise, gets, modify, raise_if, skip, ◌>>=◌, lift}
use famepy.Runtime.{update, session, load, ensure_loaded}
use famepy.Runtime.Hoare.{Post, Leads}
use famepy.Runtime.Still.{
  process_gate, check_process-bind, session-bind, ensure_loaded-Still, Pending, Pending-Steady,
}
use famepy.Runtime.Invariant.{Known, Inv, OwnerPhase}

pub Known-le : {m n : ℕ} (o : Option ℕ) → m ≤ n → Known o m → Known o n
Known-le none h k = tt
Known-le (some d) h k = omega arith

-- A session other than the owner is replaced, or a new one is allocated.
module _ (sid n : ℕ) (a : Session) (w : World) (inv : Inv w) (grown : w.next_session ≤ n) where
  abbrev replaced : World
  replaced = record (put_session sid a w) { next_session = n }

  replaced-phase :
      (o : Option ℕ) → w.owner ≡ o → o ≢ some sid → OwnerPhase o w → OwnerPhase o replaced
  replaced-phase none e ne h = h
  replaced-phase (some o) e ne h = elim (Bool-cases (sid == o)) [
    | inl q ↦ absurd (ne (ap some (sym ((==_iff sid o).0 q))))
    | inr q ↦ (omega (arith, h.0), rw q h.1)
  ]

  pub replaced-Inv :
      w.owner ≢ some sid
      → a.state ≢ initialized
      → (a.native ≡ false → a.state ≡ created)
      → Inv replaced
  replaced-Inv ne idle att = record {
    owned = λ s e. elim (Bool-cases (sid == s)) [
      | inl q ↦ absurd (idle (rw q at e))
      | inr q ↦ inv.owned s (rw q at e)
    ];
    attached = λ s e. elim (Bool-cases (sid == s)) [
      | inl q ↦ rw q (att (rw q at e))
      | inr q ↦ rw q (inv.attached s (rw q at e))
    ];
    phase = replaced-phase w.owner refl ne inv.phase;
    known = Known-le w.default_session grown inv.known;
  }

not_owner : (sid : ℕ) (w : World) → Inv w → (w.sessions sid).state ≡ created → w.owner ≢ some sid
not_owner sid w inv e q = rw e at (subst (λ o. OwnerPhase o w) q inv.phase).1

attached_ne : ◌≢◌ {A = State} loaded initialized
attached_ne e = cc

-- `load` of a session that was not loaded.
module _ (native : Native) (sid : ℕ) (o : Option ℕ) (n : ℕ) where
  set_loaded-Pending :
      (w : World)
      → Pending sid o n w
      → (w.sessions sid).native ≡ false
      → Pending sid o n (update sid (λ s. record s { native = true; state = loaded }) w).1
  unfolding update modify
  set_loaded-Pending w h unloaded =
      let a = record (w.sessions sid) { native = true; state = loaded } in
      record {
        inv =
            replaced-Inv sid w.next_session a w h.inv (omega arith)
              (not_owner sid w h.inv (h.inv.attached sid unloaded)) attached_ne (λ e. cc);
        owner = h.owner;
        allocated = h.allocated;
      }

  set_loaded : Exec Unit
  set_loaded = update sid (λ s. record s { native = true; state = loaded })

  abbrev Attached : World → Type 0
  Attached w = Pending sid o n w × ((w.sessions sid).native ≡ true)

  set_loaded-Attached :
      (w : World) → Pending sid o n w → (w.sessions sid).native ≡ false → Attached (set_loaded w).1
  unfolding update modify set_loaded
  set_loaded-Attached w h unloaded =
      (set_loaded-Pending w h unloaded, rw ((==_iff sid sid).1 refl) refl)

  fetched :
      (r : Result (Unit {0}) × World)
      → Pending sid o n r.1
      → (r.1.sessions sid).native ≡ false
      → Post (Exec.continue r.0 (λ _. set_loaded) r.1) Attached Inv
  unfolding set_loaded update modify
  fetched (ok u, w) h e = set_loaded-Attached w h e
  fetched (err x, w) h e = h.inv

  unloaded_at :
      (w : World)
      → Pending sid o n w
      → (w.sessions sid).native ≡ false
      → Post
          ((ensure_loaded native sid (w.sessions sid).runtime >>= λ _. set_loaded) w)
          Attached
          Inv
  unfolding ◌>>=◌
  unloaded_at w h e =
      let st = ensure_loaded-Still native sid (w.sessions sid).runtime w in
      fetched (ensure_loaded native sid (w.sessions sid).runtime w) (Pending-Steady sid h st)
        (st.natives sid ∙ e)

  body_at :
      (w : World)
      → Pending sid o n w
      → Post
          ((if (w.sessions sid).native
              then skip
              else (ensure_loaded native sid (w.sessions sid).runtime >>= λ _. set_loaded))
            w)
          Attached
          Inv
  body_at w h = elim (Bool-cases (w.sessions sid).native) [
    | inl e ↦ rw e (unfold skip pure in (h, e))
    | inr e ↦ rw e (unloaded_at w h e)
  ]

  pub load-Leads : Leads (Pending sid o n) (load native sid) Attached Inv
  unfolding load set_loaded
  load-Leads = record { at = λ w h. rw (check_process-bind) (go w h (process_gate sid w)) }
    where
      go :
          (w : World)
          → Pending sid o n w
          → (r : Result (Unit {0}))
          → Post {A = Unit {0}}
              (elim r [
                | ok _ ↦
                    (session sid >>= λ s.
                    if s.native
                    then skip
                    else (ensure_loaded native sid s.runtime >>= λ _. set_loaded))
                      w
                | err e ↦ (err e, w)
              ])
              Attached
              Inv
      go w h (ok u) = rw session-bind (body_at w h)
      go w h (err e) = h.inv

-- Whatever the loader does, `load` keeps the one-shot invariant.
pub load-Inv : (native : Native) (sid : ℕ) (w : World) → Inv w → Inv (load native sid w).1
load-Inv native sid w inv = go (load native sid w) (
    (load-Leads native sid w.owner w.next_session).at w
      (record { inv = inv; owner = refl; allocated = refl }))
  where
    go :
        (r : Result (Unit {0}) × World)
        → Post r (λ v. Pending sid w.owner w.next_session v × ((v.sessions sid).native ≡ true)) Inv
        → Inv r.1
    go (ok u, v) h = h.0.inv
    go (err e, v) h = h
