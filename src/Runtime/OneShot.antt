-- ===== src/Runtime/OneShot.antt =====
-- `initialize` and `finalize` keep the one-shot invariant.
use famepy.Prelude.{
  ℕ, ℤ, ◌<◌, ◌≡◌, ◌≢◌, refl, inl, inr, Bool, true, false, Option, none, some, List, [], ◌∷◌, arith,
  ◌==◌, ==_iff, Bool-cases, ap, subst, if◌then◌else◌,
}
use famepy.Errors.{Error, Hli, Result, ok, err, runtime_state, licensing}
use famepy.Native.{Native, cfmcldb}
use famepy.World.{World, State, created, loaded, initialized, is_initialized, is_terminal}
use famepy.Exec.{Exec, actions, modify, pure, raise, gets, raise_if, skip, ◌>>=◌}
use famepy.Runtime.{session, load, hli_of}
use famepy.Runtime.Steady.{
  IsLive, IsLive-Steady, Quiet, Quiet-bind, Quiet-catch, Quiet-pure, Quiet-raise, Quiet-gets,
  Quiet-lift, Quiet-call, Steady,
}
use famepy.Runtime.Still.{process_gate, check_process-bind, session-bind, Pending, Steady-same}
use famepy.Runtime.Lifecycle.{
  claim, start, initialize, shut_down, finalize, close_all, close_failed, close_database,
  invalidate, check_licensing, owned_by_other,
}
use famepy.Runtime.Hoare.{Post, Leads, Leads-bind, Leads-weaken}
use famepy.Runtime.Invariant.{Inv, Phase, OwnerPhase, Inv-At, Inv-Steady}
use famepy.Runtime.Claim.{Idle, claim-Inv, finish-Inv}
use famepy.Runtime.Loading.{load-Leads}

post_both : {A : Type 0} (r : Result A × World) (P : World → Type 0) → Post r P P → P r.1
post_both (ok a, w) P h = h
post_both (err e, w) P h = h

unused-not_initialized :
    (w : World) → Inv w → w.owner ≡ none → (s : ℕ) → (w.sessions s).state ≢ initialized
unused-not_initialized w inv e s h = no_owner (inv.owned s h)
  where
    no_owner : w.owner ≡ some s → ⊥
    no_owner q = cc

-- A session that is neither active nor terminal owns no runtime.
fresh-not_owner :
    (sid : ℕ) (w : World)
    → Inv w
    → is_initialized (w.sessions sid).state ≡ false
    → is_terminal (w.sessions sid).state ≡ false
    → w.owner ≢ some sid
fresh-not_owner sid w inv a b q =
    none_left (w.sessions sid).state a b (subst (λ o. OwnerPhase o w) q inv.phase).1
  where
    none_left :
        (st : State) → is_initialized st ≡ false → is_terminal st ≡ false → Phase st w.calls → ⊥
    none_left created a b h = h
    none_left loaded a b h = h
    none_left _ a b h = cc

module _ (native : Native) (sid n : ℕ) (allocated : sid < n) where
  Attached-Idle : (w : World) → Pending sid none n w × ((w.sessions sid).native ≡ true) → Idle sid w
  Attached-Idle w (h, e) = record {
    owner = h.owner;
    allocated = rw h.allocated allocated;
    others = unused-not_initialized w h.inv h.owner;
    attached = h.inv.attached;
    native = e;
    calls = subst (λ o. OwnerPhase o w) h.owner h.inv.phase;
    known = h.inv.known;
  }

  licensing-Leads :
      (P : World → Type 0) → ((w : World) → P w → Inv w) → Leads P (check_licensing sid) P Inv
  unfolding check_licensing actions session
  licensing-Leads P keep = record { at = λ w h. go w h _ }
    where
      go : (w : World) → P w → (b : Bool) → Post (raise_if b licensing w) P Inv
      go w h true = keep w h
      go w h false = h

  load_and_claim :
      Leads
        (Pending sid none n)
        (load native sid >>= λ _. check_licensing sid >>= λ _. claim native sid)
        Inv
        Inv
  load_and_claim = Leads-bind _ _ _ _ _ _ (load-Leads native sid none n) λ _.
      Leads-bind _ _ _ _ _ _ (licensing-Leads _ (λ w h. h.0.inv))
        λ _. Leads-weaken _ _ _ _ _ _ _ Attached-Idle (λ w h. h) (λ w h. h) (claim-Inv native sid)

module _ (native : Native) (sid : ℕ) where
  start_at :
      (w : World) (o : Option ℕ)
      → Inv w
      → sid < w.next_session
      → w.owner ≡ o
      → o ≢ some sid
      → Inv
          ((raise_if (owned_by_other sid o) runtime_state >>= λ _.
              load native sid >>= λ _. check_licensing sid >>= λ _. claim native sid)
            w).1
  unfolding raise_if pure raise ◌>>=◌
  start_at w none inv a e ne = post_both _ Inv (
      (load_and_claim native sid w.next_session a).at w
        (record { inv = inv; owner = e; allocated = refl }))
  start_at w (some o) inv a e ne = elim (Bool-cases (o == sid)) [
    | inl q ↦ absurd (ne (ap some ((==_iff o sid).0 q)))
    | inr q ↦ rw q inv
  ]

  start-Inv :
      (w : World) → Inv w → sid < w.next_session → w.owner ≢ some sid → Inv (start native sid w).1
  unfolding start gets ◌>>=◌
  start-Inv w inv a ne = start_at w w.owner inv a refl ne

  initialize_at :
      (w : World)
      → Inv w
      → sid < w.next_session
      → Inv
          ((if is_initialized (w.sessions sid).state
              then skip
              else (raise_if (is_terminal (w.sessions sid).state) runtime_state >>= λ _.
                  start native sid))
            w).1
  unfolding skip raise_if pure raise ◌>>=◌
  initialize_at w inv a = elim (Bool-cases (is_initialized (w.sessions sid).state)) [
    | inl e ↦ rw e inv
    | inr e ↦ elim (Bool-cases (is_terminal (w.sessions sid).state)) [
      | inl t ↦ rw (e, t) inv
      | inr t ↦ rw (e, t) (start-Inv w inv a (fresh-not_owner sid w inv e t))
    ]
  ]

  -- Whatever the library does, `initialize` keeps the one-shot invariant.
  pub initialize-Inv : (w : World) → Inv w → sid < w.next_session → Inv (initialize native sid w).1
  unfolding initialize
  initialize-Inv w inv a = rw check_process-bind (go (process_gate sid w))
    where
      go :
          (r : Result (Unit {0}))
          → Inv (
              let r' : Result (Unit {0}) × World = elim r [
                | ok _ ↦
                    (session sid >>= λ s.
                    if is_initialized s.state
                    then skip
                    else (raise_if (is_terminal s.state) runtime_state >>= λ _. start native sid))
                      w
                | err e ↦ (err e, w)
              ] in
              r'.1)
      go (ok u) = rw session-bind (initialize_at w inv a)
      go (err e) = inv

  close_failed-Quiet : (e : Error) → Quiet sid (close_failed native e)
  unfolding close_failed
  close_failed-Quiet e = go (hli_of e)
    where
      go :
          (o : Option Hli)
          → Quiet sid (
              let m : Exec (List ℤ) = elim o [ none ↦ raise e | some h ↦ pure (h.status ∷ []) ] in
              m)
      go none = Quiet-raise sid e
      go (some h) = Quiet-pure sid _

  invalidate-Quiet : (hid : ℕ) → Quiet sid (invalidate hid)
  unfolding invalidate modify
  invalidate-Quiet hid = record { at = λ w h. Steady-same w _ refl refl refl refl refl refl refl }

  pub close_database-Quiet : (key : ℤ) → Quiet sid (close_database native key)
  unfolding close_database
  close_database-Quiet key =
      Quiet-bind sid _ _ (Quiet-lift sid _) (λ k. Quiet-call native sid (cfmcldb k) refl)

  close_all-Quiet : (ds : List (ℤ × ℕ)) → Quiet sid (close_all native ds)
  unfolding close_all
  close_all-Quiet [] = Quiet-pure sid []
  close_all-Quiet ((key, hid) ∷ ds) = Quiet-bind sid _ _ (Quiet-gets sid _) λ h.
      Quiet-bind sid _ _
        (Quiet-catch sid _ _
          (Quiet-bind sid _ _ (close_database-Quiet h.key) (λ _. Quiet-pure sid []))
          close_failed-Quiet)
        λ statuses.
          Quiet-bind sid _ _ (invalidate-Quiet hid)
            λ _. Quiet-bind sid _ _ (close_all-Quiet ds) (λ others. Quiet-pure sid _)

  -- The closing loop and then the end of the runtime.
  Ready : World → Type 0
  Ready w = Inv w × IsLive sid w

  close_all-Ready : (ds : List (ℤ × ℕ)) → Leads Ready (close_all native ds) Ready Inv
  unfolding Ready
  close_all-Ready ds = record {
    at = λ w h. go w h (close_all native ds w) ((close_all-Quiet ds).at w h.1);
  }
    where
      go :
          (w : World)
          → Inv w × IsLive sid w
          → (r : Result (List ℤ) × World) → Steady w r.1
          → Post r (λ w. Inv w × IsLive sid w) Inv
      go w h (ok a, w') st = (Inv-Steady h.0 st, IsLive-Steady sid st h.1)
      go w h (err e, w') st = Inv-Steady h.0 st

  shut_down-Inv : Leads Ready (shut_down native sid) Inv Inv
  unfolding shut_down Ready
  shut_down-Inv = record {
    at = λ w h. rw session-bind (
        (Leads-bind Ready Ready Inv Inv _ _ (close_all-Ready (w.sessions sid).databases)
            (λ statuses. record {
              at = λ w h.
                  let (at', run) = Inv-At sid w h.0 h.1.active in
                  (finish-Inv native sid w.calls run _ (λ x. refl) (λ x. refl)).at w at';
            })).at
          w h);
  }

  initialized_of : (s : State) → is_initialized s ≡ true → s ≡ initialized
  initialized_of initialized h = refl
  initialized_of _ h = cc

  finalize_at :
      (w : World)
      → Inv w
      → process_gate sid w ≡ ok tt
      → Inv ((if is_initialized (w.sessions sid).state then shut_down native sid else skip) w).1
  unfolding skip pure Ready
  finalize_at w inv e = elim (Bool-cases (is_initialized (w.sessions sid).state)) [
    | inl i ↦ rw i (
        post_both _ Inv (
          shut_down-Inv.at w (
            inv,
            record {
              active = initialized_of (w.sessions sid).state i;
              own = ground arith;
              fresh = ground arith;
            },
          )))
    | inr i ↦ rw i inv
  ]

  -- Whatever the library does, `finalize` keeps the one-shot invariant.
  pub finalize-Inv : (w : World) → Inv w → Inv (finalize native sid w).1
  unfolding finalize
  finalize-Inv w inv = rw check_process-bind (go (process_gate sid w) refl)
    where
      go :
          (r : Result (Unit {0}))
          → process_gate sid w ≡ r
          → Inv (
              let r' : Result (Unit {0}) × World = elim r [
                | ok _ ↦
                    (session sid >>= λ s.
                    if is_initialized s.state then shut_down native sid else skip)
                      w
                | err e ↦ (err e, w)
              ] in
              r'.1)
      go (ok u) e = rw session-bind (finalize_at w inv e)
      go (err x) e = inv
