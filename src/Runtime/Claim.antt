-- ===== src/Runtime/Claim.antt =====
-- `claim`, `teardown` and `shut_down` step by step: the owner's state and the history of calls.
use famepy.Prelude.{
  ℕ, ◌<◌, ◌≡◌, ◌≢◌, refl, sym, ◌∙◌, inl, inr, true, false, Option, none, some, List, [], ◌∷◌, ◌==◌,
  ==_iff, Bool-cases, ap,
}
use famepy.Errors.{Error, Hli, Result, ok, err}
use famepy.Native.{Native, Call, cfmini, cfmfin, read_globals}
use famepy.World.{World, Session, State, created, initialized, failed, broken, finalized, set_at}
use famepy.Exec.{Exec, raise, modify, catch, call, call_status, ◌>>=◌, skip, lift}
use famepy.Runtime.{update, hli_of}
use famepy.Runtime.Steady.{same, more}
use famepy.Runtime.Lifecycle.{claim, teardown, read_sentinels, record_status, mark_finalized}
use famepy.Runtime.Hoare.{
  Post, Leads, Leads-raise, Leads-pure, Leads-weaken, Leads-catch, Leads-bind,
}
use famepy.Runtime.Invariant.{Known, Inv, At, At-Inv, Running}

-- A process that has not used its runtime, with a loaded session.
pub record Idle (sid : ℕ) (w : World) : Type 0 where
  pub owner : w.owner ≡ none
  pub allocated : sid < w.next_session
  pub others : (s : ℕ) → (w.sessions s).state ≢ initialized
  pub attached : (s : ℕ) → (w.sessions s).native ≡ false → (w.sessions s).state ≡ created
  pub native : (w.sessions sid).native ≡ true
  pub calls : w.calls ≡ []
  pub known : Known w.default_session w.next_session

set_at_self {ℓ} : {A : Type ℓ} (f : ℕ → A) (i : ℕ) (a : A) → set_at f i a i ≡ a
set_at_self f i a = rw ((==_iff i i).1 refl)

set_at-ne {ℓ} : {A : Type ℓ} (f : ℕ → A) (i j : ℕ) (a : A) → j ≢ i → set_at f i a j ≡ f j
set_at-ne f i j a n = elim (Bool-cases (i == j)) [
  | inl e ↦ absurd (n (sym ((==_iff i j).0 e)))
  | inr e ↦ rw e
]

assign-attached :
    (sid : ℕ) (a : Session) (f : ℕ → Session)
    → a.native ≡ true
    → ((s : ℕ) → (f s).native ≡ false → (f s).state ≡ created)
    → (s : ℕ) → (set_at f sid a s).native ≡ false
    → (set_at f sid a s).state ≡ created
assign-attached sid a f n h s e = elim (Bool-cases (sid == s)) [
  | inl q ↦ let e' : a.native ≡ false = rw q at e in cc
  | inr q ↦ rw q (h s (rw q at e))
]

module _ (sid : ℕ) (st st' : State) (cs : List Call) (E : World → Type 0) where
  -- An assignment to the owner's session.
  pub At-update :
      (f : Session → Session)
      → ((x : Session) → x.state ≡ st → (f x).state ≡ st')
      → ((x : Session) → (f x).native ≡ x.native)
      → Leads (At sid st cs) (update sid f) (At sid st' cs) E
  unfolding update modify
  At-update f hs hn = record {
    at = λ w h.
        let a = f (w.sessions sid) in
        let self = set_at_self w.sessions sid a in
        record {
          owner = h.owner;
          allocated = h.allocated;
          others = λ s n e.
              h.others s n
                (ap (λ (x : Session). x.state) (sym (set_at-ne w.sessions sid s a n)) ∙ e);
          attached = assign-attached sid a w.sessions (hn (w.sessions sid) ∙ h.native) h.attached;
          native = ap (λ (x : Session). x.native) self ∙ hn (w.sessions sid) ∙ h.native;
          state = ap (λ (x : Session). x.state) self ∙ hs (w.sessions sid) h.state;
          calls = h.calls;
          known = h.known;
        };
  }

module _ (native : Native) (sid : ℕ) (st : State) (cs : List Call) where
  call_status-At :
      (c : Call) (w : World) → At sid st cs w → At sid st (c ∷ cs) (call_status native c w).1
  unfolding call_status
  call_status-At c w h = record {
    owner = h.owner;
    allocated = h.allocated;
    others = h.others;
    attached = h.attached;
    native = h.native;
    state = h.state;
    calls = ap (λ ds. c ∷ ds) h.calls;
    known = h.known;
  }

  both : {A : Type 0} (r : Result A × World) (P : World → Type 0) → P r.1 → Post r P P
  both (ok a, w) P p = p
  both (err e, w) P p = p

  pub At-call_status :
      (c : Call)
      → Leads (At sid st cs) (call_status native c) (At sid st (c ∷ cs)) (At sid st (c ∷ cs))
  At-call_status c = record { at = λ w h. both (call_status native c w) _ (call_status-At c w h) }

  At-lift : {A : Type 0} (r : Result A) (P : World → Type 0) → Leads P (lift r) P P
  unfolding lift
  At-lift r P = record { at = λ w h. both (r, w) P h }

  pub At-call :
      (c : Call) → Leads (At sid st cs) (call native c) (At sid st (c ∷ cs)) (At sid st (c ∷ cs))
  unfolding call
  At-call c = Leads-bind _ _ _ _ _ _ (At-call_status c) (λ r. At-lift _ _)

-- After a failed set-up the runtime is ended, whatever `cfmfin` does.
module _ (native : Native) (sid : ℕ) (cs : List Call) (E : World → Type 0) where
  record_status-At :
      (e : Error) → Leads (At sid broken cs) (record_status native sid e) (At sid broken cs) E
  unfolding record_status
  record_status-At e = go (hli_of e)
    where
      go :
          (o : Option Hli)
          → Leads
              (At sid broken cs)
              (elim o [
                | none ↦ skip
                | some h ↦ update sid (λ s. record s { finalize_status = some h.status })
              ])
              (At sid broken cs)
              E
      go none = unfold skip in Leads-pure _ _ _ tt (λ w h. h)
      go (some h) = At-update sid broken broken cs E _ (λ x p. p) (λ x. refl)

  mark_finalized-At : Leads (At sid broken cs) (mark_finalized native sid) (At sid finalized cs) E
  unfolding mark_finalized
  mark_finalized-At = At-update sid broken finalized cs E _ (λ x p. refl) (λ x. refl)

module _ (native : Native) (sid : ℕ) (cs : List Call) (run : Running cs) where
  abbrev gone : List Call
  gone = cfmfin ∷ cs

  broken-Inv : (w : World) → At sid broken gone w → Inv w
  broken-Inv w = At-Inv sid broken gone w (cs, refl, run)

  finalized-Inv : (w : World) → At sid finalized gone w → Inv w
  finalized-Inv w = At-Inv sid finalized gone w (cs, refl, run)

  pub teardown-Inv : Leads (At sid initialized cs) (teardown native sid) Inv Inv
  unfolding teardown
  teardown-Inv =
      Leads-bind _ (At sid broken cs) _ _ _ _
        (At-update sid initialized broken cs Inv _ (λ x p. refl) (λ x. refl))
        λ _.
          Leads-catch _ (At sid broken gone) _ _ _ _
            (Leads-bind _ (At sid broken gone) _ _ _ _ (At-call native sid broken cs cfmfin) (λ _.
              Leads-weaken _ _ _ _ _ _ _ (λ w h. h) finalized-Inv (λ w h. h)
                (mark_finalized-At native sid gone (At sid broken gone))))
            (λ e.
              Leads-weaken _ _ _ _ _ _ _ (λ w h. h) broken-Inv (λ w h. h)
                (record_status-At native sid gone Inv e))

  -- The assignments and the `cfmfin` of `finalize`.
  pub finish-Inv :
      (f : Session → Session)
      → ((x : Session) → (f x).state ≡ broken)
      → ((x : Session) → (f x).native ≡ x.native)
      → Leads
          (At sid initialized cs)
          (update sid f >>= λ _.
            catch (call native cfmfin) (λ e. record_status native sid e >>= λ _. raise e) >>= λ _.
            mark_finalized native sid)
          Inv
          Inv
  finish-Inv f hs hn =
      Leads-bind _ (At sid broken cs) _ _ _ _
        (At-update sid initialized broken cs Inv f (λ x p. hs x) hn)
        λ _.
          Leads-bind _ (At sid broken gone) _ _ _ _
            (Leads-catch _ (At sid broken gone) _ _ _ _ (At-call native sid broken cs cfmfin) λ e.
              Leads-bind _ (At sid broken gone) _ _ _ _ (record_status-At native sid gone Inv e)
                (λ _. Leads-raise _ _ _ e broken-Inv))
            λ _.
              Leads-weaken _ _ _ _ _ _ _ (λ w h. h) finalized-Inv (λ w h. h)
                (mark_finalized-At native sid gone Inv)

abbrev begun : List Call
begun = cfmini ∷ []

abbrev ready : List Call
ready = read_globals ∷ cfmini ∷ []

module _ (native : Native) (sid : ℕ) where
  -- The two assignments before `cfmini`: the owner, and the state in case it fails.
  consume-At :
      (k : Exec Unit)
      → Leads (At sid failed []) k Inv Inv
      → Leads
          (Idle sid)
          (modify (λ w. record w { owner = some sid }) >>= λ _.
            update sid (λ s. record s { state = failed }) >>= λ _. k)
          Inv
          Inv
  unfolding modify ◌>>=◌
  consume-At k l = record {
    at = λ w h.
        let step : Leads (At sid (w.sessions sid).state [])
            (update sid (λ s. record s { state = failed })) (At sid failed []) Inv =
          At-update sid (w.sessions sid).state failed [] Inv _ (λ x p. refl) (λ x. refl) in
        let next = Leads-bind _ _ Inv Inv _ (λ _. k) step (λ _. l) in
        next.at (record w { owner = some sid })
          (record {
            owner = refl;
            allocated = h.allocated;
            others = λ s n. h.others s;
            attached = h.attached;
            native = h.native;
            state = refl;
            calls = h.calls;
            known = h.known;
          });
  }

  read_sentinels-At :
      Leads
        (At sid initialized begun)
        (read_sentinels native)
        (At sid initialized ready)
        (At sid initialized ready)
  unfolding read_sentinels
  read_sentinels-At =
      Leads-bind _ _ _ _ _ _ (At-call_status native sid initialized begun read_globals)
        (λ r. Leads-pure _ _ _ _ (λ w h. h))

  pub claim-Inv : Leads (Idle sid) (claim native sid) Inv Inv
  unfolding claim
  claim-Inv = consume-At _ (
      Leads-bind _ (At sid failed begun) _ _ _ _
        (Leads-weaken _ _ _ _ _ _ _ (λ w h. h) (λ w h. h) (λ w. At-Inv sid failed begun w refl)
          (At-call native sid failed [] cfmini))
        λ _.
          Leads-bind _ (At sid initialized begun) _ _ _ _
            (At-update sid failed initialized begun Inv _ (λ x p. refl) (λ x. refl))
            λ _.
              Leads-bind _ (At sid initialized ready) _ _ _ _
                (Leads-catch _ (At sid initialized ready) _ _ _ _ read_sentinels-At λ e.
                  Leads-bind _ Inv _ _ _ _ (teardown-Inv native sid ready running)
                    λ _. Leads-raise _ _ _ e (λ w h. h))
                λ values.
                  Leads-weaken _ _ _ _ _ _ _ (λ w h. h)
                    (λ w. At-Inv sid initialized ready w running) (λ w h. h)
                    (At-update sid initialized initialized ready Inv _ (λ x p. p) (λ x. refl)))
    where
      running : Running ready
      running = more refl same
