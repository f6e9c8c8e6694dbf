-- ===== src/Runtime/Invariant.antt =====
-- The one-shot lifecycle as an invariant of the process: which calls have been made is known from
-- the owner and its state, and no session but the owner is initialized.
use famepy.Prelude.{
  ℕ, ◌<◌, ◌≡◌, ◌≢◌, refl, sym, subst, subst₂, ◌∙◌, inl, inr, true, false, Option, none, some, List,
  [], ◌∷◌, ◌==◌, ==_iff, Bool-cases,
}
use famepy.Native.{Call, cfmini, cfmfin}
use famepy.World.{World, State, created, loaded, initialized, failed, broken, finalized}
use famepy.Runtime.Steady.{Extends, Extends-trans, Talked, Steady}

-- The history of a runtime that runs: `cfmini`, and calls that are none of the lifecycle.
abbrev pub Running : List Call → Type 0
Running cs = Extends (cfmini ∷ []) cs

-- The history of a runtime that is gone: `cfmfin` was its last call.
abbrev pub Ended : List Call → Type 0
Ended cs = (ds : List Call) × (cs ≡ cfmfin ∷ ds) × Running ds

abbrev pub Phase : State → List Call → Type 0
Phase created cs = ⊥
Phase loaded cs = ⊥
Phase failed cs = cs ≡ cfmini ∷ []
Phase initialized cs = Running cs
Phase broken cs = Ended cs
Phase finalized cs = Ended cs

abbrev pub OwnerPhase : Option ℕ → World → Type 0
OwnerPhase none w = w.calls ≡ []
OwnerPhase (some o) w = (o < w.next_session) × Phase (w.sessions o).state w.calls

-- The default session is one that exists.
abbrev pub Known : Option ℕ → ℕ → Type 0
Known none n = Unit
Known (some d) n = d < n

pub record Inv (w : World) : Type 0 where
  pub owned : (s : ℕ) → (w.sessions s).state ≡ initialized → w.owner ≡ some s
  pub attached : (s : ℕ) → (w.sessions s).native ≡ false → (w.sessions s).state ≡ created
  pub phase : OwnerPhase w.owner w
  pub known : Known w.default_session w.next_session

-- The owner's session in a known state after a known history.
pub record At (sid : ℕ) (st : State) (cs : List Call) (w : World) : Type 0 where
  pub owner : w.owner ≡ some sid
  pub allocated : sid < w.next_session
  pub others : (s : ℕ) → s ≢ sid → (w.sessions s).state ≢ initialized
  pub attached : (s : ℕ) → (w.sessions s).native ≡ false → (w.sessions s).state ≡ created
  pub native : (w.sessions sid).native ≡ true
  pub state : (w.sessions sid).state ≡ st
  pub calls : w.calls ≡ cs
  pub known : Known w.default_session w.next_session

pub At-Inv :
    (sid : ℕ) (st : State) (cs : List Call) (w : World) → Phase st cs → At sid st cs w → Inv w
At-Inv sid st cs w p h = record {
  owned = λ s e. elim (Bool-cases (s == sid)) [
    | inl same ↦ rw ((==_iff s sid).0 same) h.owner
    | inr differ ↦ absurd (h.others s (λ q. cc ((==_iff s sid).1 q, differ)) e)
  ];
  attached = h.attached;
  phase = subst (λ o. OwnerPhase o w) (sym h.owner) (h.allocated, rw (h.state, h.calls) p);
  known = h.known;
}

initialized-ne-created : ◌≢◌ {A = State} created initialized
initialized-ne-created e = cc

-- From a world of the invariant whose session is live to the owner's known state.
pub Inv-At :
    (sid : ℕ) (w : World)
    → Inv w
    → (w.sessions sid).state ≡ initialized
    → At sid initialized w.calls w × Running w.calls
Inv-At sid w inv e = (
  record {
    owner = inv.owned sid e;
    allocated = (here (inv.owned sid e) inv.phase).0;
    others = λ s n h. n (same (inv.owned s h) (inv.owned sid e));
    attached = inv.attached;
    native = elim (Bool-cases (w.sessions sid).native) [
      | inl yes' ↦ yes'
      | inr no' ↦ absurd (initialized-ne-created (sym (inv.attached sid no') ∙ e))
    ];
    state = e;
    calls = refl;
    known = inv.known;
  },
  rw e at ((here (inv.owned sid e) inv.phase).1),
)
  where
    here : {o : Option ℕ} → o ≡ some sid → OwnerPhase o w → OwnerPhase (some sid) w
    here p h = subst (λ x. OwnerPhase x w) p h

    same : {s : ℕ} → w.owner ≡ some s → w.owner ≡ some sid → s ≡ sid
    same p q = cc

Phase-Extends :
    {w w' : World} (o : Option ℕ)
    → Inv w
    → w.owner ≡ o
    → Steady w w'
    → OwnerPhase o w
    → OwnerPhase o w'
Phase-Extends none inv e st h = elim st.talked [
  | inl p ↦ p ∙ h
  | inr (sid, live, ext) ↦ absurd (no_owner (inv.owned sid live.active) e)
]
  where
    no_owner : {x : Option ℕ} {sid : ℕ} → x ≡ some sid → x ≡ none → ⊥
    no_owner p q = cc
Phase-Extends {w} {w'} (some o) inv e st h = (rw st.allocated h.0, rw st.states (talk st.talked))
  where
    talk : Talked w w' → Phase (w.sessions o).state w'.calls
    talk (inl p) = rw p h.1
    talk (inr (sid, live, ext)) =
        let q : o ≡ sid = cc (inv.owned sid live.active, e) in
        let a : (w.sessions o).state ≡ initialized = rw q live.active in
        rw a (Extends-trans (rw a at h.1) ext)

-- What an operation may do keeps the invariant.
pub Inv-Steady : {w w' : World} → Inv w → Steady w w' → Inv w'
Inv-Steady {w} {w'} inv st = record {
  owned = λ s h. st.owner ∙ inv.owned s (sym (st.states s) ∙ h);
  attached = λ s h. st.states s ∙ inv.attached s (sym (st.natives s) ∙ h);
  phase = subst (λ o. OwnerPhase o w') (sym st.owner) (Phase-Extends w.owner inv refl st inv.phase);
  known = subst₂ Known (sym st.default') (sym st.allocated) inv.known;
}
