-- ===== src/Runtime/Steady.antt =====
-- What an operation of a running session may change: it makes calls other than those of the
-- lifecycle, and leaves the owner, the process and the state of every session alone.
use famepy.Exec
use famepy.Prelude.{
  ℕ, ◌≡◌, refl, sym, ◌∙◌, ◌⊎◌, inl, inr, Bool, true, false, Option, none, some, List, ◌∷◌, ◌==◌,
  ==_iff, Bool-cases, if◌then◌else◌,
}
use famepy.Errors.{Error, Result, ok, err}
use famepy.Native.{Native, Call, cfmini, cfmfin}
use famepy.World.{World, Session, initialized, set_at}
use famepy.Exec.{
  Exec, pure, raise, lift, gets, modify, catch, finally, skip, raise_if, call, call_status, ◌>>=◌,
  ◌>>◌,
}
use famepy.Runtime.{session, update}

abbrev pub is_lifecycle : Call → Bool
is_lifecycle cfmini = true
is_lifecycle cfmfin = true
is_lifecycle _ = false

-- The second history is the first with more calls, none of them of the lifecycle.
pub data Extends (cs : List Call) : List Call → Type 0 where
  same : Extends cs cs
  more : {ds : List Call} {c : Call} → is_lifecycle c ≡ false → Extends cs ds → Extends cs (c ∷ ds)

pub Extends-trans : {cs ds es : List Call} → Extends cs ds → Extends ds es → Extends cs es
Extends-trans a same = a
Extends-trans a (more h b) = more h (Extends-trans a b)

-- The session may use the library in this process.
pub record IsLive (sid : ℕ) (w : World) : Type 0 where
  pub active : (w.sessions sid).state ≡ initialized
  pub own : (w.sessions sid).pid ≡ w.pid
  pub fresh : w.inherited ≡ false

-- No call was made, or those of a session that may make them.
abbrev pub Talked : World → World → Type 0
Talked w w' = (w'.calls ≡ w.calls) ⊎ ((sid : ℕ) × IsLive sid w × Extends w.calls w'.calls)

pub record Steady (w w' : World) : Type 0 where
  pub owner : w'.owner ≡ w.owner
  pub pid : w'.pid ≡ w.pid
  pub inherited : w'.inherited ≡ w.inherited
  pub states : (s : ℕ) → (w'.sessions s).state ≡ (w.sessions s).state
  pub pids : (s : ℕ) → (w'.sessions s).pid ≡ (w.sessions s).pid
  pub natives : (s : ℕ) → (w'.sessions s).native ≡ (w.sessions s).native
  pub allocated : w'.next_session ≡ w.next_session
  pub default' : w'.default_session ≡ w.default_session
  pub talked : Talked w w'

pub Steady-refl : (w : World) → Steady w w
Steady-refl w = record {
  owner = refl;
  pid = refl;
  inherited = refl;
  states = λ s. refl;
  pids = λ s. refl;
  natives = λ s. refl;
  allocated = refl;
  default' = refl;
  talked = inl refl;
}

pub IsLive-Steady : (sid : ℕ) {w w' : World} → Steady w w' → IsLive sid w → IsLive sid w'
IsLive-Steady sid st h = record {
  active = st.states sid ∙ h.active;
  own = st.pids sid ∙ h.own ∙ sym st.pid;
  fresh = st.inherited ∙ h.fresh;
}

IsLive-back : (sid : ℕ) {w w' : World} → Steady w w' → IsLive sid w' → IsLive sid w
IsLive-back sid st h = record {
  active = sym (st.states sid) ∙ h.active;
  own = sym (st.pids sid) ∙ h.own ∙ st.pid;
  fresh = sym st.inherited ∙ h.fresh;
}

Talked-trans : (u v w : World) → Steady u v → Talked u v → Talked v w → Talked u w
Talked-trans u v w st (inl p) (inl q) = inl (q ∙ p)
Talked-trans u v w st (inl p) (inr (sid, live, ext)) =
    inr (sid, IsLive-back sid st live, rw p at ext)
Talked-trans u v w st (inr (sid, live, ext)) (inl q) = inr (sid, live, rw q ext)
Talked-trans u v w st (inr (sid, live, ext)) (inr (sid', live', ext')) =
    inr (sid, live, Extends-trans ext ext')

pub Steady-trans : {u v w : World} → Steady u v → Steady v w → Steady u w
Steady-trans {u} {v} {w} a b = record {
  owner = b.owner ∙ a.owner;
  pid = b.pid ∙ a.pid;
  inherited = b.inherited ∙ a.inherited;
  states = λ s. b.states s ∙ a.states s;
  pids = λ s. b.pids s ∙ a.pids s;
  natives = λ s. b.natives s ∙ a.natives s;
  allocated = b.allocated ∙ a.allocated;
  default' = b.default' ∙ a.default';
  talked = Talked-trans u v w a a.talked b.talked;
}

-- The action is steady wherever the session is live.
pub record Quiet {A : Type 0} (sid : ℕ) (m : Exec A) : Type 0 where
  pub at : (w : World) → IsLive sid w → Steady w (m w).1

module _ {A : Type 0} (sid : ℕ) where
  pub Quiet-pure : (a : A) → Quiet sid (pure a)
  unfolding pure
  Quiet-pure a = record { at = λ w h. Steady-refl w }

  pub Quiet-raise : (e : Error) → Quiet sid (raise {A = A} e)
  unfolding raise
  Quiet-raise e = record { at = λ w h. Steady-refl w }

  pub Quiet-lift : (r : Result A) → Quiet sid (lift r)
  unfolding lift
  Quiet-lift r = record { at = λ w h. Steady-refl w }

  pub Quiet-gets : (f : World → A) → Quiet sid (gets f)
  unfolding gets
  Quiet-gets f = record { at = λ w h. Steady-refl w }

  pub Quiet-if :
      (b : Bool) (m n : Exec A) → Quiet sid m → Quiet sid n → Quiet sid (if b then m else n)
  Quiet-if true m n hm hn = hm
  Quiet-if false m n hm hn = hn

  handle-Steady :
      (r : Result A) (h : Error → Exec A) (w w' : World)
      → Steady w w'
      → IsLive sid w'
      → ((e : Error) → Quiet sid (h e))
      → Steady w (Exec.handle r h w').1
  handle-Steady (ok a) h w w' st live q = st
  handle-Steady (err e) h w w' st live q = Steady-trans st ((q e).at w' live)

  pub Quiet-catch :
      (m : Exec A) (h : Error → Exec A)
      → Quiet sid m
      → ((e : Error) → Quiet sid (h e))
      → Quiet sid (catch m h)
  unfolding catch
  Quiet-catch m h qm qh = record {
    at = λ w live.
        let st = qm.at w live in
        handle-Steady (m w).0 h w (m w).1 st (IsLive-Steady sid st live) qh;
  }

  pub Quiet-finally :
      (m : Exec A) (c : Exec Unit) → Quiet sid m → Quiet sid c → Quiet sid (finally m c)
  unfolding finally
  Quiet-finally m c qm qc = record {
    at = λ w live.
        let st = qm.at w live in Steady-trans st (qc.at (m w).1 (IsLive-Steady sid st live));
  }

module _ {A B : Type 0} (sid : ℕ) where
  continue-Steady :
      (r : Result A) (f : A → Exec B) (w w' : World)
      → Steady w w'
      → IsLive sid w'
      → ((a : A) → Quiet sid (f a))
      → Steady w (Exec.continue r f w').1
  continue-Steady (ok a) f w w' st live q = Steady-trans st ((q a).at w' live)
  continue-Steady (err e) f w w' st live q = st

  pub Quiet-bind :
      (m : Exec A) (f : A → Exec B)
      → Quiet sid m
      → ((a : A) → Quiet sid (f a))
      → Quiet sid (m >>= f)
  unfolding ◌>>=◌
  Quiet-bind m f qm qf = record {
    at = λ w live.
        let st = qm.at w live in
        continue-Steady (m w).0 f w (m w).1 st (IsLive-Steady sid st live) qf;
  }

  pub Quiet-option :
      (o : Option A) (m : Exec B) (f : A → Exec B)
      → Quiet sid m
      → ((a : A) → Quiet sid (f a))
      → Quiet sid (elim o [ none ↦ m | some a ↦ f a ])
  Quiet-option none m f hm hf = hm
  Quiet-option (some a) m f hm hf = hf a

pub Quiet-skip : (sid : ℕ) → Quiet sid skip
unfolding skip pure
Quiet-skip sid = Quiet-pure sid tt

pub Quiet-raise_if : (sid : ℕ) (b : Bool) (e : Error) → Quiet sid (raise_if b e)
unfolding raise_if pure raise
Quiet-raise_if sid true e = Quiet-raise sid e
Quiet-raise_if sid false e = Quiet-pure sid tt

pub Quiet-session : (sid s : ℕ) → Quiet sid (session s)
unfolding session
Quiet-session sid s = Quiet-gets sid _

-- An assignment that is no assignment to the state or the process of the session.
pub set_at-eq {ℓ κ} :
    {A : Type ℓ} {B : Type κ} (g : A → B) (f : ℕ → A) (i : ℕ) (a : A)
    → g a ≡ g (f i)
    → (j : ℕ) → g (set_at f i a j) ≡ g (f j)
set_at-eq g f i a h j = elim (Bool-cases (i == j)) [
  | inl e ↦ rw (e, ← (==_iff i j).0 e) h
  | inr e ↦ rw e
]

pub Steady-update :
    (s : ℕ) (f : Session → Session) (w : World)
    → ((x : Session) → (f x).state ≡ x.state)
    → ((x : Session) → (f x).pid ≡ x.pid)
    → ((x : Session) → (f x).native ≡ x.native)
    → Steady w (update s f w).1
unfolding update modify
Steady-update s f w hs hp hn = record {
  owner = refl;
  pid = refl;
  inherited = refl;
  states = set_at-eq (λ (x : Session). x.state) w.sessions s (f (w.sessions s)) (hs (w.sessions s));
  pids = set_at-eq (λ (x : Session). x.pid) w.sessions s (f (w.sessions s)) (hp (w.sessions s));
  natives =
      set_at-eq (λ (x : Session). x.native) w.sessions s (f (w.sessions s)) (hn (w.sessions s));
  allocated = refl;
  default' = refl;
  talked = inl refl;
}

pub Quiet-update :
    (sid s : ℕ) (f : Session → Session)
    → ((x : Session) → (f x).state ≡ x.state)
    → ((x : Session) → (f x).pid ≡ x.pid)
    → ((x : Session) → (f x).native ≡ x.native)
    → Quiet sid (update s f)
Quiet-update sid s f hs hp hn = record { at = λ w h. Steady-update s f w hs hp hn }

module _ (native : Native) (sid : ℕ) where
  pub Quiet-call_status : (c : Call) → is_lifecycle c ≡ false → Quiet sid (call_status native c)
  unfolding call_status
  Quiet-call_status c h = record {
    at = λ w live. record {
      owner = refl;
      pid = refl;
      inherited = refl;
      states = λ s. refl;
      pids = λ s. refl;
      natives = λ s. refl;
      allocated = refl;
      default' = refl;
      talked = inr (sid, live, more h same);
    };
  }

  pub Quiet-call : (c : Call) → is_lifecycle c ≡ false → Quiet sid (call native c)
  unfolding call
  Quiet-call c h = Quiet-bind sid _ _ (Quiet-call_status c h) (λ r. Quiet-lift sid _)
