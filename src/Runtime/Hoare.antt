-- ===== src/Runtime/Hoare.antt =====
-- What an action leads to: one condition on the state where it returns, another where it raises.
use famepy.Exec
use famepy.Errors.{Error, Result, ok, err}
use famepy.World.{World}
use famepy.Exec.{Exec, pure, raise, gets, modify, catch, raise_if, ◌>>=◌}

abbrev pub Post : {A : Type 0} → Result A × World → (World → Type 0) → (World → Type 0) → Type 0
Post (ok _, w) Q E = Q w
Post (err _, w) Q E = E w

pub record Leads {A : Type 0} (P : World → Type 0) (m : Exec A) (Q E : World → Type 0)
    : Type 0 where
  pub at : (w : World) → P w → Post (m w) Q E

module _ {A : Type 0} (P Q E : World → Type 0) where
  pub Leads-raise : (e : Error) → ((w : World) → P w → E w) → Leads P (raise {A = A} e) Q E
  unfolding raise
  Leads-raise e h = record { at = h }

  pub Leads-pure : (a : A) → ((w : World) → P w → Q w) → Leads P (pure a) Q E
  unfolding pure
  Leads-pure a h = record { at = h }

module _ {A : Type 0} (P P' Q Q' E E' : World → Type 0) where
  weaken_at :
      (r : Result A × World)
      → ((w : World) → Q w → Q' w)
      → ((w : World) → E w → E' w)
      → Post r Q E
      → Post r Q' E'
  weaken_at (ok a, w) hq he p = hq w p
  weaken_at (err e, w) hq he p = he w p

  pub Leads-weaken :
      (m : Exec A)
      → ((w : World) → P' w → P w)
      → ((w : World) → Q w → Q' w)
      → ((w : World) → E w → E' w)
      → Leads P m Q E
      → Leads P' m Q' E'
  Leads-weaken m hp hq he l = record { at = λ w p. weaken_at (m w) hq he (l.at w (hp w p)) }

module _ {A : Type 0} (P M Q E : World → Type 0) where
  handle_at :
      (r : Result A × World) (h : Error → Exec A)
      → Post r Q M
      → ((e : Error) → Leads M (h e) Q E)
      → Post (Exec.handle r.0 h r.1) Q E
  handle_at (ok a, w) h p l = p
  handle_at (err e, w) h p l = (l e).at w p

  pub Leads-catch :
      (m : Exec A) (h : Error → Exec A)
      → Leads P m Q M
      → ((e : Error) → Leads M (h e) Q E)
      → Leads P (catch m h) Q E
  unfolding catch
  Leads-catch m h l k = record { at = λ w p. handle_at (m w) h (l.at w p) k }

module _ {A B : Type 0} (P M Q E : World → Type 0) where
  continue_at :
      (r : Result A × World) (f : A → Exec B)
      → Post r M E
      → ((a : A) → Leads M (f a) Q E)
      → Post (Exec.continue r.0 f r.1) Q E
  continue_at (ok a, w) f p l = (l a).at w p
  continue_at (err e, w) f p l = p

  pub Leads-bind :
      (m : Exec A) (f : A → Exec B)
      → Leads P m M E
      → ((a : A) → Leads M (f a) Q E)
      → Leads P (m >>= f) Q E
  unfolding ◌>>=◌
  Leads-bind m f l k = record { at = λ w p. continue_at (m w) f (l.at w p) k }
