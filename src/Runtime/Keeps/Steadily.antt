-- ===== src/Runtime/Keeps/Steadily.antt =====
-- An action that keeps every stable condition is quiet in every session.
use famepy.Prelude.{ℕ, ◌≡◌, refl, inr, false, Option}
use famepy.Errors.{Error}
use famepy.Native.{Call}
use famepy.World.{World}
use famepy.Prelude.{Bytes}
use famepy.Exec.{Exec, modify}
use famepy.Runtime.{update}
use famepy.Runtime.Returns.{called}
use famepy.Runtime.Steady.{
  is_lifecycle, same, more, IsLive, IsLive-Steady, Steady, Steady-refl, Steady-trans, Steady-update,
  Quiet,
}
use famepy.Runtime.Keeps.{Stable, Keeps, Post-both, captured}

called-Steady :
    (sid : ℕ) (c : Call) (w : World) → is_lifecycle c ≡ false → IsLive sid w → Steady w (called c w)
called-Steady sid c w h live = record {
  owner = refl;
  pid = refl;
  inherited = refl;
  states = λ s. refl;
  pids = λ s. refl;
  natives = λ s. refl;
  allocated = refl;
  default' = refl;
  talked = inr (sid, live, more h same);
}

captured-Steady :
    (s : ℕ) (t : Option Bytes) (f : Option Error) (w : World) → Steady w (captured s t f w)
unfolding update modify
captured-Steady s t f w =
    Steady-update s (λ x. record x { last_extended_error = t; capture_failure = f }) w (λ x. refl)
      (λ x. refl) (λ x. refl)

Steady-Stable : (sid : ℕ) (w : World) → IsLive sid w → Stable (Steady w)
Steady-Stable sid w live = record {
  calls = λ c q v st. Steady-trans st (called-Steady sid c v q (IsLive-Steady sid st live));
  texts = λ s t f v st. Steady-trans st (captured-Steady s t f v);
}

pub Quiet-Keeps :
    {A : Type 0} (m : Exec A) (sid : ℕ)
    → ((P : World → Type 0) → Stable P → Keeps P m)
    → Quiet sid m
Quiet-Keeps m sid k = record {
  at = λ w live.
      Post-both (Steady w) (m w) ((k (Steady w) (Steady-Stable sid w live)).at w (Steady-refl w));
}
