-- ===== src/Command/Keeps.antt =====
-- What native calls and extended error texts leave alone, a command leaves alone.
use famepy.Prelude.{ℕ, refl, ℤ, Bytes, Option, none}
use famepy.Native.{Native, cfmfame}
use famepy.World.{World}
use famepy.Exec.{skip}
use famepy.Runtime.Keeps.{
  Stable, Keeps, Keeps-pure, Keeps-raise, Keeps-lift, Keeps-gets, Keeps-raise_if, Keeps-if,
  Keeps-bind, Keeps-catch, call_status-Keeps, capture-Keeps,
}
use famepy.Command.{Output, execute, text_of, payload, redirect_failed, conclude, run_command}

module _ (native : Native) (P : World → Type 0) (stable : Stable P) where
  execute-Keeps : (text : Bytes) → Keeps P (execute native text)
  unfolding execute
  execute-Keeps text = Keeps-bind P _ _ (Keeps-raise_if P _ _) λ _.
      Keeps-bind P _ _ (call_status-Keeps native P stable (cfmfame text) refl) (λ r. Keeps-pure P _)

  payload-Keeps : (sid : ℕ) (text : Bytes) → Keeps P (payload native sid text)
  unfolding payload text_of
  payload-Keeps sid text = Keeps-bind P _ _ (execute-Keeps text) λ status.
      Keeps-bind P _ _ (Keeps-if P _ _ _ (Keeps-pure P none) (capture-Keeps native P stable sid))
        (λ extended. Keeps-pure P _)

  redirect-Keeps : (sid : ℕ) (status : ℤ) → Keeps P (redirect_failed native sid status)
  unfolding redirect_failed skip
  redirect-Keeps sid status =
      Keeps-if P _ _ _ (Keeps-pure P tt)
        (Keeps-bind P _ _ (capture-Keeps native P stable sid) (λ text. Keeps-raise P _))

  conclude-Keeps :
      (sid : ℕ) (status : ℤ) (extended : Option Bytes) (restored : ℤ) (captured : Bytes)
      → Keeps P (conclude native sid status extended restored captured)
  unfolding conclude
  conclude-Keeps sid status extended restored captured = Keeps-if P _ _ _ (Keeps-raise P _) (
      Keeps-if P _ _ _
        (Keeps-bind P _ _ (capture-Keeps native P stable sid) (λ text. Keeps-raise P _))
        (Keeps-pure P captured))

  pub run_command-Keeps :
      (output : Output) (sid : ℕ) (text : Bytes) → Keeps P (run_command native output sid text)
  unfolding run_command
  run_command-Keeps output sid text = Keeps-bind P _ _ (Keeps-lift P _) λ path.
      Keeps-bind P _ _ (Keeps-lift P _) λ quoted. Keeps-bind P _ _ (execute-Keeps _) λ status.
        Keeps-bind P _ _ (redirect-Keeps sid status) λ _.
          Keeps-bind P _ _
            (Keeps-catch P _ _ (payload-Keeps sid text)
              (λ e. Keeps-bind P _ _ (execute-Keeps _) (λ _. Keeps-raise P e)))
            λ p. Keeps-bind P _ _ (execute-Keeps _) λ restored.
              Keeps-bind P _ _ (Keeps-gets P _) λ calls.
                Keeps-bind P _ _ (Keeps-lift P _) (λ kept. conclude-Keeps sid _ _ restored kept)
