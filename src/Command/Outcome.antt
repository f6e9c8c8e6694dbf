-- ===== src/Command/Outcome.antt =====
-- What a command does for every status of its three calls.
use famepy.Prelude.{
  ℕ, ℤ, pos, ◌==ℤ◌, ◌≡◌, refl, ◌∙◌, ap, Bytes, Bool, true, false, not, Option, none, some, List,
  ◌∷◌, ◌++◌, codes, contains_byte, if◌then◌else◌,
}
use famepy.Errors.{Error, redirect, command, restore, Result, ok, err}
use famepy.Native.{Native, Call, cfmfame, returned}
use famepy.World.{World}
use famepy.Exec.{actions, Exec, pure, raise, lift, gets, catch, skip, ◌>>=◌, ◌>>◌}
use famepy.Runtime.{session, capture_extended_error}
use famepy.Runtime.Returns.{bind-ok, bind-err, catch-ok, called}
use famepy.Command.{
  Output, quote_path, failure, nonzero, execute, text_of, payload, redirect_failed, conclude,
  run_command,
}

-- the command that redirects the output to a path
abbrev pub redirection : Bytes → Bytes
redirection quoted = codes "output file(\"" ++ (quoted ++ codes "!\")")

abbrev pub restoration : Bytes
restoration = codes "output terminal"

-- The outcome by the statuses of the redirection, the command and the restoration, with what the
-- output file holds.
abbrev pub outcome : ℤ → ℤ → ℤ → Bytes → Result Bytes
outcome s1 s2 s3 captured =
    if not (s1 ==ℤ pos 0)
    then err (failure s1 redirect none none none)
    else if not (s2 ==ℤ pos 0)
    then err (failure s2 command (some captured) none (nonzero s3))
    else if not (s3 ==ℤ pos 0)
    then err (failure s3 restore (some captured) none none)
    else ok captured

-- the calls that were made: a failed redirection is the only one
abbrev pub made : ℤ → Bytes → Bytes → World → World
made s1 quoted text w =
    if s1 ==ℤ pos 0
    then called (cfmfame restoration)
        (called (cfmfame text) (called (cfmfame (redirection quoted)) w))
    else called (cfmfame (redirection quoted)) w

module _ (native : Native) (sid : ℕ) where
  execute_lem :
      (text : Bytes) (s : ℤ) (w : World)
      → contains_byte 0 text ≡ false
      → native.respond w.calls (cfmfame text) ≡ returned s tt
      → execute native text w ≡ (ok s, called (cfmfame text) w)
  unfolding actions execute
  execute_lem text s w h e = rw (h, e) refl

  capture-off :
      (w : World)
      → (w.sessions sid).retrieval ≡ false
      → capture_extended_error native sid w ≡ (ok none, w)
  unfolding actions capture_extended_error session
  capture-off w h = rw h refl

  text_of-off :
      (s : ℤ) (w : World)
      → (w.sessions sid).retrieval ≡ false
      → text_of native sid s w ≡ (ok none, w)
  unfolding text_of pure
  text_of-off s w h = pick (s ==ℤ pos 0)
    where
      pick :
          (b : Bool) → (if b then pure none else capture_extended_error native sid) w ≡ (ok none, w)
      pick true = refl
      pick false = capture-off w h

  pure_lem : {A : Type 0} (a : A) (w : World) → pure a w ≡ (ok a, w)
  pure_lem a w = unfold pure in refl

  raise_lem : {A : Type 0} (e : Error) (w : World) → raise {A = A} e w ≡ (err e, w)
  raise_lem e w = unfold raise in refl

  payload_lem :
      (text : Bytes) (s : ℤ) (w : World)
      → contains_byte 0 text ≡ false
      → (w.sessions sid).retrieval ≡ false
      → native.respond w.calls (cfmfame text) ≡ returned s tt
      → payload native sid text w ≡ (ok (s, none), called (cfmfame text) w)
  unfolding payload
  payload_lem text s w h off e =
      bind-ok (execute native text) _ (execute_lem text s w h e)
      ∙ bind-ok (text_of native sid s) _ (text_of-off s (called (cfmfame text) w) off)
      ∙ pure_lem (s, none) (called (cfmfame text) w)

  conclude_lem :
      (s2 s3 : ℤ) (captured : Bytes) (w : World)
      → (w.sessions sid).retrieval ≡ false
      → conclude native sid s2 none s3 captured w ≡ (outcome (pos 0) s2 s3 captured, w)
  unfolding conclude
  conclude_lem s2 s3 captured w off = pick (s2 ==ℤ pos 0) (s3 ==ℤ pos 0)
    where
      e2 : Error
      e2 = failure s2 command (some captured) none (nonzero s3)

      pick :
          (a b : Bool)
          → (if not a
                then raise e2
                else if not b
                then (capture_extended_error native sid >>= λ text.
                    raise (failure s3 restore (some captured) text none))
                else pure captured)
              w
            ≡ (
              if not a
                  then err e2
                  else if not b
                  then err (failure s3 restore (some captured) none none)
                  else ok captured,
              w,
            )
      pick false b = raise_lem e2 w
      pick true false =
          bind-ok (capture_extended_error native sid) _ (capture-off w off)
          ∙ raise_lem (failure s3 restore (some captured) none none) w
      pick true true = pure_lem captured w

  redirect-ok :
      (s : ℤ) (w : World) → (s ==ℤ pos 0) ≡ true → redirect_failed native sid s w ≡ (ok tt, w)
  unfolding redirect_failed skip pure
  redirect-ok s w z = rw z refl

  redirect-err :
      (s : ℤ) (w : World)
      → (s ==ℤ pos 0) ≡ false
      → (w.sessions sid).retrieval ≡ false
      → redirect_failed native sid s w ≡ (err (failure s redirect none none none), w)
  unfolding redirect_failed
  redirect-err s w z off = rw z (
      bind-ok (capture_extended_error native sid) _ (capture-off w off)
      ∙ raise_lem (failure s redirect none none none) w)

  -- With the capture of extended errors off, a command makes the redirection and, if that
  -- succeeded, the command and the restoration whether or not the command failed. The first of the
  -- three that failed is the stage of the error, with the output kept and, beside a failed
  -- command, the status of a failed restoration; if none failed the output is what is returned.
  pub run_command-outcome :
      (output : Output) (path quoted text captured : Bytes) (s1 s2 s3 : ℤ) (w : World)
      → output.path ≡ ok path
      → quote_path path ≡ ok quoted
      → contains_byte 0 (redirection quoted) ≡ false
      → contains_byte 0 text ≡ false
      → (w.sessions sid).retrieval ≡ false
      → native.respond w.calls (cfmfame (redirection quoted)) ≡ returned s1 tt
      → native.respond (cfmfame (redirection quoted) ∷ w.calls) (cfmfame text) ≡ returned s2 tt
      → native.respond (cfmfame text ∷ cfmfame (redirection quoted) ∷ w.calls) (cfmfame restoration)
        ≡ returned s3 tt
      → output.captured
          (cfmfame restoration ∷ cfmfame text ∷ cfmfame (redirection quoted) ∷ w.calls)
        ≡ ok captured
      → run_command native output sid text w ≡ (outcome s1 s2 s3 captured, made s1 quoted text w)
  unfolding run_command
  run_command-outcome output path quoted text captured s1 s2 s3 w p q nul nul' off r1 r2 r3 c =
      bind-ok (lift output.path) _ {w' = w} {a = path} (lift_lem w p)
      ∙ bind-ok (lift (quote_path path)) _ {w' = w} {a = quoted} (lift_lem w q)
      ∙ bind-ok (execute native (redirection quoted)) _
          (execute_lem (redirection quoted) s1 w nul r1)
      ∙ pick (s1 ==ℤ pos 0) refl
    where
      w1 : World
      w1 = called (cfmfame (redirection quoted)) w

      w2 : World
      w2 = called (cfmfame text) w1

      w3 : World
      w3 = called (cfmfame restoration) w2

      lift_lem : {A : Type 0} {r : Result A} {a : A} (v : World) → r ≡ ok a → lift r v ≡ (ok a, v)
      lift_lem v e = unfold lift in ap (λ x. (x, v)) e

      gets_lem : (v : World) → gets (λ u. u.calls) v ≡ (ok v.calls, v)
      gets_lem v = unfold gets in refl

      finish' : ℤ × Option Bytes → ℤ → List Call → Exec Bytes
      finish' x restored calls =
          lift (output.captured calls) >>= λ kept. conclude native sid x.0 x.1 restored kept

      after_payload : ℤ × Option Bytes → Exec Bytes
      after_payload x = execute native restoration >>= λ restored.
          gets (λ u. u.calls) >>= λ calls. finish' x restored calls

      rest : Exec Bytes
      rest =
          catch (payload native sid text) (λ e. execute native restoration >> raise e)
          >>= after_payload

      success : rest w1 ≡ (outcome (pos 0) s2 s3 captured, w3)
      success =
          bind-ok (catch (payload native sid text) (λ e. execute native restoration >> raise e))
            after_payload
            (catch-ok (payload native sid text) _ (payload_lem text s2 w1 nul' off r2))
          ∙ bind-ok (execute native restoration) _ (execute_lem restoration s3 w2 refl r3)
          ∙ bind-ok (gets (λ u. u.calls)) _ (gets_lem w3)
          ∙ bind-ok (lift (output.captured w3.calls)) _ {w' = w3} {a = captured} (lift_lem w3 c)
          ∙ conclude_lem s2 s3 captured w3 off

      pick :
          (b : Bool)
          → (s1 ==ℤ pos 0) ≡ b
          → (redirect_failed native sid s1 >>= λ _. rest) w1
            ≡ (outcome s1 s2 s3 captured, made s1 quoted text w)
      pick true z =
          bind-ok (redirect_failed native sid s1) _ (redirect-ok s1 w1 z) ∙ success ∙ rw z refl
      pick false z =
          bind-err (redirect_failed native sid s1) _ (redirect-err s1 w1 z off) ∙ rw z refl
