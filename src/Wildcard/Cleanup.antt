-- ===== src/Wildcard/Cleanup.antt =====
-- The cleanup of a listing: which calls end it, and which failure leaves it.
use famepy.Prelude.{
  ℕ, ℤ, ◌≡◌, refl, ◌∙◌, ap, inl, inr, Bytes, List, [], ◌∷◌, ◌++◌, Bool, true, false, ◌||◌, not,
  Option, none, some, codes, contains_byte, All,
}
use famepy.Errors.{Error, Hli, Result, ok, err}
use famepy.Native.{Native, Call, cfmsopt}
use famepy.World.{World}
use famepy.Exec.{actions, Exec, pure, raise, catch, skip, call, finish}
use famepy.Runtime.{hli_of, attach_extended_error, attach_to}
use famepy.Runtime.Returns.{called, catch-ok, catch-err, bind-ok, bind-err}
use famepy.Runtime.Answers.{Answers, call-Settled}
use famepy.Runtime.Keeps.{Stable, captured_lem, Post-both}
use famepy.Runtime.Still.{session-bind}
use famepy.Objects.{FameObject}
use famepy.Wildcard.{
  set_option, keep_hli, reset_failed, reset_option, normalize, normalized_options, first_failure,
  clean_up, finally_if, is_err, Listing, list_body, list_locked, attach_and_raise,
}
use famepy.Wildcard.Keeps.{list_body-Keeps}

-- the resets of options, as calls
abbrev pub reset_calls : List Bytes → List Call → List Call
reset_calls [] cs = cs
reset_calls (o ∷ os) cs = reset_calls os (cfmsopt o (codes "ON") ∷ cs)

module _ (native : Native) (answers : Answers native) where
  set_option_lem :
      (o v : Bytes) (w : World)
      → contains_byte 0 o ≡ false
      → contains_byte 0 v ≡ false
      → set_option native o v w ≡ call native (cfmsopt o v) w
  unfolding actions set_option
  set_option_lem o v w h k = rw (h, k) refl

  abbrev on_call : Bytes → Call
  on_call o = cfmsopt o (codes "ON")

  keep_hli_lem :
      (e : Error) (h : Hli) (w : World)
      → hli_of e ≡ some h
      → reset_failed native e w ≡ (ok (e ∷ []), w)
  unfolding reset_failed keep_hli pure
  keep_hli_lem e h w k = rw k refl

  reset_option-Answers :
      (o : Bytes) (w : World)
      → contains_byte 0 o ≡ false
      → (es : List Error) × (reset_option native o w ≡ (ok es, called (on_call o) w))
  unfolding reset_option
  reset_option-Answers o w h =
      let (r, e, s) = call-Settled native answers (on_call o) w in
      let q : set_option native o (codes "ON") w ≡ (r, called (on_call o) w) =
        set_option_lem o (codes "ON") w h refl ∙ e in
      elim s [
        | inl (u, k) ↦ (
          [],
          catch-ok _ _ (
              bind-ok (set_option native o (codes "ON")) _
                (q ∙ ap (λ x. (x, called (on_call o) w)) k)
              ∙ pure_lem (called (on_call o) w)),
        )
        | inr (x, y, k, f) ↦ (
          y ∷ [],
          catch-err _ _ (
                bind-err (set_option native o (codes "ON")) _
                  (q ∙ ap (λ x. (x, called (on_call o) w)) k))
              ∙ keep_hli_lem y x (called (on_call o) w) f,
        )
      ]
    where
      pure_lem : (v : World) → pure {A = List Error} [] v ≡ (ok [], v)
      pure_lem v = unfold pure in refl

  normalize-Answers :
      (os : List Bytes) (w : World)
      → All (λ o. contains_byte 0 o ≡ false) os
      → (es : List Error) × (normalize native os w
          ≡ (ok es, record w { calls = reset_calls os w.calls }))
  unfolding normalize
  normalize-Answers [] w h = ([], unfold pure in refl)
  normalize-Answers (o ∷ os) w h =
      let (es, e) = reset_option-Answers o w h.0 in
      let (fs, f) = normalize-Answers os (called (on_call o) w) h.1 in
      (
        es ++ fs,
        bind-ok (reset_option native o) _ e
            ∙ bind-ok (normalize native os) _ f
            ∙ pure_lem (es ++ fs) (record w { calls = reset_calls (o ∷ os) w.calls }),
      )
    where
      pure_lem : (es : List Error) (v : World) → pure es v ≡ (ok es, v)
      pure_lem es v = unfold pure in refl

  -- the world after the resets
  abbrev normalized : World → World
  normalized w = record w { calls = reset_calls normalized_options w.calls }

  clean_up-Answers :
      (failed : Bool) (w : World)
      → (r : Result (Unit {0})) × (clean_up native failed w ≡ (r, normalized w))
        × ((failed ≡ true) → r ≡ ok tt)
  unfolding clean_up
  clean_up-Answers failed w =
      let (es, e) =
        normalize-Answers normalized_options w (refl, (refl, (refl, (refl, (refl, tt))))) in
      let (r, f, g) = last failed es (normalized w) in
      (r, bind-ok (normalize native normalized_options) _ e ∙ f, g)
    where
      last :
          (b : Bool) (es : List Error) (v : World)
          → (r : Result (Unit {0})) × (first_failure b es v ≡ (r, v)) × ((b ≡ true) → r ≡ ok tt)
      last b [] v = (ok tt, unfold first_failure skip pure in refl, λ h. refl)
      last true (e ∷ es) v = (ok tt, unfold first_failure skip pure in refl, λ h. refl)
      last false (e ∷ es) v = (err e, unfold first_failure raise in refl, λ h. cc)

  finally_if_lem :
      {A : Type 0} (m : Exec A) (c : Bool → Exec Unit) (w v : World) {r : Result Unit}
      → c (is_err (m w).0) (m w).1 ≡ (r, v)
      → finally_if m c w ≡ (finish (m w).0 r, v)
  unfolding finally_if
  finally_if_lem m c w v e = rw e refl

  finish-err :
      {A : Type 0} (e : Error) (r : Result Unit) → r ≡ ok tt → finish {A = A} (err e) r ≡ err e
  finish-err e r q = rw q refl

  cleaned :
      {A : Type 0} (m : Exec A) (w : World)
      → (r : Result Unit) × (finally_if m (clean_up native) w
          ≡ (finish (m w).0 r, normalized (m w).1))
        × ((is_err (m w).0 ≡ true) → r ≡ ok tt)
  cleaned m w =
      let (r, e, f) = clean_up-Answers (is_err (m w).0) (m w).1 in
      (r, finally_if_lem m (clean_up native) w (normalized (m w).1) e, f)

  -- Where every call comes back with a status, the newest five calls that a locked listing leaves
  -- behind set the five options of the listing ON, whether the listing returned or raised.
  pub list_locked-resets :
      (fuel sid : ℕ) (l : Listing) (key : ℤ) (w : World)
      → (cs : List Call) × ((list_locked native fuel sid l key w).1.calls
          ≡ cfmsopt (codes "ITEM ALIAS") (codes "ON")
            ∷ cfmsopt (codes "ITEM INDEX") (codes "ON")
            ∷ cfmsopt (codes "ITEM FREQUENCY") (codes "ON")
            ∷ cfmsopt (codes "ITEM TYPE") (codes "ON")
            ∷ cfmsopt (codes "ITEM CLASS") (codes "ON")
            ∷ cs)
  unfolding list_locked
  list_locked-resets fuel sid l key w =
      let m = catch (list_body native fuel sid l key) (attach_and_raise native sid) in
      let (r, e, f) = cleaned m w in ((m w).1.calls, ap (λ p. p.1.calls) e)

-- the retrieval of a session is off
abbrev Off : ℕ → World → Type 0
Off sid w = (w.sessions sid).retrieval ≡ false

Off-Stable : (sid : ℕ) → Stable (Off sid)
Off-Stable sid = record {
  calls = λ c q w h. h;
  texts = λ s t f w h. captured_lem (λ x. x.retrieval) s sid w t f (λ y. refl) ∙ h;
}

or_not : (a b : Bool) → b ≡ false → (a || not b) ≡ true
or_not true b e = refl
or_not false b e = rw e refl

module _ (native : Native) (sid : ℕ) where
  attach_to-Off :
      (e : Error) (o : Option Hli) (w : World)
      → Off sid w
      → attach_to native sid (w.sessions sid) e o w ≡ (ok e, w)
  unfolding attach_to pure
  attach_to-Off e none w h = refl
  attach_to-Off e (some x) w h = rw (or_not x.extended_captured (w.sessions sid).retrieval h) refl

  -- the extended text is left alone where no retrieval is configured
  attach_and_raise-Off :
      {A : Type 0} (e : Error) (w : World)
      → Off sid w
      → attach_and_raise native {A = A} sid e w ≡ (err e, w)
  unfolding attach_and_raise attach_extended_error raise
  attach_and_raise-Off e w h =
      bind-ok (attach_extended_error native sid e) _
        (session-bind sid _ w ∙ attach_to-Off e (hli_of e) w h)

module _ (native : Native) (answers : Answers native) where
  -- Where every call comes back with a status and the capture of extended errors is off, the
  -- failure of the listing itself is what a locked listing raises, whatever the resets do.
  pub list_locked-first_failure :
      (fuel sid : ℕ) (l : Listing) (key : ℤ) (w : World) (e : Error)
      → (w.sessions sid).retrieval ≡ false
      → (list_body native fuel sid l key w).0 ≡ err e
      → (list_locked native fuel sid l key w).0 ≡ err e
  unfolding list_locked
  list_locked-first_failure fuel sid l key w e off failed =
      ap (λ p. p.0) (found.1)
      ∙ ap (λ x. finish x found.0) (ap (λ p. p.0) raised)
      ∙ finish-err native answers e found.0 (found.2 (ap (λ p. is_err p.0) raised))
    where
      body : Exec (Option (List FameObject))
      body = list_body native fuel sid l key

      m : Exec (Option (List FameObject))
      m = catch body (attach_and_raise native sid)

      off' : Off sid (body w).1
      off' =
          Post-both (Off sid) (body w)
            ((list_body-Keeps native (Off sid) (Off-Stable sid) fuel sid l key).at w off)

      raised : m w ≡ (err e, (body w).1)
      raised =
          catch-err body _ (ap (λ r. (r, (body w).1)) failed)
          ∙ attach_and_raise-Off native sid e (body w).1 off'

      found :
          (r : Result Unit) × (finally_if m (clean_up native) w
            ≡ (finish (m w).0 r, normalized native answers (m w).1))
          × ((is_err (m w).0 ≡ true) → r ≡ ok tt)
      found = cleaned native answers m w
