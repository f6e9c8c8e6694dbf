-- ===== src/Runtime/Defaults.antt =====
-- The creation of sessions and the module functions `default_session`, `init_chli` and `close_chli`
-- keep the one-shot invariant.
use famepy.Exec
use famepy.Prelude.{
  ℕ, ◌+◌, ◌<◌, ◌≡◌, ◌≢◌, refl, inl, inr, Bool, true, false, Option, none, some, Bytes, arith, ◌==◌,
  Bool-cases, if◌then◌else◌, not, ◌&&◌,
}
use famepy.Errors.{Result, ok, err}
use famepy.Native.{Native}
use famepy.World.{World, created, initialized}
use famepy.Exec.{Exec, pure, raise, gets, modify, raise_if, skip, lift, ◌>>=◌}
use famepy.Runtime.{fresh_session, add_session, new_session, check_not_inherited}
use famepy.Runtime.Still.{
  Still, Still-bind, check_not_inherited-Still, raise_if-Still, lift-Still, gets-Still, skip-Still,
}
use famepy.Runtime.Invariant.{Inv, OwnerPhase, Known, Inv-Steady}
use famepy.Runtime.Loading.{replaced-Inv}
use famepy.Runtime.Lifecycle.{initialize}
use famepy.Runtime.OneShot.{initialize-Inv, finalize-Inv}
use famepy.Runtime.Process.{
  make_default, replace_default, keep_or_make, default_session, active_or_start, init_chli,
  finalize_owner, close_chli, check_process_unused, active_default,
}

unowned : (w : World) (o : Option ℕ) → OwnerPhase o w → o ≢ some w.next_session
unowned w none h e = none_some e
  where
    none_some : ◌≢◌ {A = Option ℕ} none (some w.next_session)
    none_some e = cc
unowned w (some o) h e = absurd (omega (arith, h.0, some_eq e))
  where
    some_eq : some o ≡ some w.next_session → o ≡ w.next_session
    some_eq e = cc

fresh-not_initialized :
    (pid : ℕ) (c i : Bool) (env : Option (Option Bytes)) (r : Option Bool)
    → (fresh_session pid c i env r).state ≢ initialized
unfolding fresh_session
fresh-not_initialized pid c true env r e = cc
fresh-not_initialized pid c false env r e = cc

fresh-attached :
    (pid : ℕ) (c i : Bool) (env : Option (Option Bytes)) (r : Option Bool)
    → (fresh_session pid c i env r).native ≡ false
    → (fresh_session pid c i env r).state ≡ created
unfolding fresh_session
fresh-attached pid c true env r e = cc
fresh-attached pid c false env r e = refl

add_session-Inv :
    (w : World) (pid : ℕ) (c i : Bool) (env : Option (Option Bytes)) (r : Option Bool)
    → Inv w
    → Inv (add_session (fresh_session pid c i env r) w)
unfolding add_session
add_session-Inv w pid c i env r inv =
    replaced-Inv w.next_session (w.next_session + 1) (fresh_session pid c i env r) w inv
      (omega arith) (unowned w w.owner inv.phase) (fresh-not_initialized pid c i env r)
      (fresh-attached pid c i env r)

-- A session number that the action gives is the number of a session.
abbrev pub Gives : Result ℕ × World → Type 0
Gives (ok d, w) = Inv w × (d < w.next_session)
Gives (err e, w) = Inv w

pub Gives-Inv : (r : Result ℕ × World) → Gives r → Inv r.1
Gives-Inv (ok d, w) h = h.0
Gives-Inv (err e, w) h = h

pub new_session-Gives :
    (c i : Bool) (env : Option (Option Bytes)) (r : Option Bool) (w : World)
    → Inv w
    → Gives (new_session c i env r w)
unfolding new_session raise_if gets modify pure raise ◌>>=◌
new_session-Gives c i env r w inv = elim (Bool-cases (not c && not i)) [
  | inl e ↦ rw e inv
  | inr e ↦ rw e (add_session-Inv w w.pid c i env r inv, grown)
]
  where
    grown : w.next_session < (add_session (fresh_session w.pid c i env r) w).next_session
    grown = unfold add_session in omega arith

module _ {A : Type 0} (m : Exec A) (f : A → Exec ℕ) where
  -- A step that keeps the invariant, in front of an action that gives a session.
  step-Gives :
      (w : World)
      → ((w : World) → Inv w → Inv (m w).1)
      → ((a : A) (w : World) → Inv w → Gives (f a w))
      → Inv w
      → Gives ((m >>= f) w)
  unfolding ◌>>=◌
  step-Gives w keep give inv = go (m w) (keep w inv)
    where
      go : (r : Result A × World) → Inv r.1 → Gives (Exec.continue r.0 f r.1)
      go (ok a, w') h = give a w' h
      go (err e, w') h = h

Still-Inv : {A : Type 0} (m : Exec A) → Still m → (w : World) → Inv w → Inv (m w).1
Still-Inv m st w inv = Inv-Steady inv (st w)

-- `_DEFAULT` is set to the session that was made.
set_default-Gives :
    (d : ℕ) (w : World)
    → Inv w
    → d < w.next_session
    → Gives ((modify (λ w. record w { default_session = some d }) >>= λ _. pure d) w)
unfolding modify pure ◌>>=◌
set_default-Gives d w inv h = (
  record { owned = inv.owned; attached = inv.attached; phase = same w.owner inv.phase; known = h },
  h,
)
  where
    same : (o : Option ℕ) → OwnerPhase o w → OwnerPhase o (record w { default_session = some d })
    same none h = h
    same (some o) h = h

make_default-Gives : (r : Result (Unit {0})) (w : World) → Inv w → Gives (make_default r w)
unfolding make_default
make_default-Gives r w inv =
    step-Gives (lift r) _ w (Still-Inv (lift r) (lift-Still r)) (λ _ w inv. made w inv) inv
  where
    after :
        (r : Result ℕ × World)
        → Gives r
        → Gives (
            Exec.continue r.0
              (λ sid. modify (λ w. record w { default_session = some sid }) >>= λ _. pure sid)
              r.1)
    after (ok d, w) h = set_default-Gives d w h.0 h.1
    after (err e, w) h = h

    made :
        (w : World)
        → Inv w
        → Gives (
            (new_session true false none none >>= λ sid.
            modify (λ w. record w { default_session = some sid }) >>= λ _. pure sid)
              w)
    made w inv =
        unfold ◌>>=◌ in
        after (new_session true false none none w) (new_session-Gives true false none none w inv)

check_process_unused-Still : Still check_process_unused
unfolding check_process_unused
check_process_unused-Still = Still-bind _ _ (gets-Still _) (λ b. raise_if-Still b _)

unused_first :
    (f : Exec ℕ) (w : World)
    → ((w : World) → Inv w → Gives (f w))
    → Inv w
    → Gives ((check_process_unused >>= λ _. f) w)
unused_first f w give inv =
    step-Gives check_process_unused (λ _. f) w
      (Still-Inv check_process_unused check_process_unused-Still) (λ _. give) inv

replace_default-Gives :
    (chosen : Bool) (r : Result (Unit {0})) (d : ℕ) (w : World)
    → Inv w
    → d < w.next_session
    → Gives (replace_default chosen r d w)
unfolding replace_default gets pure raise_if raise ◌>>=◌
replace_default-Gives false r d w inv h = (inv, h)
replace_default-Gives true r d w inv h = elim (Bool-cases (w.sessions d).native) [
  | inl e ↦ rw e inv
  | inr e ↦ rw e (make_default-Gives r w inv)
]

keep_or_make-Gives :
    (chosen : Bool) (r : Result (Unit {0})) (w : World) (o : Option ℕ)
    → Inv w
    → Known o w.next_session
    → Gives (keep_or_make w chosen r o w)
unfolding keep_or_make
keep_or_make-Gives chosen r w none inv h = unused_first _ w (make_default-Gives r) inv
keep_or_make-Gives chosen r w (some d) inv h = elim (Bool-cases ((w.sessions d).pid == w.pid)) [
  | inl e ↦ rw e (replace_default-Gives chosen r d w inv h)
  | inr e ↦ rw e (unused_first _ w (make_default-Gives r) inv)
]

pub default_session-Gives :
    (chosen : Bool) (r : Result (Unit {0})) (w : World) → Inv w → Gives (default_session chosen r w)
unfolding default_session
default_session-Gives chosen r w inv =
    step-Gives _ _ w (Still-Inv check_not_inherited check_not_inherited-Still)
      (λ _ w inv. step-Gives _ _ w (choice chosen) (λ _. rest) inv) inv
  where
    choice : (b : Bool) (w : World) → Inv w → Inv ((if b then check_process_unused else skip) w).1
    choice true w inv = Still-Inv check_process_unused check_process_unused-Still w inv
    choice false w inv = Still-Inv skip skip-Still w inv

    rest :
        (w : World)
        → Inv w
        → Gives ((gets (λ (w : World). w) >>= λ w. keep_or_make w chosen r w.default_session) w)
    rest w inv = unfold gets ◌>>=◌ in keep_or_make-Gives chosen r w w.default_session inv inv.known

module _ (native : Native) where
  -- The default session is made or kept, and then initialized.
  start_default :
      (r : Result ℕ × World)
      → Gives r
      → Inv (Exec.continue r.0 (λ d. initialize native d >>= λ _. pure d) r.1).1
  unfolding ◌>>=◌ pure
  start_default (ok d, w) h = go (initialize native d w) (initialize-Inv native d w h.0 h.1)
    where
      go : (x : Result (Unit {0}) × World) → Inv x.1 → Inv (Exec.continue x.0 (λ _. pure d) x.1).1
      go (ok u, w') i = i
      go (err e, w') i = i
  start_default (err e, w) h = h

  active_or_start-Inv :
      (chosen : Bool) (r : Result (Unit {0})) (o : Option ℕ) (w : World)
      → Inv w
      → Inv (active_or_start native chosen r o w).1
  unfolding active_or_start raise_if raise pure ◌>>=◌
  active_or_start-Inv true r (some d) w inv = inv
  active_or_start-Inv false r (some d) w inv = inv
  active_or_start-Inv chosen r none w inv =
      start_default (default_session chosen r w) (default_session-Gives chosen r w inv)

  bind-Inv :
      {A B : Type 0} (m : Exec A) (f : A → Exec B) (w : World)
      → Inv (m w).1
      → ((a : A) (w : World) → Inv w → Inv (f a w).1)
      → Inv ((m >>= f) w).1
  unfolding ◌>>=◌
  bind-Inv {A} m f w im jf = go (m w) im
    where
      go : (x : Result A × World) → Inv x.1 → Inv (Exec.continue x.0 f x.1).1
      go (ok a, w') i = jf a w' i
      go (err e, w') i = i

  -- Whatever the library and the discovery do, `init_chli` keeps the one-shot invariant.
  pub init_chli-Inv :
      (chosen : Bool) (r : Result (Unit {0})) (w : World)
      → Inv w
      → Inv (init_chli native chosen r w).1
  unfolding init_chli
  init_chli-Inv chosen r w inv =
      bind-Inv _ _ w (Still-Inv check_not_inherited check_not_inherited-Still w inv) λ _ w inv.
        bind-Inv _ _ w (Still-Inv check_process_unused check_process_unused-Still w inv) λ _ w inv.
          bind-Inv _ _ w (Still-Inv (gets (λ (w : World). w)) (gets-Still _) w inv) λ v w inv.
            bind-Inv _ _ w (Still-Inv (raise_if _ _) (raise_if-Still _ _) w inv)
              λ _ w inv. active_or_start-Inv chosen r (active_default v) w inv

  finalize_owner-Inv : (o : Option ℕ) (w : World) → Inv w → Inv (finalize_owner native o w).1
  unfolding finalize_owner skip pure
  finalize_owner-Inv none w inv = inv
  finalize_owner-Inv (some o) w inv = finalize-Inv native o w inv

  pub close_chli-Inv : (w : World) → Inv w → Inv (close_chli native w).1
  unfolding close_chli gets ◌>>=◌
  close_chli-Inv w inv = finalize_owner-Inv w.owner w inv
