-- ===== src/Exec/Ends.antt =====
-- Conditions on what an action returns and on the state that it leaves, from a known state.
use famepy.Prelude.{◌≡◌, refl, subst, Bool, true, false, if◌then◌else◌}
use famepy.Errors.{Error, Result, ok, err}
use famepy.World.{World}
use famepy.Exec.{Exec, pure, lift, raise, raise_if, continue, finally, finish, ◌>>=◌}

-- what an action leaves where it returns
abbrev pub Ends : {A : Type 0} → (A → World → Type 0) → Result A × World → Type 0
Ends Q (ok a, w) = Q a w
Ends Q (err e, w) = Unit

module _ {A : Type 0} (Q : A → World → Type 0) where
  pub Ends-ok : (p : Result A × World) (a : A) → Ends Q p → p.0 ≡ ok a → Q a p.1
  Ends-ok (ok b, w) a h e = subst (λ x. Q x w) (injective e) h
    where
      injective : ok b ≡ ok a → b ≡ a
      injective q = cc
  Ends-ok (err x, w) a h e = absurd (no e)
    where
      no : err x ≡ ok a → ⊥
      no q = cc

  pub Ends-bind :
      {B : Type 0} (m : Exec B) (f : B → Exec A) (w : World)
      → ((b : B) → (m w).0 ≡ ok b → Ends Q (f b (m w).1))
      → Ends Q ((m >>= f) w)
  unfolding ◌>>=◌
  Ends-bind {B} m f w h = go (m w) h
    where
      go :
          (p : Result B × World)
          → ((b : B) → p.0 ≡ ok b → Ends Q (f b p.1))
          → Ends Q (continue p.0 f p.1)
      go (ok b, v) k = k b refl
      go (err x, v) k = tt

  pub Ends-pure : (a : A) (w : World) → Q a w → Ends Q (pure a w)
  unfolding pure
  Ends-pure a w q = q

  pub Ends-finally :
      (R : A → World → Type 0) (m : Exec A) (c : Exec (Unit {0})) (w : World)
      → Ends R (m w)
      → ((a : A) (v : World) → R a v → Q a (c v).1)
      → Ends Q (finally m c w)
  unfolding finally
  Ends-finally R m c w h k = go (m w) h
    where
      last : (a : A) (x : Result (Unit {0}) × World) → Q a x.1 → Ends Q (finish (ok a) x.0, x.1)
      last a (ok u, v) q = q
      last a (err e, v) q = tt

      raised : (e : Error) (x : Result (Unit {0}) × World) → Ends Q (finish (err e) x.0, x.1)
      raised e (ok u, v) = tt
      raised e (err f, v) = tt

      go : (p : Result A × World) → Ends R p → Ends Q (finish p.0 (c p.1).0, (c p.1).1)
      go (ok a, v) q = last a (c v) (k a v q)
      go (err e, v) q = raised e (c v)

  pub Ends-lift :
      {B : Type 0} (r : Result B) (f : B → Exec A) (w : World)
      → ((b : B) → r ≡ ok b → Ends Q (f b w))
      → Ends Q ((lift r >>= f) w)
  unfolding ◌>>=◌ lift
  Ends-lift (ok b) f w h = h b refl
  Ends-lift (err e) f w h = tt

  pub Ends-raise : (e : Error) (w : World) → Ends Q (raise e w)
  unfolding raise
  Ends-raise e w = tt

  pub Ends-raise_if :
      (b : Bool) (e : Error) (f : Unit {0} → Exec A) (w : World)
      → (b ≡ false → Ends Q (f tt w))
      → Ends Q ((raise_if b e >>= f) w)
  unfolding ◌>>=◌ raise_if raise pure
  Ends-raise_if true e f w h = tt
  Ends-raise_if false e f w h = h refl

  pub Ends-if :
      (b : Bool) (m n : Exec A) (w : World)
      → (b ≡ true → Ends Q (m w))
      → (b ≡ false → Ends Q (n w))
      → Ends Q ((if b then m else n) w)
  Ends-if true m n w h k = h refl
  Ends-if false m n w h k = k refl
