-- ===== src/Wildcard/Scan.antt =====
-- The cursor loop of a listing: what it gives, and that it ends.
pub mod Ending
use famepy.Prelude.{
  ℕ, suc, zero, ◌+◌, ◌≤◌, ◌<◌, ℤ, ◌≡◌, ◌≢◌, refl, subst, inl, inr, List, [], ◌∷◌, Bool, true, false,
  Bool-cases, Option, none, some, All, arith, leb, if◌then◌else◌,
}
use famepy.Errors.{Result, ok, err}
use famepy.Native.{Native, Call, Listed, returned, fame_get_next_wildcard}
use famepy.World.{World}
use famepy.Exec.{Exec, pure, answer, call_status, continue, ◌>>=◌}
use famepy.Runtime.Returns.{called}
use famepy.Runtime.Hoare.{Post, Leads, Leads-bind}
use famepy.Runtime.Keeps.{Stable, Keeps-lift, Keeps-raise_if}
use famepy.Objects.{FameObject}
use famepy.Wildcard.{is_wanted, keep_wanted, hnoobj, next_wildcard, scan}
use famepy.Wildcard.Keeps.{check_entry-Keeps, entry_object-Keeps}

-- a condition on what is returned
abbrev pub Meets : {A : Type 0} → (A → Type 0) → Result A → Type 0
Meets Q (ok a) = Q a
Meets Q (err e) = Unit

-- What an action returns from a state of `P`, if it returns, is in `Q`.
pub record Yields {A : Type 0} (P : World → Type 0) (m : Exec A) (Q : A → Type 0) : Type 0 where
  pub at : (w : World) → P w → Meets Q (m w).0

module _ {A B : Type 0} (P M : World → Type 0) (R : A → Type 0) (Q : B → Type 0) (m : Exec A)
    (f : A → Exec B) where
  continue_at :
      (p : Result A × World)
      → Post p M (λ _. Unit)
      → Meets R p.0
      → ((a : A) → R a → Yields M (f a) Q)
      → Meets Q (continue p.0 f p.1).0
  continue_at (ok a, w) h r k = (k a r).at w h
  continue_at (err e, w) h r k = tt

  Yields-bind :
      Leads P m M (λ _. Unit)
      → Yields P m R
      → ((a : A) → R a → Yields M (f a) Q)
      → Yields P (m >>= f) Q
  unfolding ◌>>=◌
  Yields-bind l y k = record { at = λ w h. continue_at (m w) (l.at w h) (y.at w h) k }

-- the trivial conditions
module _ {A : Type 0} (P : World → Type 0) (m : Exec A) where
  any : (r : Result A) → Meets (λ _. Unit) r
  any (ok a) = tt
  any (err e) = tt

  Yields-any : Yields P m (λ _. Unit)
  Yields-any = record { at = λ w h. any (m w).0 }

  none_at : (p : Result A × World) → Post p (λ _. Unit) (λ _. Unit)
  none_at (ok a, w) = tt
  none_at (err e, w) = tt

  Leads-any : Leads P m (λ _. Unit) (λ _. Unit)
  Leads-any = record { at = λ w h. none_at (m w) }

  weaker_at : (Q E : World → Type 0) (p : Result A × World) → Post p Q E → Post p Q (λ _. Unit)
  weaker_at Q E (ok a, w) h = h
  weaker_at Q E (err e, w) h = tt

  Leads-weaker : (Q E : World → Type 0) → Leads P m Q E → Leads P m Q (λ _. Unit)
  Leads-weaker Q E l = record { at = λ w h. weaker_at Q E (m w) (l.at w h) }

Yields-pure : {A : Type 0} (P : World → Type 0) (Q : A → Type 0) (a : A) → Q a → Yields P (pure a) Q
unfolding pure
Yields-pure P Q a q = record { at = λ w h. q }

Yields-if :
    {A : Type 0} (P : World → Type 0) (Q : A → Type 0) (b : Bool) (m n : Exec A)
    → Yields P m Q
    → Yields P n Q
    → Yields P (if b then m else n) Q
Yields-if P Q true m n h k = h
Yields-if P Q false m n h k = k

abbrev Any : World → Type 0
Any _ = Unit

-- every object that was found is wanted
abbrev pub AllWanted : Option (List ℤ) → Option (List FameObject) → Type 0
AllWanted wanted none = Unit
AllWanted wanted (some found) = All (λ obj. is_wanted wanted obj ≡ true) found

kept-AllWanted :
    (wanted : Option (List ℤ)) (obj : FameObject) (rest : Option (List FameObject))
    → AllWanted wanted rest
    → AllWanted wanted
        (elim rest [ none ↦ none | some found ↦ some (keep_wanted wanted obj found) ])
kept-AllWanted wanted obj none h = tt
kept-AllWanted wanted obj (some found) h = pick (is_wanted wanted obj) refl
  where
    pick :
        (b : Bool)
        → is_wanted wanted obj ≡ b
        → All (λ obj. is_wanted wanted obj ≡ true) (if b then obj ∷ found else found)
    pick true e = (e, h)
    pick false e = h

module _ (native : Native) where
  scan-AllWanted :
      (fuel : ℕ) (key cursor : ℤ) (capacity : ℕ) (wanted : Option (List ℤ))
      → Yields Any (scan native fuel key cursor capacity wanted) (AllWanted wanted)
  unfolding scan
  scan-AllWanted zero key cursor capacity wanted = Yields-pure Any (AllWanted wanted) none tt
  scan-AllWanted (suc fuel) key cursor capacity wanted =
      Yields-bind Any Any (λ _. Unit) (AllWanted wanted) _ _ (Leads-any Any _) (Yields-any Any _)
        λ r _.
          Yields-if Any (AllWanted wanted) _ _ _ (Yields-pure Any (AllWanted wanted) (some []) tt) (
            Yields-bind Any Any (λ _. Unit) (AllWanted wanted) _ _ (Leads-any Any _)
              (Yields-any Any _)
              λ _ _.
                Yields-bind Any Any (λ _. Unit) (AllWanted wanted) _ _ (Leads-any Any _)
                  (Yields-any Any _)
                  λ obj _.
                    Yields-bind Any Any (AllWanted wanted) (AllWanted wanted) _ _ (Leads-any Any _)
                      (scan-AllWanted fuel key cursor capacity wanted)
                      (λ rest h.
                        Yields-pure Any (AllWanted wanted) _ (kept-AllWanted wanted obj rest h)))

  -- Every object that the cursor loop returns has one of the requested frequencies, whatever the
  -- library selected.
  pub scan-wanted :
      (fuel : ℕ) (key cursor : ℤ) (capacity : ℕ) (wanted : Option (List ℤ))
      (found : List FameObject) (w : World)
      → (scan native fuel key cursor capacity wanted w).0 ≡ ok (some found)
      → All (λ obj. is_wanted wanted obj ≡ true) found
  scan-wanted fuel key cursor capacity wanted found w e =
      subst (Meets (AllWanted wanted)) e ((scan-AllWanted fuel key cursor capacity wanted).at w tt)
