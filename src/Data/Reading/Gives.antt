-- ===== src/Data/Reading/Gives.antt =====
-- Conditions on what an action returns, from every state and whatever the library answers.
use famepy.Prelude.{
  ℕ, suc, zero, ℤ, ◌≡◌, refl, sym, ◌∙◌, ap, Bytes, Bool, true, false, Option, List, [], ◌∷◌, map,
  length, if◌then◌else◌, some,
}
use famepy.Errors.{Error, Result, ok, err, data_validation, other}
use famepy.Native.{Native, Range}
use famepy.World.{World}
use famepy.Exec.{Exec, pure, raise, lift, continue, ◌>>=◌}
use famepy.Wildcard.Scan.{Meets}
use famepy.Data.{Kind, precision, numeric, boolean, date, string, Buffer, size}
use famepy.Data.Buffers.{tabulate, strings_of, bulk, get_strings, read_values}
use famepy.Data.Results.{and_then-ok, refuse-ok, ok-injective}

-- What the action returns, if it returns, is in `Q`.
pub record Gives {A : Type 0} (m : Exec A) (Q : A → Type 0) : Type 0 where
  pub at : (w : World) → Meets Q (m w).0

module _ {A : Type 0} (Q : A → Type 0) where
  pub Gives-lift : (r : Result A) → ((a : A) → r ≡ ok a → Q a) → Gives (lift r) Q
  unfolding lift
  Gives-lift (ok a) h = record { at = λ w. h a refl }
  Gives-lift (err e) h = record { at = λ w. tt }

  pub Gives-pure : (a : A) → Q a → Gives (pure a) Q
  unfolding pure
  Gives-pure a q = record { at = λ w. q }

  pub Gives-raise : (e : Error) → Gives (raise e) Q
  unfolding raise
  Gives-raise e = record { at = λ w. tt }

  pub Gives-if : (b : Bool) (m n : Exec A) → Gives m Q → Gives n Q → Gives (if b then m else n) Q
  Gives-if true m n h k = h
  Gives-if false m n h k = k

module _ {A : Type 0} (m : Exec A) where
  any : (r : Result A) → Meets (λ _. Unit {0}) r
  any (ok a) = tt
  any (err e) = tt

  pub Gives-any : Gives m (λ _. Unit {0})
  Gives-any = record { at = λ w. any (m w).0 }

module _ {A B : Type 0} (R : A → Type 0) (Q : B → Type 0) (m : Exec A) (f : A → Exec B) where
  continue_at :
      (p : Result A × World)
      → Meets R p.0
      → ((a : A) → R a → Gives (f a) Q)
      → Meets Q (continue p.0 f p.1).0
  continue_at (ok a, w) r k = (k a r).at w
  continue_at (err e, w) r k = tt

  pub Gives-bind : Gives m R → ((a : A) → R a → Gives (f a) Q) → Gives (m >>= f) Q
  unfolding ◌>>=◌
  Gives-bind h k = record { at = λ w. continue_at (m w) (h.at w) k }

-- a step of which nothing is asked
pub Gives-after :
    {A B : Type 0} (Q : B → Type 0) (m : Exec A) (f : A → Exec B)
    → ((a : A) → Gives (f a) Q)
    → Gives (m >>= f) Q
Gives-after Q m f k = Gives-bind (λ _. Unit {0}) Q m f (Gives-any m) (λ a u. k a)

pub length-tabulate : {A : Type 0} (n : ℕ) (f : ℕ → A) → length (tabulate n f) ≡ n
unfolding tabulate
length-tabulate zero f = refl
length-tabulate (suc n) f = ap suc (length-tabulate n (λ i. f (suc i)))

pub length-map : {A B : Type 0} (f : A → B) (xs : List A) → length (map f xs) ≡ length xs
length-map f [] = refl
length-map f (x ∷ xs) = ap suc (length-map f xs)

length-strings_of :
    (ls : List ℤ) (reply : ℕ → (ℕ → ℕ) × ℕ) (bss : List Bytes)
    → strings_of ls reply ≡ ok bss
    → length bss ≡ length ls
unfolding strings_of
length-strings_of [] reply bss e = ap length (sym (ok-injective e))
length-strings_of (l ∷ ls) reply bss e =
    let e1 = (refuse-ok _ data_validation e).1 in
    let (rest, er, last) = and_then-ok (strings_of ls (λ i. reply (suc i))) _ e1 in
    ap length (sym (ok-injective last)) ∙ ap suc (length-strings_of ls _ rest er)

module _ (native : Native) (key : ℤ) (n : Bytes) (range : Option Range) where
  abbrev HasSize : ℕ → Buffer → Type 0
  HasSize count b = size b ≡ count

  Gives-bulk :
      (count : ℕ) (body : ℤ → Bytes → Exec Buffer)
      → ((k : ℤ) (m : Bytes) → Gives (body k m) (HasSize count))
      → Gives (bulk native key n range count body) (HasSize count)
  unfolding bulk
  Gives-bulk count body h =
      Gives-after _ _ _
        λ _. Gives-after _ _ _ λ _. Gives-after _ _ _ λ k. Gives-after _ _ _ (λ m. h k m)

  Gives-get_strings : (count : ℕ) → Gives (get_strings native key n range count) (HasSize count)
  unfolding get_strings
  Gives-get_strings count = Gives-after _ _ _ λ _. Gives-after _ _ _ λ _. Gives-after _ _ _ λ r.
      Gives-after _ _ _ λ k. Gives-after _ _ _ λ m. Gives-after _ _ _ λ ws. Gives-after _ _ _ λ _.
        Gives-after _ _ _ λ reply.
          Gives-bind (λ bss. length bss ≡ count) _ _ _
            (Gives-lift _ _ λ bss e. length-strings_of _ reply bss e ∙ length-tabulate count _)
            (λ bss q. Gives-pure _ _ (length-map some bss ∙ q))

  -- Whatever the library answers, what is read has the length of the buffer that was passed.
  pub Gives-read_values :
      (kind : Kind) (count : ℕ) → Gives (read_values native key n kind range count) (HasSize count)
  unfolding read_values
  Gives-read_values string count = Gives-get_strings count
  Gives-read_values precision count =
      Gives-bulk count _ λ k m. Gives-after _ _ _ (λ ws. Gives-pure _ _ (length-tabulate count _))
  Gives-read_values numeric count =
      Gives-bulk count _ λ k m. Gives-after _ _ _ (λ ws. Gives-pure _ _ (length-tabulate count _))
  Gives-read_values boolean count =
      Gives-bulk count _ λ k m. Gives-after _ _ _ (λ ws. Gives-pure _ _ (length-tabulate count _))
  Gives-read_values date count =
      Gives-bulk count _ λ k m. Gives-after _ _ _ (λ ws. Gives-pure _ _ (length-tabulate count _))
  Gives-read_values _ count = Gives-raise _ other
