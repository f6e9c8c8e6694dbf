-- ===== src/Bridge/Resolving/Complete.antt =====
-- A read of a workspace, from the names to the report.
use famepy.Prelude.{ℕ, ◌≡◌, refl, ◌∙◌, ap, subst, Bool, Option, none, some, List, [], ◌∷◌, All, map}
use famepy.Errors.{Result, ok, err}
use famepy.Native.{Native}
use famepy.World.{World}
use famepy.Exec.{Exec, pure, continue, ◌>>=◌}
use famepy.Text.{Text}
use famepy.Objects.{FameObject}
use famepy.Data.{Numpy}
use famepy.Data.Reading.{DataObject}
use famepy.Data.Results.{err-ok, ok-injective}
use famepy.Bridge.Naming.{Key}
use famepy.Bridge.Naming.Collisions.{Divergent}
use famepy.Bridge.Workspaces.{ReadReport, read_into}
use famepy.Bridge.Workspaces.Complete.{Accounted, read_into-Accounted}
use famepy.Bridge.Resolving.{Options, resolve_names, without_data, readfame}
use famepy.Bridge.Resolving.Separate.{resolve_names-Divergent}

-- what was returned before an action that returned
bind_parts :
    {A B : Type 0} (m : Exec A) (f : A → Exec B) (w : World) (b : B)
    → ((m >>= f) w).0 ≡ ok b
    → (a : A) × ((m w).0 ≡ ok a) × ((f a (m w).1).0 ≡ ok b)
unfolding ◌>>=◌
bind_parts {A} {B} m f w b e = go (m w).0 e
  where
    go :
        (r : Result A)
        → (continue r f (m w).1).0 ≡ ok b
        → (a : A) × (r ≡ ok a) × ((f a (m w).1).0 ≡ ok b)
    go (ok a) q = (a, refl, q)
    go (err x) q = absurd (err-ok q)

keys-without_data :
    (ps : List (FameObject × Key)) → map (λ p. p.1) ps ≡ map (λ p. p.1) (map without_data ps)
keys-without_data [] = refl
keys-without_data ((info, key) ∷ ps) = ap (λ r. key ∷ r) (keys-without_data ps)

some_returned : {A : Type 0} (a b : A) (w : World) → (pure (some a) w).0 ≡ ok (some b) → a ≡ b
unfolding pure
some_returned a b w e = cc

none_returned : {A : Type 0} (b : A) (w : World) → (pure {A = Option A} none w).0 ≡ ok (some b) → ⊥
unfolding pure
none_returned b w e = refused (ok-injective e)
  where
    refused : none ≡ some b → ⊥
    refused q = cc

module _ {V : Type 0} (native : Native) (fuel hid : ℕ) (unfame : DataObject → Exec V)
    (numpy : Numpy) (raw_fallback contain : Bool) (opts : Options) where
  -- Whatever the library and the conversion answer: where a read of a workspace returns a report,
  -- the names were resolved, and what is found at the key of each object that they name is the
  -- conversion of that object as it was just read, or where that failed the object itself; or else
  -- its failure is recorded under its name and key, with the error of its read or its conversion.
  pub readfame-Accounted :
      (names : List Text) (w : World) (report : ReadReport V)
      → (readfame native fuel hid unfame numpy raw_fallback contain opts names w).0
        ≡ ok (some report)
      → (ps : List (FameObject × Key)) × ((resolve_names native fuel hid opts names w).0
          ≡ ok (some ps))
        × All (Accounted native numpy hid unfame report) (map without_data ps)
  unfolding readfame
  readfame-Accounted names w report e =
      let (found, er, e1) =
        bind_parts (resolve_names native fuel hid opts names) _ w (some report) e in
      accounted found er e1
    where
      after : World
      after = (resolve_names native fuel hid opts names w).1

      accounted :
          (found : Option (List (FameObject × Key)))
          → (resolve_names native fuel hid opts names w).0 ≡ ok found
          → ((elim found as (λ _. Exec (Option (ReadReport V))) [
            | none ↦ pure none
            | some ps ↦ (do
              r ← read_into raw_fallback contain unfame native numpy hid (map without_data ps)
              pure (some r))
          ])
              after).0
            ≡ ok (some report)
          → (ps : List (FameObject × Key)) × ((resolve_names native fuel hid opts names w).0
              ≡ ok (some ps))
            × All (Accounted native numpy hid unfame report) (map without_data ps)
      accounted none er e1 = absurd (none_returned report after e1)
      accounted (some ps) er e1 =
          let (r, read, e2) =
            bind_parts
              (read_into raw_fallback contain unfame native numpy hid (map without_data ps)) _ after
              (some report) e1 in
          (
            ps,
            er,
            read_into-Accounted native numpy hid unfame raw_fallback contain (map without_data ps)
                after report
                (subst Divergent (keys-without_data ps)
                  (resolve_names-Divergent native fuel hid opts names w ps er))
                (read ∙ ap ok (some_returned r report _ e2)),
          )
