-- ===== src/Bridge/Workspaces/Complete.antt =====
-- Every object of a read is in the workspace or among the failures.
use famepy.Prelude.{
  ℕ, ◌≡◌, ◌⊎◌, refl, ◌∙◌, ap, sym, subst, Bool, true, false, if◌then◌else◌, inl, inr, some, List,
  [], ◌∷◌, ◌++◌, All, map,
}
use famepy.Errors.{Error, Result, ok, err}
use famepy.Native.{Native}
use famepy.World.{World}
use famepy.Exec.{Exec, pure, raise, catch, continue, ◌>>=◌}
use famepy.Wildcard.Scan.{Meets}
use famepy.Data.{Numpy}
use famepy.Data.Reading.{DataObject, do_read}
use famepy.Data.Reading.Gives.{Gives, Gives-lift, Gives-pure, Gives-raise, Gives-if, Gives-bind}
use famepy.Data.Results.{ok-injective, err-ok}
use famepy.Bridge.Naming.{Str, Key}
use famepy.Bridge.Naming.Collisions.{Diverge, Divergent}
use famepy.Bridge.Workspaces.{
  fame_name_text, contained, is_read_error, is_conversion_error, empty, place, find, Item,
  converted, unconverted, ObjectFailure, ReadReport, record_failure, store, store_result,
  store_read, read_one, read_all, read_into,
}
use famepy.Bridge.Workspaces.Placing.{Diverge-sym}
use famepy.Bridge.Workspaces.Places.{place-find_same, place-find_other}

-- Where a read of the object went well: the object with its data, and the process after it.
module _ (native : Native) (numpy : Numpy) (hid : ℕ) where
  abbrev pub IsRead : DataObject → DataObject → World → Type 0
  IsRead obj obj' after =
      (before : World) × (do_read native numpy hid obj before ≡ (ok obj', after))

  module _ {V : Type 0} (unfame : DataObject → Exec V) where
    -- The item is the conversion of the object that was just read, or where that failed the object.
    abbrev pub IsItem : DataObject → Item V → Type 0
    IsItem obj (converted v) =
        (obj' : DataObject) × (after : World) × IsRead obj obj' after
        × ((unfame obj' after).0 ≡ ok v)
    IsItem obj (unconverted obj') =
        (after : World) × (e : Error) × IsRead obj obj' after × ((unfame obj' after).0 ≡ err e)

    -- the error is of the read of the object, or of the conversion of what was read
    abbrev pub IsCause : DataObject → Error → Type 0
    IsCause obj e =
        ((before : World) × ((do_read native numpy hid obj before).0 ≡ err e))
        ⊎ ((obj' : DataObject) × (after : World) × IsRead obj obj' after
            × ((unfame obj' after).0 ≡ err e))

    -- The failures have one of the object, under its name and key, with what caused it.
    abbrev pub HasFailure : DataObject × Key → List ObjectFailure → Type 0
    HasFailure p [] = ⊥
    HasFailure p (f ∷ fs) =
        ((fame_name_text p.0.info ≡ ok f.name) × (f.key ≡ p.1) × IsCause p.0 f.error)
        ⊎ HasFailure p fs

    -- The report has the item of the object at its key, or its failure.
    abbrev pub Accounted : ReadReport V → DataObject × Key → Type 0
    Accounted report p =
        ((i : Item V) × (find p.1 report.workspace ≡ some i) × IsItem p.0 i)
        ⊎ HasFailure p report.failures

    HasFailure-kept :
        (p : DataObject × Key) (fs gs : List ObjectFailure)
        → HasFailure p fs
        → HasFailure p (fs ++ gs)
    HasFailure-kept p [] gs h = absurd h
    HasFailure-kept p (f ∷ fs) gs (inl e) = inl e
    HasFailure-kept p (f ∷ fs) gs (inr h) = inr (HasFailure-kept p fs gs h)

    HasFailure-last :
        (p : DataObject × Key) (fs : List ObjectFailure) (f : ObjectFailure)
        → HasFailure p (f ∷ [])
        → HasFailure p (fs ++ (f ∷ []))
    HasFailure-last p [] f e = e
    HasFailure-last p (g ∷ fs) f e = inr (HasFailure-last p fs f e)

    -- what one object does to the report
    record Step (p : DataObject × Key) (before after : ReadReport V) : Type 0 where
      accounted : Accounted after p
      kept : (l : Key) → Diverge p.1 l → find l after.workspace ≡ find l before.workspace
      failures_kept :
          (q : DataObject × Key) → HasFailure q before.failures → HasFailure q after.failures

    Step-Accounted :
        (p q : DataObject × Key) (before after : ReadReport V)
        → Step p before after
        → Diverge p.1 q.1
        → Accounted before q
        → Accounted after q
    Step-Accounted p q before after step d (inl (i, e, h)) = inl (i, step.kept q.1 d ∙ e, h)
    Step-Accounted p q before after step d (inr h) = inr (step.failures_kept q h)

abbrev kept_or_raised : {A : Type 0} → Error → World → Bool → Result (Result A) × World
kept_or_raised e w true = (ok (err e), w)
kept_or_raised e w false = (err e, w)

-- what `contained` makes of what the action did
abbrev contained_from : {A : Type 0} → (Error → Bool) → Result A × World → Result (Result A) × World
contained_from expected (ok a, w) = (ok (ok a), w)
contained_from expected (err e, w) = kept_or_raised e w (expected e)

contained-contained_from :
    {A : Type 0} (expected : Error → Bool) (p : Result A × World) (w : World)
    → contained expected (λ _. p) w ≡ contained_from expected p
unfolding contained pure raise catch ◌>>=◌
contained-contained_from expected (ok a, v) w = refl
contained-contained_from {A} expected (err e, v) w = go (expected e)
  where
    go :
        (b : Bool)
        → (if◌then◌else◌ {A = Exec (Result A)} b (λ u. (ok (err e), u)) (λ u. (err e, u))) v
          ≡ kept_or_raised e v b
    go true = refl
    go false = refl

contained_from-returns :
    {A : Type 0} (expected : Error → Bool) (p : Result A × World) (r : Result A)
    → (contained_from expected p).0 ≡ ok r
    → p ≡ (r, (contained_from expected p).1)
contained_from-returns expected (ok a, v) r e = ap (λ x. (x, v)) (ok-injective e)
contained_from-returns {A} expected (err x, v) r e = go (expected x) e
  where
    go :
        (b : Bool)
        → (kept_or_raised {A = A} x v b).0 ≡ ok r
        → ◌≡◌ {A = Result A × World} (err x, v) (r, (kept_or_raised {A = A} x v b).1)
    go true q = ap (λ y. (y, v)) (ok-injective q)
    go false q = absurd (err-ok q)

-- An action that `contained` gives a result of gave this result.
pub contained-returns :
    {A : Type 0} (expected : Error → Bool) (m : Exec A) (w : World) (r : Result A)
    → (contained expected m w).0 ≡ ok r
    → m w ≡ (r, (contained expected m w).1)
unfolding contained pure raise catch ◌>>=◌
contained-returns expected m w r e =
    let q = contained-contained_from expected (m w) w in
    contained_from-returns expected (m w) r
      (ap (λ (x : Result (Result _) × World). x.0) (sym q) ∙ e)
    ∙ ap (λ (x : Result (Result _) × World). (r, x.1)) (sym q)

-- a step of which the state before it and after it are known
from-Meets :
    {A B : Type 0} (Q : B → Type 0) (m : Exec A) (f : A → Exec B) (w : World)
    → ((a : A) → (m w).0 ≡ ok a → Meets Q (f a (m w).1).0)
    → Meets Q ((m >>= f) w).0
unfolding ◌>>=◌
from-Meets {A} {B} Q m f w h = go (m w) h
  where
    go :
        (p : Result A × World)
        → ((a : A) → p.0 ≡ ok a → Meets Q (f a p.1).0)
        → Meets Q (continue p.0 f p.1).0
    go (ok a, v) k = k a refl
    go (err x, v) k = tt

Gives-from :
    {A B : Type 0} (Q : B → Type 0) (m : Exec A) (f : A → Exec B)
    → ((w : World) (a : A) → (m w).0 ≡ ok a → Meets Q (f a (m w).1).0)
    → Gives (m >>= f) Q
Gives-from Q m f h = record { at = λ w. from-Meets Q m f w (h w) }

module _ (native : Native) (numpy : Numpy) (hid : ℕ) {V : Type 0} (unfame : DataObject → Exec V)
    (raw_fallback contain : Bool) where
  abbrev After : DataObject × Key → ReadReport V → ReadReport V → Type 0
  After p = Step native numpy hid unfame p

  module _ (obj : DataObject) (k : Key) (name' : Str)
      (named : fame_name_text obj.info ≡ ok name') where
    Gives-record_failure :
        (e : Error) (report : ReadReport V)
        → IsCause native numpy hid unfame obj e
        → Gives (record_failure raw_fallback contain name' k e report) (After (obj, k) report)
    Gives-record_failure e report cause =
        Gives-if _ contain _ _
          (Gives-pure _ _ (record {
            accounted = inr (
                HasFailure-last native numpy hid unfame (obj, k) report.failures _
                  (inl (named, refl, cause)));
            kept = λ l d. refl;
            failures_kept = λ q h. HasFailure-kept native numpy hid unfame q report.failures _ h;
          }))
          (Gives-raise _ e)

    Gives-store :
        (item : Item V) (report : ReadReport V)
        → IsItem native numpy hid unfame obj item
        → Gives (store raw_fallback contain k item report) (After (obj, k) report)
    unfolding store
    Gives-store item report h =
        Gives-bind (λ w. place k item report.workspace ≡ ok w) _ _ _ (Gives-lift _ _ λ w e. e)
          λ w e. Gives-pure _ _ (record {
            accounted = inl (item, place-find_same k item report.workspace w e, h);
            kept = λ l d. place-find_other k l item report.workspace w e d;
            failures_kept = λ q h. h;
          })

    raw-Step :
        (report : ReadReport V) (names : List Str) (m : Exec (ReadReport V))
        → Gives m (After (obj, k) (record report { raw = names }))
        → Gives m (After (obj, k) report)
    raw-Step report names m h = record { at = λ w. go (m w).0 (h.at w) }
      where
        go :
            (r : Result (ReadReport V))
            → Meets (After (obj, k) (record report { raw = names })) r
            → Meets (After (obj, k) report) r
        go (ok r) s = record {
          accounted = s.accounted;
          kept = s.kept;
          failures_kept = s.failures_kept;
        }
        go (err e) s = tt

    Gives-store_result :
        (obj' : DataObject) (after : World) (r : Result V) (report : ReadReport V)
        → IsRead native numpy hid obj obj' after
        → (unfame obj' after).0 ≡ r
        → Gives (store_result raw_fallback contain name' obj' k r report) (After (obj, k) report)
    unfolding store_result
    Gives-store_result obj' after (ok v) report h q =
        Gives-store (converted v) report (obj', after, h, q)
    Gives-store_result obj' after (err e) report h q =
        Gives-if _ raw_fallback _ _
          (raw-Step report _ _ (Gives-store (unconverted obj') _ (after, e, h, q)))
          (Gives-record_failure e report (inr (obj', after, h, q)))

    store_read-Step :
        (before after : World) (r : Result DataObject) (report : ReadReport V)
        → do_read native numpy hid obj before ≡ (r, after)
        → Meets
            (After (obj, k) report)
            (store_read raw_fallback contain unfame name' k r report after).0
    unfolding store_read
    store_read-Step before after (err e) report q =
        (Gives-record_failure e report
            (inl (before, ap (λ (x : Result DataObject × World). x.0) q))).at
          after
    store_read-Step before after (ok obj') report q =
        from-Meets (After (obj, k) report) (contained is_conversion_error (unfame obj')) _ after
          λ v e.
            (Gives-store_result obj' after v report (before, q)
                (ap (λ (x : Result V × World). x.0)
                  (contained-returns is_conversion_error (unfame obj') after v e))).at
              _

  Gives-read_one :
      (obj : DataObject) (k : Key) (report : ReadReport V)
      → Gives
          (read_one raw_fallback contain unfame native numpy hid obj k report)
          (After (obj, k) report)
  unfolding read_one
  Gives-read_one obj k report =
      Gives-bind (λ n. fame_name_text obj.info ≡ ok n) _ _ _ (Gives-lift _ _ λ n e. e)
        λ n e. Gives-from _ _ _ λ w r q.
          store_read-Step obj k n e w _ r report
            (contained-returns is_read_error (do_read native numpy hid obj) w r q)

  abbrev Keeps : List (DataObject × Key) → ReadReport V → ReadReport V → Type 0
  Keeps ps before after =
      All (Accounted native numpy hid unfame after) ps
      × ((q : DataObject × Key)
          → All (λ (p : DataObject × Key). Diverge p.1 q.1) ps
          → Accounted native numpy hid unfame before q
          → Accounted native numpy hid unfame after q)

  All-sym :
      (k : Key) (ps : List (DataObject × Key))
      → All (Diverge k) (map (λ p. p.1) ps)
      → All (λ (p : DataObject × Key). Diverge p.1 k) ps
  All-sym k [] h = tt
  All-sym k (p ∷ ps) h = (Diverge-sym k p.1 h.0, All-sym k ps h.1)

  Gives-read_all :
      (ps : List (DataObject × Key)) (report : ReadReport V)
      → Divergent (map (λ p. p.1) ps)
      → Gives (read_all raw_fallback contain unfame native numpy hid ps report) (Keeps ps report)
  unfolding read_all
  Gives-read_all [] report d = Gives-pure _ _ (tt, λ q d a. a)
  Gives-read_all ((obj, k) ∷ ps) report d =
      Gives-bind (After (obj, k) report) _ _ _ (Gives-read_one obj k report)
        λ r1 step. weaker r1 step (Gives-read_all ps r1 d.1)
    where
      weaker :
          (r1 : ReadReport V)
          → After (obj, k) report r1
          → Gives (read_all raw_fallback contain unfame native numpy hid ps r1) (Keeps ps r1)
          → Gives
              (read_all raw_fallback contain unfame native numpy hid ps r1)
              (Keeps ((obj, k) ∷ ps) report)
      weaker r1 step g = record {
        at = λ w. go (read_all raw_fallback contain unfame native numpy hid ps r1 w).0 (g.at w);
      }
        where
          go :
              (r : Result (ReadReport V))
              → Meets (Keeps ps r1) r
              → Meets (Keeps ((obj, k) ∷ ps) report) r
          go (ok r) h = (
            (h.1 (obj, k) (All-sym k ps d.0) step.accounted, h.0),
            λ q e a.
                h.1 q e.1 (Step-Accounted native numpy hid unfame (obj, k) q report r1 step e.0 a),
          )
          go (err e) h = tt

  -- Where the keys of the resolved objects diverge, as `resolve_names` makes sure, and whatever the
  -- library and the conversion answer: in a report that `_read_into` returns, what is found at the
  -- key of each object is the conversion of that object as it was just read, or where that failed
  -- the object itself; or else its failure is recorded under its name and key, with the error of
  -- its read or of its conversion.
  pub read_into-Accounted :
      (resolved : List (DataObject × Key)) (w : World) (report : ReadReport V)
      → Divergent (map (λ p. p.1) resolved)
      → (read_into raw_fallback contain unfame native numpy hid resolved w).0 ≡ ok report
      → All (Accounted native numpy hid unfame report) resolved
  unfolding read_into
  read_into-Accounted resolved w report d e =
      (subst (Meets (Keeps resolved start)) e ((Gives-read_all resolved start d).at w)).0
    where
      start : ReadReport V
      start = record { workspace = empty; failures = []; raw = [] }
