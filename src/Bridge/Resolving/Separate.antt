-- ===== src/Bridge/Resolving/Separate.antt =====
-- Names that are resolved have keys that diverge.
use famepy.Prelude.{
  ℕ, ◌≡◌, refl, ◌∙◌, ap, subst, Bool, true, false, Option, none, some, List, [], ◌∷◌, ◌++◌, All,
  map, if◌then◌else◌,
}
use famepy.Errors.{Result, ok, err, name_collision}
use famepy.Native.{Native}
use famepy.World.{World}
use famepy.Exec.{Exec, pure, lift, ◌>>=◌}
use famepy.Text.{Text}
use famepy.Objects.{FameObject, and_then}
use famepy.Wildcard.Scan.{Meets}
use famepy.Data.Reading.Gives.{Gives, Gives-lift, Gives-pure, Gives-bind, Gives-after}
use famepy.Data.Results.{and_then-ok, refuse-ok, err-ok, ok-injective}
use famepy.Bridge.Naming.{
  Str, Key, Namecase, Forest, apply_namecase, collect_path, strip_prefix, destination, has_key,
  branches_of, any_leaf, add_keys, check_keys,
}
use famepy.Bridge.Naming.Collisions.{IsPath, Divergent, check_keys-Divergent}
use famepy.Bridge.Workspaces.{fame_name_text}
use famepy.Bridge.Resolving.{
  Gathered, Options, front, assign_keys, resolve_objects, key_of, resolve_names,
}

IsPath-last : (k : Key) (s : Str) → IsPath (k ++ (s ∷ []))
IsPath-last [] s = tt
IsPath-last (t ∷ k) s = tt

destination-IsPath :
    (name' glue : Str) (namecase : Namecase) (prefix : Option Str) (spec : Forest) (k : Key)
    → destination name' glue namecase prefix spec ≡ ok k
    → IsPath k
unfolding destination
destination-IsPath name' glue namecase prefix spec k e =
    let e1 = (refuse-ok _ _ e).1 in
    let (p, ep, e2) =
      and_then-ok (collect_path namecase glue spec (strip_prefix prefix glue name')) _ e1 in
    let (s, es, e3) = and_then-ok (apply_namecase namecase p.1) _ e2 in
    subst IsPath (ok-injective e3) (IsPath-last p.0 s)

key_of-IsPath :
    (opts : Options) (spec : Forest) (o : FameObject) (k : Key)
    → key_of opts spec o ≡ ok k
    → IsPath k
key_of-IsPath opts spec o k e =
    let (text, et, e1) = and_then-ok (fame_name_text o) _ e in
    destination-IsPath text opts.glue opts.namecase opts.prefix spec k e1

abbrev keyed_by : List (FameObject × Key) → List Key
keyed_by ps = map (λ p. p.1) ps

-- what the loop over the objects gives, the loop over their keys gives
abbrev Assigned : List (FameObject × Key) → List Key → List Key → List Key × List Key → Type 0
Assigned ps leaves branches r =
    All IsPath (keyed_by ps) × (add_keys (keyed_by ps) leaves branches ≡ ok r)

front-ok :
    (p : FameObject × Key) (r : Result (List (FameObject × Key) × (List Key × List Key)))
    (q : List (FameObject × Key) × (List Key × List Key))
    → front p r ≡ ok q
    → (s : List (FameObject × Key) × (List Key × List Key)) × (r ≡ ok s) × ((p ∷ s.0, s.1) ≡ q)
front-ok p (ok s) q e = (s, refl, ok-injective e)
front-ok p (err x) q e = absurd (err-ok e)

-- a test that is false
skip_test : {A : Type 0} (b : Bool) (x : A) {y z : A} → b ≡ false → y ≡ z → (if b then x else y) ≡ z
skip_test true x h e = cc
skip_test false x h e = e

module _ (dest : FameObject → Result Key)
    (paths : (o : FameObject) (k : Key) → dest o ≡ ok k → IsPath k) where
  assign_keys-Assigned :
      (os : List FameObject) (leaves branches : List Key)
      (q : List (FameObject × Key) × (List Key × List Key))
      → assign_keys dest os leaves branches ≡ ok q
      → Assigned q.0 leaves branches q.1
  unfolding assign_keys add_keys
  assign_keys-Assigned [] leaves branches q e =
      let start : List (FameObject × Key) × (List Key × List Key) = ([], (leaves, branches)) in
      subst
        (λ (x : List (FameObject × Key) × (List Key × List Key)). Assigned x.0 leaves branches x.1)
        (ok-injective e) (tt, refl)
  assign_keys-Assigned (o ∷ os) leaves branches q e =
      let (k, ek, e1) = and_then-ok (dest o) _ e in
      let (fresh, e2) = refuse-ok (has_key k leaves) name_collision e1 in
      let (s, es, same) = front-ok (o, k) _ q e2 in
      let (ps, added) = assign_keys-Assigned os (k ∷ leaves) (branches_of k ++ branches) s es in
      subst
        (λ (x : List (FameObject × Key) × (List Key × List Key)). Assigned x.0 leaves branches x.1)
        same ((paths o k ek, ps), skip_test (has_key k leaves) _ fresh added)

  pub resolve_objects-Divergent :
      (os : List FameObject) (ps : List (FameObject × Key))
      → resolve_objects dest os ≡ ok ps
      → Divergent (keyed_by ps)
  unfolding resolve_objects
  resolve_objects-Divergent os ps e =
      let (r, er, e1) = and_then-ok (assign_keys dest os [] []) _ e in
      let (clear, e2) = refuse-ok (any_leaf r.1.1 r.1.0) name_collision e1 in
      let (paths', added) = assign_keys-Assigned os [] [] r er in
      subst (λ x. Divergent (keyed_by x)) (ok-injective e2)
        (check_keys-Divergent (keyed_by r.0) paths' (checked (keyed_by r.0) r.1 added clear))
    where
      checked :
          (ks : List Key) (r : List Key × List Key)
          → add_keys ks [] [] ≡ ok r
          → any_leaf r.1 r.0 ≡ false
          → check_keys ks ≡ ok tt
      checked ks r added clear =
          unfold check_keys in
          ap
            (λ (x : Result (List Key × List Key)).
              and_then x λ p. if any_leaf p.1 p.0 then err name_collision else ok tt)
            added
          ∙ ap (λ b. if b then err name_collision else ok tt) clear

abbrev pub Resolved : Option (List (FameObject × Key)) → Type 0
Resolved none = Unit
Resolved (some ps) = Divergent (map (λ p. p.1) ps)

module _ (native : Native) (fuel hid : ℕ) (opts : Options) where
  Gives-resolve_names :
      (names : List Text) → Gives (resolve_names native fuel hid opts names) Resolved
  unfolding resolve_names
  Gives-resolve_names names =
      Gives-after _ _ _ λ spec. Gives-after _ _ _ λ ordered. keyed spec ordered
    where
      keyed :
          (spec : Forest) (ordered : Option Gathered)
          → Gives
              (elim ordered as (λ _. Exec (Option (List (FameObject × Key)))) [
                | none ↦ pure none
                | some g ↦ (do
                  resolved ← lift (resolve_objects (key_of opts spec) g.1)
                  pure (some resolved))
              ])
              Resolved
      keyed spec none = Gives-pure _ none tt
      keyed spec (some g) =
          Gives-bind (λ ps. Divergent (keyed_by ps)) _ _ _
            (Gives-lift _ _
              (resolve_objects-Divergent (key_of opts spec) (key_of-IsPath opts spec) g.1))
            (λ ps d. Gives-pure _ (some ps) d)

  -- Whatever the library answers, of any two of the keys that `resolve_names` returns neither is
  -- the other, nor is one a workspace that the other lies in: they differ at a part that both have.
  pub resolve_names-Divergent :
      (names : List Text) (w : World) (ps : List (FameObject × Key))
      → (resolve_names native fuel hid opts names w).0 ≡ ok (some ps)
      → Divergent (map (λ p. p.1) ps)
  resolve_names-Divergent names w ps e = subst (Meets Resolved) e ((Gives-resolve_names names).at w)
