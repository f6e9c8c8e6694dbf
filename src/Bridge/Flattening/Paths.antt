-- ===== src/Bridge/Flattening/Paths.antt =====
-- The flattened names are the paths of the values, with their parts joined by the glue.
use famepy.Prelude.{◌≡◌, refl, sym, ◌∙◌, ap, Option, none, some, List, [], ◌∷◌, ◌++◌}
use famepy.Errors.{Result, ok, err}
use famepy.Data.Results.{and_then-ok, err-ok, ok-injective}
use famepy.Bridge.Naming.{Str, Key}
use famepy.Bridge.Flattening.{
  Container, Content, no_items, item, bad_key, leaf, nested, joined, with_first, with_items,
  flatten_into, flatten_content, flatten_all, check_names, flatten_names,
}

-- a path as a name: its parts in order, with the glue between them, below a prefix
abbrev pub glued : Str → Str → Key → Str
glued name' glue [] = name'
glued name' glue (s ∷ k) = glued (joined (some name') glue s) glue k

abbrev pub path_name : Option Str → Str → Key → Str
path_name prefix glue [] = []
path_name prefix glue (s ∷ k) = glued (joined prefix glue s) glue k

module _ {V : Type 0} where
  abbrev pub below : Str → List (Key × V) → List (Key × V)
  below s [] = []
  below s (p ∷ ps) = (s ∷ p.0, p.1) ∷ below s ps

  -- the paths of the values of a container, in order
  unfoldable mutual
    pub leaf_paths : Container V → List (Key × V)
    leaf_paths no_items = []
    leaf_paths (item key x rest) = below key (content_paths x) ++ leaf_paths rest
    leaf_paths (bad_key rest) = leaf_paths rest

    pub content_paths : Content V → List (Key × V)
    content_paths (leaf v) = ([], v) ∷ []
    content_paths (nested c) = leaf_paths c

  abbrev pub named_paths : Option Str → Str → List (Key × V) → List (Str × V)
  named_paths prefix glue [] = []
  named_paths prefix glue (p ∷ ps) = (path_name prefix glue p.0, p.1) ∷ named_paths prefix glue ps

  abbrev glued_paths : Str → Str → List (Key × V) → List (Str × V)
  glued_paths name' glue [] = []
  glued_paths name' glue (p ∷ ps) = (glued name' glue p.0, p.1) ∷ glued_paths name' glue ps

  named-append :
      (prefix : Option Str) (glue : Str) (ps qs : List (Key × V))
      → named_paths prefix glue (ps ++ qs)
        ≡ named_paths prefix glue ps ++ named_paths prefix glue qs
  named-append prefix glue [] qs = refl
  named-append prefix glue (p ∷ ps) qs =
      ap (λ r. (path_name prefix glue p.0, p.1) ∷ r) (named-append prefix glue ps qs)

  named-below :
      (prefix : Option Str) (glue s : Str) (ps : List (Key × V))
      → named_paths prefix glue (below s ps) ≡ glued_paths (joined prefix glue s) glue ps
  named-below prefix glue s [] = refl
  named-below prefix glue s (p ∷ ps) =
      ap (λ r. (path_name prefix glue (s ∷ p.0), p.1) ∷ r) (named-below prefix glue s ps)

  -- every path of a container has a part
  abbrev IsNamed : List (Key × V) → Type 0
  IsNamed ps = (name' glue : Str) → glued_paths name' glue ps ≡ named_paths (some name') glue ps

  with_first-ok :
      (xs : List (Str × V)) (r : Result (List (Str × V))) (zs : List (Str × V))
      → with_first xs r ≡ ok zs
      → (ys : List (Str × V)) × (r ≡ ok ys) × (xs ++ ys ≡ zs)
  with_first-ok xs (ok ys) zs e = (ys, refl, ok-injective e)
  with_first-ok xs (err x) zs e = absurd (err-ok e)

  with_items-ok :
      (r s : Result (List (Str × V))) (zs : List (Str × V))
      → with_items r s ≡ ok zs
      → (xs : List (Str × V)) × (ys : List (Str × V)) × (r ≡ ok xs) × (s ≡ ok ys) × (xs ++ ys ≡ zs)
  with_items-ok (ok xs) s zs e = let (ys, es, q) = with_first-ok xs s zs e in (xs, ys, refl, es, q)
  with_items-ok (err x) s zs e = absurd (err-ok e)

  IsNamed-append : (s : Str) (ps qs : List (Key × V)) → IsNamed qs → IsNamed (below s ps ++ qs)
  IsNamed-append s [] qs h name' glue = h name' glue
  IsNamed-append s (p ∷ ps) qs h name' glue =
      ap (λ r. (glued name' glue (s ∷ p.0), p.1) ∷ r) (IsNamed-append s ps qs h name' glue)

  leaf_paths-IsNamed : (c : Container V) → IsNamed (leaf_paths c)
  unfolding leaf_paths
  leaf_paths-IsNamed no_items name' glue = refl
  leaf_paths-IsNamed (item key x rest) name' glue =
      IsNamed-append key (content_paths x) (leaf_paths rest) (leaf_paths-IsNamed rest) name' glue
  leaf_paths-IsNamed (bad_key rest) name' glue = leaf_paths-IsNamed rest name' glue

  mutual
    unfolding flatten_into leaf_paths

    flatten_into-paths :
        (prefix : Option Str) (glue : Str) (c : Container V) (fs : List (Str × V))
        → flatten_into prefix glue c ≡ ok fs
        → fs ≡ named_paths prefix glue (leaf_paths c)
    flatten_into-paths prefix glue no_items fs e = sym (ok-injective e)
    flatten_into-paths prefix glue (bad_key rest) fs e = absurd (err-ok e)
    flatten_into-paths prefix glue (item key x rest) fs e =
        let (xs, ys, ex, ey, q) = with_items-ok _ _ fs e in
        sym q
        ∙ ap (λ r. r ++ ys) (flatten_content-paths (joined prefix glue key) glue x xs ex)
        ∙ ap (λ r. glued_paths (joined prefix glue key) glue (content_paths x) ++ r)
            (flatten_into-paths prefix glue rest ys ey)
        ∙ ap (λ r. r ++ named_paths prefix glue (leaf_paths rest))
            (sym (named-below prefix glue key (content_paths x)))
        ∙ sym (named-append prefix glue (below key (content_paths x)) (leaf_paths rest))

    flatten_content-paths :
        (name' glue : Str) (x : Content V) (fs : List (Str × V))
        → flatten_content name' glue x ≡ ok fs
        → fs ≡ glued_paths name' glue (content_paths x)
    flatten_content-paths name' glue (leaf v) fs e = sym (ok-injective e)
    flatten_content-paths name' glue (nested c) fs e =
        flatten_into-paths (some name') glue c fs e ∙ sym (leaf_paths-IsNamed c name' glue)

  -- the paths in all containers
  abbrev pub all_paths : List (Option (Container V)) → List (Key × V)
  all_paths [] = []
  all_paths (none ∷ cs) = all_paths cs
  all_paths (some c ∷ cs) = leaf_paths c ++ all_paths cs

  flatten_all-paths :
      (prefix : Option Str) (glue : Str) (cs : List (Option (Container V))) (fs : List (Str × V))
      → flatten_all prefix glue cs ≡ ok fs
      → fs ≡ named_paths prefix glue (all_paths cs)
  unfolding flatten_all
  flatten_all-paths prefix glue [] fs e = sym (ok-injective e)
  flatten_all-paths prefix glue (none ∷ cs) fs e = absurd (err-ok e)
  flatten_all-paths prefix glue (some c ∷ cs) fs e =
      let (xs, ys, ex, ey, q) = with_items-ok _ _ fs e in
      sym q
      ∙ ap (λ r. r ++ ys) (flatten_into-paths prefix glue c xs ex)
      ∙ ap (λ r. named_paths prefix glue (leaf_paths c) ++ r)
          (flatten_all-paths prefix glue cs ys ey)
      ∙ sym (named-append prefix glue (leaf_paths c) (all_paths cs))

  -- Where `flatten_names` raises nothing it gives every value of the containers once, in order,
  -- under the parts of its path joined by the glue, below the prefix.
  pub flatten_names-paths :
      (prefix : Option Str) (glue : Str) (cs : List (Option (Container V))) (flat : List (Str × V))
      → flatten_names prefix glue cs ≡ ok flat
      → flat ≡ named_paths prefix glue (all_paths cs)
  unfolding flatten_names
  flatten_names-paths prefix glue cs flat e =
      let (all, ea, e1) = and_then-ok (flatten_all prefix glue cs) _ e in
      let (u, eu, e2) = and_then-ok (check_names all []) _ e1 in
      sym (ok-injective e2) ∙ flatten_all-paths prefix glue cs all ea
