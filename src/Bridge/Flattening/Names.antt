-- ===== src/Bridge/Flattening/Names.antt =====
-- Flattened names are valid, and no two are the same to the library.
use famepy.Prelude.{
  ◌≡◌, ◌≢◌, sym, ◌∙◌, subst, true, false, Option, List, [], ◌∷◌, All, bytes_eq, bytes_eq_iff, Bytes,
}
use famepy.Errors.{ok, name_collision}
use famepy.Text.{str, object_name}
use famepy.Wildcard.Filters.{upper_all}
use famepy.Data.Results.{and_then-ok, refuse-ok, ok-injective, or_parts}
use famepy.Bridge.Naming.{Str}
use famepy.Bridge.Resolving.{has_str}
use famepy.Bridge.Flattening.{Container, check_names, flatten_all, flatten_names}

-- the names are not the same up to case
abbrev pub Distinguished : Str → Str → Type 0
Distinguished m n = upper_all m ≢ upper_all n

differs : (s t : Str) → bytes_eq s t ≡ false → s ≢ t
differs s t h q = refused (sym h ∙ (bytes_eq_iff s t).1 q)
  where
    refused : false ≡ true → ⊥
    refused q = cc

module _ {V : Type 0} where
  -- every name is accepted as an object name, and no two are the same up to case
  abbrev pub GoodNames : List (Str × V) → Type 0
  GoodNames [] = Unit
  GoodNames ((n, v) ∷ rest) =
      ((t : Bytes) × (object_name (str n) ≡ ok t))
      × All (λ p. Distinguished n p.0) rest
      × GoodNames rest

  abbrev Unseen : List Str → Str × V → Type 0
  Unseen seen p = has_str (upper_all p.0) seen ≡ false

  Unseen-split :
      (n : Str) (seen : List Str) (ps : List (Str × V))
      → All (Unseen (upper_all n ∷ seen)) ps
      → All (λ p. Distinguished n p.0) ps × All (Unseen seen) ps
  unfolding has_str
  Unseen-split n seen [] h = (tt, tt)
  Unseen-split n seen (p ∷ ps) h =
      let (a, b) = or_parts (bytes_eq (upper_all n) (upper_all p.0)) _ h.0 in
      let (c, d) = Unseen-split n seen ps h.1 in
      ((differs (upper_all n) (upper_all p.0) a, c), (b, d))

  check_names-GoodNames :
      (flat : List (Str × V)) (seen : List Str)
      → check_names flat seen ≡ ok tt
      → GoodNames flat × All (Unseen seen) flat
  unfolding check_names
  check_names-GoodNames [] seen e = (tt, tt)
  check_names-GoodNames ((n, v) ∷ rest) seen e =
      let (t, et, e1) = and_then-ok (object_name (str n)) _ e in
      let (fresh, e2) = refuse-ok (has_str (upper_all n) seen) name_collision e1 in
      let (good, unseen) = check_names-GoodNames rest (upper_all n ∷ seen) e2 in
      let (apart, old) = Unseen-split n seen rest unseen in (((t, et), apart, good), (fresh, old))

  -- Every name that `flatten_names` gives is accepted as the name of an object, and no two of them
  -- are the same up to case.
  pub flatten_names-GoodNames :
      (prefix : Option Str) (glue : Str) (cs : List (Option (Container V))) (flat : List (Str × V))
      → flatten_names prefix glue cs ≡ ok flat
      → GoodNames flat
  unfolding flatten_names
  flatten_names-GoodNames prefix glue cs flat e =
      let (all, ea, e1) = and_then-ok (flatten_all prefix glue cs) _ e in
      let (u, eu, e2) = and_then-ok (check_names all []) _ e1 in
      subst GoodNames (ok-injective e2) (check_names-GoodNames all [] eu).0
