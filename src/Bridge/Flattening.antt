-- ===== src/Bridge/Flattening.antt =====
-- Workspaces flattened to names: `flatten_names` of src/famepy/bridge/_workspace.py.
pub mod Paths
pub mod Names
use famepy.Prelude.{ℕ, Bool, true, false, Option, none, some, List, [], ◌∷◌, ◌++◌, if◌then◌else◌}
use famepy.Errors.{Result, ok, err, type_error, name_collision}
use famepy.Objects.{and_then}
use famepy.Text.{str, object_name}
use famepy.Wildcard.Filters.{upper_all}
use famepy.Bridge.Naming.{Str}
use famepy.Bridge.Resolving.{has_str}

-- A workspace, a mapping or the columns of a multivariate series, in order, whose values are
-- converted later; `bad_key` stands for a key that is no string. A container that contains itself
-- is no value of this type.
mutual
  pub data Container (V : Type 0) : Type 0 where
    no_items : Container V
    item : Str → Content V → Container V → Container V
    bad_key : Container V → Container V

  pub data Content (V : Type 0) : Type 0 where
    leaf : V → Content V
    nested : Container V → Content V

-- the name of a key below a prefix
abbrev pub joined : Option Str → Str → Str → Str
joined none glue key = key
joined (some p) glue key = p ++ (glue ++ key)

module _ {V : Type 0} where
  abbrev pub with_first : List (Str × V) → Result (List (Str × V)) → Result (List (Str × V))
  with_first xs (ok ys) = ok (xs ++ ys)
  with_first xs (err e) = err e

  -- what an item adds in front of the items after it
  abbrev pub with_items :
      Result (List (Str × V)) → Result (List (Str × V)) → Result (List (Str × V))
  with_items (ok xs) rest = with_first xs rest
  with_items (err e) rest = err e

  -- `_flatten_into`, as the list of what it appends
  unfoldable mutual
    pub flatten_into : Option Str → Str → Container V → Result (List (Str × V))
    flatten_into prefix glue no_items = ok []
    flatten_into prefix glue (item key x rest) =
        with_items (flatten_content (joined prefix glue key) glue x) (flatten_into prefix glue rest)
    flatten_into prefix glue (bad_key rest) = err type_error

    pub flatten_content : Str → Str → Content V → Result (List (Str × V))
    flatten_content name' glue (leaf v) = ok ((name', v) ∷ [])
    flatten_content name' glue (nested c) = flatten_into (some name') glue c

  -- the loop over the arguments, of which `none` is no container
  unfoldable pub flatten_all :
      Option Str → Str → List (Option (Container V)) → Result (List (Str × V))
  flatten_all prefix glue [] = ok []
  flatten_all prefix glue (none ∷ cs) = err type_error
  flatten_all prefix glue (some c ∷ cs) =
      with_items (flatten_into prefix glue c) (flatten_all prefix glue cs)

  -- the loop that checks the names
  unfoldable pub check_names : List (Str × V) → List Str → Result (Unit {0})
  check_names [] seen = ok tt
  check_names ((n, v) ∷ rest) seen = and_then (object_name (str n)) λ u.
      if has_str (upper_all n) seen
      then err name_collision
      else check_names rest (upper_all n ∷ seen)

  -- `flatten_names`
  unfoldable pub flatten_names :
      Option Str → Str → List (Option (Container V)) → Result (List (Str × V))
  flatten_names prefix glue data' =
      and_then (flatten_all prefix glue data') λ flat. and_then (check_names flat []) λ u. ok flat
