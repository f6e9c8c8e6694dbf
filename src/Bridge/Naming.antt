-- ===== src/Bridge/Naming.antt =====
-- The keys under which src/famepy/bridge/_workspace.py stores the objects that it reads.
pub mod Collisions
use famepy.Prelude.{
  ℕ, Bool, true, false, ◌&&◌, ◌||◌, Option, none, some, List, [], ◌∷◌, ◌++◌, codes, bytes_eq, ◌==◌,
  if◌then◌else◌,
}
use famepy.Errors.{Result, ok, err, value_error, type_error, name_collision}
use famepy.Wildcard.Filters.{upper_all}
use famepy.Objects.{and_then}

-- A string by its code points, and a key path.
abbrev pub Str : Type 0
Str = List ℕ

abbrev pub Key : Type 0
Key = List Str

-- A collect specification: a mapping or a list of entries. An entry is a name, a mapping or a pair
-- of a name and a nested specification; `bad_pair` and `bad_entry` stand for values of other types.
-- A specification that contains itself is no value of this type.
mutual
  pub data Nested : Type 0 where
    mapping : Pairs → Nested
    entries : Entries → Nested

  pub data Pairs : Type 0 where
    no_pairs : Pairs
    pair : Str → Nested → Pairs → Pairs
    bad_pair : Pairs → Pairs

  pub data Entries : Type 0 where
    no_entries : Entries
    named : Str → Entries → Entries
    mapped : Pairs → Entries → Entries
    paired : Str → Nested → Entries → Entries
    bad_entry : Entries → Entries

-- `None`, a name, or a specification
pub data Collect : Type 0 where
  no_collect : Collect
  one_name : Str → Collect
  nested_spec : Nested → Collect
  bad_collect : Collect

-- The normal form: a list of names, each with its nested list.
pub data Forest : Type 0 where
  no_trees : Forest
  tree : Str → Forest → Forest → Forest

-- `result.extend`
unfoldable pub extend : Forest → Forest → Forest
extend no_trees g = g
extend (tree s below f) g = tree s below (extend f g)

abbrev pub is_empty_str : Str → Bool
is_empty_str [] = true
is_empty_str _ = false

-- a name in front of the entries after it
abbrev pub add_tree : Str → Result Forest → Result Forest → Result Forest
add_tree s below rest =
    if is_empty_str s
    then err value_error
    else and_then below λ b. and_then rest λ r. ok (tree s b r)

-- `_normalize_collect` of a list, a tuple or a mapping
unfoldable mutual
  unfolding extend

  pub normalize_nested : Nested → Result Forest
  normalize_nested (mapping ps) = normalize_pairs ps
  normalize_nested (entries es) = normalize_entries es

  pub normalize_pairs : Pairs → Result Forest
  normalize_pairs no_pairs = ok no_trees
  normalize_pairs (pair s n ps) = add_tree s (normalize_nested n) (normalize_pairs ps)
  normalize_pairs (bad_pair ps) = err type_error

  pub normalize_entries : Entries → Result Forest
  normalize_entries no_entries = ok no_trees
  normalize_entries (named s es) = add_tree s (ok no_trees) (normalize_entries es)
  normalize_entries (mapped ps es) =
      and_then (normalize_pairs ps) λ a. and_then (normalize_entries es) λ b. ok (extend a b)
  normalize_entries (paired s n es) = add_tree s (normalize_nested n) (normalize_entries es)
  normalize_entries (bad_entry es) = err type_error

-- `_normalize_collect`
unfoldable pub normalize_collect : Collect → Result Forest
normalize_collect no_collect = ok no_trees
normalize_collect (one_name s) = add_tree s (ok no_trees) (ok no_trees)
normalize_collect (nested_spec n) = normalize_nested n
normalize_collect bad_collect = err type_error

-- what follows a prefix, if it is one: `name.startswith(prefix)` and `name[len(prefix):]`
unfoldable pub after_prefix : Str → Str → Option Str
after_prefix [] s = some s
after_prefix (c ∷ p) [] = none
after_prefix (c ∷ p) (d ∷ s) = if c == d then after_prefix p s else none

-- `name.partition(glue)[0]`, if the glue occurs
unfoldable pub first_part : Str → Str → Option Str
first_part glue [] = elim (after_prefix glue []) [ none ↦ none | some _ ↦ some [] ]
first_part glue (c ∷ s) = elim (after_prefix glue (c ∷ s)) [
  | some _ ↦ some []
  | none ↦ elim (first_part glue s) [ none ↦ none | some p ↦ some (c ∷ p) ]
]

-- The user's function; `namecase` of a name must give a string.
abbrev pub Namecase : Type 0
Namecase = Str → Result Str

abbrev pub not_empty : Result Str → Result Str
not_empty (ok []) = err value_error
not_empty (ok (c ∷ s)) = ok (c ∷ s)
not_empty (err e) = err e

-- `_apply_namecase`
unfoldable pub apply_namecase : Namecase → Str → Result Str
apply_namecase namecase name' = not_empty (namecase name')

-- what an entry matches with and the key that it gives; nothing for a `?` or `*` without a part
abbrev pub part_match : Namecase → Option Str → Result (Option (Str × Str))
part_match namecase none = ok none
part_match namecase (some []) = ok none
part_match namecase (some (c ∷ s)) =
    and_then (apply_namecase namecase (c ∷ s)) λ key. ok (some (c ∷ s, key))

unfoldable pub entry_match : Namecase → Str → Str → Str → Result (Option (Str × Str))
entry_match namecase glue name' s =
    if bytes_eq s (codes "?") || bytes_eq s (codes "*")
    then part_match namecase (first_part glue name')
    else ok (some (s, s))

-- the name that is left after a match, which is not empty
abbrev pub remainder : Str → Str → Option (Str × Str) → Option (Str × Str)
remainder glue name' none = none
remainder glue name' (some (m, key)) = elim (after_prefix (upper_all (m ++ glue)) name') [
  | none ↦ none
  | some [] ↦ none
  | some (c ∷ rest) ↦ some (key, c ∷ rest)
]

abbrev pub under : Str → Result (Key × Str) → Result (Key × Str)
under key (ok p) = ok (key ∷ p.0, p.1)
under key (err e) = err e

-- The loop over the pending entries: the path of the matches, and the name that is left.
unfoldable pub collect_path : Namecase → Str → Forest → Str → Result (Key × Str)
collect_path namecase glue no_trees name' = ok ([], name')
collect_path namecase glue (tree s below rest) name' =
    and_then (entry_match namecase glue name' s) λ found. elim (remainder glue name' found) [
      | none ↦ collect_path namecase glue rest name'
      | some (key, left) ↦ under key (collect_path namecase glue below left)
    ]

-- the prefix and its glue stripped from the start
unfoldable pub strip_prefix : Option Str → Str → Str → Str
strip_prefix none glue name' = name'
strip_prefix (some p) glue name' = elim (after_prefix (upper_all (p ++ glue)) name') [
  | none ↦ name'
  | some rest ↦ rest
]

abbrev pub has_trees : Forest → Bool
has_trees no_trees = false
has_trees _ = true

-- `_destination`
unfoldable pub destination : Str → Str → Namecase → Option Str → Forest → Result Key
destination name' glue namecase prefix collect =
    if has_trees collect && is_empty_str glue
    then err value_error
    else and_then (collect_path namecase glue collect (strip_prefix prefix glue name'))
        λ p. and_then (apply_namecase namecase p.1) λ key. ok (p.0 ++ (key ∷ []))

-- equality of keys
abbrev pub key_eq : Key → Key → Bool
key_eq [] [] = true
key_eq (s ∷ k) (t ∷ l) = bytes_eq s t && key_eq k l
key_eq _ _ = false

-- `key in leaves`
unfoldable pub has_key : Key → List Key → Bool
has_key k [] = false
has_key k (l ∷ ls) = key_eq l k || has_key k ls

abbrev pub map_onto : Str → List Key → List Key
map_onto s [] = []
map_onto s (k ∷ ks) = (s ∷ k) ∷ map_onto s ks

-- `key[:depth] for depth in range(1, len(key))`
unfoldable pub branches_of : Key → List Key
branches_of [] = []
branches_of (s ∷ []) = []
branches_of (s ∷ t ∷ k) = (s ∷ []) ∷ map_onto s (branches_of (t ∷ k))

-- some branch is a leaf
unfoldable pub any_leaf : List Key → List Key → Bool
any_leaf [] leaves = false
any_leaf (b ∷ bs) leaves = has_key b leaves || any_leaf bs leaves

-- The loop of `resolve_names` over the keys: the keys are the leaves, and what lies above them
-- the branches.
unfoldable pub add_keys : List Key → List Key → List Key → Result (List Key × List Key)
add_keys [] leaves branches = ok (leaves, branches)
add_keys (k ∷ ks) leaves branches =
    if has_key k leaves
    then err name_collision
    else add_keys ks (k ∷ leaves) (branches_of k ++ branches)

-- the two checks for collisions
unfoldable pub check_keys : List Key → Result (Unit {0})
check_keys ks =
    and_then (add_keys ks [] []) λ p. if any_leaf p.1 p.0 then err name_collision else ok tt
