-- ===== src/Bridge/Resolving.antt =====
-- The resolution of names in src/famepy/bridge/_workspace.py, and the reads of whole workspaces.
pub mod Separate
pub mod Complete
use famepy.Prelude.{
  ℕ, ◌+◌, ℤ, pos, Bool, true, false, not, ◌&&◌, ◌||◌, Option, none, some, List, [], ◌∷◌, ◌++◌, map,
  bytes_eq, codes, ltb, ◌==◌, if◌then◌else◌,
}
use famepy.Errors.{Result, ok, err, value_error, name_collision}
use famepy.Native.{Native}
use famepy.World.{World}
use famepy.Exec.{Exec, pure, raise, lift, finally, ◌>>=◌}
use famepy.Text.{Text, str, bytes, name_capacity}
use famepy.Constants.{CodeArg}
use famepy.Objects.{FameObject, and_then, quick_info}
use famepy.Wildcard.{listdb}
use famepy.Wildcard.Filters.{Words, Frequencies, is_wildcard}
use famepy.Database.{opendb, closedb}
use famepy.Data.{Numpy, absent}
use famepy.Data.Reading.{DataObject}
use famepy.Bridge.Naming.{
  Str, Key, Namecase, Collect, Forest, normalize_collect, destination, has_key, branches_of,
  any_leaf,
}
use famepy.Bridge.Workspaces.{ReadReport, fame_name_text, read_into}

-- the keyword arguments of a read that shape the keys and filter the listing
pub record Options : Type 0 where
  pub namecase : Namecase
  pub prefix : Option Str
  pub glue : Str
  pub collect : Collect
  pub alias : Bool
  pub classes : Words
  pub types : Words
  pub frequencies : Frequencies

-- the order of strings by their code points
unfoldable pub is_before : Str → Str → Bool
is_before [] [] = false
is_before [] (c ∷ s) = true
is_before (c ∷ s) [] = false
is_before (c ∷ s) (d ∷ t) = ltb c d || c == d && is_before s t

-- an object in a list sorted by the texts, before those of larger or equal ones
unfoldable pub insert_object : Str × FameObject → List (Str × FameObject) → List (Str × FameObject)
insert_object p [] = p ∷ []
insert_object p (q ∷ qs) = if is_before q.0 p.0 then q ∷ insert_object p qs else p ∷ q ∷ qs

unfoldable pub sort_texts : List (Str × FameObject) → List (Str × FameObject)
sort_texts [] = []
sort_texts (p ∷ ps) = insert_object p (sort_texts ps)

-- the objects with the texts that they are sorted by, all of which are made first
unfoldable pub with_texts : List FameObject → Result (List (Str × FameObject))
with_texts [] = ok []
with_texts (o ∷ os) =
    and_then (fame_name_text o) λ text. and_then (with_texts os) λ rest. ok ((text, o) ∷ rest)

-- `sorted(..., key=_fame_name_text)`
unfoldable pub sort_objects : List FameObject → Result (List FameObject)
sort_objects os = and_then (with_texts os) λ ps. ok (map (λ p. p.1) (sort_texts ps))

-- `text in seen`
unfoldable pub has_str : Str → List Str → Bool
has_str s [] = false
has_str s (t ∷ ts) = bytes_eq t s || has_str s ts

-- The texts that were seen and the objects, in order.
abbrev pub Gathered : Type 0
Gathered = List Str × List FameObject

abbrev pub add_object : Str → FameObject → Gathered → Gathered
add_object text o g = if has_str text g.0 then g else (text ∷ g.0, g.1 ++ (o ∷ []))

-- the objects that were not seen before, once each, after those that were
unfoldable pub add_objects : Gathered → List FameObject → Result Gathered
add_objects g [] = ok g
add_objects g (o ∷ os) = and_then (fame_name_text o) λ text. add_objects (add_object text o g) os

abbrev pub is_pattern : Text → Bool
is_pattern (str cs) = is_wildcard cs
is_pattern (bytes bs) = is_wildcard bs

abbrev pub or_everything : List Text → List Text
or_everything [] = str (codes "?") ∷ []
or_everything names = names

abbrev pub front :
    FameObject × Key
    → Result (List (FameObject × Key) × (List Key × List Key))
    → Result (List (FameObject × Key) × (List Key × List Key))
front p (ok r) = ok (p ∷ r.0, r.1)
front p (err e) = err e

-- The loop over the objects: their keys, with the leaves and the branches so far.
unfoldable pub assign_keys :
    (FameObject → Result Key)
    → List FameObject
    → List Key
    → List Key
    → Result (List (FameObject × Key) × (List Key × List Key))
assign_keys dest [] leaves branches = ok ([], (leaves, branches))
assign_keys dest (o ∷ os) leaves branches = and_then (dest o) λ key.
    if has_key key leaves
    then err name_collision
    else front (o, key) (assign_keys dest os (key ∷ leaves) (branches_of key ++ branches))

-- the keys of all objects, or a collision
unfoldable pub resolve_objects :
    (FameObject → Result Key) → List FameObject → Result (List (FameObject × Key))
resolve_objects dest os =
    and_then (assign_keys dest os [] [])
      λ r. if any_leaf r.1.1 r.1.0 then err name_collision else ok r.0

-- the key of an object
abbrev pub key_of : Options → Forest → FameObject → Result Key
key_of opts spec obj =
    and_then (fame_name_text obj) λ text. destination text opts.glue opts.namecase opts.prefix spec

abbrev pub without_data : FameObject × Key → DataObject × Key
without_data (info, key) = (record { info = info; data' = absent }, key)

module _ (native : Native) (fuel hid : ℕ) where
  abbrev pub sorted_listing : Option (List FameObject) → Exec (Option (List FameObject))
  sorted_listing none = pure none
  sorted_listing (some os) = do sorted ← lift (sort_objects os); pure (some sorted)

  -- what one argument names: a sorted listing, or one object
  unfoldable pub find_objects : Options → Text → Exec (Option (List FameObject))
  find_objects opts argument =
      if is_pattern argument
      then (do
        found ←
            listdb native fuel hid argument opts.alias opts.classes opts.types opts.frequencies
              (pos name_capacity)
        sorted_listing found)
      else (do obj ← quick_info native hid argument; pure (some (obj ∷ [])))

  -- The loop over the arguments; `none` is a listing that ran out of fuel.
  unfoldable pub gather : Options → List Text → Gathered → Exec (Option Gathered)
  gather opts [] g = pure (some g)
  gather opts (argument ∷ rest) g = do
    found ← find_objects opts argument
    elim found [
      | none ↦ pure none
      | some os ↦ do more ← lift (add_objects g os); gather opts rest more
    ]

  -- `resolve_names`
  unfoldable pub resolve_names : Options → List Text → Exec (Option (List (FameObject × Key)))
  resolve_names opts names = do
    spec ← lift (normalize_collect opts.collect)
    ordered ← gather opts (or_everything names) ([], [])
    elim ordered [
      | none ↦ pure none
      | some g ↦ do resolved ← lift (resolve_objects (key_of opts spec) g.1); pure (some resolved)
    ]

  module _ {V : Type 0} (unfame : DataObject → Exec V) (numpy : Numpy)
      (raw_fallback contain : Bool) where
    -- `readfame` and `readfame_report` of an open database, which differ in `contain`; the
    -- policies are in `unfame`
    unfoldable pub readfame : Options → List Text → Exec (Option (ReadReport V))
    readfame opts names = do
      resolved ← resolve_names opts names
      elim resolved [
        | none ↦ pure none
        | some ps ↦ do
          report ← read_into raw_fallback contain unfame native numpy hid (map without_data ps)
          pure (some report)
      ]

-- `readfame` and `readfame_report` of a path, which is opened read-only and closed afterwards
unfoldable pub readfame_path :
    {V : Type 0}
    → Native
    → ℕ
    → (DataObject → Exec V)
    → Numpy
    → Bool
    → Bool
    → Text
    → Options
    → List Text
    → Exec (Option (ReadReport V))
readfame_path native fuel unfame numpy raw_fallback contain path opts names = do
  hid ← opendb native path (CodeArg.name (codes "readonly")) none
  finally (readfame native fuel hid unfame numpy raw_fallback contain opts names)
      (closedb native hid)
