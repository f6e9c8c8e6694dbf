-- ===== src/Tests/Bridge.antt =====
-- The theorems of the bridge at concrete inputs.
use famepy.Prelude.{
  ◌==◌, if◌then◌else◌, ℕ, pos, ◌≡◌, ◌↔◌, refl, true, none, some, List, [], ◌∷◌, All, codes, inl,
  inr, map,
}
use famepy.Errors.{Result, ok, err, value_error, check_status}
use famepy.World.{World, put_session}
use famepy.Exec.{Exec, pure, actions}
use famepy.Text.{str, object_name, to_native, is_ascii, no_nul}
use famepy.Wildcard.Filters.{Words, Frequencies, is_wildcard, upper_all}
use famepy.Data.{Numpy, absent, kind_from_type, encode_scalar}
use famepy.Data.Buffers.{read_values, bulk, range_argument, native_name, first_value, tabulate}
use famepy.Data.Carriers.{new_raw_scalar, value_frequency, scalar_payload}
use famepy.Data.Reading.{endpoints, DataObject, do_read, read_object, read_locked, read_scalar}
use famepy.Objects.{FameObject, quick_info, query_info, check_supported_class, is_date_type}
use famepy.Database.{db_operation, check_open}
use famepy.Runtime.{operation, check_process, check_not_inherited, fresh_session}
use famepy.Text.Values.{from_native}
use famepy.Bridge.Naming.{
  Str, Key, named, no_entries, nested_spec, entries, normalize_collect, normalize_nested,
  destination, strip_prefix, collect_path, entry_match, first_part, after_prefix, apply_namecase,
  has_key, branches_of, any_leaf,
}
use famepy.Bridge.Naming.Collisions.{Divergent}
use famepy.Constants.{CodeArg}
use famepy.Bridge.Frequencies.{quarterly, fame_frequency, tsecon_frequency}
use famepy.Bridge.Frequencies.Inverse.{fame_frequency-tsecon_frequency}
use famepy.Data.{Kind, double}
use famepy.Data.Carriers.{RawObject, raw_scalar}
use famepy.Bridge.Writes.{WriteOptions, WriteReport, object_failure}
use famepy.Bridge.Resolving.{
  Options, has_str, gather, find_objects, add_objects, resolve_objects, assign_keys, resolve_names,
}
use famepy.Bridge.Resolving.{readfame, without_data}
use famepy.Bridge.Resolving.Complete.{readfame-Accounted}
use famepy.Bridge.Workspaces.{get_entry, space}
use famepy.Bridge.Resolving.Separate.{resolve_names-Divergent}
use famepy.Bridge.Workspaces.{
  Workspace, empty, bound, value, find, place, converted, ReadReport, fame_name_text, read_one,
  read_all, contained, store, store_read, store_result, set_entry, read_into,
}
use famepy.Bridge.Workspaces.Complete.{Accounted, read_into-Accounted}
use famepy.Bridge.Workspaces.Placing.{place_all, place_all-found}
use famepy.Bridge.Flattening.{
  Container, item, no_items, leaf, nested, flatten_all, flatten_into, check_names, flatten_names,
}
use famepy.Bridge.Flattening.Paths.{named_paths, all_paths, flatten_names-paths}
use famepy.Bridge.Flattening.Names.{GoodNames, flatten_names-GoodNames}
use famepy.Tests.Samples.{willing, some_sentinels, with_handle}

abbrev sample_numpy : Numpy
sample_numpy = record { from_integer = λ n. some 0; narrowed = λ b. some b; widened = λ b. b }

-- two values under one nested workspace and one beside it
abbrev three_values : List (Key × ℕ)
three_values =
    ((codes "a" ∷ codes "x" ∷ []), 1)
    ∷ ((codes "a" ∷ codes "xx" ∷ []), 2)
    ∷ ((codes "aa" ∷ []), 3)
    ∷ []

place_all-found_example :
    (w : Workspace ℕ) × (place_all three_values empty ≡ ok w)
    × All (λ p. find p.0 w ≡ some p.1) three_values
place_all-found_example =
    place_all-found three_values (tt, (tt, (tt, tt)))
      ((inr (inl (λ q. cc)), (inl (λ q. cc), tt)), ((inl (λ q. cc), tt), (tt, tt)))

abbrev two_values : Container ℕ
two_values =
    item (codes "a") (nested (item (codes "x") (leaf 1) no_items))
      (item (codes "b") (leaf 2) no_items)

two_values-flat :
    flatten_names (some (codes "P")) (codes "_") (some two_values ∷ [])
    ≡ ok ((codes "P_a_x", 1) ∷ (codes "P_b", 2) ∷ [])
unfolding flatten_names flatten_all flatten_into check_names object_name has_str upper_all to_native
    is_ascii no_nul
two_values-flat = refl

flatten_names-paths_example :
    ((codes "P_a_x", 1) ∷ (codes "P_b", 2) ∷ [])
    ≡ named_paths (some (codes "P")) (codes "_") (all_paths (some two_values ∷ []))
flatten_names-paths_example =
    flatten_names-paths (some (codes "P")) (codes "_") (some two_values ∷ []) _ two_values-flat

flatten_names-GoodNames_example : GoodNames {V = ℕ} ((codes "P_a_x", 1) ∷ (codes "P_b", 2) ∷ [])
flatten_names-GoodNames_example =
    flatten_names-GoodNames (some (codes "P")) (codes "_") (some two_values ∷ []) _ two_values-flat

-- the first part of a name names a nested workspace
abbrev first_parts : Options
first_parts = record {
  namecase = λ s. ok s;
  prefix = none;
  glue = codes "_";
  collect = nested_spec (entries (named (codes "?") no_entries));
  alias = true;
  classes = Words.absent;
  types = Words.absent;
  frequencies = Frequencies.absent;
}

abbrev scalar_named : Str → FameObject
scalar_named s = record {
  name = s;
  class_code = pos 2;
  type_code = pos 5;
  frequency = pos 0;
  first_index = some (pos 0);
  last_index = some (pos 0);
}

abbrev two_objects : List (FameObject × Key)
two_objects =
    (scalar_named (codes "a_x"), codes "A" ∷ codes "X" ∷ [])
    ∷ (scalar_named (codes "b"), codes "B" ∷ [])
    ∷ []

two_objects-resolved :
    (resolve_names willing 1 0 first_parts (str (codes "a_x") ∷ str (codes "b") ∷ []) with_handle).0
    ≡ ok (some two_objects)
unfolding actions resolve_names normalize_collect normalize_nested gather find_objects is_wildcard
    quick_info object_name to_native is_ascii no_nul db_operation check_open operation check_process
    check_not_inherited famepy.Runtime.session fresh_session query_info famepy.Runtime.int32
    check_status add_objects has_str fame_name_text from_native upper_all resolve_objects
    assign_keys destination strip_prefix collect_path entry_match first_part after_prefix
    apply_namecase has_key branches_of any_leaf
two_objects-resolved = refl

resolve_names-Divergent_example : Divergent (map (λ p. p.1) two_objects)
resolve_names-Divergent_example =
    resolve_names-Divergent willing 1 0 first_parts (str (codes "a_x") ∷ str (codes "b") ∷ [])
      with_handle two_objects two_objects-resolved

-- a conversion to the number 5
abbrev five : DataObject → Exec ℕ
five obj = pure 5

abbrev one_resolved : List (DataObject × Key)
one_resolved = (record { info = scalar_named (codes "B"); data' = absent }, codes "b" ∷ []) ∷ []

abbrev ready : World
ready =
    put_session 0 (record (with_handle.sessions 0) { sentinels = some some_sentinels }) with_handle

abbrev one_report : ReadReport ℕ
one_report = record {
  workspace = bound (codes "b") (value (converted 5)) empty;
  failures = [];
  raw = [];
}

one-read : (read_into true true five willing sample_numpy 0 one_resolved ready).0 ≡ ok one_report
unfolding actions fame_name_text from_native is_ascii read_into read_all read_one contained do_read
    db_operation check_open operation check_process check_not_inherited famepy.Runtime.session
    fresh_session read_object query_info famepy.Runtime.int32 check_status read_locked read_scalar
    check_supported_class kind_from_type is_date_type famepy.Runtime.sentinels store_read
    store_result store place set_entry endpoints read_values bulk range_argument native_name
    new_raw_scalar value_frequency scalar_payload encode_scalar first_value tabulate
one-read = refl

read_into-Accounted_example : All (Accounted willing sample_numpy 0 five one_report) one_resolved
read_into-Accounted_example =
    read_into-Accounted willing sample_numpy 0 five true true one_resolved ready one_report (tt, tt)
      one-read

fame_frequency-tsecon_frequency_example :
    (fame_frequency (quarterly 2) ≡ ok (pos 161))
    ↔ (tsecon_frequency (CodeArg.number (pos 161)) ≡ ok (quarterly 2))
fame_frequency-tsecon_frequency_example = fame_frequency-tsecon_frequency (quarterly 2) (pos 161)

abbrev write_options : WriteOptions
write_options = record {
  mode = some (CodeArg.name (codes "update"));
  prefix = some (codes "P");
  glue = codes "_";
  replace = true;
  basis = none;
  observed = none;
}

-- 2 is refused
abbrev not_two : ℕ → Result (Unit {0})
not_two n = if n == 2 then err value_error else ok tt

abbrev as_scalar : ℕ → ℕ → Exec RawObject
as_scalar session n =
    pure (raw_scalar (record { kind = Kind.precision; value = double n; date_frequency = none }))

abbrev part_report : WriteReport
part_report = record {
  written = codes "P_a_x" ∷ [];
  failures = object_failure (codes "P_b") value_error ∷ [];
  posted = true;
}

abbrev read_report : ReadReport ℕ
read_report = record {
  workspace = bound (codes "A") (space (bound (codes "X") (value (converted 5)) empty)) empty;
  failures = [];
  raw = [];
}

one-readfame :
    (readfame willing 1 0 five sample_numpy true true first_parts (str (codes "a_x") ∷ []) ready).0
    ≡ ok (some read_report)
unfolding actions readfame resolve_names normalize_collect normalize_nested gather find_objects
    is_wildcard quick_info object_name to_native is_ascii no_nul db_operation check_open operation
    check_process check_not_inherited famepy.Runtime.session fresh_session query_info
    famepy.Runtime.int32 check_status add_objects has_str fame_name_text from_native upper_all
    resolve_objects assign_keys destination strip_prefix collect_path entry_match first_part
    after_prefix apply_namecase has_key branches_of any_leaf read_into read_all read_one contained
    do_read read_object read_locked read_scalar check_supported_class kind_from_type is_date_type
    famepy.Runtime.sentinels store_read store_result store place set_entry endpoints read_values
    bulk range_argument native_name new_raw_scalar value_frequency scalar_payload encode_scalar
    first_value tabulate get_entry
one-readfame = refl

readfame-Accounted_example :
    (ps : List (FameObject × Key)) × ((resolve_names willing 1 0 first_parts
        (str (codes "a_x") ∷ [])
        ready).0
      ≡ ok (some ps))
    × All (Accounted willing sample_numpy 0 five read_report) (map without_data ps)
readfame-Accounted_example =
    readfame-Accounted willing 1 0 five sample_numpy true true first_parts (str (codes "a_x") ∷ [])
      ready read_report one-readfame
