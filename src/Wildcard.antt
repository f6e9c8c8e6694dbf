-- ===== src/Wildcard.antt =====
-- src/famepy/_wildcard.py: the listing of the objects that match a pattern, with its cursor and
-- the cleanup of the process-wide options.
pub mod Filters
pub mod Keeps
pub mod Scan
pub mod Narrowing
pub mod Cleanup
use famepy.Prelude.{
  ℕ, suc, zero, ◌^◌, Bytes, ℤ, pos, negsuc, ltb_ℤ, leb, ◌==ℤ◌, Bool, true, false, not, ◌&&◌, ◌||◌,
  Option, none, some, List, [], ◌∷◌, ◌++◌, codes, contains_byte, ◌==◌, if◌then◌else◌,
}
use famepy.Errors.{
  Error, Hli, Result, ok, err, is_exception, name_truncated, data_validation, check_status,
}
use famepy.Native.{
  Native, Listed, cfmsopt, fame_init_wildcard, fame_get_next_wildcard, fame_free_wildcard,
}
use famepy.World.{World}
use famepy.Exec.{
  Exec, pure, raise, lift, gets, catch, skip, raise_if, call, call_status, finish, finally, ◌>>=◌,
  ◌>>◌,
}
use famepy.Text.{Text, to_native}
use famepy.Constants.{CodeArg, object_classes, object_types}
use famepy.Objects.{FameObject, and_then, from_codes, is_scalar, query_info}
use famepy.Runtime.{int32, up_to_nul, hli_of, attach_extended_error}
use famepy.Database.{db_operation, opendb, closedb}
use famepy.Wildcard.Filters.{
  Words, Frequencies, Selectors, values, frequency_filter, native_selectors, has_element,
}

-- `HNOOBJ`, `HTRUNC`
abbrev pub hnoobj : ℤ
hnoobj = pos 13

abbrev pub htrunc : ℤ
htrunc = pos 18

-- `data[:n]`
unfoldable pub take : ℕ → Bytes → Bytes
take zero bs = []
take (suc n) [] = []
take (suc n) (b ∷ bs) = b ∷ take n bs

-- `min(max(n, 0), capacity)`
abbrev pub clamp : ℤ → ℕ → ℕ
clamp (negsuc n) capacity = 0
clamp (pos n) capacity = if ltb_ℤ (pos capacity) (pos n) then capacity else n

abbrev pub is_err : {A : Type 0} → Result A → Bool
is_err (ok _) = false
is_err (err _) = true

-- `try: m` with `finally: c failed`, where `failed` tells whether `m` raised
unfoldable pub finally_if : {A : Type 0} → Exec A → (Bool → Exec Unit) → Exec A
finally_if m c w = let (r, w') = m w in let (r', w'') = c (is_err r) w' in (finish r r', w'')

-- `info.frequency in wanted_codes`, where there is such a set
abbrev pub is_wanted : Option (List ℤ) → FameObject → Bool
is_wanted none obj = true
is_wanted (some cs) obj = has_element obj.frequency cs

-- the objects found, with one more if it is wanted
abbrev pub keep_wanted : Option (List ℤ) → FameObject → List FameObject → List FameObject
keep_wanted wanted obj found = if is_wanted wanted obj then obj ∷ found else found

-- `NORMALIZED_OPTIONS`, each of which is set ON
abbrev pub normalized_options : List Bytes
normalized_options =
    codes "ITEM CLASS"
    ∷ codes "ITEM TYPE"
    ∷ codes "ITEM FREQUENCY"
    ∷ codes "ITEM INDEX"
    ∷ codes "ITEM ALIAS"
    ∷ []

-- the first failure of the resets is raised, if nothing was raised before
unfoldable pub first_failure : Bool → List Error → Exec Unit
first_failure failed [] = skip
first_failure true (e ∷ es) = skip
first_failure false (e ∷ es) = raise e

-- the arguments of a listing that were checked
pub record Listing : Type 0 where
  pub pattern : Bytes
  pub alias : Bool
  pub classes : List Bytes
  pub types : List Bytes
  pub wanted : Option (List ℤ)
  pub capacity : ℕ

-- the arguments of `listdb`, which are checked before the handle is
unfoldable pub listing : Text → Bool → Words → Words → Frequencies → ℤ → Result Listing
listing wildcard alias classes types freq (negsuc n) =
    and_then (to_native wildcard) (λ _. err data_validation)
listing wildcard alias classes types freq (pos capacity) = and_then (to_native wildcard) λ pattern.
    if not (leb 1 capacity && leb capacity (2 ^ 20))
    then err data_validation
    else and_then (frequency_filter freq) λ wanted. and_then (values object_classes classes) λ cs.
      and_then (values object_types types) λ ts. ok (record {
        pattern = pattern;
        alias = alias;
        classes = cs;
        types = ts;
        wanted = wanted;
        capacity = capacity;
      })

module _ (native : Native) where
  -- `native.set_option`
  unfoldable pub set_option : Bytes → Bytes → Exec Unit
  set_option option value = do
    raise_if (contains_byte 0 option || contains_byte 0 value) data_validation
    call native (cfmsopt option value)

  -- the words that an option selects, each set ON
  unfoldable pub select_words : Bytes → List Bytes → Exec Unit
  select_words option [] = skip
  select_words option (v ∷ vs) = do
    set_option (option ++ (32 ∷ v)) (codes "ON")
    select_words option vs

  -- one filter: ON where it selects nothing, else OFF and then its words
  unfoldable pub set_filter : Bytes → List Bytes → Exec Unit
  set_filter option [] = set_option option (codes "ON")
  set_filter option (v ∷ vs) = do set_option option (codes "OFF"); select_words option (v ∷ vs)

  unfoldable pub set_filters : Bool → List Bytes → List Bytes → Selectors → Exec Unit
  set_filters alias classes types selectors = do
    set_option (codes "ITEM ALIAS") (if alias then codes "ON" else codes "OFF")
    set_filter (codes "ITEM CLASS") classes
    set_filter (codes "ITEM TYPE") types
    set_filter (codes "ITEM FREQUENCY") selectors.frequency
    set_filter (codes "ITEM INDEX") selectors.index

  -- the failure of one reset is kept, and what is no `HLIError` is raised
  unfoldable pub keep_hli : Error → Option Hli → Exec (List Error)
  keep_hli e none = raise e
  keep_hli e (some _) = pure (e ∷ [])

  unfoldable pub reset_failed : Error → Exec (List Error)
  reset_failed e = keep_hli e (hli_of e)

  unfoldable pub reset_option : Bytes → Exec (List Error)
  reset_option option = catch (set_option option (codes "ON") >> pure []) reset_failed

  -- `_normalize_options`, for the options given
  unfoldable pub normalize : List Bytes → Exec (List Error)
  normalize [] = pure []
  normalize (option ∷ options) = do
    failures ← reset_option option
    others ← normalize options
    pure (failures ++ others)

  -- `native.init_wildcard`
  unfoldable pub init_wildcard : ℤ → Bytes → Exec ℤ
  init_wildcard key pattern = do
    k ← lift (int32 key)
    raise_if (contains_byte 0 pattern) data_validation
    call native (fame_init_wildcard k pattern)

  -- `native.next_wildcard`
  unfoldable pub next_wildcard : ℤ → ℕ → Exec (ℤ × Listed)
  next_wildcard cursor capacity = do
    c ← lift (int32 (pos capacity))
    raise_if (ltb_ℤ c (pos 1) || ltb_ℤ (pos (2 ^ 20)) c) data_validation
    k ← lift (int32 cursor)
    call_status native (fame_get_next_wildcard k c)

  -- `native.free_wildcard`
  unfoldable pub free_wildcard : ℤ → Exec Unit
  free_wildcard cursor = do k ← lift (int32 cursor); call native (fame_free_wildcard k)

  -- the metadata of a listed entry: a scalar is queried again
  unfoldable pub entry_object : ℤ → ℕ → Listed → Exec FameObject
  entry_object key capacity entry =
      let n = up_to_nul (take (clamp entry.returned_length capacity) entry.name) in
      if is_scalar (from_codes n entry.info)
      then query_info native key n
      else pure (from_codes n entry.info)

  -- the checks of an entry that is not the end of the listing
  unfoldable pub check_entry : ℕ → ℤ → Listed → Exec Unit
  check_entry capacity status entry = do
    raise_if (status ==ℤ htrunc) (name_truncated entry.returned_length (pos capacity))
    if status ==ℤ pos 0 then skip else lift (check_status status)
    raise_if (ltb_ℤ entry.returned_length (pos 0) || ltb_ℤ (pos capacity) entry.returned_length)
        (name_truncated entry.returned_length (pos capacity))

  -- The `while True` of `listdb`, for `fuel` rounds; `none` when they are used up.
  unfoldable pub scan : ℕ → ℤ → ℤ → ℕ → Option (List ℤ) → Exec (Option (List FameObject))
  scan zero key cursor capacity wanted = pure none
  scan (suc fuel) key cursor capacity wanted = do
    r ← next_wildcard cursor capacity
    if r.0 ==ℤ hnoobj then pure (some []) else do
      check_entry capacity r.0 r.1
      obj ← entry_object key capacity r.1
      rest ← scan fuel key cursor capacity wanted
      pure (elim rest [ none ↦ none | some found ↦ some (keep_wanted wanted obj found) ])

  -- an exception gets its extended text and is raised again
  unfoldable pub attach_and_raise : {A : Type 0} → ℕ → Error → Exec A
  attach_and_raise sid e = do e' ← attach_extended_error native sid e; raise e'

  -- the cursor is freed in any case; a failure to free it yields to an earlier one
  unfoldable pub free_cursor : ℤ → Bool → Exec Unit
  free_cursor cursor failed =
      catch (free_wildcard cursor) (λ e. if failed && is_exception e then skip else raise e)

  -- the listing over an open cursor
  unfoldable pub with_cursor : ℕ → ℕ → ℤ → ℤ → ℕ → Option (List ℤ) → Exec (Option (List FameObject))
  with_cursor fuel sid key cursor capacity wanted =
      finally_if (catch (scan fuel key cursor capacity wanted) (attach_and_raise sid))
        (free_cursor cursor)

  unfoldable pub clean_up : Bool → Exec Unit
  clean_up failed = do failures ← normalize normalized_options; first_failure failed failures

  -- the body of the locked operation
  unfoldable pub list_body : ℕ → ℕ → Listing → ℤ → Exec (Option (List FameObject))
  list_body fuel sid l key = do
    set_filters l.alias l.classes l.types (native_selectors l.wanted)
    cursor ← init_wildcard key l.pattern
    with_cursor fuel sid key cursor l.capacity l.wanted

  unfoldable pub list_locked : ℕ → ℕ → Listing → ℤ → Exec (Option (List FameObject))
  list_locked fuel sid l key =
      finally_if (catch (list_body fuel sid l key) (attach_and_raise sid)) clean_up

  -- `listdb` of an open handle
  unfoldable pub listdb :
      ℕ → ℕ → Text → Bool → Words → Words → Frequencies → ℤ → Exec (Option (List FameObject))
  listdb fuel hid wildcard alias classes types freq capacity = do
    l ← lift (listing wildcard alias classes types freq capacity)
    sid ← gets (λ w. (w.handles hid).session)
    db_operation native hid (list_locked fuel sid l)

  -- `listdb` of a path: the database is opened for the listing and closed after it
  unfoldable pub listdb_path :
      ℕ → Text → Text → Bool → Words → Words → Frequencies → ℤ → Exec (Option (List FameObject))
  listdb_path fuel dbname wildcard alias classes types freq capacity = do
    hid ← opendb native dbname (CodeArg.number (pos 1)) none
    finally (listdb fuel hid wildcard alias classes types freq capacity) (closedb native hid)
