-- ===== src/Wildcard/Keeps.antt =====
-- What native calls and extended error texts leave alone, a listing leaves alone.
use famepy.Prelude.{
  refl, ℕ, suc, zero, ℤ, Bytes, List, [], ◌∷◌, Bool, true, false, Option, none, some,
}
use famepy.Errors.{Error, Hli, Result, ok, err}
use famepy.Native.{
  Native, Listed, cfmsopt, fame_quick_info, fame_init_wildcard, fame_get_next_wildcard,
  fame_free_wildcard,
}
use famepy.World.{World}
use famepy.Exec.{Exec, skip, finish}
use famepy.Runtime.{hli_of}
use famepy.Runtime.Hoare.{Post}
use famepy.Runtime.Keeps.{
  Stable, Post-both, Keeps, operation-Keeps, Keeps-gets, Keeps-pure, Keeps-raise, Keeps-lift,
  Keeps-raise_if, Keeps-if, Keeps-bind, Keeps-catch, call-Keeps, call_status-Keeps, attach-Keeps,
}
use famepy.Objects.{from_codes, query_info}
use famepy.Wildcard.{
  set_option, select_words, set_filter, set_filters, keep_hli, reset_failed, reset_option,
  normalize, init_wildcard, next_wildcard, free_wildcard, entry_object, check_entry, scan,
  attach_and_raise, free_cursor, with_cursor, first_failure, clean_up, Listing, list_body,
  list_locked, listdb, finally_if, is_err,
}
use famepy.Text.{Text}
use famepy.Database.{check_open, db_operation}
use famepy.Database.Closing.{Tracked, Tracked-refl, Tracked-Stable}
use famepy.Wildcard.Filters.{Words, Frequencies, Selectors}

module _ (P : World → Type 0) where
  skip-Keeps : Keeps P skip
  unfolding skip
  skip-Keeps = Keeps-pure P tt

  finish-Post :
      {A : Type 0} (r : Result A) (p : Result Unit × World)
      → Post p P P
      → Post (finish r p.0, p.1) P P
  finish-Post (ok a) (ok u, w) h = h
  finish-Post (err e) (ok u, w) h = h
  finish-Post (ok a) (err f, w) h = h
  finish-Post (err e) (err f, w) h = h

  pub Keeps-finally_if :
      {A : Type 0} (m : Exec A) (c : Bool → Exec Unit)
      → Keeps P m
      → ((b : Bool) → Keeps P (c b))
      → Keeps P (finally_if m c)
  unfolding finally_if
  Keeps-finally_if m c h k = record {
    at = λ w p.
        finish-Post (m w).0 (c (is_err (m w).0) (m w).1)
          ((k (is_err (m w).0)).at (m w).1 (Post-both P (m w) (h.at w p)));
  }

  first_failure-Keeps : (b : Bool) (es : List Error) → Keeps P (first_failure b es)
  unfolding first_failure
  first_failure-Keeps b [] = skip-Keeps
  first_failure-Keeps true (e ∷ es) = skip-Keeps
  first_failure-Keeps false (e ∷ es) = Keeps-raise P e

module _ (native : Native) (P : World → Type 0) (stable : Stable P) where
  set_option-Keeps : (option value : Bytes) → Keeps P (set_option native option value)
  unfolding set_option
  set_option-Keeps option value =
      Keeps-bind P _ _ (Keeps-raise_if P _ _)
        (λ _. call-Keeps native P stable (cfmsopt option value) refl)

  select_words-Keeps : (option : Bytes) (vs : List Bytes) → Keeps P (select_words native option vs)
  unfolding select_words
  select_words-Keeps option [] = skip-Keeps P
  select_words-Keeps option (v ∷ vs) =
      Keeps-bind P _ _ (set_option-Keeps _ _) (λ _. select_words-Keeps option vs)

  set_filter-Keeps : (option : Bytes) (vs : List Bytes) → Keeps P (set_filter native option vs)
  unfolding set_filter
  set_filter-Keeps option [] = set_option-Keeps _ _
  set_filter-Keeps option (v ∷ vs) =
      Keeps-bind P _ _ (set_option-Keeps _ _) (λ _. select_words-Keeps option (v ∷ vs))

  set_filters-Keeps :
      (alias : Bool) (cs ts : List Bytes) (s : Selectors)
      → Keeps P (set_filters native alias cs ts s)
  unfolding set_filters
  set_filters-Keeps alias cs ts s = Keeps-bind P _ _ (set_option-Keeps _ _) λ _.
      Keeps-bind P _ _ (set_filter-Keeps _ cs) λ _.
        Keeps-bind P _ _ (set_filter-Keeps _ ts)
          λ _. Keeps-bind P _ _ (set_filter-Keeps _ _) (λ _. set_filter-Keeps _ _)

  keep_hli-Keeps : (e : Error) (o : Option Hli) → Keeps P (keep_hli native e o)
  unfolding keep_hli
  keep_hli-Keeps e none = Keeps-raise P e
  keep_hli-Keeps e (some h) = Keeps-pure P (e ∷ [])

  reset_failed-Keeps : (e : Error) → Keeps P (reset_failed native e)
  unfolding reset_failed
  reset_failed-Keeps e = keep_hli-Keeps e (hli_of e)

  normalize-Keeps : (options : List Bytes) → Keeps P (normalize native options)
  unfolding normalize reset_option
  normalize-Keeps [] = Keeps-pure P []
  normalize-Keeps (o ∷ os) =
      Keeps-bind P _ _
        (Keeps-catch P _ _ (Keeps-bind P _ _ (set_option-Keeps _ _) (λ _. Keeps-pure P []))
          reset_failed-Keeps)
        λ f. Keeps-bind P _ _ (normalize-Keeps os) (λ g. Keeps-pure P _)

  clean_up-Keeps : (b : Bool) → Keeps P (clean_up native b)
  unfolding clean_up
  clean_up-Keeps b = Keeps-bind P _ _ (normalize-Keeps _) (λ es. first_failure-Keeps P b es)

  init_wildcard-Keeps : (key : ℤ) (pattern : Bytes) → Keeps P (init_wildcard native key pattern)
  unfolding init_wildcard
  init_wildcard-Keeps key pattern = Keeps-bind P _ _ (Keeps-lift P _) λ k.
      Keeps-bind P _ _ (Keeps-raise_if P _ _)
        (λ _. call-Keeps native P stable (fame_init_wildcard k pattern) refl)

  next_wildcard-Keeps : (cursor : ℤ) (capacity : ℕ) → Keeps P (next_wildcard native cursor capacity)
  unfolding next_wildcard
  next_wildcard-Keeps cursor capacity = Keeps-bind P _ _ (Keeps-lift P _) λ c.
      Keeps-bind P _ _ (Keeps-raise_if P _ _) λ _.
        Keeps-bind P _ _ (Keeps-lift P _)
          (λ k. call_status-Keeps native P stable (fame_get_next_wildcard k c) refl)

  free_wildcard-Keeps : (cursor : ℤ) → Keeps P (free_wildcard native cursor)
  unfolding free_wildcard
  free_wildcard-Keeps cursor =
      Keeps-bind P _ _ (Keeps-lift P _)
        (λ k. call-Keeps native P stable (fame_free_wildcard k) refl)

  pub query_info-Keeps : (key : ℤ) (n : Bytes) → Keeps P (query_info native key n)
  unfolding query_info
  query_info-Keeps key n = Keeps-bind P _ _ (Keeps-lift P _) λ k.
      Keeps-bind P _ _ (Keeps-raise_if P _ _) λ _.
        Keeps-bind P _ _ (call-Keeps native P stable (fame_quick_info k n) refl)
          (λ i. Keeps-pure P (from_codes n i))

  pub entry_object-Keeps :
      (key : ℤ) (capacity : ℕ) (e : Listed) → Keeps P (entry_object native key capacity e)
  unfolding entry_object
  entry_object-Keeps key capacity e = Keeps-if P _ _ _ (query_info-Keeps key _) (Keeps-pure P _)

  pub check_entry-Keeps :
      (capacity : ℕ) (status : ℤ) (e : Listed) → Keeps P (check_entry native capacity status e)
  unfolding check_entry
  check_entry-Keeps capacity status e = Keeps-bind P _ _ (Keeps-raise_if P _ _) λ _.
      Keeps-bind P _ _ (Keeps-if P _ _ _ (skip-Keeps P) (Keeps-lift P _)) λ _. Keeps-raise_if P _ _

  scan-Keeps :
      (fuel : ℕ) (key cursor : ℤ) (capacity : ℕ) (wanted : Option (List ℤ))
      → Keeps P (scan native fuel key cursor capacity wanted)
  unfolding scan
  scan-Keeps zero key cursor capacity wanted = Keeps-pure P none
  scan-Keeps (suc fuel) key cursor capacity wanted =
      Keeps-bind P _ _ (next_wildcard-Keeps cursor capacity) λ r.
        Keeps-if P _ _ _ (Keeps-pure P (some [])) (
          Keeps-bind P _ _ (check_entry-Keeps capacity r.0 r.1) λ _.
            Keeps-bind P _ _ (entry_object-Keeps key capacity r.1) λ obj.
              Keeps-bind P _ _ (scan-Keeps fuel key cursor capacity wanted)
                (λ rest. Keeps-pure P _))

  attach_and_raise-Keeps :
      {A : Type 0} (sid : ℕ) (e : Error) → Keeps P (attach_and_raise native {A = A} sid e)
  unfolding attach_and_raise
  attach_and_raise-Keeps sid e =
      Keeps-bind P _ _ (attach-Keeps native P stable sid e) (λ e'. Keeps-raise P e')

  free_cursor-Keeps : (cursor : ℤ) (b : Bool) → Keeps P (free_cursor native cursor b)
  unfolding free_cursor
  free_cursor-Keeps cursor b =
      Keeps-catch P _ _ (free_wildcard-Keeps cursor)
        (λ e. Keeps-if P _ _ _ (skip-Keeps P) (Keeps-raise P e))

  pub list_body-Keeps :
      (fuel sid : ℕ) (l : Listing) (key : ℤ) → Keeps P (list_body native fuel sid l key)
  unfolding list_body with_cursor
  list_body-Keeps fuel sid l key = Keeps-bind P _ _ (set_filters-Keeps _ _ _ _) λ _.
      Keeps-bind P _ _ (init_wildcard-Keeps key _) λ cursor.
        Keeps-finally_if P _ _
          (Keeps-catch P _ _ (scan-Keeps fuel key cursor _ _) (attach_and_raise-Keeps sid))
          (free_cursor-Keeps cursor)

  pub list_locked-Keeps :
      (fuel sid : ℕ) (l : Listing) (key : ℤ) → Keeps P (list_locked native fuel sid l key)
  unfolding list_locked
  list_locked-Keeps fuel sid l key =
      Keeps-finally_if P _ _
        (Keeps-catch P _ _ (list_body-Keeps fuel sid l key) (attach_and_raise-Keeps sid))
        clean_up-Keeps

  check_open-Keeps : (hid : ℕ) → Keeps P (check_open hid)
  unfolding check_open
  check_open-Keeps hid = Keeps-bind P _ _ (Keeps-gets P _) λ w.
      Keeps-bind P _ _ (Keeps-raise_if P _ _)
        λ _. Keeps-bind P _ _ (Keeps-raise_if P _ _) (λ _. Keeps-pure P _)

  listdb-Keeps :
      (fuel hid : ℕ) (wildcard : Text) (alias : Bool) (cs ts : Words) (fs : Frequencies)
      (capacity : ℤ)
      → Keeps P (listdb native fuel hid wildcard alias cs ts fs capacity)
  unfolding listdb db_operation
  listdb-Keeps fuel hid wildcard alias cs ts fs capacity = Keeps-bind P _ _ (Keeps-lift P _) λ l.
      Keeps-bind P _ _ (Keeps-gets P _) λ sid.
        Keeps-bind P _ _ (check_open-Keeps hid)
          λ h. operation-Keeps native P stable h.session _ (list_locked-Keeps fuel sid l h.key)

-- A listing leaves every handle as it is, and for every session its state, its records of the open
-- databases and its work database, whether it returns or raises.
pub listdb-Tracked :
    (native : Native) (fuel hid : ℕ) (wildcard : Text) (alias : Bool) (cs ts : Words)
    (fs : Frequencies) (capacity : ℤ) (w : World)
    → Tracked w (listdb native fuel hid wildcard alias cs ts fs capacity w).1
listdb-Tracked native fuel hid wildcard alias cs ts fs capacity w = Post-both (Tracked w) _ (
    (listdb-Keeps native (Tracked w) (Tracked-Stable w) fuel hid wildcard alias cs ts fs
        capacity).at
      w (Tracked-refl w))
