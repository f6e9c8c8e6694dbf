-- ===== src/Tests/Listings.antt =====
-- The theorems of the listing at concrete inputs.
use famepy.Prelude.{
  ℕ, suc, ◌==ℤ◌, ap, arith, ℤ, pos, ◌≡◌, ◌≢◌, ◌⊎◌, refl, true, false, none, some, List, [], ◌∷◌,
  All, codes, ◌==◌, if◌then◌else◌,
}
use famepy.Errors.{ok, err, check_status, hli_status}
use famepy.Native.{
  Native, Call, returned, cfmsopt, fame_init_wildcard, fame_free_wildcard, fame_get_next_wildcard,
}
use famepy.World.{World}
use famepy.Exec.{actions}
use famepy.Text.{str}
use famepy.Runtime.{int32, up_to_nul, fresh_session}
use famepy.Objects.{FameObject, frequency_case, from_codes, query_info}
use famepy.Wildcard.{
  Listing, take, set_option, select_words, set_filter, set_filters, next_wildcard, check_entry,
  entry_object, scan, is_wanted, hnoobj, list_body, list_locked, listdb,
}
use famepy.Wildcard.Filters.{Words, Frequencies, native_selectors, families}
use famepy.Runtime.Answers.{Answers}
use famepy.Wildcard.Cleanup.{list_locked-resets, list_locked-first_failure}
use famepy.Wildcard.Scan.{scan-wanted}
use famepy.Wildcard.Scan.Ending.{Asked, start, asked, queried, Exhausted, scan-enough}
use famepy.Wildcard.Narrowing.{Selected, native_selectors-Selected}
use famepy.Wildcard.Keeps.{listdb-Tracked}
use famepy.Database.Closing.{Tracked}
use famepy.Tests.Samples.{willing, failing, live, with_handle, reply_of, scalar_info}

willing-Answers : Answers willing
willing-Answers = record { status = λ cs c. (pos 0, reply_of c, refl, refl) }

failing-Answers : Answers failing
failing-Answers = record { status = λ cs c. (pos 20, reply_of c, refl, refl) }

abbrev everything : Listing
everything = record {
  pattern = codes "?";
  alias = true;
  classes = [];
  types = [];
  wanted = none;
  capacity = 242;
}

-- the entries that a cursor was asked for since it was opened
abbrev asked_since : ℤ → List Call → ℕ
asked_since cursor [] = 0
asked_since cursor (fame_init_wildcard _ _ ∷ cs) = 0
asked_since cursor (fame_get_next_wildcard c _ ∷ cs) =
    if c ==ℤ cursor then suc (asked_since cursor cs) else asked_since cursor cs
asked_since cursor (_ ∷ cs) = asked_since cursor cs

abbrev next_status : List Call → Call → ℤ
next_status cs (fame_get_next_wildcard cursor _) =
    if asked_since cursor cs == 0 then pos 0 else hnoobj
next_status cs _ = pos 0

-- a library of one scalar, which every listing gives
abbrev one_scalar : Native
one_scalar = record {
  respond = λ cs c. returned (next_status cs c) (reply_of c);
  cdll = λ n. returned (pos 0) tt;
}

abbrev scalar_a : FameObject
scalar_a = from_codes (b'A' ∷ []) scalar_info

one_scalar-scan :
    (scan one_scalar 2 (pos 3) (pos 9) 242 (some (pos 0 ∷ [])) live).0 ≡ ok (some (scalar_a ∷ []))
unfolding actions scan next_wildcard check_entry entry_object query_info take int32 up_to_nul
    check_status famepy.Wildcard.Filters.has_element fresh_session
one_scalar-scan = refl

scan-wanted_example : All (λ obj. is_wanted (some (pos 0 ∷ [])) obj ≡ true) (scalar_a ∷ [])
scan-wanted_example =
    scan-wanted one_scalar 2 (pos 3) (pos 9) 242 (some (pos 0 ∷ [])) (scalar_a ∷ []) live
      one_scalar-scan

-- the state after a first listing, where a second one was opened
abbrev listed : World
listed = record live {
  calls =
      fame_init_wildcard (pos 3) (codes "?")
      ∷ fame_free_wildcard (pos 9)
      ∷ fame_get_next_wildcard (pos 9) (pos 242)
      ∷ fame_get_next_wildcard (pos 9) (pos 242)
      ∷ fame_init_wildcard (pos 3) (codes "?")
      ∷ live.calls;
}

Asked-asked_since :
    (k : ℕ) (cs : List Call) → Asked (pos 9) listed.calls k cs → asked_since (pos 9) cs ≡ k
Asked-asked_since k cs start = refl
Asked-asked_since k cs (asked capacity a) = ap suc (Asked-asked_since _ _ a)
Asked-asked_since k cs (queried key n a) = Asked-asked_since _ _ a

one_scalar-Exhausted : Exhausted one_scalar (pos 9) listed.calls 1
one_scalar-Exhausted k cs capacity a h = (reply_of (fame_get_next_wildcard (pos 9) capacity), ended)
  where
    later : (asked_since (pos 9) cs == 0) ≡ false
    later = let q = Asked-asked_since k cs a in ground arith

    ended :
        one_scalar.respond cs (fame_get_next_wildcard (pos 9) capacity)
        ≡ returned hnoobj (reply_of (fame_get_next_wildcard (pos 9) capacity))
    ended =
        ap
          (λ b.
            returned (if b then pos 0 else hnoobj)
              (reply_of (fame_get_next_wildcard (pos 9) capacity)))
          later

scan-enough_example : (scan one_scalar 2 (pos 3) (pos 9) 242 none listed).0 ≢ ok none
scan-enough_example = scan-enough one_scalar 1 (pos 3) (pos 9) 242 none listed one_scalar-Exhausted

list_locked-resets_example :
    (cs : List Call) × ((list_locked willing 5 0 everything (pos 3) live).1.calls
      ≡ cfmsopt (codes "ITEM ALIAS") (codes "ON")
        ∷ cfmsopt (codes "ITEM INDEX") (codes "ON")
        ∷ cfmsopt (codes "ITEM FREQUENCY") (codes "ON")
        ∷ cfmsopt (codes "ITEM TYPE") (codes "ON")
        ∷ cfmsopt (codes "ITEM CLASS") (codes "ON")
        ∷ cs)
list_locked-resets_example = list_locked-resets willing willing-Answers 5 0 everything (pos 3) live

live-Off : (live.sessions 0).retrieval ≡ false
unfolding fresh_session
live-Off = refl

failing-body : (list_body failing 5 0 everything (pos 3) live).0 ≡ err (hli_status (pos 20))
unfolding actions list_body set_filters set_option check_status
failing-body = refl

list_locked-first_failure_example :
    (list_locked failing 5 0 everything (pos 3) live).0 ≡ err (hli_status (pos 20))
list_locked-first_failure_example =
    list_locked-first_failure failing failing-Answers 5 0 everything (pos 3) live
      (hli_status (pos 20)) live-Off failing-body

native_selectors-Selected_example :
    (((native_selectors (some (frequency_case ∷ []))).frequency ≡ [])
      ⊎ All
          (Selected (native_selectors (some (frequency_case ∷ []))).frequency)
          (frequency_case ∷ []))
    × (((native_selectors (some (frequency_case ∷ []))).index ≡ [])
        ⊎ (frequency_case ∷ [] ≡ frequency_case ∷ []))
native_selectors-Selected_example = native_selectors-Selected (frequency_case ∷ [])

listdb-Tracked_example :
    Tracked with_handle
      (listdb willing 5 0
        (str (codes "?"))
        true
        Words.absent
        Words.absent
        Frequencies.absent
        (pos 242)
        with_handle).1
listdb-Tracked_example =
    listdb-Tracked willing 5 0 (str (codes "?")) true Words.absent Words.absent Frequencies.absent
      (pos 242) with_handle
