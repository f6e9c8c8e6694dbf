-- ===== src/Wildcard/Scan/Ending.antt =====
-- The cursor loop of a listing ends where the library's listing does.
use famepy.Prelude.{
  ℕ, suc, zero, ◌+◌, ◌≤◌, ◌<◌, ℤ, pos, ltb_ℤ, ◌==ℤ◌, ==ℤ_iff, ◌^◌, ◌||◌, contains_byte, ◌≡◌, ◌≢◌,
  refl, sym, ◌∙◌, subst, inl, inr, List, ◌∷◌, Bool, true, false, Bool-cases, Bytes, Option, none,
  some, arith, leb, if◌then◌else◌,
}
use famepy.Errors.{Result, ok, err, data_validation, name_truncated, check_status}
use famepy.Native.{
  Native, Call, Listed, Outcome, returned, raised, Info, fame_get_next_wildcard, fame_quick_info,
}
use famepy.World.{World}
use famepy.Exec.{pure, lift, raise, skip, raise_if, answer, checked, call_status, call, ◌>>=◌}
use famepy.Exec.Ends.{Ends, Ends-ok, Ends-bind, Ends-pure, Ends-lift, Ends-raise_if, Ends-if}
use famepy.Runtime.{int32}
use famepy.Runtime.Returns.{called}
use famepy.Objects.{FameObject, from_codes, query_info}
use famepy.Wildcard.{keep_wanted, hnoobj, htrunc, next_wildcard, entry_object, check_entry, scan}
use famepy.Data.Results.{guard-ok}

-- The calls that a listing may have made since those of `base`, where it asked the cursor for so
-- many entries: it asks for entries and queries objects.
pub data Asked (cursor : ℤ) (base : List Call) : ℕ → List Call → Type 0 where
  start : Asked cursor base 0 base
  asked :
      (capacity : ℤ) {k : ℕ} {cs : List Call}
      → Asked cursor base k cs
      → Asked cursor base (suc k) (fame_get_next_wildcard cursor capacity ∷ cs)
  queried :
      (key : ℤ) (n : Bytes) {k : ℕ} {cs : List Call}
      → Asked cursor base k cs
      → Asked cursor base k (fame_quick_info key n ∷ cs)

-- The cursor has so many entries left after the calls of `base`: once they were asked for, the
-- library answers that there is none.
abbrev pub Exhausted : Native → ℤ → List Call → ℕ → Type 0
Exhausted native cursor base n =
    (k : ℕ) (cs : List Call) (capacity : ℤ)
    → Asked cursor base k cs
    → n ≤ k
    → (a : Listed) × (native.respond cs (fame_get_next_wildcard cursor capacity)
        ≡ returned hnoobj a)

abbrev IsDone : Option (List FameObject) → Type 0
IsDone none = ⊥
IsDone (some _) = Unit

kept-IsDone :
    (wanted : Option (List ℤ)) (obj : FameObject) (rest : Option (List FameObject))
    → IsDone rest
    → IsDone (elim rest [ none ↦ none | some found ↦ some (keep_wanted wanted obj found) ])
kept-IsDone wanted obj none h = h
kept-IsDone wanted obj (some found) h = tt

int32-same : (n c : ℤ) → int32 n ≡ ok c → n ≡ c
unfolding int32
int32-same n c e = (guard-ok _ data_validation e).1

module _ (native : Native) (cursor : ℤ) (base : List Call) (n : ℕ)
    (exhausted : Exhausted native cursor base n) where
  -- what asking for one more entry does
  abbrev Answered : ℕ → ℤ × Listed → World → Type 0
  Answered k r v = Asked cursor base (suc k) v.calls × (n ≤ k → r.0 ≡ hnoobj)

  call_status-Answered :
      (k : ℕ) (capacity : ℤ) (w : World)
      → Asked cursor base k w.calls
      → Ends (Answered k) (call_status native (fame_get_next_wildcard cursor capacity) w)
  unfolding call_status
  call_status-Answered k capacity w h =
      go (native.respond w.calls (fame_get_next_wildcard cursor capacity)) refl
    where
      same_status :
          (status : ℤ) (a b : Listed)
          → ◌≡◌ {A = Outcome Listed} (returned status a) (returned hnoobj b)
          → status ≡ hnoobj
      same_status status a b q = cc

      go :
          (o : Outcome Listed)
          → native.respond w.calls (fame_get_next_wildcard cursor capacity) ≡ o
          → Ends (Answered k) (answer o, called (fame_get_next_wildcard cursor capacity) w)
      go (returned status a) q = (
        asked capacity h,
        λ late.
            let (b, e) = exhausted k w.calls capacity h late in same_status status a b (sym q ∙ e),
      )
      go (raised e) q = tt

  next_wildcard-Answered :
      (k : ℕ) (capacity : ℕ) (w : World)
      → Asked cursor base k w.calls
      → Ends (Answered k) (next_wildcard native cursor capacity w)
  unfolding next_wildcard
  next_wildcard-Answered k capacity w h = Ends-lift _ (int32 (pos capacity)) _ w λ c ec.
      Ends-raise_if _ (ltb_ℤ c (pos 1) || ltb_ℤ (pos (2 ^ 20)) c) data_validation _ w λ _.
        Ends-lift _ (int32 cursor) _ w λ k' ek.
          subst (λ x. Ends (Answered k) (call_status native (fame_get_next_wildcard x c) w))
            (int32-same cursor k' ek) (call_status-Answered k c w h)

  -- an action that only queries objects
  abbrev Queries : {A : Type 0} → ℕ → A → World → Type 0
  Queries k a v = Asked cursor base k v.calls

  check_entry-Queries :
      (k capacity : ℕ) (status : ℤ) (entry : Listed) (w : World)
      → Asked cursor base k w.calls
      → Ends (Queries k) (check_entry native capacity status entry w)
  unfolding check_entry
  check_entry-Queries k capacity status entry w h =
      Ends-raise_if _ (status ==ℤ htrunc) (name_truncated entry.returned_length (pos capacity)) _ w
        λ _. checked (status ==ℤ pos 0)
    where
      last : Ends (Queries k) (
          raise_if
            (ltb_ℤ entry.returned_length (pos 0) || ltb_ℤ (pos capacity) entry.returned_length)
            (name_truncated entry.returned_length (pos capacity))
            w)
      last = go (ltb_ℤ entry.returned_length (pos 0) || ltb_ℤ (pos capacity) entry.returned_length)
        where
          go :
              (b : Bool)
              → Ends
                  (Queries k)
                  (raise_if b (name_truncated entry.returned_length (pos capacity)) w)
          go true = unfold raise_if raise in tt
          go false = unfold raise_if pure in h

      checked :
          (b : Bool)
          → Ends (Queries k) (
              ((if b then skip else lift (check_status status)) >>= λ _.
              raise_if
                (ltb_ℤ entry.returned_length (pos 0) || ltb_ℤ (pos capacity) entry.returned_length)
                (name_truncated entry.returned_length (pos capacity)))
                w)
      checked true = unfold ◌>>=◌ skip pure in last
      checked false = Ends-lift _ (check_status status) _ w λ _ _. last

  query_info-Queries :
      (k : ℕ) (key : ℤ) (name' : Bytes) (w : World)
      → Asked cursor base k w.calls
      → Ends (Queries k) (query_info native key name' w)
  unfolding query_info call call_status
  query_info-Queries k key name' w h = Ends-lift _ (int32 key) _ w λ k' ek.
      Ends-raise_if _ (contains_byte 0 name') data_validation _ w λ _.
        Ends-bind _ (call native (fame_quick_info k' name')) _ w λ i ei.
          Ends-pure _ _ _
            (Ends-ok (Queries k) (call native (fame_quick_info k' name') w) i (queries k' w h) ei)
    where
      queries :
          (k' : ℤ) (w : World)
          → Asked cursor base k w.calls
          → Ends (Queries k) (call native (fame_quick_info k' name') w)
      queries k' w h =
          Ends-bind _ (call_status native (fame_quick_info k' name')) _ w
            λ r er. go (checked r) (called (fame_quick_info k' name') w) (queried k' name' h)
        where
          go :
              (r : Result Info) (v : World)
              → Asked cursor base k v.calls
              → Ends (Queries k) (lift r v)
          go (ok i) v a = unfold lift in a
          go (err e) v a = unfold lift in tt

  entry_object-Queries :
      (k : ℕ) (key : ℤ) (capacity : ℕ) (entry : Listed) (w : World)
      → Asked cursor base k w.calls
      → Ends (Queries k) (entry_object native key capacity entry w)
  unfolding entry_object
  entry_object-Queries k key capacity entry w h = go _ _
    where
      go :
          (b : Bool) (m : Bytes)
          → Ends
              (Queries k)
              ((if b then query_info native key m else pure (from_codes m entry.info)) w)
      go true m = query_info-Queries k key m w h
      go false m = Ends-pure (Queries k) (from_codes m entry.info) w h

  scan-IsDone :
      (fuel k : ℕ) (key : ℤ) (capacity : ℕ) (wanted : Option (List ℤ)) (w : World)
      → Asked cursor base k w.calls
      → k ≤ n
      → n < fuel + k
      → Ends (λ found v. IsDone found) (scan native fuel key cursor capacity wanted w)
  unfolding scan
  scan-IsDone zero k key capacity wanted w h p q = absurd (omega arith)
  scan-IsDone (suc fuel) k key capacity wanted w h p q =
      Ends-bind _ (next_wildcard native cursor capacity) _ w λ r er.
        let (a, last) = Ends-ok (Answered k) _ r (next_wildcard-Answered k capacity w h) er in
        Ends-if _ (r.0 ==ℤ hnoobj) _ _ _ (λ _. Ends-pure _ _ _ tt)
          λ more. Ends-bind _ (check_entry native capacity r.0 r.1) _ _ λ u eu.
            let b =
              Ends-ok (Queries (suc k)) _ u (check_entry-Queries (suc k) capacity r.0 r.1 _ a) eu in
            Ends-bind _ (entry_object native key capacity r.1) _ _ λ obj eo.
              let c =
                Ends-ok (Queries (suc k)) _ obj (entry_object-Queries (suc k) key capacity r.1 _ b)
                  eo in
              Ends-bind _ (scan native fuel key cursor capacity wanted) _ _ λ rest es.
                Ends-pure _ _ _ (
                  kept-IsDone wanted obj rest (
                    Ends-ok (λ found v. IsDone found) _ rest
                      (scan-IsDone fuel (suc k) key capacity wanted _ c (early (r.0) more last)
                        (omega arith))
                      es))
    where
      early : (status : ℤ) → (status ==ℤ hnoobj) ≡ false → (n ≤ k → status ≡ hnoobj) → suc k ≤ n
      early status more last = elim (Bool-cases (leb n k)) [
        | inl late ↦ absurd (differ (last (ground arith)))
        | inr before ↦ ground arith
      ]
        where
          differ : status ≡ hnoobj → ⊥
          differ e = no (sym more ∙ (==ℤ_iff status hnoobj).1 e)
            where
              no : false ≡ true → ⊥
              no q = cc

-- Where the cursor of a listing has `n` entries left, so that the library answers HNOOBJ once `n`
-- were asked for and only objects were queried in between, `n + 1` rounds are enough: the
-- cursor loop returns the listing or raises.
pub scan-enough :
    (native : Native) (n : ℕ) (key cursor : ℤ) (capacity : ℕ) (wanted : Option (List ℤ)) (w : World)
    → Exhausted native cursor w.calls n
    → (scan native (suc n) key cursor capacity wanted w).0 ≢ ok none
scan-enough native n key cursor capacity wanted w exhausted e =
    Ends-ok (λ found v. IsDone found) _ none
      (scan-IsDone native cursor w.calls n exhausted (suc n) 0 key capacity wanted w start
        (omega arith) (omega arith))
      e
