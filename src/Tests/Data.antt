-- ===== src/Tests/Data.antt =====
-- The theorems of reads and writes at concrete inputs.
use famepy.Prelude.{
  ℤ, pos, ◌≡◌, ◌≢◌, refl, true, false, none, some, [], ◌∷◌, All, codes, ◌==◌, ==_iff, ◌==ℤ◌,
  ==ℤ_iff, sym, ◌∙◌, ◌+ℤ◌, ◌-ℤ◌,
}
use famepy.Errors.{ok, check_status}
use famepy.World.{World, AccessMode, put_session}
use famepy.Runtime.{fresh_session}
use famepy.Exec.{actions}
use famepy.Text.{str, to_native, is_ascii, no_nul, object_name}
use famepy.Constants.{has_code, lookup}
use famepy.Objects.{
  FameObject, is_date_type, not_case, type_code, index_or_none, new_fame_object,
  check_supported_class,
}
use famepy.Data.{Kind, Numpy, array, precisions, double, buffer, kind_from_type, check_buffer}
use famepy.Data.Carriers.{
  fame_range, RawSeries, raw_series, block, value_frequency, series_payload, new_raw_series,
  series_range, prepare,
}
use famepy.Data.Namelist.{
  strip_left, strip_blanks, all_member_bytes, member_of, members_from, body_members, closed_body,
  namelist_members,
}
use famepy.Data.Namelist.Members.{Laid, IsMember, laid_text}
use famepy.Data.Namelist.Parsing.{namelist_members-laid, namelist_members-IsMember}
use famepy.Data.Sentinels.{
  na, precision_triplet, first_match, last_match, classify_by_sentinel, sentinel_value,
}
use famepy.Data.Sentinels.Classes.{
  Distinct, DistinctSentinels, Means, first_match-last_match, classify-sentinel_value,
}
use famepy.Data.Buffers.{tabulate, range_argument, native_name, bulk, read_values}
use famepy.Data.Reading.{
  DataObject, object_from_raw, read_locked, read_series, read_endpoints, read_stored, read_range,
}
use famepy.Data.Reading.Parts.{IsRead}
use famepy.Data.Reading.Within.{read_locked-IsRead}
use famepy.Data.Writing.{
  Plan, attribute_code, attribute_codes, class_of, plan_of, raw_of, write_plan, do_write,
}
use famepy.Data.Writing.Outcome.{outcome, made, write_plan-outcome}
use famepy.Data.Writing.Checked.{bare_do_write, do_write-bare}
use famepy.Data.RoundTrip.{raw_of-object_from_raw}
use famepy.Tests.Samples.{willing, live, some_sentinels}

abbrev sample_numpy : Numpy
sample_numpy = record { from_integer = λ n. some 0; narrowed = λ b. some b; widened = λ b. b }

abbrev laid_a : Laid
laid_a = record { before = b' ' ∷ []; member = b'A' ∷ []; after = [] }

abbrev laid_b : Laid
laid_b = record { before = []; member = b'B' ∷ []; after = 9 ∷ [] }

namelist_members-laid_example :
    namelist_members (laid_text laid_a (laid_b ∷ [])) ≡ ok ((b'A' ∷ []) ∷ (b'B' ∷ []) ∷ [])
namelist_members-laid_example =
    namelist_members-laid laid_a (laid_b ∷ [])
      ((refl, tt), (refl, (unfold all_member_bytes in refl)), tt)
      ((tt, (refl, (unfold all_member_bytes in refl)), (refl, tt)), tt)

ab-parsed : namelist_members (codes "{A,B}") ≡ ok ((b'A' ∷ []) ∷ (b'B' ∷ []) ∷ [])
unfolding namelist_members closed_body body_members members_from member_of strip_blanks strip_left
    all_member_bytes
ab-parsed = refl

namelist_members-IsMember_example : All IsMember ((b'A' ∷ []) ∷ (b'B' ∷ []) ∷ [])
namelist_members-IsMember_example =
    namelist_members-IsMember (codes "{A,B}") ((b'A' ∷ []) ∷ (b'B' ∷ []) ∷ []) ab-parsed

precisions-Distinct : Distinct (precision_triplet some_sentinels)
precisions-Distinct = record { nc_na = λ q. cc; nc_nd = λ q. cc; na_nd = λ q. cc }

first_match-last_match_example :
    (first_match ◌==◌ (precision_triplet some_sentinels) 2
      ≡ last_match ◌==◌ (precision_triplet some_sentinels) 2)
    × Means
        (precision_triplet some_sentinels)
        2
        (first_match ◌==◌ (precision_triplet some_sentinels) 2)
first_match-last_match_example =
    first_match-last_match ◌==◌ ==_iff (precision_triplet some_sentinels) precisions-Distinct 2

apart : (a b : ℤ) → (a ==ℤ b) ≡ false → a ≢ b
apart a b h q = refused (sym h ∙ (==ℤ_iff a b).1 q)
  where
    refused : false ≡ true → ⊥
    refused q = cc

some_sentinels-Distinct : DistinctSentinels some_sentinels
some_sentinels-Distinct = record {
  precisions_differ = precisions-Distinct;
  numerics_differ = record { nc_na = λ q. cc; nc_nd = λ q. cc; na_nd = λ q. cc };
  booleans_differ = record {
    nc_na = apart (pos 125) (pos 126) refl;
    nc_nd = apart (pos 125) (pos 127) refl;
    na_nd = apart (pos 126) (pos 127) refl;
  };
  indices_differ = record { nc_na = λ q. cc; nc_nd = λ q. cc; na_nd = λ q. cc };
  strings_differ = record { nc_na = λ q. cc; nc_nd = λ q. cc; na_nd = λ q. cc };
}

classify-sentinel_value_example :
    classify_by_sentinel Kind.precision (array (precisions (2 ∷ []))) some_sentinels ≡ ok (na ∷ [])
classify-sentinel_value_example =
    classify-sentinel_value some_sentinels Kind.precision na (double 2) some_sentinels-Distinct
      (unfold sentinel_value in refl)

-- a monthly series of three values
abbrev sample_series : RawSeries
sample_series = record {
  kind = Kind.precision;
  frequency = pos 129;
  first_index = pos 10;
  values = array (precisions (7 ∷ 8 ∷ 9 ∷ []));
  date_frequency = none;
  declared_length = 3;
}

abbrev sample_info : FameObject
sample_info = record {
  name = codes "GDP";
  class_code = pos 1;
  type_code = pos 5;
  frequency = pos 129;
  first_index = some (pos 10);
  last_index = some (pos 12);
}

abbrev sample_object : DataObject
sample_object = record { info = sample_info; data' = buffer (array (precisions (7 ∷ 8 ∷ 9 ∷ []))) }

do_write-bare_example :
    do_write willing sample_numpy 0 sample_object true none none
    ≡ bare_do_write willing sample_numpy 0 sample_object true none none
do_write-bare_example = do_write-bare willing sample_numpy 0 sample_object true none none

abbrev sample_plan : Plan
sample_plan = record {
  name' = codes "GDP";
  class_code = pos 1;
  frequency = pos 129;
  type_code = pos 5;
  basis = pos 1;
  observed = pos 4;
  payload = block (precisions (7 ∷ 8 ∷ 9 ∷ []));
  range = some (record { frequency = pos 129; first = pos 10; last = pos 12 });
  is_empty = false;
}

sample-planned :
    plan_of sample_numpy AccessMode.update (str (codes "GDP")) (raw_series sample_series) none none
    ≡ ok sample_plan
unfolding plan_of object_name to_native is_ascii no_nul class_of lookup has_code attribute_codes
    attribute_code prepare series_payload check_buffer series_range fame_range ◌+ℤ◌ ◌-ℤ◌
sample-planned = refl

write_plan-outcome_example : write_plan willing true sample_plan (pos 3) live ≡ (
  outcome true false (check_status (pos 0)) (check_status (pos 0)) (check_status (pos 0)),
  made true (pos 3) sample_plan (check_status (pos 0)) (check_status (pos 0)) live,
)
write_plan-outcome_example =
    write_plan-outcome willing sample_numpy AccessMode.update (str (codes "GDP"))
      (raw_series sample_series) none none sample_plan (pos 3) true (pos 0) (pos 0) (pos 0) tt live
      refl sample-planned refl refl refl refl

sample_series-built :
    new_raw_series Kind.precision (pos 129) (pos 10) (array (precisions (7 ∷ 8 ∷ 9 ∷ []))) none
    ≡ ok sample_series
unfolding new_raw_series value_frequency series_payload check_buffer ◌+ℤ◌ ◌-ℤ◌
sample_series-built = refl

sample_object-made :
    object_from_raw (str (codes "GDP")) (raw_series sample_series) ≡ ok sample_object
unfolding object_from_raw new_fame_object object_name to_native is_ascii no_nul lookup has_code
    type_code not_case index_or_none ◌+ℤ◌ ◌-ℤ◌
sample_object-made = refl

raw_of-object_from_raw_example :
    raw_of sample_numpy sample_object (pos 1) ≡ ok (raw_series sample_series)
raw_of-object_from_raw_example =
    raw_of-object_from_raw sample_numpy (pos 1) (str (codes "GDP")) (raw_series sample_series)
      sample_object (sample_series-built, refl) sample_object-made

-- the series from its second index on, as `willing` reads it
abbrev part_series : RawSeries
part_series = record {
  kind = Kind.precision;
  frequency = pos 129;
  first_index = pos 11;
  values = array (precisions (0 ∷ 1 ∷ []));
  date_frequency = none;
  declared_length = 2;
}

abbrev initialized_live : World
initialized_live = put_session 0 (record (live.sessions 0) { sentinels = some some_sentinels }) live

read-gives :
    (read_locked willing sample_numpy 0 (pos 3) sample_info (some (pos 11)) none initialized_live).0
    ≡ ok (raw_series part_series)
unfolding actions read_locked check_supported_class kind_from_type is_date_type
    famepy.Runtime.sentinels famepy.Runtime.session read_series read_endpoints read_stored
    read_range fame_range read_values bulk range_argument native_name famepy.Runtime.int32
    check_status tabulate new_raw_series value_frequency series_payload check_buffer ◌+ℤ◌ ◌-ℤ◌
    fresh_session
read-gives = refl

read_locked-IsRead_example :
    IsRead willing
      (pos 3)
      sample_info
      (some (pos 11))
      none
      0
      initialized_live
      (raw_series part_series)
read_locked-IsRead_example =
    read_locked-IsRead willing sample_numpy (pos 3) sample_info (some (pos 11)) none 0
      initialized_live (raw_series part_series) read-gives
