-- ===== src/Tests/Objects.antt =====
-- The theorems of the objects at concrete inputs.
use famepy.Prelude.{pos, ◌≡◌, refl, none, some, codes}
use famepy.Errors.{ok}
use famepy.Text.{str, to_native, is_ascii, no_nul, object_name}
use famepy.Constants.{number, has_code, lookup}
use famepy.Objects.{FameObject, not_case, type_code, index_or_none, new_fame_object}
use famepy.Objects.Fields.{Valid, new_fame_object-Valid}

abbrev gdp : FameObject
gdp = record {
  name = codes "GDP";
  class_code = pos 1;
  type_code = pos 5;
  frequency = pos 162;
  first_index = some (pos 10);
  last_index = none;
}

gdp-made :
    new_fame_object
      (str (codes "GDP"))
      (number (pos 1))
      (number (pos 5))
      (number (pos 162))
      (some (pos 10))
      none
    ≡ ok gdp
unfolding new_fame_object object_name to_native is_ascii no_nul lookup has_code type_code not_case
    index_or_none
gdp-made = refl

new_fame_object-Valid_example : Valid gdp
new_fame_object-Valid_example =
    new_fame_object-Valid (str (codes "GDP")) (number (pos 1)) (number (pos 5)) (number (pos 162))
      (some (pos 10)) none gdp gdp-made
