-- ===== src/Bridge/Frequencies.antt =====
-- The frequency maps of src/famepy/bridge/_frequencies.py.
pub mod Values
pub mod Inverse
use famepy.Prelude.{
  ℕ, ℤ, ◌+◌, ◌==◌, ◌==ℤ◌, Option, none, some, List, [], ◌∷◌, ◌++◌, codes, if◌then◌else◌,
}
use famepy.Errors.{Result, ok, err, other, unsupported_frequency}
use famepy.Constants.{CodeArg, frequencies, code_of, lookup}
use famepy.Objects.{frequency_case}
use famepy.Bridge.Naming.{Str}

-- A TimeSeriesEconPy frequency, as the source tells them apart: by its class and by the day or the
-- month at which it ends. The last constructor stands for every other class.
pub data Frequency : Type 0 where
  unit : Frequency
  daily : Frequency
  bdaily : Frequency
  monthly : Frequency
  weekly : ℕ → Frequency
  quarterly : ℕ → Frequency
  half_yearly : ℕ → Frequency
  yearly : ℕ → Frequency
  other_frequency : Frequency

-- `_MONTHS[6:]`
abbrev pub later_months : List Str
later_months =
    codes "july"
    ∷ codes "august"
    ∷ codes "september"
    ∷ codes "october"
    ∷ codes "november"
    ∷ codes "december"
    ∷ []

-- `_MONTHS`
abbrev pub months : List Str
months =
    codes "january"
    ∷ codes "february"
    ∷ codes "march"
    ∷ codes "april"
    ∷ codes "may"
    ∷ codes "june"
    ∷ later_months

-- `_DAYS`
abbrev pub days : List Str
days =
    codes "monday"
    ∷ codes "tuesday"
    ∷ codes "wednesday"
    ∷ codes "thursday"
    ∷ codes "friday"
    ∷ codes "saturday"
    ∷ codes "sunday"
    ∷ []

-- A dictionary from numbers to codes; the code is missing where its name is no key of the table.
abbrev pub Codes : Type 0
Codes = List (ℕ × Option ℤ)

-- the codes of the names, numbered from a start
unfoldable pub numbered : Str → ℕ → List Str → Codes
numbered kind i [] = []
numbered kind i (n ∷ ns) = (i, code_of (kind ++ n) frequencies) ∷ numbered kind (i + 1) ns

-- `_WEEKLY_CODES`
unfoldable pub weekly_codes : Codes
weekly_codes = numbered (codes "weekly_") 1 days

-- `_QUARTERLY_CODES`
unfoldable pub quarterly_codes : Codes
quarterly_codes =
    numbered (codes "quarterly_") 1 (codes "october" ∷ codes "november" ∷ codes "december" ∷ [])

-- `_HALFYEARLY_CODES`
unfoldable pub half_yearly_codes : Codes
half_yearly_codes = numbered (codes "semiannual_") 1 later_months

-- `_YEARLY_CODES`
unfoldable pub yearly_codes : Codes
yearly_codes = numbered (codes "annual_") 1 months

-- `_PLAIN_CODES`
unfoldable pub plain_codes : List (Frequency × Option ℤ)
plain_codes =
    (unit, some frequency_case)
    ∷ (daily, code_of (codes "daily") frequencies)
    ∷ (bdaily, code_of (codes "business") frequencies)
    ∷ (monthly, code_of (codes "monthly") frequencies)
    ∷ []

-- A dictionary from codes to frequencies, the newest entry first.
abbrev pub FrequencyTable : Type 0
FrequencyTable = List (ℤ × Frequency)

unfoldable pub put : Option ℤ → Frequency → FrequencyTable → FrequencyTable
put none f table = table
put (some c) f table = (c, f) ∷ table

unfoldable pub put_plain : List (Frequency × Option ℤ) → FrequencyTable → FrequencyTable
put_plain [] table = table
put_plain ((f, c) ∷ rest) table = put_plain rest (put c f table)

unfoldable pub put_numbered : (ℕ → Frequency) → Codes → FrequencyTable → FrequencyTable
put_numbered make [] table = table
put_numbered make ((i, c) ∷ rest) table = put_numbered make rest (put c (make i) table)

-- `_build_to_tsecon`
unfoldable pub to_tsecon : FrequencyTable
to_tsecon = put_numbered yearly yearly_codes (
    put_numbered half_yearly half_yearly_codes (
      put_numbered quarterly quarterly_codes
        (put_numbered weekly weekly_codes (put_plain plain_codes []))))

-- `table[key]`
unfoldable pub get_code : ℕ → Codes → Option ℤ
get_code i [] = none
get_code i ((j, c) ∷ rest) = if j == i then c else get_code i rest

-- `_TO_TSECON[value]`
unfoldable pub get_frequency : ℤ → FrequencyTable → Option Frequency
get_frequency c [] = none
get_frequency c ((d, f) ∷ rest) = if d ==ℤ c then some f else get_frequency c rest

abbrev pub or_key_error : Option ℤ → Result ℤ
or_key_error none = err other
or_key_error (some c) = ok c

-- `fame_frequency`
unfoldable pub fame_frequency : Frequency → Result ℤ
fame_frequency unit = ok frequency_case
fame_frequency daily = or_key_error (code_of (codes "daily") frequencies)
fame_frequency bdaily = or_key_error (code_of (codes "business") frequencies)
fame_frequency monthly = or_key_error (code_of (codes "monthly") frequencies)
fame_frequency (weekly day) = or_key_error (get_code day weekly_codes)
fame_frequency (quarterly month) = or_key_error (get_code month quarterly_codes)
fame_frequency (half_yearly month) = or_key_error (get_code month half_yearly_codes)
fame_frequency (yearly month) = or_key_error (get_code month yearly_codes)
fame_frequency other_frequency = err unsupported_frequency

abbrev pub or_unsupported : Option Frequency → Result Frequency
or_unsupported none = err unsupported_frequency
or_unsupported (some f) = ok f

-- `tsecon_frequency`
unfoldable pub tsecon_frequency : CodeArg → Result Frequency
tsecon_frequency code = elim (lookup code frequencies) [
  | ok value ↦ or_unsupported (get_frequency value to_tsecon)
  | err e ↦ err unsupported_frequency
]
