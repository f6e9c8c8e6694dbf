-- ===== src/Bridge/Frequencies/Values.antt =====
-- The entries of the frequency maps.
use famepy.Prelude.{pos, ◌≡◌, refl, some, [], ◌∷◌}
use famepy.Constants.{code_of}
use famepy.Bridge.Frequencies.{
  unit, daily, bdaily, monthly, weekly, quarterly, half_yearly, yearly, Codes, FrequencyTable,
  numbered, weekly_codes, quarterly_codes, half_yearly_codes, yearly_codes, plain_codes, put,
  put_plain, put_numbered, to_tsecon,
}

abbrev pub weekly_values : Codes
weekly_values =
    (1, some (pos 17))
    ∷ (2, some (pos 18))
    ∷ (3, some (pos 19))
    ∷ (4, some (pos 20))
    ∷ (5, some (pos 21))
    ∷ (6, some (pos 22))
    ∷ (7, some (pos 16))
    ∷ []

pub weekly_codes-values : weekly_codes ≡ weekly_values
unfolding weekly_codes numbered code_of
weekly_codes-values = refl

abbrev pub quarterly_values : Codes
quarterly_values = (1, some (pos 160)) ∷ (2, some (pos 161)) ∷ (3, some (pos 162)) ∷ []

pub quarterly_codes-values : quarterly_codes ≡ quarterly_values
unfolding quarterly_codes numbered code_of
quarterly_codes-values = refl

abbrev pub half_yearly_values : Codes
half_yearly_values =
    (1, some (pos 204))
    ∷ (2, some (pos 205))
    ∷ (3, some (pos 206))
    ∷ (4, some (pos 207))
    ∷ (5, some (pos 208))
    ∷ (6, some (pos 209))
    ∷ []

pub half_yearly_codes-values : half_yearly_codes ≡ half_yearly_values
unfolding half_yearly_codes numbered code_of
half_yearly_codes-values = refl

abbrev pub yearly_values : Codes
yearly_values =
    (1, some (pos 192))
    ∷ (2, some (pos 193))
    ∷ (3, some (pos 194))
    ∷ (4, some (pos 195))
    ∷ (5, some (pos 196))
    ∷ (6, some (pos 197))
    ∷ (7, some (pos 198))
    ∷ (8, some (pos 199))
    ∷ (9, some (pos 200))
    ∷ (10, some (pos 201))
    ∷ (11, some (pos 202))
    ∷ (12, some (pos 203))
    ∷ []

pub yearly_codes-values : yearly_codes ≡ yearly_values
unfolding yearly_codes numbered code_of
yearly_codes-values = refl

abbrev pub tsecon_values : FrequencyTable
tsecon_values =
    (pos 203, yearly 12)
    ∷ (pos 202, yearly 11)
    ∷ (pos 201, yearly 10)
    ∷ (pos 200, yearly 9)
    ∷ (pos 199, yearly 8)
    ∷ (pos 198, yearly 7)
    ∷ (pos 197, yearly 6)
    ∷ (pos 196, yearly 5)
    ∷ (pos 195, yearly 4)
    ∷ (pos 194, yearly 3)
    ∷ (pos 193, yearly 2)
    ∷ (pos 192, yearly 1)
    ∷ (pos 209, half_yearly 6)
    ∷ (pos 208, half_yearly 5)
    ∷ (pos 207, half_yearly 4)
    ∷ (pos 206, half_yearly 3)
    ∷ (pos 205, half_yearly 2)
    ∷ (pos 204, half_yearly 1)
    ∷ (pos 162, quarterly 3)
    ∷ (pos 161, quarterly 2)
    ∷ (pos 160, quarterly 1)
    ∷ (pos 16, weekly 7)
    ∷ (pos 22, weekly 6)
    ∷ (pos 21, weekly 5)
    ∷ (pos 20, weekly 4)
    ∷ (pos 19, weekly 3)
    ∷ (pos 18, weekly 2)
    ∷ (pos 17, weekly 1)
    ∷ (pos 129, monthly)
    ∷ (pos 9, bdaily)
    ∷ (pos 8, daily)
    ∷ (pos 232, unit)
    ∷ []

pub to_tsecon-values : to_tsecon ≡ tsecon_values
unfolding to_tsecon put put_plain put_numbered plain_codes code_of yearly_codes half_yearly_codes
    quarterly_codes weekly_codes numbered
to_tsecon-values = refl
