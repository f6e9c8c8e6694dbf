-- ===== src/Constants/Tables.antt =====
-- The name and code tables of src/famepy/_constants.py, in the source's order.
use famepy.Prelude.{ℕ, ℤ, pos, List, [], ◌∷◌, codes}

abbrev pub Table : Type 0
Table = List (List ℕ × ℤ)

-- `AccessMode`, by lower-case names
abbrev pub access_modes : Table
access_modes =
    (codes "readonly", pos 1)
    ∷ (codes "create", pos 2)
    ∷ (codes "overwrite", pos 3)
    ∷ (codes "update", pos 4)
    ∷ (codes "shared", pos 5)
    ∷ (codes "write", pos 6)
    ∷ (codes "direct_write", pos 7)
    ∷ []

-- `ObjectClass`
abbrev pub object_classes : Table
object_classes =
    (codes "series", pos 1)
    ∷ (codes "scalar", pos 2)
    ∷ (codes "formula", pos 3)
    ∷ (codes "glname", pos 5)
    ∷ (codes "glformula", pos 6)
    ∷ []

-- `ObjectType`
abbrev pub object_types : Table
object_types =
    (codes "undefined", pos 0)
    ∷ (codes "numeric", pos 1)
    ∷ (codes "namelist", pos 2)
    ∷ (codes "boolean", pos 3)
    ∷ (codes "string", pos 4)
    ∷ (codes "precision", pos 5)
    ∷ (codes "date", pos 6)
    ∷ []

-- `FREQUENCIES`
abbrev pub frequencies : Table
frequencies =
    (codes "undefined", pos 0)
    ∷ (codes "daily", pos 8)
    ∷ (codes "business", pos 9)
    ∷ (codes "weekly_sunday", pos 16)
    ∷ (codes "weekly_monday", pos 17)
    ∷ (codes "weekly_tuesday", pos 18)
    ∷ (codes "weekly_wednesday", pos 19)
    ∷ (codes "weekly_thursday", pos 20)
    ∷ (codes "weekly_friday", pos 21)
    ∷ (codes "weekly_saturday", pos 22)
    ∷ (codes "tenday", pos 32)
    ∷ (codes "biweekly_asunday", pos 64)
    ∷ (codes "biweekly_amonday", pos 65)
    ∷ (codes "biweekly_atuesday", pos 66)
    ∷ (codes "biweekly_awednesday", pos 67)
    ∷ (codes "biweekly_athursday", pos 68)
    ∷ (codes "biweekly_afriday", pos 69)
    ∷ (codes "biweekly_asaturday", pos 70)
    ∷ (codes "biweekly_bsunday", pos 71)
    ∷ (codes "biweekly_bmonday", pos 72)
    ∷ (codes "biweekly_btuesday", pos 73)
    ∷ (codes "biweekly_bwednesday", pos 74)
    ∷ (codes "biweekly_bthursday", pos 75)
    ∷ (codes "biweekly_bfriday", pos 76)
    ∷ (codes "biweekly_bsaturday", pos 77)
    ∷ (codes "twicemonthly", pos 128)
    ∷ (codes "monthly", pos 129)
    ∷ (codes "bimonthly_november", pos 144)
    ∷ (codes "bimonthly_december", pos 145)
    ∷ (codes "quarterly_october", pos 160)
    ∷ (codes "quarterly_november", pos 161)
    ∷ (codes "quarterly_december", pos 162)
    ∷ (codes "annual_january", pos 192)
    ∷ (codes "annual_february", pos 193)
    ∷ (codes "annual_march", pos 194)
    ∷ (codes "annual_april", pos 195)
    ∷ (codes "annual_may", pos 196)
    ∷ (codes "annual_june", pos 197)
    ∷ (codes "annual_july", pos 198)
    ∷ (codes "annual_august", pos 199)
    ∷ (codes "annual_september", pos 200)
    ∷ (codes "annual_october", pos 201)
    ∷ (codes "annual_november", pos 202)
    ∷ (codes "annual_december", pos 203)
    ∷ (codes "semiannual_july", pos 204)
    ∷ (codes "semiannual_august", pos 205)
    ∷ (codes "semiannual_september", pos 206)
    ∷ (codes "semiannual_october", pos 207)
    ∷ (codes "semiannual_november", pos 208)
    ∷ (codes "semiannual_december", pos 209)
    ∷ (codes "ypp", pos 224)
    ∷ (codes "ppy", pos 225)
    ∷ (codes "secondly", pos 226)
    ∷ (codes "minutely", pos 227)
    ∷ (codes "hourly", pos 228)
    ∷ (codes "millisecondly", pos 229)
    ∷ (codes "case", pos 232)
    ∷ (codes "weekly_pattern", pos 233)
    ∷ []
