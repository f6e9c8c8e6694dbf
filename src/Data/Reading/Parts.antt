-- ===== src/Data/Reading/Parts.antt =====
-- What the result of a read is, for src/famepy/_data.py: the selected part of the stored range.
use famepy.Prelude.{
  ℕ, ℤ, pos, ◌≤ℤ◌, leb_ℤ, ltb_ℤ, ◌+ℤ◌, ◌-ℤ◌, ◌≡◌, refl, sym, ap, subst, true, false, ◌||◌, Option,
  none, some, ◌⊎◌, arith,
}
use famepy.Errors.{runtime_state, ok, data_validation}
use famepy.Native.{Native, Range, Sentinels}
use famepy.World.{World}
use famepy.Exec.{Exec, pure, raise, gets, lift, ◌>>=◌}
use famepy.Runtime.{session, sentinels}
use famepy.Objects.{FameObject, is_scalar, is_empty}
use famepy.Data.{
  Kind, precision, numeric, boolean, date, string, Buffer, size, max_observations, kind_from_type,
}
use famepy.Data.Carriers.{
  fame_range, RawSeries, RawObject, raw_scalar, raw_series, value_frequency, series_payload,
  new_raw_series, last_index,
}
use famepy.Data.Buffers.{read_values}
use famepy.Data.Reading.{is_present, stored_or, read_range, empty_buffer}
use famepy.Data.Reading.Replies.{IsReply}
use famepy.Data.Writing.Payloads.{fame_range-ok}
use famepy.Data.Results.{
  and_then-ok, guard-ok, refuse-ok, err-ok, ok-injective, and_parts, or_parts,
}

-- the part of a stored range from `low` to `high` that two endpoints select
pub record Part (low high : ℤ) (first last : Option ℤ) (a b : ℤ) : Type 0 where
  pub starts : a ≡ stored_or first low
  pub ends : b ≡ stored_or last high
  pub above : low ≤ℤ a
  pub ordered : a ≤ℤ b
  pub below : b ≤ℤ high

not_less : (a b : ℤ) → ltb_ℤ a b ≡ false → b ≤ℤ a
not_less a b h = ground arith

less_equal : (a b : ℤ) → leb_ℤ a b ≡ true → a ≤ℤ b
less_equal a b h = ground arith

fame_range-ordered :
    (frequency first last : ℤ) (r : Range) → fame_range frequency first last ≡ ok r → first ≤ℤ last
unfolding fame_range
fame_range-ordered frequency first last r e =
    let (tests, q) = guard-ok _ data_validation e in
    let (a, b) = and_parts _ (leb_ℤ (last -ℤ first +ℤ pos 1) (pos max_observations)) tests in
    less_equal first last (and_parts _ (leb_ℤ first last) a).1

pub read_range-Part :
    (frequency low high : ℤ) (first last : Option ℤ) (r : Range)
    → read_range frequency low high first last ≡ ok r
    → Part low high first last r.first r.last × (r.frequency ≡ frequency)
unfolding read_range
read_range-Part frequency low high first last r e =
    let (inside, made) =
      refuse-ok (ltb_ℤ (stored_or first low) low || ltb_ℤ high (stored_or last high))
        data_validation e in
    let (a, b) =
      or_parts (ltb_ℤ (stored_or first low) low) (ltb_ℤ high (stored_or last high)) inside in
    subst (λ x. Part low high first last x.first x.last × (x.frequency ≡ frequency))
      (fame_range-ok frequency (stored_or first low) (stored_or last high) r made)
      (
        record {
          starts = refl;
          ends = refl;
          above = not_less (stored_or first low) low a;
          ordered = fame_range-ordered frequency (stored_or first low) (stored_or last high) r made;
          below = not_less high (stored_or last high) b;
        },
        refl,
      )

pub new_raw_series-ok :
    (kind : Kind) (frequency first : ℤ) (values : Buffer) (freq : Option ℤ) (s : RawSeries)
    → new_raw_series kind frequency first values freq ≡ ok s
    → (s.frequency ≡ frequency) × (s.first_index ≡ first) × (s.values ≡ values) × (s.kind ≡ kind)
unfolding new_raw_series
new_raw_series-ok kind frequency first values freq s e =
    let e1 = (refuse-ok _ data_validation e).1 in
    let (f, ef, e2) = and_then-ok (value_frequency kind freq) _ e1 in
    let (p, ep, e3) = and_then-ok (series_payload kind values none) _ e2 in
    let e4 = (refuse-ok _ data_validation e3).1 in
    subst
      (λ x.
        (x.frequency ≡ frequency) × (x.first_index ≡ first) × (x.values ≡ values) × (x.kind ≡ kind))
      (ok-injective e4) (refl, refl, refl, refl)

-- the range of the observations of a series
abbrev pub range_of : FameObject → RawSeries → Range
range_of info s = record { frequency = info.frequency; first = s.first_index; last = last_index s }

-- Of an empty stored series, without endpoints: no observations, from the NC index. Else the
-- selected part of the stored range, and the observations that `_read_values` gives for exactly
-- that part, which are what the library replied to the call for that part.
abbrev pub IsPart : Native → ℤ → FameObject → ℤ → Option ℤ → Option ℤ → World → RawSeries → Type 0
IsPart native key info index_nc first last w s =
    ((is_empty info index_nc ≡ true)
      × (is_present first || is_present last ≡ false)
      × (s.first_index ≡ index_nc)
      × (size s.values ≡ 0))
    ⊎ ((low : ℤ) × (high : ℤ) × (info.first_index ≡ some low)
        × (info.last_index ≡ some high)
        × Part low high first last s.first_index (last_index s)
        × ((read_values native key info.name s.kind (some (range_of info s)) (size s.values) w).0
            ≡ ok s.values)
        × IsReply native w.calls key info.name s.kind (some (range_of info s)) (size s.values)
            s.values)

-- a scalar, or a series with the stored kind and frequency and of the selected part
abbrev pub IsRead : Native → ℤ → FameObject → Option ℤ → Option ℤ → ℕ → World → RawObject → Type 0
IsRead native key info first last sid w (raw_scalar s) = is_scalar info ≡ true
IsRead native key info first last sid w (raw_series s) =
    (kind_from_type info.type_code ≡ ok s.kind)
    × (s.frequency ≡ info.frequency)
    × (nc : Sentinels) × ((sentinels sid w).0 ≡ ok nc)
    × IsPart native key info nc.index_nc first last w s

pub range_same :
    (r : Range) (f a b : ℤ)
    → f ≡ r.frequency
    → a ≡ r.first
    → b ≡ r.last
    → ◌≡◌ {A = Range} (record { frequency = f; first = a; last = b }) r
range_same r f a b p q t = cc

pub empty_buffer-size : (kind : Kind) (b : Buffer) → empty_buffer kind ≡ ok b → size b ≡ 0
unfolding empty_buffer
empty_buffer-size precision b e = ap size (sym (ok-injective e))
empty_buffer-size numeric b e = ap size (sym (ok-injective e))
empty_buffer-size boolean b e = ap size (sym (ok-injective e))
empty_buffer-size date b e = ap size (sym (ok-injective e))
empty_buffer-size string b e = ap size (sym (ok-injective e))
empty_buffer-size _ b e = absurd (err-ok e)

pub sentinels-world : (sid : ℕ) (w : World) → (sentinels sid w).1 ≡ w
unfolding sentinels session gets lift ◌>>=◌
sentinels-world sid w = go (w.sessions sid).sentinels
  where
    go :
        (o : Option Sentinels)
        → (elim o as (λ _. Exec Sentinels) [
          | none ↦ raise runtime_state
          | some values ↦ pure values
        ]
            w).1
          ≡ w
    go none = unfold raise in refl
    go (some v) = unfold pure in refl
