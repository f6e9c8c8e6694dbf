-- ===== src/Data/Reading/Within.antt =====
-- A series that is read is the selected part of the stored range.
use famepy.Prelude.{
  ℕ, ℤ, pos, pos_part, ◌+ℤ◌, ◌-ℤ◌, last_of_length, ◌≡◌, refl, sym, ◌∙◌, ap, subst, subst₂, true,
  false, ◌||◌, Option, none, some, if◌then◌else◌, inl, inr,
}
use famepy.Errors.{ok, data_validation, other}
use famepy.Native.{Native, Range, Sentinels}
use famepy.World.{World}
use famepy.Exec.{raise_if, ◌>>◌}
use famepy.Exec.Ends.{
  Ends, Ends-ok, Ends-bind, Ends-pure, Ends-lift, Ends-raise, Ends-raise_if, Ends-if,
}
use famepy.Runtime.{sentinels}
use famepy.Wildcard.Scan.{Meets}
use famepy.Objects.{check_supported_class, FameObject, is_scalar, is_empty}
use famepy.Data.{
  Kind, precision, numeric, boolean, date, string, namelist, undefined, Buffer, Numpy, size,
  kind_from_type,
}
use famepy.Data.Carriers.{
  range_length, RawSeries, RawObject, raw_series, new_raw_series, last_index,
}
use famepy.Data.Buffers.{read_values}
use famepy.Data.Reading.{
  is_present, read_range, empty_buffer, read_namelist, read_scalar, read_empty, read_stored,
  read_endpoints, read_series, read_locked, object_date_frequency,
}
use famepy.Data.Reading.Gives.{Gives-read_values}
use famepy.Data.Reading.Replies.{IsReply, read_values-Replied}
use famepy.Data.Reading.Parts.{
  Part, IsRead, read_range-Part, new_raw_series-ok, range_same, empty_buffer-size, sentinels-world,
  range_of,
}

module _ (native : Native) (numpy : Numpy) (key : ℤ) (info : FameObject) (first last : Option ℤ)
    (sid : ℕ) (w : World) where
  abbrev Read : RawObject → World → Type 0
  Read raw v = IsRead native key info first last sid w raw

  module _ (kind : Kind) (nc : Sentinels) (stored : kind_from_type info.type_code ≡ ok kind)
      (known : (sentinels sid w).0 ≡ ok nc) where
    stored-Read :
        (low high : ℤ)
        → info.first_index ≡ some low
        → info.last_index ≡ some high
        → Ends Read (read_stored native numpy key info kind low high first last w)
    unfolding read_stored
    stored-Read low high el eh =
        Ends-lift _ (read_range info.frequency low high first last) _ w λ r er.
          Ends-bind _ (read_values native key info.name kind (some r) (pos_part (range_length r))) _
            w
            λ values ev.
              Ends-lift _
                (new_raw_series kind info.frequency r.first values (object_date_frequency info)) _ _
                λ s es. Ends-pure _ _ _ (
                  part r values s (read_range-Part info.frequency low high first last r er) ev (
                    new_raw_series-ok kind info.frequency r.first values
                      (object_date_frequency info) s es))
      where
        part :
            (r : Range) (values : Buffer) (s : RawSeries)
            → Part low high first last r.first r.last × (r.frequency ≡ info.frequency)
            → (read_values native key info.name kind (some r) (pos_part (range_length r)) w).0
              ≡ ok values
            → (s.frequency ≡ info.frequency)
              × (s.first_index ≡ r.first)
              × (s.values ≡ values)
              × (s.kind ≡ kind)
            → IsRead native key info first last sid w (raw_series s)
        part r values s (p, ef) ev (e1, e2, e3, e4) = (
          stored ∙ ap ok (sym e4),
          e1,
          nc,
          known,
          inr (low, high, el, eh, inside, observed, replied),
        )
          where
            count : size values ≡ pos_part (range_length r)
            count = subst (Meets (λ b. size b ≡ pos_part (range_length r))) ev (
                (Gives-read_values native key info.name (some r) kind
                    (pos_part (range_length r))).at
                  w)

            ends : r.last ≡ last_index s
            ends =
                sym (last_of_length r.first r.last p.ordered)
                ∙ ap (λ x. x +ℤ pos (pos_part (range_length r)) -ℤ pos 1) (sym e2)
                ∙ ap (λ n. s.first_index +ℤ pos n -ℤ pos 1) (sym (ap size e3 ∙ count))

            inside : Part low high first last s.first_index (last_index s)
            inside = subst₂ (Part low high first last) (sym e2) ends p

            observed :
                (read_values native key info.name s.kind
                  (some (range_of info s))
                  (size s.values)
                  w).0
                ≡ ok s.values
            observed =
                ap
                  (λ k.
                    (read_values native key info.name k (some (range_of info s)) (size s.values)
                      w).0)
                  e4
                ∙ ap (λ x. (read_values native key info.name kind (some x) (size s.values) w).0)
                    (range_same r info.frequency s.first_index (last_index s) (sym ef) e2
                      (sym ends))
                ∙ ap (λ n. (read_values native key info.name kind (some r) n w).0)
                    (ap size e3 ∙ count)
                ∙ ev
                ∙ ap ok (sym e3)

            replied :
                IsReply native w.calls key info.name s.kind
                  (some (range_of info s))
                  (size s.values)
                  s.values
            replied =
                Ends-ok
                  (λ b v.
                    IsReply native w.calls key info.name s.kind (some (range_of info s))
                      (size s.values) b)
                  _ s.values
                  (read_values-Replied native key info.name (some (range_of info s)) (size s.values)
                    w s.kind)
                  observed

    endpoints-Read :
        (low high : Option ℤ)
        → info.first_index ≡ low
        → info.last_index ≡ high
        → Ends Read (read_endpoints native numpy key info kind low high first last w)
    unfolding read_endpoints
    endpoints-Read (some low) (some high) el eh = stored-Read low high el eh
    endpoints-Read none high el eh = Ends-raise _ other w
    endpoints-Read (some low) none el eh = Ends-raise _ other w

    empty-Read :
        is_empty info nc.index_nc ≡ true
        → (is_present first || is_present last) ≡ false
        → Ends Read (read_empty native numpy info kind nc.index_nc w)
    unfolding read_empty
    empty-Read he hn = Ends-lift _ (empty_buffer kind) _ w λ values ev.
        Ends-lift _
          (new_raw_series kind info.frequency nc.index_nc values (object_date_frequency info)) _ w
          λ s es. Ends-pure _ _ w (
            let (e1, e2, e3, e4) =
              new_raw_series-ok kind info.frequency nc.index_nc values (object_date_frequency info)
                s es in
            (
              stored ∙ ap ok (sym e4),
              e1,
              nc,
              known,
              inl (he, hn, e2, ap size e3 ∙ empty_buffer-size kind values ev),
            ))

    series_of : Ends Read (
        (if is_empty info nc.index_nc
            then (do
              raise_if (is_present first || is_present last) data_validation
              read_empty native numpy info kind nc.index_nc)
            else read_endpoints native numpy key info kind info.first_index info.last_index first
                last)
          w)
    series_of =
        Ends-if _ (is_empty info nc.index_nc) _ _ w
          (λ he.
            Ends-raise_if _ (is_present first || is_present last) data_validation _ w
              (empty-Read he))
          (λ ne. endpoints-Read info.first_index info.last_index refl refl)

  series-Read :
      (kind : Kind) (nc : Sentinels)
      → kind_from_type info.type_code ≡ ok kind
      → (sentinels sid w).0 ≡ ok nc
      → Ends Read (read_series native numpy key info kind nc.index_nc first last w)
  unfolding read_series
  series-Read namelist nc st kn = Ends-raise _ data_validation w
  series-Read undefined nc st kn = series_of undefined nc st kn
  series-Read precision nc st kn = series_of precision nc st kn
  series-Read numeric nc st kn = series_of numeric nc st kn
  series-Read boolean nc st kn = series_of boolean nc st kn
  series-Read date nc st kn = series_of date nc st kn
  series-Read string nc st kn = series_of string nc st kn

  scalar-Read :
      (kind : Kind) (v : World)
      → is_scalar info ≡ true
      → Ends Read (read_scalar native numpy key info kind v)
  unfolding read_scalar read_namelist
  scalar-Read namelist v h = Ends-bind _ _ _ v λ bs e. Ends-bind _ _ _ _ λ s e'. Ends-pure _ _ _ h
  scalar-Read kind v h = Ends-bind _ _ _ v λ values e. Ends-bind _ _ _ _ λ s e'. Ends-pure _ _ _ h

  read_locked-Read : Ends Read (read_locked native numpy sid key info first last w)
  unfolding read_locked
  read_locked-Read = Ends-lift _ (check_supported_class info) _ w λ u eu.
      Ends-lift _ (kind_from_type info.type_code) _ w λ kind ek.
        Ends-if _ (is_scalar info) _ _ w
          (λ h.
            Ends-raise_if _ (is_present first || is_present last) data_validation _ w
              (λ _. scalar-Read kind w h))
          (λ _. Ends-bind _ (sentinels sid) _ w λ nc en.
            subst (λ v. Ends Read (read_series native numpy key info kind nc.index_nc first last v))
              (sym (sentinels-world sid w)) (series-Read kind nc ek en))

  -- Whatever the library answers, a series that a locked read returns has the stored kind and
  -- frequency. It has no observations where the stored series is empty and no endpoint is selected;
  -- else it begins at the selected, else the stored first index and ends at the selected, else
  -- the stored last one, neither of which lies outside the stored range, and its observations are
  -- those that `_read_values` gives for exactly that range, which are what the library replied to
  -- the call for that kind, object and range. A scalar is returned for a scalar only.
  pub read_locked-IsRead :
      (raw : RawObject)
      → (read_locked native numpy sid key info first last w).0 ≡ ok raw
      → IsRead native key info first last sid w raw
  read_locked-IsRead raw e = Ends-ok Read _ raw read_locked-Read e
