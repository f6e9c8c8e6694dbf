-- ===== src/Data/Writing/Checked.antt =====
-- A write checks everything before its first native call: after that it makes bare calls.
use famepy.Prelude.{
  ℕ, ℤ, pos, ◌==ℤ◌, ◌≡◌, refl, ap, subst, fun_ext, Bool, true, false, not, Option, none, some,
  if◌then◌else◌, ◌==◌,
}
use famepy.Errors.{Result, ok, err, data_validation}
use famepy.Native.{Native}
use famepy.Exec.{Exec, lift, gets, ◌>>=◌}
use famepy.Text.{Text, bytes}
use famepy.Constants.{CodeArg}
use famepy.Runtime.{sentinels}
use famepy.Database.{db_operation}
use famepy.Objects.{FameObject, is_scalar, check_supported_class}
use famepy.Data.{Kind, namelist, Buffer, Value, buffer, Numpy, size, kind_from_type}
use famepy.Data.Carriers.{
  RawScalar, RawSeries, RawObject, raw_scalar, raw_series, value_frequency, series_payload,
  scalar_payload, new_raw_scalar, new_raw_series,
}
use famepy.Data.Reading.{DataObject, object_date_frequency}
use famepy.Data.Writing.{mapped, raw_series_of, raw_data_of, raw_of, plan_of, write_raw, do_write}
use famepy.Data.Writing.Bare.{bare_write, write_plan-bare}
use famepy.Data.Writing.Ready.{FitsType, plan_of-Ready, value_frequency-fits}
use famepy.Data.Results.{and_then-ok, refuse-ok, err-ok, ok-injective}

new_raw_series-FitsType :
    (kind : Kind) (frequency first : ℤ) (values : Buffer) (freq : Option ℤ) (s : RawSeries)
    → new_raw_series kind frequency first values freq ≡ ok s
    → FitsType (raw_series s)
unfolding new_raw_series
new_raw_series-FitsType kind frequency first values freq s e =
    let e1 = (refuse-ok _ data_validation e).1 in
    let (f, ef, e2) = and_then-ok (value_frequency kind freq) _ e1 in
    let (p, ep, e3) = and_then-ok (series_payload kind values none) _ e2 in
    let e4 = (refuse-ok _ data_validation e3).1 in
    subst (λ x. FitsType (raw_series x)) (ok-injective e4) (value_frequency-fits kind freq f ef)

new_raw_scalar-FitsType :
    (numpy : Numpy) (kind : Kind) (v : Value) (freq : Option ℤ) (s : RawScalar)
    → new_raw_scalar numpy kind v freq ≡ ok s
    → FitsType (raw_scalar s)
unfolding new_raw_scalar
new_raw_scalar-FitsType numpy kind v freq s e =
    let (f, ef, e1) = and_then-ok (value_frequency kind freq) _ e in
    let (p, ep, e2) = and_then-ok (scalar_payload numpy kind v) _ e1 in
    subst (λ x. FitsType (raw_scalar x)) (ok-injective e2) (value_frequency-fits kind freq f ef)

mapped-ok :
    {A B : Type 0} (f : A → B) (r : Result A) {b : B}
    → mapped f r ≡ ok b
    → (a : A) × (r ≡ ok a) × (f a ≡ b)
mapped-ok f (ok a) e = (a, refl, ok-injective e)
mapped-ok f (err x) e = absurd (err-ok e)

raw_series_of-FitsType :
    (obj : FameObject) (kind : Kind) (values : Buffer) (index_nc : ℤ) (first last : Option ℤ)
    (s : RawSeries)
    → raw_series_of obj kind values index_nc first last ≡ ok s
    → FitsType (raw_series s)
unfolding raw_series_of
raw_series_of-FitsType obj kind values index_nc none last s e = absurd (err-ok e)
raw_series_of-FitsType obj kind values index_nc (some first) last s e =
    new_raw_series-FitsType kind obj.frequency first values (object_date_frequency obj) s
      (refuse-ok _ data_validation e).1

sized-FitsType :
    (obj : FameObject) (kind : Kind) (values : Buffer) (index_nc : ℤ) (b : Bool) (s : RawSeries)
    → (if b
        then new_raw_series kind obj.frequency index_nc values (object_date_frequency obj)
        else raw_series_of obj kind values index_nc obj.first_index obj.last_index)
      ≡ ok s
    → FitsType (raw_series s)
sized-FitsType obj kind values index_nc true s e =
    new_raw_series-FitsType kind obj.frequency index_nc values (object_date_frequency obj) s e
sized-FitsType obj kind values index_nc false s e =
    raw_series_of-FitsType obj kind values index_nc obj.first_index obj.last_index s e

raw_data_of-FitsType :
    (obj : FameObject) (kind : Kind) (v : Value) (index_nc : ℤ) (s : RawSeries)
    → raw_data_of obj kind v index_nc ≡ ok s
    → FitsType (raw_series s)
unfolding raw_data_of
raw_data_of-FitsType obj namelist v index_nc s e = absurd (err-ok e)
raw_data_of-FitsType obj kind (buffer values) index_nc s e =
    sized-FitsType obj kind values index_nc (size values == 0) s e
raw_data_of-FitsType obj kind _ index_nc s e = absurd (err-ok e)

module _ (numpy : Numpy) (obj : DataObject) (index_nc : ℤ) where
  kind-FitsType :
      (kind : Kind) (b : Bool) (raw : RawObject)
      → (if b
          then (if not (obj.info.frequency ==ℤ pos 0)
              then err data_validation
              else mapped raw_scalar
                  (new_raw_scalar numpy kind obj.data' (object_date_frequency obj.info)))
          else mapped raw_series (raw_data_of obj.info kind obj.data' index_nc))
        ≡ ok raw
      → FitsType raw
  kind-FitsType kind true raw e =
      let e1 = (refuse-ok _ data_validation e).1 in
      let (s, es, q) =
        mapped-ok raw_scalar (new_raw_scalar numpy kind obj.data' (object_date_frequency obj.info))
          e1 in
      subst FitsType q (new_raw_scalar-FitsType numpy kind obj.data' _ s es)
  kind-FitsType kind false raw e =
      let (s, es, q) = mapped-ok raw_series (raw_data_of obj.info kind obj.data' index_nc) e in
      subst FitsType q (raw_data_of-FitsType obj.info kind obj.data' index_nc s es)

  raw_of-FitsType : (raw : RawObject) → raw_of numpy obj index_nc ≡ ok raw → FitsType raw
  unfolding raw_of
  raw_of-FitsType raw e =
      let (u, eu, e1) = and_then-ok (check_supported_class obj.info) _ e in
      let e2 = (refuse-ok _ data_validation e1).1 in
      let (kind, ek, e3) = and_then-ok (kind_from_type obj.info.type_code) _ e2 in
      kind-FitsType kind (is_scalar obj.info) raw e3

-- actions that agree where the result before them is a value
lift-cong :
    {A B : Type 0} (r : Result A) (f g : A → Exec B)
    → ((a : A) → r ≡ ok a → f a ≡ g a)
    → (lift r >>= f) ≡ (lift r >>= g)
unfolding lift ◌>>=◌
lift-cong (ok a) f g h = h a refl
lift-cong (err e) f g h = refl

module _ (native : Native) (numpy : Numpy) where
  -- `write_raw` with the bare calls after its checks
  bare_write_raw : ℕ → Text → RawObject → Bool → Option CodeArg → Option CodeArg → Exec Unit
  bare_write_raw hid n obj replace basis observed = do
    w ← gets (λ w. w)
    plan ← lift (plan_of numpy (w.handles hid).mode n obj basis observed)
    db_operation native hid (bare_write native replace plan)

  -- `do_write` with the bare calls after its checks
  pub bare_do_write : ℕ → DataObject → Bool → Option CodeArg → Option CodeArg → Exec Unit
  bare_do_write hid obj replace basis observed = do
    w ← gets (λ w. w)
    s ← sentinels (w.handles hid).session
    raw ← lift (raw_of numpy obj s.index_nc)
    bare_write_raw hid (bytes obj.info.name) raw replace basis observed

  write_raw-bare :
      (hid : ℕ) (n : Text) (obj : RawObject) (replace : Bool) (basis observed : Option CodeArg)
      → FitsType obj
      → write_raw native numpy hid n obj replace basis observed
        ≡ bare_write_raw hid n obj replace basis observed
  unfolding write_raw bare_write_raw
  write_raw-bare hid n obj replace basis observed t =
      ap (λ f. gets (λ w. w) >>= f)
        (fun_ext λ w.
          lift-cong (plan_of numpy (w.handles hid).mode n obj basis observed) _ _ λ plan e.
            ap (db_operation native hid) (
              fun_ext λ key.
                write_plan-bare native plan
                  (plan_of-Ready numpy (w.handles hid).mode n obj basis observed plan t e) replace
                  key))

  -- Once `do_write` has made its plan no check of the native layer refuses anything: it is the same
  -- as the version that passes the planned values to the library directly, where the database key
  -- alone is still checked.
  pub do_write-bare :
      (hid : ℕ) (obj : DataObject) (replace : Bool) (basis observed : Option CodeArg)
      → do_write native numpy hid obj replace basis observed
        ≡ bare_do_write hid obj replace basis observed
  unfolding do_write bare_do_write
  do_write-bare hid obj replace basis observed =
      ap (λ f. gets (λ w. w) >>= f)
        (fun_ext λ w.
          ap (λ f. sentinels (w.handles hid).session >>= f)
            (fun_ext λ s. lift-cong (raw_of numpy obj s.index_nc) _ _ λ raw e.
              write_raw-bare hid (bytes obj.info.name) raw replace basis observed
                (raw_of-FitsType numpy obj s.index_nc raw e)))
