-- ===== src/Data/Writing/Bare.antt =====
-- A plan that is ready passes every check of the native layer: what is left are the bare calls.
use famepy.Prelude.{
  ℕ, ◌^◌, ℤ, pos, fits, ◌==ℤ◌, ◌≡◌, refl, sym, ◌∙◌, ap, Bytes, Bool, true, false, ◌&&◌, Bool-cases,
  inl, inr, Option, none, List, [], ◌∷◌, leb, ◌==◌, length, contains_byte, if◌then◌else◌,
}
use famepy.Errors.{data_validation, ok}
use famepy.Native.{
  Native, Range, cfmnwob, cfmdlob, fame_write_precisions, fame_write_numerics, fame_write_booleans,
  fame_write_dates, fame_write_strings, cfmwtnl,
}
use famepy.Exec.{Exec, raise, lift, catch, skip, call, ◌>>=◌, ◌>>◌}
use famepy.Runtime.{int32}
use famepy.Data.{Cells, precisions, numerics, booleans, dates, count, max_observations}
use famepy.Data.Carriers.{Payload, block, namelist_text, string_text, string_texts}
use famepy.Data.Buffers.{namelist_all, bulk_length, range_argument, native_name, bulk}
use famepy.Data.Writing.{
  Plan, is_hnoobj, any_nul, delete_native, delete_or_ignore, new_object, write_strings,
  write_namelist, write_cells, write_values, write_plan,
}
use famepy.Data.Results.{lift-bind, lift-bind-err, raise_if-bind, int32-ok, int32-err}

-- the calls of a write by themselves
module _ (native : Native) where
  unfoldable pub bare_payload : ℤ → Bytes → Option Range → ℤ → Payload → Exec Unit
  bare_payload k n range t (namelist_text bs) = call native (cfmwtnl k n namelist_all bs)
  bare_payload k n range t (string_text bs) = call native (fame_write_strings k n none (bs ∷ []))
  bare_payload k n range t (string_texts bss) = call native (fame_write_strings k n range bss)
  bare_payload k n range t (block (precisions xs)) =
      call native (fame_write_precisions k n range xs)
  bare_payload k n range t (block (numerics xs)) = call native (fame_write_numerics k n range xs)
  bare_payload k n range t (block (booleans xs)) = call native (fame_write_booleans k n range xs)
  bare_payload k n range t (block (dates xs)) = call native (fame_write_dates k n range t xs)

  unfoldable pub bare_delete : Bool → ℤ → Bytes → Exec Unit
  bare_delete missing_ok k n =
      catch (call native (cfmdlob k n)) (λ e. if missing_ok && is_hnoobj e then skip else raise e)

  unfoldable pub bare_create : ℤ → Plan → Exec Unit
  bare_create k p =
      call native (cfmnwob k p.name' p.class_code p.frequency p.type_code p.basis p.observed)

  -- `write_plan` without the checks of the native layer, but for that of the database key
  unfoldable pub bare_write : Bool → Plan → ℤ → Exec Unit
  bare_write replace p key = do
    k ← lift (int32 key)
    if replace then bare_delete true k p.name' else skip
    bare_create k p
    if p.is_empty then skip else bare_payload k p.name' p.range p.type_code p.payload

-- The length is the range's, and within the bound; no text has a NUL.
abbrev pub ReadyPayload : Option Range → Payload → Type 0
ReadyPayload range (block cells) =
    ((pos (count cells) ==ℤ bulk_length range) ≡ true) × (leb (count cells) max_observations ≡ true)
ReadyPayload range (namelist_text bs) = contains_byte 0 bs ≡ false
ReadyPayload range (string_text bs) = contains_byte 0 bs ≡ false
ReadyPayload range (string_texts bss) =
    ((length bss == 0) ≡ false)
    × (any_nul bss ≡ false)
    × ((pos (length bss) ==ℤ bulk_length range) ≡ true)

pub record Ready (p : Plan) : Type 0 where
  pub name_ok : contains_byte 0 p.name' ≡ false
  pub class_fits : fits (2 ^ 31) p.class_code ≡ true
  pub frequency_fits : fits (2 ^ 31) p.frequency ≡ true
  pub type_fits : fits (2 ^ 31) p.type_code ≡ true
  pub basis_fits : fits (2 ^ 31) p.basis ≡ true
  pub observed_fits : fits (2 ^ 31) p.observed ≡ true
  pub payload_ready : p.is_empty ≡ false → ReadyPayload p.range p.payload

native_name-ok : (n : Bytes) → contains_byte 0 n ≡ false → native_name n ≡ ok n
unfolding native_name
native_name-ok n h = rw h refl

range_argument-ok :
    (r : Option Range) (n : ℕ) → (pos n ==ℤ bulk_length r) ≡ true → range_argument r n ≡ ok r
unfolding range_argument
range_argument-ok r n h = rw h refl

module _ (native : Native) (key : ℤ) (fit : fits (2 ^ 31) key ≡ true) where
  delete-bare :
      (missing_ok : Bool) (n : Bytes)
      → contains_byte 0 n ≡ false
      → delete_or_ignore native missing_ok key n ≡ bare_delete native missing_ok key n
  unfolding delete_or_ignore delete_native bare_delete
  delete-bare missing_ok n h =
      ap (λ m. catch m (λ e. if missing_ok && is_hnoobj e then skip else raise e))
        (lift-bind _ (native_name-ok n h) ∙ lift-bind _ (int32-ok key fit))

  create-bare : (p : Plan) → Ready p → new_object native key p ≡ bare_create native key p
  unfolding new_object bare_create
  create-bare p ready =
      lift-bind _ (native_name-ok p.name' ready.name_ok)
      ∙ lift-bind _ (int32-ok key fit)
      ∙ lift-bind _ (int32-ok p.class_code ready.class_fits)
      ∙ lift-bind _ (int32-ok p.frequency ready.frequency_fits)
      ∙ lift-bind _ (int32-ok p.type_code ready.type_fits)
      ∙ lift-bind _ (int32-ok p.basis ready.basis_fits)
      ∙ lift-bind _ (int32-ok p.observed ready.observed_fits)

  bulk-bare :
      {A : Type 0} (n : Bytes) (range : Option Range) (c : ℕ) (body : ℤ → Bytes → Exec A)
      → contains_byte 0 n ≡ false
      → (pos c ==ℤ bulk_length range) ≡ true
      → leb c max_observations ≡ true
      → bulk native key n range c body ≡ body key n
  unfolding bulk
  bulk-bare n range c body h l m =
      raise_if-bind _ _ _ (rw (l, m) refl)
      ∙ lift-bind _ (range_argument-ok range c l)
      ∙ lift-bind _ (int32-ok key fit)
      ∙ lift-bind _ (native_name-ok n h)

  cells-bare :
      (n : Bytes) (range : Option Range) (t : ℤ) (cells : Cells)
      → contains_byte 0 n ≡ false
      → fits (2 ^ 31) t ≡ true
      → ReadyPayload range (block cells)
      → write_cells native key n range t cells ≡ bare_payload native key n range t (block cells)
  unfolding write_cells bare_payload
  cells-bare n range t (precisions xs) h f (l, m) = bulk-bare n range (length xs) _ h l m
  cells-bare n range t (numerics xs) h f (l, m) = bulk-bare n range (length xs) _ h l m
  cells-bare n range t (booleans xs) h f (l, m) = bulk-bare n range (length xs) _ h l m
  cells-bare n range t (dates xs) h f (l, m) =
      lift-bind _ (int32-ok t f) ∙ bulk-bare n range (length xs) _ h l m

  strings-bare :
      (n : Bytes) (range : Option Range) (bss : List Bytes)
      → contains_byte 0 n ≡ false
      → (length bss == 0) ≡ false
      → any_nul bss ≡ false
      → (pos (length bss) ==ℤ bulk_length range) ≡ true
      → write_strings native key n range bss ≡ call native (fame_write_strings key n range bss)
  unfolding write_strings
  strings-bare n range bss h e z l =
      raise_if-bind _ _ _ e
      ∙ raise_if-bind _ _ _ z
      ∙ lift-bind _ (range_argument-ok range (length bss) l)
      ∙ lift-bind _ (int32-ok key fit)
      ∙ lift-bind _ (native_name-ok n h)

  namelist-bare :
      (n bs : Bytes)
      → contains_byte 0 n ≡ false
      → contains_byte 0 bs ≡ false
      → write_namelist native key n bs ≡ call native (cfmwtnl key n namelist_all bs)
  unfolding write_namelist
  namelist-bare n bs h z =
      lift-bind _ (native_name-ok n h)
      ∙ lift-bind _ (native_name-ok bs z)
      ∙ lift-bind _ (int32-ok key fit)

  payload-bare :
      (n : Bytes) (range : Option Range) (t : ℤ) (p : Payload)
      → contains_byte 0 n ≡ false
      → fits (2 ^ 31) t ≡ true
      → ReadyPayload range p
      → write_values native key n range t p ≡ bare_payload native key n range t p
  unfolding write_values bare_payload
  payload-bare n range t (block cells) h f r = cells-bare n range t cells h f r
  payload-bare n range t (namelist_text bs) h f r = namelist-bare n bs h r
  payload-bare n range t (string_text bs) h f r =
      strings-bare n none (bs ∷ []) h refl (unfold any_nul in rw r refl) refl
  payload-bare n range t (string_texts bss) h f (e, z, l) = strings-bare n range bss h e z l

module _ (native : Native) (p : Plan) (ready : Ready p) where
  rest-bare :
      (key : ℤ)
      → fits (2 ^ 31) key ≡ true
      → (do
        new_object native key p
        if p.is_empty then skip else write_values native key p.name' p.range p.type_code p.payload)
        ≡ (do
          bare_create native key p
          if p.is_empty
              then skip
              else bare_payload native key p.name' p.range p.type_code p.payload)
  rest-bare key fit =
      ap
        (λ m.
          m
          >> (if p.is_empty
              then skip
              else write_values native key p.name' p.range p.type_code p.payload))
        (create-bare native key fit p ready)
      ∙ ap (λ m. bare_create native key p >> m) (pick p.is_empty refl)
    where
      pick :
          (b : Bool)
          → p.is_empty ≡ b
          → (if b then skip else write_values native key p.name' p.range p.type_code p.payload)
            ≡ (if b then skip else bare_payload native key p.name' p.range p.type_code p.payload)
      pick true e = refl
      pick false e =
          payload-bare native key fit p.name' p.range p.type_code p.payload ready.name_ok
            ready.type_fits (ready.payload_ready e)

  refused_key :
      (replace : Bool) (key : ℤ)
      → fits (2 ^ 31) key ≡ false
      → write_plan native replace p key ≡ raise data_validation
  unfolding write_plan delete_or_ignore delete_native new_object catch raise skip famepy.Exec.pure
      lift ◌>>=◌
  refused_key true key h = rw (native_name-ok p.name' ready.name_ok, int32-err key h) refl
  refused_key false key h = rw (native_name-ok p.name' ready.name_ok, int32-err key h) refl

  pub write_plan-bare :
      (replace : Bool) (key : ℤ) → write_plan native replace p key ≡ bare_write native replace p key
  unfolding write_plan bare_write
  write_plan-bare replace key = elim (Bool-cases (fits (2 ^ 31) key)) [
    | inl fit ↦ first replace fit ∙ sym (lift-bind _ (int32-ok key fit))
    | inr bad ↦ refused_key replace key bad ∙ sym (lift-bind-err _ (int32-err key bad))
  ]
    where
      first :
          (replace : Bool)
          → fits (2 ^ 31) key ≡ true
          → (do
            if replace then delete_or_ignore native true key p.name' else skip
            new_object native key p
            if p.is_empty
                then skip
                else write_values native key p.name' p.range p.type_code p.payload)
            ≡ (do
              if replace then bare_delete native true key p.name' else skip
              bare_create native key p
              if p.is_empty
                  then skip
                  else bare_payload native key p.name' p.range p.type_code p.payload)
      first true fit =
          ap
            (λ m. m >> (do
              new_object native key p
              if p.is_empty
                  then skip
                  else write_values native key p.name' p.range p.type_code p.payload))
            (delete-bare native key fit true p.name' ready.name_ok)
          ∙ ap (λ m. bare_delete native true key p.name' >> m) (rest-bare key fit)
      first false fit = ap (λ m. skip >> m) (rest-bare key fit)
