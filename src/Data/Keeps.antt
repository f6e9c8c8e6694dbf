-- ===== src/Data/Keeps.antt =====
-- What native calls and extended error texts leave alone, reads, writes and deletions leave alone.
use famepy.Prelude.{ℕ, refl, List, [], ◌∷◌, ℤ, Bytes, Bool, true, Option, none, some}
use famepy.Native.{
  Native, Range, fame_get_precisions, fame_get_numerics, fame_get_booleans, fame_get_dates,
  fame_len_strings, fame_get_strings, cfmnlen, cfmgtnl, cfmnwob, cfmdlob, fame_write_precisions,
  fame_write_numerics, fame_write_booleans, fame_write_dates, fame_write_strings, cfmwtnl,
}
use famepy.World.{World}
use famepy.Exec.{Exec, skip}
use famepy.Runtime.{sentinels}
use famepy.Runtime.Keeps.{
  Stable, Keeps, Keeps-pure, Keeps-raise, Keeps-lift, Keeps-session, Keeps-raise_if, Keeps-if,
  Keeps-bind, Keeps-catch, call-Keeps,
}
use famepy.Wildcard.Keeps.{query_info-Keeps}
use famepy.Objects.{FameObject}
use famepy.Data.{
  Kind, precision, numeric, boolean, date, string, namelist, Cells, precisions, numerics, booleans,
  dates, Numpy,
}
use famepy.Data.Carriers.{Payload, block, namelist_text, string_text, string_texts}
use famepy.Data.Buffers.{bulk, get_strings, get_namelist, read_values}
use famepy.Data.Reading.{
  read_namelist, read_scalar, read_empty, read_stored, read_endpoints, read_series, read_locked,
  read_object,
}
use famepy.Data.Writing.{
  delete_native, delete_or_ignore, new_object, write_strings, write_namelist, write_cells,
  write_values, write_plan, Plan,
}

module _ (P : World → Type 0) where
  sentinels-Keeps : (sid : ℕ) → Keeps P (sentinels sid)
  unfolding sentinels
  sentinels-Keeps sid = Keeps-bind P _ _ (Keeps-session P sid) λ s.
      elim s.sentinels as (λ o. Keeps P (elim o [ none ↦ _ | some values ↦ _ ])) [
        | none ↦ Keeps-raise P _
        | some values ↦ Keeps-pure P _
      ]

  bulk-Keeps :
      {A : Type 0} (native : Native) (key : ℤ) (n : Bytes) (range : Option Range) (count : ℕ)
      (body : ℤ → Bytes → Exec A)
      → ((k : ℤ) (m : Bytes) → Keeps P (body k m))
      → Keeps P (bulk native key n range count body)
  unfolding bulk
  bulk-Keeps native key n range count body h = Keeps-bind P _ _ (Keeps-raise_if P _ _) λ _.
      Keeps-bind P _ _ (Keeps-lift P _)
        λ _. Keeps-bind P _ _ (Keeps-lift P _) λ k. Keeps-bind P _ _ (Keeps-lift P _) (λ m. h k m)

module _ (native : Native) (P : World → Type 0) (stable : Stable P) where
  get_strings-Keeps :
      (key : ℤ) (n : Bytes) (range : Option Range) (count : ℕ)
      → Keeps P (get_strings native key n range count)
  unfolding get_strings
  get_strings-Keeps key n range count = Keeps-bind P _ _ (Keeps-lift P _) λ _.
      Keeps-bind P _ _ (Keeps-raise_if P _ _) λ _. Keeps-bind P _ _ (Keeps-lift P _) λ r.
        Keeps-bind P _ _ (Keeps-lift P _) λ k. Keeps-bind P _ _ (Keeps-lift P _) λ m.
          Keeps-bind P _ _ (call-Keeps native P stable (fame_len_strings k m r) refl) λ ws.
            Keeps-bind P _ _ (Keeps-raise_if P _ _) λ _.
              Keeps-bind P _ _ (call-Keeps native P stable (fame_get_strings k m r _) refl)
                λ _. Keeps-bind P _ _ (Keeps-lift P _) (λ _. Keeps-pure P _)

  get_namelist-Keeps : (key : ℤ) (n : Bytes) → Keeps P (get_namelist native key n)
  unfolding get_namelist
  get_namelist-Keeps key n = Keeps-bind P _ _ (Keeps-lift P _) λ k.
      Keeps-bind P _ _ (Keeps-lift P _) λ m.
        Keeps-bind P _ _ (call-Keeps native P stable (cfmnlen k m _) refl) λ l.
          Keeps-bind P _ _ (Keeps-raise_if P _ _) λ _.
            Keeps-bind P _ _ (call-Keeps native P stable (cfmgtnl k m _ l) refl)
              (λ r. Keeps-pure P _)

  pub read_values-Keeps :
      (key : ℤ) (n : Bytes) (kind : Kind) (range : Option Range) (count : ℕ)
      → Keeps P (read_values native key n kind range count)
  unfolding read_values
  read_values-Keeps key n string range count = get_strings-Keeps key n range count
  read_values-Keeps key n precision range count = bulk-Keeps P native key n range count _ λ k m.
      Keeps-bind P _ _ (call-Keeps native P stable (fame_get_precisions k m range) refl)
        (λ _. Keeps-pure P _)
  read_values-Keeps key n numeric range count = bulk-Keeps P native key n range count _ λ k m.
      Keeps-bind P _ _ (call-Keeps native P stable (fame_get_numerics k m range) refl)
        (λ _. Keeps-pure P _)
  read_values-Keeps key n boolean range count = bulk-Keeps P native key n range count _ λ k m.
      Keeps-bind P _ _ (call-Keeps native P stable (fame_get_booleans k m range) refl)
        (λ _. Keeps-pure P _)
  read_values-Keeps key n date range count = bulk-Keeps P native key n range count _ λ k m.
      Keeps-bind P _ _ (call-Keeps native P stable (fame_get_dates k m range) refl)
        (λ _. Keeps-pure P _)
  read_values-Keeps key n _ range count = Keeps-raise P _

  module _ (numpy : Numpy) where
    read_scalar-Keeps :
        (key : ℤ) (info : FameObject) (kind : Kind)
        → Keeps P (read_scalar native numpy key info kind)
    unfolding read_scalar read_namelist
    read_scalar-Keeps key info namelist =
        Keeps-bind P _ _ (get_namelist-Keeps key info.name)
          λ _. Keeps-bind P _ _ (Keeps-lift P _) (λ _. Keeps-pure P _)
    read_scalar-Keeps key info kind =
        Keeps-bind P _ _ (read_values-Keeps key info.name kind none 1)
          λ _. Keeps-bind P _ _ (Keeps-lift P _) (λ _. Keeps-pure P _)

    read_empty-Keeps :
        (info : FameObject) (kind : Kind) (index_nc : ℤ)
        → Keeps P (read_empty native numpy info kind index_nc)
    unfolding read_empty
    read_empty-Keeps info kind index_nc =
        Keeps-bind P _ _ (Keeps-lift P _)
          λ _. Keeps-bind P _ _ (Keeps-lift P _) (λ _. Keeps-pure P _)

    read_endpoints-Keeps :
        (key : ℤ) (info : FameObject) (kind : Kind) (low high first last : Option ℤ)
        → Keeps P (read_endpoints native numpy key info kind low high first last)
    unfolding read_endpoints read_stored
    read_endpoints-Keeps key info kind (some low) (some high) first last =
        Keeps-bind P _ _ (Keeps-lift P _) λ r.
          Keeps-bind P _ _ (read_values-Keeps key info.name kind (some r) _)
            λ _. Keeps-bind P _ _ (Keeps-lift P _) (λ _. Keeps-pure P _)
    read_endpoints-Keeps key info kind _ _ first last = Keeps-raise P _

    read_series-Keeps :
        (key : ℤ) (info : FameObject) (kind : Kind) (index_nc : ℤ) (first last : Option ℤ)
        → Keeps P (read_series native numpy key info kind index_nc first last)
    unfolding read_series
    read_series-Keeps key info namelist index_nc first last = Keeps-raise P _
    read_series-Keeps key info kind index_nc first last =
        Keeps-if P _ _ _
          (Keeps-bind P _ _ (Keeps-raise_if P _ _) (λ _. read_empty-Keeps info kind index_nc))
          (read_endpoints-Keeps key info kind info.first_index info.last_index first last)

    read_locked-Keeps :
        (sid : ℕ) (key : ℤ) (info : FameObject) (first last : Option ℤ)
        → Keeps P (read_locked native numpy sid key info first last)
    unfolding read_locked
    read_locked-Keeps sid key info first last = Keeps-bind P _ _ (Keeps-lift P _) λ _.
        Keeps-bind P _ _ (Keeps-lift P _) λ kind.
          Keeps-if P _ _ _
            (Keeps-bind P _ _ (Keeps-raise_if P _ _) (λ _. read_scalar-Keeps key info kind))
            (Keeps-bind P _ _ (sentinels-Keeps P sid)
              (λ s. read_series-Keeps key info kind s.index_nc first last))

    pub read_object-Keeps :
        (sid : ℕ) (key : ℤ) (obj : FameObject) → Keeps P (read_object native numpy sid key obj)
    unfolding read_object
    read_object-Keeps sid key obj =
        Keeps-bind P _ _ (query_info-Keeps native P stable key obj.name) λ info.
          Keeps-bind P _ _ (Keeps-lift P _) λ _. Keeps-bind P _ _ (Keeps-raise_if P _ _) λ _.
            Keeps-bind P _ _ (sentinels-Keeps P sid) λ s.
              Keeps-bind P _ _ (Keeps-lift P _) λ c.
                Keeps-bind P _ _ (read_locked-Keeps sid key info c.0 c.1) (λ raw. Keeps-pure P _)

  skip-Keeps : Keeps P skip
  unfolding skip
  skip-Keeps = Keeps-pure P tt

  pub delete_or_ignore-Keeps :
      (missing_ok : Bool) (key : ℤ) (n : Bytes) → Keeps P (delete_or_ignore native missing_ok key n)
  unfolding delete_or_ignore delete_native
  delete_or_ignore-Keeps missing_ok key n =
      Keeps-catch P _ _
        (Keeps-bind P _ _ (Keeps-lift P _) λ m.
          Keeps-bind P _ _ (Keeps-lift P _) (λ k. call-Keeps native P stable (cfmdlob k m) refl))
        (λ e. Keeps-if P _ _ _ skip-Keeps (Keeps-raise P e))

  new_object-Keeps : (key : ℤ) (p : Plan) → Keeps P (new_object native key p)
  unfolding new_object
  new_object-Keeps key p = Keeps-bind P _ _ (Keeps-lift P _) λ m.
      Keeps-bind P _ _ (Keeps-lift P _) λ k. Keeps-bind P _ _ (Keeps-lift P _) λ c.
        Keeps-bind P _ _ (Keeps-lift P _) λ f. Keeps-bind P _ _ (Keeps-lift P _) λ t.
          Keeps-bind P _ _ (Keeps-lift P _) λ b.
            Keeps-bind P _ _ (Keeps-lift P _)
              (λ o. call-Keeps native P stable (cfmnwob k m c f t b o) refl)

  write_strings-Keeps :
      (key : ℤ) (n : Bytes) (range : Option Range) (values : List Bytes)
      → Keeps P (write_strings native key n range values)
  unfolding write_strings
  write_strings-Keeps key n range values = Keeps-bind P _ _ (Keeps-raise_if P _ _) λ _.
      Keeps-bind P _ _ (Keeps-raise_if P _ _) λ _. Keeps-bind P _ _ (Keeps-lift P _) λ r.
        Keeps-bind P _ _ (Keeps-lift P _) λ k.
          Keeps-bind P _ _ (Keeps-lift P _)
            (λ m. call-Keeps native P stable (fame_write_strings k m r values) refl)

  write_cells-Keeps :
      (key : ℤ) (n : Bytes) (range : Option Range) (t : ℤ) (cells : Cells)
      → Keeps P (write_cells native key n range t cells)
  unfolding write_cells
  write_cells-Keeps key n range t (precisions xs) =
      bulk-Keeps P native key n range _ _
        (λ k m. call-Keeps native P stable (fame_write_precisions k m range xs) refl)
  write_cells-Keeps key n range t (numerics xs) =
      bulk-Keeps P native key n range _ _
        (λ k m. call-Keeps native P stable (fame_write_numerics k m range xs) refl)
  write_cells-Keeps key n range t (booleans xs) =
      bulk-Keeps P native key n range _ _
        (λ k m. call-Keeps native P stable (fame_write_booleans k m range xs) refl)
  write_cells-Keeps key n range t (dates xs) = Keeps-bind P _ _ (Keeps-lift P _) λ d.
      bulk-Keeps P native key n range _ _
        (λ k m. call-Keeps native P stable (fame_write_dates k m range d xs) refl)

  write_values-Keeps :
      (key : ℤ) (n : Bytes) (range : Option Range) (t : ℤ) (p : Payload)
      → Keeps P (write_values native key n range t p)
  unfolding write_values write_namelist
  write_values-Keeps key n range t (namelist_text bs) = Keeps-bind P _ _ (Keeps-lift P _) λ m.
      Keeps-bind P _ _ (Keeps-lift P _) λ v.
        Keeps-bind P _ _ (Keeps-lift P _) (λ k. call-Keeps native P stable (cfmwtnl k m _ v) refl)
  write_values-Keeps key n range t (string_text bs) = write_strings-Keeps key n none (bs ∷ [])
  write_values-Keeps key n range t (string_texts bss) = write_strings-Keeps key n range bss
  write_values-Keeps key n range t (block cells) = write_cells-Keeps key n range t cells

  pub write_plan-Keeps :
      (replace : Bool) (p : Plan) (key : ℤ) → Keeps P (write_plan native replace p key)
  unfolding write_plan
  write_plan-Keeps replace p key =
      Keeps-bind P _ _ (Keeps-if P _ _ _ (delete_or_ignore-Keeps true key p.name') skip-Keeps) λ _.
        Keeps-bind P _ _ (new_object-Keeps key p) λ _.
          Keeps-if P _ _ _ skip-Keeps (write_values-Keeps key p.name' p.range p.type_code p.payload)
