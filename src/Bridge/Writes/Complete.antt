-- ===== src/Bridge/Writes/Complete.antt =====
-- Every value of a workspace that is written is reported.
use famepy.Prelude.{ℕ, ◌≡◌, refl, Bool, true, false, ◌&&◌, Option, List, [], ◌∷◌, ◌++◌, map}
use famepy.Errors.{Error, Result, ok, err}
use famepy.Native.{Native}
use famepy.World.{World}
use famepy.Exec.{Exec}
use famepy.Exec.Ends.{Ends}
use famepy.Text.{str}
use famepy.Database.{postdb, closedb}
use famepy.Data.{Numpy}
use famepy.Data.Carriers.{RawObject}
use famepy.Data.Writing.{write_raw}
use famepy.Data.Reading.Gives.{Gives}
use famepy.Bridge.Naming.{Str}
use famepy.Bridge.Workspaces.{ObjectFailure}
use famepy.Bridge.Flattening.{Container, flatten_names}
use famepy.Bridge.Writes.{
  Target, open_database, path, WriteReport, WriteOptions, object_failure, convert, any_written,
}

-- Named items of which each either gave a result or failed, in order: what `P` says of an item and
-- its result holds of each, and a failure has the name of its item.
pub data Dealt {A B : Type 0} (P : Str → A → Result B → Type 0)
    : List (Str × A) → List (Str × B) → List ObjectFailure → Type 0 where
  done : Dealt P [] [] []
  gave :
      (n : Str) (a : A) (b : B) {items : List (Str × A)} {results : List (Str × B)}
      {fs : List ObjectFailure}
      → P n a (ok b)
      → Dealt P items results fs
      → Dealt P ((n, a) ∷ items) ((n, b) ∷ results) fs
  failed :
      (n : Str) (a : A) (e : Error) {items : List (Str × A)} {results : List (Str × B)}
      {fs : List ObjectFailure}
      → P n a (err e)
      → Dealt P items results fs
      → Dealt P ((n, a) ∷ items) results (object_failure n e ∷ fs)

abbrev pub names : {A : Type 0} → List (Str × A) → List Str
names ps = map (λ p. p.0) ps

abbrev pub is_path : Target → Bool
is_path (open_database hid) = false
is_path (path p) = true

-- the handle of a target that is an open database
abbrev pub IsTarget : Target → ℕ → Type 0
IsTarget (open_database h) hid = h ≡ hid
IsTarget (path p) hid = Unit

-- the result that the validation and the conversion of a value gave
abbrev pub IsConversion :
    {V : Type 0}
    → (V → Result (Unit {0}))
    → (ℕ → V → Exec RawObject)
    → ℕ
    → Str
    → V
    → Result RawObject
    → Type 0
IsConversion validate to_fame session n v r =
    (before : World) × ((convert validate to_fame session v before).0 ≡ r)

-- the result that the write of an object gave
abbrev pub IsWrite :
    Native → Numpy → WriteOptions → ℕ → Str → RawObject → Result (Unit {0}) → Type 0
IsWrite native numpy opts hid n raw r =
    (before : World) × ((write_raw native numpy hid (str n) raw opts.replace opts.basis
        opts.observed before).0
      ≡ r)

-- the process after a database was posted and then closed, both without a failure of the post
abbrev pub IsPosted : Native → ℕ → World → Type 0
IsPosted native hid after =
    (before : World) × ((postdb native hid before).0 ≡ ok tt)
    × (after ≡ (closedb native hid (postdb native hid before).1).1)

module _ {V : Type 0} (validate : V → Result (Unit {0})) (to_fame : ℕ → V → Exec RawObject)
    (session : ℕ) where
  abbrev Conversions : List (Str × V) → List (Str × RawObject) × List ObjectFailure → World → Type 0
  Conversions flat p v = Dealt (IsConversion validate to_fame session) flat p.0 p.1

module _ (native : Native) (numpy : Numpy) (opts : WriteOptions) (hid : ℕ) where
  abbrev Writes : List (Str × RawObject) → List Str × List ObjectFailure → World → Type 0
  Writes raws p v =
      (written : List (Str × Unit {0})) × Dealt (IsWrite native numpy opts hid) raws written p.1
      × (names written ≡ p.0)

  -- the written objects, and that a report that says so was posted
  abbrev Written : Bool → List ObjectFailure → List (Str × RawObject) → WriteReport → World → Type 0
  Written owned fs raws report v =
      (written : List (Str × Unit {0})) × (later : List ObjectFailure) × Dealt
        (IsWrite native numpy opts hid) raws written later
      × (names written ≡ report.written)
      × (report.failures ≡ fs ++ later)
      × (report.posted ≡ (owned && any_written report.written))
      × (report.posted ≡ true
          → (u : World) × ((postdb native hid u).0 ≡ ok tt) × (v ≡ (postdb native hid u).1))

-- What a report says of the named values of a workspace: each was converted or failed, and each that
-- was converted was written or failed. It says that the database is posted where the target is a path and
-- something was written, and where it says so the last that was done is a post that went well and
-- the close.
pub record Reported {V : Type 0} (native : Native) (numpy : Numpy) (opts : WriteOptions)
    (validate : V → Result (Unit {0})) (to_fame : ℕ → V → Exec RawObject) (target : Target)
    (flat : List (Str × V)) (report : WriteReport) (after : World) : Type 0 where
  pub session : ℕ
  pub hid : ℕ
  pub converted : List (Str × RawObject)
  pub written : List (Str × Unit {0})
  pub unconverted : List ObjectFailure
  pub unwritten : List ObjectFailure
  pub in_target : IsTarget target hid
  pub conversions : Dealt (IsConversion validate to_fame session) flat converted unconverted
  pub writes : Dealt (IsWrite native numpy opts hid) converted written unwritten
  pub all_written : names written ≡ report.written
  pub all_failures : report.failures ≡ unconverted ++ unwritten
  pub posts : report.posted ≡ (is_path target && any_written report.written)
  pub posted_last : report.posted ≡ true → IsPosted native hid after

module _ {V : Type 0} (native : Native) (numpy : Numpy) (opts : WriteOptions)
    (validate : V → Result (Unit {0})) (to_fame : ℕ → V → Exec RawObject) where
  abbrev Reports : Target → List (Str × V) → WriteReport → World → Type 0
  Reports target flat = Reported native numpy opts validate to_fame target flat

  module _ (target : Target) (flat : List (Str × V)) (session : ℕ) (fs : List ObjectFailure) where
    in_target : (t : Target) → (hid : ℕ) × IsTarget t hid
    in_target (open_database h) = (h, refl)
    in_target (path p) = (0, tt)

  abbrev ReportsFlat : Target → List (Option (Container V)) → WriteReport → World → Type 0
  ReportsFlat target data' report after =
      (flat : List (Str × V)) × (flatten_names opts.prefix opts.glue data' ≡ ok flat)
      × Reported native numpy opts validate to_fame target flat report after
