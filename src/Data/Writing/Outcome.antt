-- ===== src/Data/Writing/Outcome.antt =====
-- What a write does for every status of its calls.
use famepy.Prelude.{
  ◌^◌, ℤ, fits, ◌≡◌, refl, ◌∙◌, ap, Bytes, Bool, true, false, ◌&&◌, Option, none, [], ◌∷◌,
  if◌then◌else◌,
}
use famepy.Errors.{Result, ok, err, check_status}
use famepy.Native.{
  Native, Range, Call, Reply, returned, cfmnwob, cfmdlob, fame_write_precisions,
  fame_write_numerics, fame_write_booleans, fame_write_dates, fame_write_strings, cfmwtnl,
}
use famepy.World.{World, AccessMode}
use famepy.Exec.{actions, Exec, raise, catch, skip, call, checked, ◌>>=◌, ◌>>◌}
use famepy.Text.{Text}
use famepy.Constants.{CodeArg}
use famepy.Runtime.Returns.{called, call_lem, bind-ok, bind-err, catch-ok, catch-err}
use famepy.Objects.{and_then}
use famepy.Data.{Numpy, precisions, numerics, booleans, dates}
use famepy.Data.Carriers.{RawObject, Payload, block, namelist_text, string_text, string_texts}
use famepy.Data.Buffers.{namelist_all}
use famepy.Data.Writing.{Plan, plan_of, is_hnoobj, write_plan}
use famepy.Data.Writing.Bare.{
  Ready, bare_payload, bare_delete, bare_create, bare_write, write_plan-bare,
}
use famepy.Data.Writing.Ready.{FitsType, plan_of-Ready}
use famepy.Data.Results.{lift-bind, int32-ok}

-- the call that creates the object of a plan, and the one that writes its data
abbrev pub creation : ℤ → Plan → Call
creation k p = cfmnwob k p.name' p.class_code p.frequency p.type_code p.basis p.observed

abbrev pub payload_call : ℤ → Bytes → Option Range → ℤ → Payload → Call
payload_call k n range t (namelist_text bs) = cfmwtnl k n namelist_all bs
payload_call k n range t (string_text bs) = fame_write_strings k n none (bs ∷ [])
payload_call k n range t (string_texts bss) = fame_write_strings k n range bss
payload_call k n range t (block (precisions xs)) = fame_write_precisions k n range xs
payload_call k n range t (block (numerics xs)) = fame_write_numerics k n range xs
payload_call k n range t (block (booleans xs)) = fame_write_booleans k n range xs
payload_call k n range t (block (dates xs)) = fame_write_dates k n range t xs

abbrev pub data_call : ℤ → Plan → Call
data_call k p = payload_call k p.name' p.range p.type_code p.payload

-- a failed deletion counts for nothing if the object was absent
abbrev pub tolerated : Result (Unit {0}) → Result (Unit {0})
tolerated (ok u) = ok u
tolerated (err e) = if is_hnoobj e then ok tt else err e

-- The outcome by those of the three calls; the last is not made for an empty series.
abbrev pub outcome :
    Bool → Bool → Result (Unit {0}) → Result (Unit {0}) → Result (Unit {0}) → Result (Unit {0})
outcome replace empty' r1 r2 r3 =
    and_then (if replace then tolerated r1 else ok tt)
      λ _. and_then r2 λ _. if empty' then ok tt else r3

abbrev pub deleted : Bool → ℤ → Plan → World → World
deleted replace k p w = if replace then called (cfmdlob k p.name') w else w

abbrev on_ok : Result (Unit {0}) → World → World → World
on_ok (ok u) w w' = w
on_ok (err e) w w' = w'

-- the calls that were made: each after those before it went well
abbrev pub made : Bool → ℤ → Plan → Result (Unit {0}) → Result (Unit {0}) → World → World
made replace k p r1 r2 w =
    let w1 = deleted replace k p w in
    let w2 = called (creation k p) w1 in
    on_ok (if replace then tolerated r1 else ok tt)
      (on_ok r2 (if p.is_empty then w2 else called (data_call k p) w2) w2) w1

checked_status : (s : ℤ) → checked (s, tt) ≡ check_status s
checked_status s = go (check_status s)
  where
    go : (r : Result (Unit {0})) → elim r [ ok _ ↦ ok tt | err e ↦ err e ] ≡ r
    go (ok u) = refl
    go (err e) = refl

settled :
    (s : ℤ) (w : World)
    → ◌≡◌ {A = Result (Unit {0}) × World} (checked (s, tt), w) (check_status s, w)
settled s w = ap (λ r. (r, w)) (checked_status s)

module _ (native : Native) (k : ℤ) where
  payload_lem :
      (n : Bytes) (range : Option Range) (t : ℤ) (p : Payload) (s : ℤ)
      (a : Reply (payload_call k n range t p)) (w : World)
      → native.respond w.calls (payload_call k n range t p) ≡ returned s a
      → bare_payload native k n range t p w
        ≡ (check_status s, called (payload_call k n range t p) w)
  unfolding bare_payload
  payload_lem n range t (namelist_text bs) s a w e =
      call_lem native (payload_call k n range t (namelist_text bs)) w s a e ∙ settled s _
  payload_lem n range t (string_text bs) s a w e =
      call_lem native (payload_call k n range t (string_text bs)) w s a e ∙ settled s _
  payload_lem n range t (string_texts bss) s a w e =
      call_lem native (payload_call k n range t (string_texts bss)) w s a e ∙ settled s _
  payload_lem n range t (block (precisions xs)) s a w e =
      call_lem native (payload_call k n range t (block (precisions xs))) w s a e ∙ settled s _
  payload_lem n range t (block (numerics xs)) s a w e =
      call_lem native (payload_call k n range t (block (numerics xs))) w s a e ∙ settled s _
  payload_lem n range t (block (booleans xs)) s a w e =
      call_lem native (payload_call k n range t (block (booleans xs))) w s a e ∙ settled s _
  payload_lem n range t (block (dates xs)) s a w e =
      call_lem native (payload_call k n range t (block (dates xs))) w s a e ∙ settled s _

  delete_lem :
      (n : Bytes) (s : ℤ) (w : World)
      → native.respond w.calls (cfmdlob k n) ≡ returned s tt
      → bare_delete native true k n w ≡ (tolerated (check_status s), called (cfmdlob k n) w)
  unfolding bare_delete
  delete_lem n s w e = go (check_status s) (call_lem native (cfmdlob k n) w s tt e ∙ settled s _)
    where
      go :
          (r : Result (Unit {0}))
          → call native (cfmdlob k n) w ≡ (r, called (cfmdlob k n) w)
          → catch (call native (cfmdlob k n)) (λ e. if true && is_hnoobj e then skip else raise e) w
            ≡ (tolerated r, called (cfmdlob k n) w)
      go (ok u) q = catch-ok _ _ q
      go (err x) q = catch-err _ _ q ∙ handled (is_hnoobj x)
        where
          handled :
              (b : Bool)
              → (if b then skip else raise x) (called (cfmdlob k n) w)
                ≡ (if b then ok tt else err x, called (cfmdlob k n) w)
          handled true = unfold skip famepy.Exec.pure in refl
          handled false = unfold raise in refl

  -- one action after another, by the outcome of the first
  sequence_lem :
      (m n : Exec Unit) (w w' : World) (r r' : Result (Unit {0})) (w'' : World)
      → m w ≡ (r, w')
      → n w' ≡ (r', w'')
      → (m >> n) w ≡ (and_then r (λ _. r'), on_ok r w'' w')
  sequence_lem m n w w' (ok tt) r' w'' e f = bind-ok m (λ _. n) e ∙ f
  sequence_lem m n w w' (err x) r' w'' e f = bind-err m (λ _. n) e

  skip_lem : (w : World) → skip w ≡ (ok tt, w)
  skip_lem w = unfold skip famepy.Exec.pure in refl

  module _ (p : Plan) (ready : Ready p) (fit : fits (2 ^ 31) k ≡ true) where
    data_lem :
        (s : ℤ) (a : Reply (data_call k p)) (w : World)
        → native.respond w.calls (data_call k p) ≡ returned s a
        → (if p.is_empty then skip else bare_payload native k p.name' p.range p.type_code p.payload)
            w
          ≡ (
            if p.is_empty then ok tt else check_status s,
            if p.is_empty then w else called (data_call k p) w,
          )
    data_lem s a w e = pick p.is_empty
      where
        pick :
            (b : Bool)
            → (if b then skip else bare_payload native k p.name' p.range p.type_code p.payload) w
              ≡ (if b then ok tt else check_status s, if b then w else called (data_call k p) w)
        pick true = skip_lem w
        pick false = payload_lem p.name' p.range p.type_code p.payload s a w e

    deleted_lem :
        (replace : Bool) (s : ℤ) (w : World)
        → native.respond w.calls (cfmdlob k p.name') ≡ returned s tt
        → (if replace then bare_delete native true k p.name' else skip) w
          ≡ (if replace then tolerated (check_status s) else ok tt, deleted replace k p w)
    deleted_lem true s w e = delete_lem p.name' s w e
    deleted_lem false s w e = skip_lem w

    ready-outcome :
        (replace : Bool) (s1 s2 s3 : ℤ) (a : Reply (data_call k p)) (w : World)
        → native.respond w.calls (cfmdlob k p.name') ≡ returned s1 tt
        → native.respond (deleted replace k p w).calls (creation k p) ≡ returned s2 tt
        → native.respond (called (creation k p) (deleted replace k p w)).calls (data_call k p)
          ≡ returned s3 a
        → write_plan native replace p k w ≡ (
          outcome replace p.is_empty (check_status s1) (check_status s2) (check_status s3),
          made replace k p (check_status s1) (check_status s2) w,
        )
    unfolding bare_write bare_create
    ready-outcome replace s1 s2 s3 a w e1 e2 e3 =
        ap (λ m. m w) (write_plan-bare native p ready replace k ∙ lift-bind _ (int32-ok k fit))
        ∙ sequence_lem _ _ w _ _ _ _ (deleted_lem replace s1 w e1) (
            sequence_lem _ _ _ _ _ _ _
              (call_lem native (creation k p) (deleted replace k p w) s2 tt e2 ∙ settled s2 _)
              (data_lem s3 a (called (creation k p) (deleted replace k p w)) e3))

-- A write deletes the old object if it is to replace it, creates the new one and writes its data
-- if it has any: each where the steps before went well, and an absent old object counts as a
-- deletion. The first failure is what it raises, and no other call is made, for every carrier with
-- a 32-bit type, every plan of it and every 32-bit key.
pub write_plan-outcome :
    (native : Native) (numpy : Numpy) (mode : AccessMode) (n : Text) (obj : RawObject)
    (basis observed : Option CodeArg) (p : Plan) (k : ℤ) (replace : Bool) (s1 s2 s3 : ℤ)
    (a : Reply (data_call k p)) (w : World)
    → FitsType obj
    → plan_of numpy mode n obj basis observed ≡ ok p
    → fits (2 ^ 31) k ≡ true
    → native.respond w.calls (cfmdlob k p.name') ≡ returned s1 tt
    → native.respond (deleted replace k p w).calls (creation k p) ≡ returned s2 tt
    → native.respond (called (creation k p) (deleted replace k p w)).calls (data_call k p)
      ≡ returned s3 a
    → write_plan native replace p k w ≡ (
      outcome replace p.is_empty (check_status s1) (check_status s2) (check_status s3),
      made replace k p (check_status s1) (check_status s2) w,
    )
write_plan-outcome native numpy mode n obj basis observed p k replace s1 s2 s3 a w t e fit =
    ready-outcome native k p (plan_of-Ready numpy mode n obj basis observed p t e) fit replace s1 s2
      s3 a w
