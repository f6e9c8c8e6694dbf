-- ===== src/Runtime/Keeps.antt =====
-- Conditions on the process that native calls and the capture of extended errors leave alone, and
-- the actions that keep such a condition whether they return or raise.
pub mod Steadily
use famepy.Prelude.{
  ◌≡◌, refl, ◌∙◌, ap, ◌==◌, ==_iff, ℕ, ℤ, Bool, true, false, Option, none, some, Bytes,
  if◌then◌else◌,
}
use famepy.Errors.{Error, Hli, Result, ok, err}
use famepy.Native.{Native, Call, Reply, cfmlerr, cfmferr}
use famepy.World.{World, Session, put_session}
use famepy.Exec.{
  Exec, pure, raise, lift, gets, modify, catch, raise_if, checked, answer, call_status, call, ◌>>=◌,
}
use famepy.Runtime.{
  check_process, check_not_inherited, operation, session, update, read_extended_error,
  capture_failed, capture_extended_error, attach_to, attach_extended_error,
}
use famepy.Runtime.Steady.{is_lifecycle}
use famepy.Runtime.Returns.{called}
use famepy.Runtime.Hoare.{Post, Leads, Leads-bind, Leads-catch, Leads-pure, Leads-raise}

-- the world in which an extended error text was captured, or was not
abbrev pub captured : ℕ → Option Bytes → Option Error → World → World
captured sid t f w =
    put_session sid (record (w.sessions sid) { last_extended_error = t; capture_failure = f }) w

-- A field that is no part of the captured text stays as it is.
pub captured_lem :
    {A : Type 0} (p : Session → A) (sid s : ℕ) (w : World) (t : Option Bytes) (f : Option Error)
    → ((y : Session) → p (record y { last_extended_error = t; capture_failure = f }) ≡ p y)
    → p ((captured sid t f w).sessions s) ≡ p (w.sessions s)
captured_lem p sid s w t f h = pick (sid == s) refl
  where
    pick :
        (b : Bool)
        → (sid == s) ≡ b
        → p (
            if b
            then record (w.sessions sid) { last_extended_error = t; capture_failure = f }
            else w.sessions s)
          ≡ p (w.sessions s)
    pick false e = refl
    pick true e = h (w.sessions sid) ∙ ap (λ n. p (w.sessions n)) ((==_iff sid s).0 e)

pub record Stable (P : World → Type 0) : Type 0 where
  pub calls : (c : Call) → is_lifecycle c ≡ false → (w : World) → P w → P (called c w)
  pub texts :
      (sid : ℕ) (t : Option Bytes) (f : Option Error) (w : World) → P w → P (captured sid t f w)

abbrev pub Keeps : {A : Type 0} → (World → Type 0) → Exec A → Type 0
Keeps P m = Leads P m P P

-- a condition on both outcomes holds of the state that is left
pub Post-both : {A : Type 0} (P : World → Type 0) (p : Result A × World) → Post p P P → P p.1
Post-both P (ok a, w) h = h
Post-both P (err e, w) h = h

module _ (P : World → Type 0) where
  pub Keeps-pure : {A : Type 0} (a : A) → Keeps P (pure a)
  Keeps-pure a = Leads-pure P P P a (λ w h. h)

  pub Keeps-raise : {A : Type 0} (e : Error) → Keeps P (raise {A = A} e)
  Keeps-raise e = Leads-raise P P P e (λ w h. h)

  pub Keeps-lift : {A : Type 0} (r : Result A) → Keeps P (lift r)
  unfolding lift
  Keeps-lift (ok a) = record { at = λ w h. h }
  Keeps-lift (err e) = record { at = λ w h. h }

  pub Keeps-gets : {A : Type 0} (f : World → A) → Keeps P (gets f)
  unfolding gets
  Keeps-gets f = record { at = λ w h. h }

  pub Keeps-session : (sid : ℕ) → Keeps P (session sid)
  unfolding session
  Keeps-session sid = Keeps-gets (λ w. w.sessions sid)

  pub Keeps-raise_if : (b : Bool) (e : Error) → Keeps P (raise_if b e)
  unfolding raise_if
  Keeps-raise_if true e = Keeps-raise e
  Keeps-raise_if false e = Keeps-pure tt

  pub Keeps-if :
      {A : Type 0} (b : Bool) (m n : Exec A) → Keeps P m → Keeps P n → Keeps P (if b then m else n)
  Keeps-if true m n h k = h
  Keeps-if false m n h k = k

  pub Keeps-bind :
      {A B : Type 0} (m : Exec A) (f : A → Exec B)
      → Keeps P m
      → ((a : A) → Keeps P (f a))
      → Keeps P (m >>= f)
  Keeps-bind m f h k = Leads-bind P P P P m f h k

  pub Keeps-catch :
      {A : Type 0} (m : Exec A) (f : Error → Exec A)
      → Keeps P m
      → ((e : Error) → Keeps P (f e))
      → Keeps P (catch m f)
  Keeps-catch m f h k = Leads-catch P P P P m f h k

module _ (native : Native) (P : World → Type 0) (stable : Stable P) where
  pub call_status-Keeps : (c : Call) → is_lifecycle c ≡ false → Keeps P (call_status native c)
  unfolding call_status
  call_status-Keeps c q = record {
    at = λ w h. go (answer (native.respond w.calls c)) w (stable.calls c q w h);
  }
    where
      go : (r : Result (ℤ × Reply c)) (w : World) → P (called c w) → Post (r, called c w) P P
      go (ok a) w h = h
      go (err e) w h = h

  pub call-Keeps : (c : Call) → is_lifecycle c ≡ false → Keeps P (call native c)
  unfolding call
  call-Keeps c q = Keeps-bind P _ _ (call_status-Keeps c q) (λ r. Keeps-lift P (checked r))

  captured-Keeps :
      (sid : ℕ) (t : Option Bytes) (f : Option Error)
      → Keeps P (update sid (λ s. record s { last_extended_error = t; capture_failure = f }))
  unfolding update modify
  captured-Keeps sid t f = record { at = λ w h. stable.texts sid t f w h }

  read_extended_error-Keeps : Keeps P (read_extended_error native)
  unfolding read_extended_error
  read_extended_error-Keeps = Keeps-bind P _ _ (call-Keeps cfmlerr refl) λ length.
      Keeps-bind P _ _ (Keeps-raise_if P _ _)
        λ _. Keeps-bind P _ _ (call-Keeps (cfmferr length) refl) (λ buffer. Keeps-pure P _)

  capture_failed-Keeps : (sid : ℕ) (e : Error) → Keeps P (capture_failed native sid e)
  unfolding capture_failed
  capture_failed-Keeps sid e =
      Keeps-if P _ _ _
        (Keeps-bind P _ _ (captured-Keeps sid none (some e)) (λ _. Keeps-pure P none))
        (Keeps-raise P e)

  pub capture-Keeps : (sid : ℕ) → Keeps P (capture_extended_error native sid)
  unfolding capture_extended_error
  capture-Keeps sid = Keeps-bind P _ _ (Keeps-session P sid) λ s.
      Keeps-if P _ _ _ (Keeps-pure P none) (
        Keeps-catch P _ _
          (Keeps-bind P _ _ read_extended_error-Keeps
            λ text. Keeps-bind P _ _ (captured-Keeps sid (some text) none) (λ _. Keeps-pure P _))
          (capture_failed-Keeps sid))

  attach_to-Keeps :
      (sid : ℕ) (s : Session) (e : Error) (o : Option Hli) → Keeps P (attach_to native sid s e o)
  unfolding attach_to
  attach_to-Keeps sid s e none = Keeps-pure P e
  attach_to-Keeps sid s e (some h) =
      Keeps-if P _ _ _ (Keeps-pure P e)
        (Keeps-bind P _ _ (capture-Keeps sid) (λ text. Keeps-pure P _))

  pub attach-Keeps : (sid : ℕ) (e : Error) → Keeps P (attach_extended_error native sid e)
  unfolding attach_extended_error
  attach-Keeps sid e = Keeps-bind P _ _ (Keeps-session P sid) (λ s. attach_to-Keeps sid s e _)

  check_process-Keeps : (sid : ℕ) → Keeps P (check_process sid)
  unfolding check_process check_not_inherited
  check_process-Keeps sid =
      Keeps-bind P _ _ (Keeps-bind P _ _ (Keeps-gets P _) (λ b. Keeps-raise_if P b _)) λ _.
        Keeps-bind P _ _ (Keeps-session P sid)
          λ s. Keeps-bind P _ _ (Keeps-gets P _) (λ pid. Keeps-raise_if P _ _)

  pub operation-Keeps :
      {A : Type 0} (sid : ℕ) (body : Exec A) → Keeps P body → Keeps P (operation native sid body)
  unfolding operation
  operation-Keeps sid body k = Keeps-bind P _ _ (check_process-Keeps sid) λ _.
      Keeps-bind P _ _ (Keeps-session P sid) λ s. Keeps-bind P _ _ (Keeps-raise_if P _ _) λ _.
        Keeps-catch P _ _ k (λ e. Keeps-bind P _ _ (attach-Keeps sid e) (λ e'. Keeps-raise P e'))
