-- ===== src/Runtime/Gate.antt =====
-- `operation` of src/famepy/_runtime.py: when a block runs, and that it is steady.
use famepy.Prelude.{
  ℕ, ◌≡◌, refl, inl, inr, true, ◌&&◌, Option, none, some, arith, ◌==◌, Option-cases, if◌then◌else◌,
}
use famepy.Errors.{Error, Hli, err, inherited_runtime, runtime_state}
use famepy.Native.{Native, cfmver}
use famepy.World.{World, Session, State, is_initialized, initialized}
use famepy.Exec.{actions, Exec, raise, catch, ◌>>=◌}
use famepy.Runtime.{
  attach_to, cached_version, check_process, check_not_inherited, session, read_extended_error,
  capture_failed, capture_extended_error, attach_extended_error, operation, version,
}
use famepy.Runtime.Steady.{
  IsLive, Steady, Steady-refl, Quiet, Quiet-pure, Quiet-raise, Quiet-lift, Quiet-gets, Quiet-if,
  Quiet-catch, Quiet-bind, Quiet-option, Quiet-skip, Quiet-raise_if, Quiet-session, Quiet-update,
  Quiet-call,
}

pub ruleset quiet_rules = (
  Quiet-pure, Quiet-raise, Quiet-lift, Quiet-gets, Quiet-if, Quiet-catch, Quiet-bind, Quiet-skip,
  Quiet-raise_if, Quiet-session, Quiet-skip, Quiet-update,
)

module _ (native : Native) (sid : ℕ) where
  read_extended_error-Quiet : Quiet sid (read_extended_error native)
  unfolding read_extended_error
  read_extended_error-Quiet = search (quiet_rules, Quiet-call) depth 12

  capture_failed-Quiet : (e : Error) → Quiet sid (capture_failed native sid e)
  unfolding capture_failed
  capture_failed-Quiet e = search quiet_rules

  pub capture-Quiet : Quiet sid (capture_extended_error native sid)
  unfolding capture_extended_error
  capture-Quiet = search (quiet_rules, read_extended_error-Quiet, capture_failed-Quiet) depth 12

  attach_to-Quiet :
      (s : Session) (e : Error) (o : Option Hli) → Quiet sid (attach_to native sid s e o)
  unfolding attach_to
  attach_to-Quiet s e none = search quiet_rules
  attach_to-Quiet s e (some h) = search (quiet_rules, capture-Quiet)

  pub attach-Quiet : (e : Error) → Quiet sid (attach_extended_error native sid e)
  unfolding attach_extended_error
  attach-Quiet e = search (quiet_rules, attach_to-Quiet)

-- Why an operation of the session is refused, if it is.
abbrev pub gate : ℕ → World → Option Error
gate sid w =
    if w.inherited
    then some inherited_runtime
    else if (w.sessions sid).pid == w.pid
    then (if is_initialized (w.sessions sid).state && (w.sessions sid).native
        then none
        else some runtime_state)
    else some inherited_runtime

initialized_of : (s : State) → is_initialized s ≡ true → s ≡ initialized
initialized_of initialized h = refl
initialized_of _ h = cc

pub gate-IsLive : (sid : ℕ) (w : World) → gate sid w ≡ none → IsLive sid w
gate-IsLive sid w h = record {
  active = initialized_of (w.sessions sid).state (ground arith);
  own = ground arith;
  fresh = ground arith;
}

module _ (native : Native) (sid : ℕ) {A : Type 0} (body : Exec A) where
  -- The block with the extended text attached to what it raises.
  abbrev pub guarded : Exec A
  guarded = catch body (λ e. attach_extended_error native sid e >>= raise)

  pub operation_lem :
      (w : World)
      → operation native sid body w ≡ elim (gate sid w) [ none ↦ guarded w | some e ↦ (err e, w) ]
  unfolding actions operation check_process check_not_inherited session
  operation_lem w = ground arith

  guarded-Quiet : Quiet sid body → Quiet sid guarded
  guarded-Quiet q = Quiet-catch sid _ _ q (λ e. search (quiet_rules, attach-Quiet))

  pub operation-Steady : Quiet sid body → (w : World) → Steady w (operation native sid body w).1
  operation-Steady q w = elim (Option-cases (gate sid w)) [
    | inl open' ↦ rw (operation_lem, open') ((guarded-Quiet q).at w (gate-IsLive sid w open'))
    | inr (e, shut) ↦ rw (operation_lem, shut) (Steady-refl w)
  ]

module _ (native : Native) (sid : ℕ) where
  cached_version-Quiet : (o : Option ℕ) → Quiet sid (cached_version native sid o)
  unfolding cached_version
  cached_version-Quiet (some v) = Quiet-pure sid v
  cached_version-Quiet none = Quiet-bind sid _ _ (Quiet-call native sid cfmver refl) λ v.
      Quiet-bind sid _ _ (Quiet-update sid sid _ (λ x. refl) (λ x. refl) (λ x. refl))
        λ _. Quiet-pure sid v

  pub version-Still : (w : World) → Steady w (version native sid w).1
  unfolding version
  version-Still =
      operation-Steady native sid _
        (Quiet-bind sid _ _ (Quiet-session sid sid) (λ s. cached_version-Quiet s.version))
