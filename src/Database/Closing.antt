-- ===== src/Database/Closing.antt =====
-- What `is_open`, `closedb` and the operations of a closed handle do.
use famepy.Prelude.{
  subst, ℕ, ℤ, pos, ◌≡◌, refl, ◌∙◌, sym, Bool, true, false, none, arith, ==_iff, Bool-cases, inl,
  inr, if◌then◌else◌,
}
use famepy.Errors.{Error, Result, ok, err, check_status, stale_handle}
use famepy.Native.{Native, cfmcldb, returned}
use famepy.World.{World, Handle, put_session, put_handle}
use famepy.Exec.{actions, Exec, pure, raise, lift, skip, ◌>>=◌}
use famepy.Runtime.{update, int32, operation, attach_extended_error}
use famepy.Runtime.Gate.{gate}
use famepy.Runtime.Keeps.{Stable, captured_lem, attach-Keeps}
use famepy.Runtime.Hoare.{Post, Leads, Leads-bind, Leads-raise}
use famepy.Runtime.Returns.{bind-ok, bind-err, called, call-err, operation-ok, operation-err}
use famepy.Runtime.Lifecycle.{invalidate, close_database}
use famepy.Database.{
  dict_pop, is_handle, handle_open, handle_stale, check_open, db_operation, forget, unregister,
  close_handle, closedb,
}

check_open_lem :
    (hid : ℕ) (w : World)
    → check_open hid w
      ≡ (if handle_open w hid then (ok (w.handles hid), w) else (err stale_handle, w))
unfolding actions check_open
check_open_lem hid w = ground arith

module _ (native : Native) {A : Type 0} (hid : ℕ) (body : ℤ → Exec A) where
  -- An operation of a handle runs in the handle's session, over its key, exactly when `is_open`
  -- says that the handle is open; else it raises the error of a stale handle and changes nothing.
  pub db_operation-is_open :
      (w : World)
      → db_operation native hid body w ≡ (
          if handle_open w hid
          then operation native (w.handles hid).session (body (w.handles hid).key) w
          else (err stale_handle, w))
  unfolding db_operation
  db_operation-is_open w = elim (Bool-cases (handle_open w hid)) [
    | inl yes' ↦ rw yes' (
        bind-ok (check_open hid) (λ (h : Handle). operation native h.session (body h.key)) {w' = w}
          {a = w.handles hid} (check_open_lem hid w ∙ rw yes' refl))
    | inr no' ↦ rw no' (
        bind-err (check_open hid) (λ (h : Handle). operation native h.session (body h.key)) {w' = w}
          {x = stale_handle} (check_open_lem hid w ∙ rw no' refl))
  ]

-- the world in which a handle is closed and forgotten
abbrev pub closed : ℕ → World → World
closed hid w =
    let h = w.handles hid in
    let w' = put_handle hid (record h { is_open = false }) w in
    let s = w.sessions h.session in
    put_session h.session
      (record s {
        databases = dict_pop h.key s.databases;
        work = if is_handle hid s.work then none else s.work;
      })
      w'

module _ (native : Native) (hid : ℕ) where
  forget_lem : (w : World) → forget native hid (w.handles hid) w ≡ (ok tt, closed hid w)
  unfolding actions forget invalidate unregister update
  forget_lem w = refl

  closedb_cases :
      (w : World)
      → closedb native hid w
        ≡ close_handle native hid (w.handles hid) (w.handles hid).is_open (handle_stale w hid) w
  unfolding actions closedb
  closedb_cases w = refl

  -- `closedb` of a handle that is marked closed does nothing, and of a handle whose runtime is
  -- gone it forgets the handle without a native call.
  pub closedb-stale :
      (w : World)
      → handle_open w hid ≡ false
      → closedb native hid w ≡ (ok tt, if (w.handles hid).is_open then closed hid w else w)
  unfolding close_handle skip pure
  closedb-stale w e = closedb_cases w ∙ go (w.handles hid).is_open refl
    where
      go :
          (b : Bool)
          → (w.handles hid).is_open ≡ b
          → close_handle native hid (w.handles hid) b (handle_stale w hid) w
            ≡ (ok tt, if b then closed hid w else w)
      go false h = refl
      go true h = rw stale (forget_lem w)
        where
          stale : handle_stale w hid ≡ true
          stale = ground arith

  close_database-ok :
      (key : ℤ) (w : World)
      → int32 key ≡ ok key
      → native.respond w.calls (cfmcldb key) ≡ returned (pos 0) tt
      → close_database native key w ≡ (ok tt, called (cfmcldb key) w)
  unfolding actions close_database check_status
  close_database-ok key w a b = rw (a, b)

  close_database-err :
      (key status : ℤ) (x : Error) (w : World)
      → int32 key ≡ ok key
      → native.respond w.calls (cfmcldb key) ≡ returned status tt
      → check_status status ≡ err x
      → close_database native key w ≡ (err x, called (cfmcldb key) w)
  unfolding close_database
  close_database-err key status x w a b c =
      bind-ok (lift (int32 key)) _ {w' = w} {a = key} (unfold lift in rw a refl)
      ∙ call-err native (cfmcldb key) w b c

  open_parts :
      (w : World)
      → handle_open w hid ≡ true
      → ((w.handles hid).is_open ≡ true) × (handle_stale w hid ≡ false)
  open_parts w e = (ground arith, ground arith)

  live_cases :
      (w : World)
      → handle_open w hid ≡ true
      → closedb native hid w ≡ close_handle native hid (w.handles hid) true false w
  live_cases w e = closedb_cases w ∙ rw ((open_parts w e).0, (open_parts w e).1) refl

  -- Where the handle is open, the session is live and the native close succeeds, `closedb` makes
  -- that one call and leaves the handle closed and out of the session's records. A second
  -- `closedb` then makes no call and changes nothing.
  pub closedb-closed :
      (w : World)
      → handle_open w hid ≡ true
      → gate (w.handles hid).session w ≡ none
      → int32 (w.handles hid).key ≡ ok (w.handles hid).key
      → native.respond w.calls (cfmcldb (w.handles hid).key) ≡ returned (pos 0) tt
      → let w' = closed hid (called (cfmcldb (w.handles hid).key) w) in
        (closedb native hid w ≡ (ok tt, w'))
        × (handle_open w' hid ≡ false)
        × (closedb native hid w' ≡ (ok tt, w'))
  unfolding close_handle
  closedb-closed w o g k r = (
    live_cases w o
        ∙ bind-ok (operation native h.session (close_database native h.key)) _
            (operation-ok native h.session _ g (close_database-ok h.key w k r))
        ∙ forget_lem w',
    shut,
    closedb-stale (closed hid w') shut ∙ rw marked refl,
  )
    where
      h : Handle
      h = w.handles hid

      w' : World
      w' = called (cfmcldb h.key) w

      marked : ((closed hid w').handles hid).is_open ≡ false
      marked = rw ((==_iff hid hid).1 refl) refl

      shut : handle_open (closed hid w') hid ≡ false
      shut = rw marked refl

-- what a failed close may not touch
pub record Tracked (w w' : World) : Type 0 where
  pub handles : w'.handles ≡ w.handles
  pub databases : (s : ℕ) → (w'.sessions s).databases ≡ (w.sessions s).databases
  pub work : (s : ℕ) → (w'.sessions s).work ≡ (w.sessions s).work
  pub generations : (s : ℕ) → (w'.sessions s).generation ≡ (w.sessions s).generation
  pub states : (s : ℕ) → (w'.sessions s).state ≡ (w.sessions s).state

pub Tracked-Stable : (w : World) → Stable (Tracked w)
Tracked-Stable w = record {
  calls = λ c q v h. record {
    handles = h.handles;
    databases = h.databases;
    work = h.work;
    generations = h.generations;
    states = h.states;
  };
  texts = λ sid t f v h. record {
    handles = h.handles;
    databases = λ s. captured_lem (λ x. x.databases) sid s v t f (λ y. refl) ∙ h.databases s;
    work = λ s. captured_lem (λ x. x.work) sid s v t f (λ y. refl) ∙ h.work s;
    generations = λ s. captured_lem (λ x. x.generation) sid s v t f (λ y. refl) ∙ h.generations s;
    states = λ s. captured_lem (λ x. x.state) sid s v t f (λ y. refl) ∙ h.states s;
  };
}

pub Tracked-refl : (w : World) → Tracked w w
Tracked-refl w = record {
  handles = refl;
  databases = λ s. refl;
  work = λ s. refl;
  generations = λ s. refl;
  states = λ s. refl;
}

-- What only raises ends with an error.
raised_of :
    {A : Type 0} (E : World → Type 0) (p : Result A × World)
    → Post p (λ _. ⊥) E
    → ((e : Error) × (p ≡ (err e, p.1))) × E p.1
raised_of E (ok a, w) h = absurd h
raised_of E (err e, w) h = ((e, refl), h)

Tracked-open :
    (hid : ℕ) (w w' : World) → Tracked w w' → handle_open w hid ≡ true → handle_open w' hid ≡ true
Tracked-open hid w w' t o =
    rw (t.handles, t.generations (w.handles hid).session, t.states (w.handles hid).session) o

module _ (native : Native) (hid : ℕ) where
  -- Where the native close of an open handle fails, `closedb` raises an error, and the handle is
  -- still open and still in the session's records, whatever the capture of the extended error
  -- text does.
  pub closedb_failed-open :
      (w : World) (status : ℤ) (x : Error)
      → handle_open w hid ≡ true
      → gate (w.handles hid).session w ≡ none
      → int32 (w.handles hid).key ≡ ok (w.handles hid).key
      → native.respond w.calls (cfmcldb (w.handles hid).key) ≡ returned status tt
      → check_status status ≡ err x
      → let (r, w') = closedb native hid w in
        ((e : Error) × (r ≡ err e)) × Tracked w w' × (handle_open w' hid ≡ true)
  unfolding close_handle
  closedb_failed-open w status x o g k r c =
      subst
        (λ (p : Result Unit × World).
          ((e : Error) × (p.0 ≡ err e)) × Tracked w p.1 × (handle_open p.1 hid ≡ true))
        (sym computed) ((failed.0.0, refl), tracked, Tracked-open hid w _ tracked o)
    where
      h : Handle
      h = w.handles hid

      m : Exec Unit
      m = attach_extended_error native h.session x >>= raise

      w' : World
      w' = called (cfmcldb h.key) w

      leads : Leads (Tracked w) m (λ _. ⊥) (Tracked w)
      leads =
          Leads-bind (Tracked w) (Tracked w) (λ _. ⊥) (Tracked w) _ _
            (attach-Keeps native (Tracked w) (Tracked-Stable w) h.session x)
            (λ e. Leads-raise (Tracked w) (λ _. ⊥) (Tracked w) e (λ v t. t))

      failed : ((e : Error) × (m w' ≡ (err e, (m w').1))) × Tracked w (m w').1
      failed =
          raised_of (Tracked w) (m w')
            (leads.at w' ((Tracked-Stable w).calls (cfmcldb h.key) refl w (Tracked-refl w)))

      tracked : Tracked w (m w').1
      tracked = failed.1

      computed : closedb native hid w ≡ (err failed.0.0, (m w').1)
      computed =
          live_cases native hid w o
          ∙ bind-err (operation native h.session (close_database native h.key)) _ (
              operation-err native h.session _ g
                (close_database-err native hid h.key status x w k r c)
              ∙ failed.0.1)
