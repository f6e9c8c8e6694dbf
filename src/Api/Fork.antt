-- ===== src/Api/Fork.antt =====
-- A forked child of a process that had loaded or used the library makes no native call.
use famepy.Prelude.{
  ℕ, ◌≡◌, refl, sym, subst, ◌∙◌, ◌⊎◌, inl, inr, Bool, true, not, ◌&&◌, Option, none, some, Bytes,
  List, [], ◌∷◌, arith, ltb, Bool-cases, if◌then◌else◌,
}
use famepy.Errors.{Result, err, inherited_runtime}
use famepy.Native.{Native}
use famepy.World.{World}
use famepy.Exec.{Exec, actions}
use famepy.Runtime.{
  add_session, new_session, load, after_fork, check_not_inherited, enable_extended_errors, update,
}
use famepy.Runtime.Lifecycle.{initialize, finalize}
use famepy.Runtime.Process.{default_session, init_chli, close_chli, finalize_owner}
use famepy.Runtime.Steady.{Steady, Talked}
use famepy.Runtime.Gate.{version-Still}
use famepy.Runtime.Still.{process_gate, check_process-bind}
use famepy.Database.Steady.{opendb-Still, workdb-Still, postdb-Still, closedb-Still}
use famepy.Api.Clients.{
  quick_info-Still, listdb-Still, fame-Still, do_read-Still, do_write-Still, delete_object-Still,
}
use famepy.Api.Operations.{Op}
use famepy.Api.{step, run}

-- Nothing was called, and the process is still marked as a child.
pub record Silent (w w' : World) : Type 0 where
  pub calls : w'.calls ≡ w.calls
  pub marked : w'.inherited ≡ true

Steady-Silent : {w w' : World} → w.inherited ≡ true → Steady w w' → Silent w w'
Steady-Silent {w} {w'} h st = record { calls = talk st.talked; marked = st.inherited ∙ h }
  where
    talk : Talked w w' → w'.calls ≡ w.calls
    talk (inl e) = e
    talk (inr (sid, live, ext)) = cc (live.fresh, h)

module _ (w : World) (h : w.inherited ≡ true) where
  unchanged : Silent w w
  unchanged = record { calls = refl; marked = h }

  new_session-Silent :
      (c i : Bool) (env : Option (Option Bytes)) (r : Option Bool)
      → Silent w (new_session c i env r w).1
  unfolding new_session add_session actions
  new_session-Silent c i env r = elim (Bool-cases (not c && not i)) [
    | inl e ↦ rw e unchanged
    | inr e ↦ rw e (record { calls = refl; marked = h })
  ]

  gate_shut : (sid : ℕ) → process_gate sid w ≡ err inherited_runtime
  gate_shut sid = rw h

  load_refused : (native : Native) (sid : ℕ) → load native sid w ≡ (err inherited_runtime, w)
  unfolding load
  load_refused native sid = rw (check_process-bind, gate_shut sid)

  initialize_refused :
      (native : Native) (sid : ℕ) → initialize native sid w ≡ (err inherited_runtime, w)
  unfolding initialize
  initialize_refused native sid = rw (check_process-bind, gate_shut sid)

  finalize_refused :
      (native : Native) (sid : ℕ) → finalize native sid w ≡ (err inherited_runtime, w)
  unfolding finalize
  finalize_refused native sid = rw (check_process-bind, gate_shut sid)

  default_session_refused :
      (c : Bool) (r : Result (Unit {0})) → default_session c r w ≡ (err inherited_runtime, w)
  unfolding default_session check_not_inherited actions
  default_session_refused c r = rw h

  init_chli_refused :
      (native : Native) (c : Bool) (r : Result (Unit {0}))
      → init_chli native c r w ≡ (err inherited_runtime, w)
  unfolding init_chli check_not_inherited actions
  init_chli_refused native c r = rw h

  refused-Silent : {A : Type 0} (m : Exec A) {r : Result A} → m w ≡ (r, w) → Silent w (m w).1
  refused-Silent {A} m e = subst (λ (x : Result A × World). Silent w x.1) (sym e) unchanged

  finalize_owner-Silent : (native : Native) (o : Option ℕ) → Silent w (finalize_owner native o w).1
  unfolding finalize_owner actions
  finalize_owner-Silent native none = unchanged
  finalize_owner-Silent native (some o) =
      refused-Silent (finalize native o) (finalize_refused native o)

  close_chli-Silent : (native : Native) → Silent w (close_chli native w).1
  unfolding close_chli actions
  close_chli-Silent native = finalize_owner-Silent native w.owner

guarded-Silent :
    (sid : ℕ) (w w' : World)
    → Silent w w
    → Silent w w'
    → Silent w (if ltb sid w.next_session then w' else w)
guarded-Silent sid w w' a b = elim (Bool-cases (ltb sid w.next_session)) [
  | inl e ↦ rw e b
  | inr e ↦ rw e a
]

module _ (native : Native) where
  step-Silent : (op : Op) (w : World) → w.inherited ≡ true → Silent w (step native op w)
  unfolding step
  step-Silent (Op.new_session c i env r) w h = new_session-Silent w h c i env r
  step-Silent (Op.load sid) w h =
      guarded-Silent sid w _ (unchanged w h)
        (refused-Silent w h (load native sid) (load_refused w h native sid))
  step-Silent (Op.initialize sid) w h =
      guarded-Silent sid w _ (unchanged w h)
        (refused-Silent w h (initialize native sid) (initialize_refused w h native sid))
  step-Silent (Op.finalize sid) w h =
      guarded-Silent sid w _ (unchanged w h)
        (refused-Silent w h (finalize native sid) (finalize_refused w h native sid))
  step-Silent (Op.version sid) w h =
      guarded-Silent sid w _ (unchanged w h) (Steady-Silent h (version-Still native sid w))
  step-Silent (Op.enable_extended_errors sid) w h =
      guarded-Silent sid w _ (unchanged w h)
        (unfold enable_extended_errors update actions in record { calls = refl; marked = h })
  step-Silent (Op.default_session c r) w h =
      refused-Silent w h (default_session c r) (default_session_refused w h c r)
  step-Silent (Op.init_chli c r) w h =
      refused-Silent w h (init_chli native c r) (init_chli_refused w h native c r)
  step-Silent Op.close_chli w h = close_chli-Silent w h native
  step-Silent (Op.opendb d m g) w h = Steady-Silent h (opendb-Still native d m g w)
  step-Silent (Op.workdb g) w h = Steady-Silent h (workdb-Still native g w)
  step-Silent (Op.postdb hid) w h = Steady-Silent h (postdb-Still native hid w)
  step-Silent (Op.closedb hid) w h = Steady-Silent h (closedb-Still native hid w)
  step-Silent (Op.quick_info hid n) w h = Steady-Silent h (quick_info-Still native hid n w)
  step-Silent (Op.listdb fuel hid p a cs ts fs c) w h =
      Steady-Silent h (listdb-Still native fuel hid p a cs ts fs c w)
  step-Silent (Op.fame files o t g q i) w h = Steady-Silent h (fame-Still native files o t g q i w)
  step-Silent (Op.do_read np hid o) w h = Steady-Silent h (do_read-Still native np hid o w)
  step-Silent (Op.do_write np hid o r b v) w h =
      Steady-Silent h (do_write-Still native np hid o r b v w)
  step-Silent (Op.delete_object hid n m) w h =
      Steady-Silent h (delete_object-Still native hid n m w)
  step-Silent (Op.fork pid) w h = unfold after_fork in record { calls = refl; marked = rw h }

  run-Silent : (ops : List Op) (w : World) → w.inherited ≡ true → Silent w (run native ops w)
  unfolding run
  run-Silent [] w h = unchanged w h
  run-Silent (op ∷ ops) w h =
      let first = step-Silent op w h in
      let rest = run-Silent ops (step native op w) first.marked in
      record { calls = rest.calls ∙ first.calls; marked = rest.marked }

-- The process had loaded the library, a session had used up the runtime, or the default session
-- was loaded.
abbrev pub HasUsed : World → Type 0
HasUsed w =
    (w.loaded_native ≡ true)
    ⊎ ((o : ℕ) × (w.owner ≡ some o))
    ⊎ ((d : ℕ) × (w.default_session ≡ some d) × ((w.sessions d).native ≡ true))

after_fork-marked : (pid : ℕ) (w : World) → HasUsed w → (after_fork pid w).inherited ≡ true
unfolding after_fork
after_fork-marked pid w (inl e) = ground arith
after_fork-marked pid w (inr (inl (o, e))) = ground arith
after_fork-marked pid w (inr (inr (d, e, f))) = ground arith

-- In a child that was forked after the library was loaded or its runtime used up, no sequence of
-- operations makes a native call.
pub fork_makes_no_call :
    (native : Native) (ops : List Op) (pid : ℕ) (w : World)
    → HasUsed w
    → (run native ops (after_fork pid w)).calls ≡ w.calls
fork_makes_no_call native ops pid w used =
    (run-Silent native ops (after_fork pid w) (after_fork-marked pid w used)).calls ∙ same
  where
    same : (after_fork pid w).calls ≡ w.calls
    same = unfold after_fork in refl
