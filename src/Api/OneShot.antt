-- ===== src/Api/OneShot.antt =====
-- The one-shot lifecycle over every sequence of operations, and silence after a fork.
use famepy.Prelude.{
  ℕ, ◌<◌, refl, inl, inr, Option, none, some, Bytes, List, [], ◌∷◌, arith, ltb, Bool-cases,
  if◌then◌else◌,
}
use famepy.Native.{Native, Call, cfmini, cfmfin}
use famepy.World.{World, State, created, loaded, initialized, failed, broken, finalized}
use famepy.Runtime.{fresh_session, after_fork, enable_extended_errors}
use famepy.Runtime.Steady.{Extends, same, Steady-update}
use famepy.Runtime.Invariant.{Inv, OwnerPhase, Phase, Inv-Steady}
use famepy.Runtime.Gate.{version-Still}
use famepy.Runtime.Loading.{load-Inv}
use famepy.Runtime.OneShot.{initialize-Inv, finalize-Inv}
use famepy.Runtime.Defaults.{
  Gives-Inv, new_session-Gives, default_session-Gives, init_chli-Inv, close_chli-Inv,
}
use famepy.Database.Steady.{opendb-Still, workdb-Still, postdb-Still, closedb-Still}
use famepy.Api.Clients.{
  quick_info-Still, listdb-Still, fame-Still, do_read-Still, do_write-Still, delete_object-Still,
}
use famepy.Api.Operations.{Op}
use famepy.Api.{boot, step, run}

after_fork-Inv : (pid : ℕ) (w : World) → Inv w → Inv (after_fork pid w)
unfolding after_fork
after_fork-Inv pid w inv = record {
  owned = inv.owned;
  attached = inv.attached;
  phase = same w.owner inv.phase;
  known = inv.known;
}
  where
    same : (o : Option ℕ) → OwnerPhase o w → OwnerPhase o (after_fork pid w)
    same none h = h
    same (some o) h = h

boot-Inv : (pid : ℕ) (environ : Option Bytes) → Inv (boot pid environ)
unfolding fresh_session
boot-Inv pid environ = record {
  owned = λ s e. cc;
  attached = λ s e. refl;
  phase = refl;
  known = tt;
}

guarded-Inv :
    (sid : ℕ) (w w' : World)
    → Inv w
    → (sid < w.next_session → Inv w')
    → Inv (if ltb sid w.next_session then w' else w)
guarded-Inv sid w w' inv f = elim (Bool-cases (ltb sid w.next_session)) [
  | inl e ↦ rw e (f (ground arith))
  | inr e ↦ rw e inv
]

module _ (native : Native) where
  step-Inv : (op : Op) (w : World) → Inv w → Inv (step native op w)
  unfolding step
  step-Inv (Op.new_session c i env r) w inv = Gives-Inv _ (new_session-Gives c i env r w inv)
  step-Inv (Op.load sid) w inv = guarded-Inv sid w _ inv (λ h. load-Inv native sid w inv)
  step-Inv (Op.initialize sid) w inv = guarded-Inv sid w _ inv (initialize-Inv native sid w inv)
  step-Inv (Op.finalize sid) w inv = guarded-Inv sid w _ inv (λ h. finalize-Inv native sid w inv)
  step-Inv (Op.version sid) w inv =
      guarded-Inv sid w _ inv (λ h. Inv-Steady inv (version-Still native sid w))
  step-Inv (Op.enable_extended_errors sid) w inv = guarded-Inv sid w _ inv (λ h.
      Inv-Steady inv (
        unfold enable_extended_errors in Steady-update sid _ w (λ x. refl) (λ x. refl) (λ x. refl)))
  step-Inv (Op.default_session c r) w inv = Gives-Inv _ (default_session-Gives c r w inv)
  step-Inv (Op.init_chli c r) w inv = init_chli-Inv native c r w inv
  step-Inv Op.close_chli w inv = close_chli-Inv native w inv
  step-Inv (Op.opendb d m g) w inv = Inv-Steady inv (opendb-Still native d m g w)
  step-Inv (Op.workdb g) w inv = Inv-Steady inv (workdb-Still native g w)
  step-Inv (Op.postdb hid) w inv = Inv-Steady inv (postdb-Still native hid w)
  step-Inv (Op.closedb hid) w inv = Inv-Steady inv (closedb-Still native hid w)
  step-Inv (Op.quick_info hid n) w inv = Inv-Steady inv (quick_info-Still native hid n w)
  step-Inv (Op.listdb fuel hid p a cs ts fs c) w inv =
      Inv-Steady inv (listdb-Still native fuel hid p a cs ts fs c w)
  step-Inv (Op.fame files o t g q i) w inv = Inv-Steady inv (fame-Still native files o t g q i w)
  step-Inv (Op.do_read np hid o) w inv = Inv-Steady inv (do_read-Still native np hid o w)
  step-Inv (Op.do_write np hid o r b v) w inv =
      Inv-Steady inv (do_write-Still native np hid o r b v w)
  step-Inv (Op.delete_object hid n m) w inv = Inv-Steady inv (delete_object-Still native hid n m w)
  step-Inv (Op.fork pid) w inv = after_fork-Inv pid w inv

  run-Inv : (ops : List Op) (w : World) → Inv w → Inv (run native ops w)
  unfolding run
  run-Inv [] w inv = inv
  run-Inv (op ∷ ops) w inv = run-Inv ops (step native op w) (step-Inv op w inv)

-- A history of the one-shot library, newest call first: nothing; or `cfmini` and then calls that
-- are none of the lifecycle; or such a history that `cfmfin` closed.
pub data OneShot : List Call → Type 0 where
  unused : OneShot []
  running : {cs : List Call} → Extends (cfmini ∷ []) cs → OneShot cs
  ended : {cs : List Call} → Extends (cfmini ∷ []) cs → OneShot (cfmfin ∷ cs)

Inv-OneShot : (w : World) → Inv w → OneShot w.calls
Inv-OneShot w inv = go w.owner inv.phase
  where
    state : (cs : List Call) (st : State) → Phase st cs → OneShot cs
    state cs failed h = rw h (running same)
    state cs initialized h = running h
    state cs broken (ds, e, h) = rw e (ended h)
    state cs finalized (ds, e, h) = rw e (ended h)
    state cs created h = absurd h
    state cs loaded h = absurd h

    go : (o : Option ℕ) → OwnerPhase o w → OneShot w.calls
    go none h = rw h unused
    go (some o) h = state w.calls (w.sessions o).state h.1

-- Whatever the library, the loader and the discovery answer, and whatever operations a process
-- and its forked children perform in whatever order, the native calls of the lifecycle are at most
-- one `cfmini`, which is the first call of all, and at most one `cfmfin`, which is the last.
pub run-OneShot :
    (native : Native) (ops : List Op) (pid : ℕ) (environ : Option Bytes)
    → OneShot (run native ops (boot pid environ)).calls
run-OneShot native ops pid environ =
    Inv-OneShot _ (run-Inv native ops (boot pid environ) (boot-Inv pid environ))
