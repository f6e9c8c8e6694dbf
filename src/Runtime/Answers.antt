-- ===== src/Runtime/Answers.antt =====
-- Libraries that answer every call, so that no exception cuts a call short.
use famepy.Prelude.{
  ◌^◌, ℤ, pos, fits, ◌==ℤ◌, ◌≡◌, refl, ◌∙◌, ap, ◌⊎◌, inl, inr, List, true, Bool-cases, some,
}
use famepy.Errors.{Error, Hli, Result, ok, err, check_status, hli_status}
use famepy.Native.{Native, Call, Reply, returned}
use famepy.World.{World}
use famepy.Exec.{call}
use famepy.Runtime.{hli_of}
use famepy.Runtime.Returns.{called, checked-ok, checked-err, call_lem}

-- Every call comes back with a 32-bit status: no exception cuts a call short.
pub record Answers (native : Native) : Type 0 where
  pub status :
      (cs : List Call) (c : Call)
      → (s : ℤ) × (a : Reply c) × (native.respond cs c ≡ returned s a) × (fits (2 ^ 31) s ≡ true)

-- an answered call succeeds, or fails with the error of its status
abbrev pub Settled : {A : Type 0} → Result A → Type 0
Settled {A} r =
    ((a : A) × (r ≡ ok a)) ⊎ ((h : Hli) × (e : Error) × (r ≡ err e) × (hli_of e ≡ some h))

check_status-Settled : (s : ℤ) → fits (2 ^ 31) s ≡ true → Settled (check_status s)
unfolding check_status
check_status-Settled s f = elim (Bool-cases (s ==ℤ pos 0)) [
  | inl zero' ↦ inl (tt, rw (f, zero') refl)
  | inr failed ↦ inr (_, hli_status s, rw (f, failed) refl, refl)
]

module _ (native : Native) (answers : Answers native) where
  pub call-Settled :
      (c : Call) (w : World)
      → (r : Result (Reply c)) × (call native c w ≡ (r, called c w)) × Settled r
  call-Settled c w = go (answers.status w.calls c)
    where
      go :
          (s : ℤ) × (a : Reply c) × (native.respond w.calls c ≡ returned s a)
            × (fits (2 ^ 31) s ≡ true)
          → (r : Result (Reply c)) × (call native c w ≡ (r, called c w)) × Settled r
      go (s, a, e, f) = elim (check_status-Settled s f) [
        | inl (u, q) ↦ (
          ok a,
          call_lem native c w s a e ∙ ap (λ r. (r, called c w)) (checked-ok a s q),
          inl (a, refl),
        )
        | inr (x, y, q, k) ↦ (
          err y,
          call_lem native c w s a e ∙ ap (λ r. (r, called c w)) (checked-err a s q),
          inr (x, y, refl, k),
        )
      ]
