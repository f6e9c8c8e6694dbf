-- ===== src/Prelude/Lists.antt =====
-- Lists measured by native numbers, byte strings, and predicates on the elements of a list.
use Prim.Native.Nat.{ℕ, suc, ◌+◌}
use Prim.Native.Char.{code}
use Prim.Native.String.{String}
use mathlib.Core.Path.{◌≡◌, sym, ◌∙◌}
use mathlib.Core.Bool.{Bool, true, false, ◌&&◌, ◌||◌}
use mathlib.Core.List.{List, [], ◌∷◌, ◌++◌, reverse, reverse_aux-eq}
use native.Mathlib.Omega.{arith}
use mathlib.Core.Logic.{◌↔◌, inl, inr}
use mathlib.Core.Path.{refl, ap}
use famepy.Prelude.Tests.{◌==◌, ==_iff, Bool-cases}

-- A Python `bytes` value.
abbrev pub Bytes : Type 0
Bytes = List ℕ

-- The bytes of an ASCII literal.
abbrev pub codes : String → List ℕ
codes String.[] = []
codes (String.◌∷◌ c s) = code c ∷ codes s

abbrev pub bytes_eq : Bytes → Bytes → Bool
bytes_eq [] [] = true
bytes_eq (x ∷ xs) (y ∷ ys) = x == y && bytes_eq xs ys
bytes_eq _ _ = false

pub bytes_eq_refl : (xs : Bytes) → bytes_eq xs xs ≡ true
bytes_eq_refl [] = refl
bytes_eq_refl (x ∷ xs) = rw ((==_iff x x).1 refl) (bytes_eq_refl xs)

pub bytes_eq_sound : (xs ys : Bytes) → bytes_eq xs ys ≡ true → xs ≡ ys
bytes_eq_sound [] [] h = refl
bytes_eq_sound [] (y ∷ ys) h = absurd (refused h)
  where
    refused : false ≡ true → ⊥
    refused q = cc
bytes_eq_sound (x ∷ xs) [] h = absurd (refused h)
  where
    refused : false ≡ true → ⊥
    refused q = cc
bytes_eq_sound (x ∷ xs) (y ∷ ys) h = elim (Bool-cases (x == y)) [
  | inl e ↦
      (let tail : xs ≡ ys = bytes_eq_sound xs ys (sym (ap (λ b. b && bytes_eq xs ys) e) ∙ h) in
        cc ((==_iff x y).0 e, tail))
  | inr n ↦ absurd (refused (sym (ap (λ b. b && bytes_eq xs ys) n) ∙ h))
]
  where
    refused : false ≡ true → ⊥
    refused q = cc

pub bytes_eq_iff : (xs ys : Bytes) → (bytes_eq xs ys ≡ true) ↔ (xs ≡ ys)
bytes_eq_iff xs ys = (bytes_eq_sound xs ys, λ e. ap (bytes_eq xs) (sym e) ∙ bytes_eq_refl xs)

abbrev pub contains_byte : ℕ → Bytes → Bool
contains_byte n [] = false
contains_byte n (b ∷ bs) = b == n || contains_byte n bs

module _ {ℓ} {A : Type ℓ} where
  abbrev pub length : List A → ℕ
  length [] = 0
  length (x ∷ xs) = suc (length xs)

  pub length-append : (xs ys : List A) → length (xs ++ ys) ≡ length xs + length ys
  length-append [] ys = omega arith
  length-append (x ∷ xs) ys = omega (arith, length-append xs ys)

  pub reverse-step : (x : A) (xs ys : List A) → reverse (x ∷ xs) ++ ys ≡ reverse xs ++ (x ∷ ys)
  reverse-step x xs ys = sym (reverse_aux-eq (x ∷ xs) ys) ∙ reverse_aux-eq xs (x ∷ ys)

module _ {ℓ κ} {A : Type ℓ} where
  abbrev pub All : (A → Type κ) → List A → Type κ
  All P [] = Unit
  All P (x ∷ xs) = P x × All P xs

module _ {ℓ κ} {A : Type ℓ} (P : A → Type κ) where
  pub All-append : (xs ys : List A) → All P xs → All P ys → All P (xs ++ ys)
  All-append [] ys hx hy = hy
  All-append (x ∷ xs) ys hx hy = (hx.0, All-append xs ys hx.1 hy)
