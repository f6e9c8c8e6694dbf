-- ===== src/Text/Names.antt =====
-- What `object_name` and `to_native` accept.
use famepy.Prelude.{
  ℕ, ◌≡◌, ◌≤◌, refl, ◌∙◌, sym, ap, subst, true, false, ◌&&◌, List, Bytes, length, leb,
  contains_byte, arith, Bool-cases, inl, inr, if◌then◌else◌,
}
use famepy.Errors.{Result, ok, err, text_encoding, value_error}
use famepy.Text.{Text, str, bytes, to_native, no_nul, is_ascii, object_name, name_capacity}

-- the code points or the bytes of a text
abbrev pub content : Text → List ℕ
content (str cs) = cs
content (bytes bs) = bs

pub no_nul_lem :
    (cs : List ℕ) (t : Bytes) → no_nul cs ≡ ok t → (t ≡ cs) × (contains_byte 0 t ≡ false)
unfolding no_nul
no_nul_lem cs t e = elim (Bool-cases (contains_byte 0 cs)) [
  | inl yes' ↦ absurd (refused (cc (yes', e)))
  | inr no' ↦
      (let q : t ≡ cs = cc (no', e) in (q, subst (λ x. contains_byte 0 x ≡ false) (sym q) no'))
]
  where
    refused : err text_encoding ≡ ok t → ⊥
    refused q = cc

to_native_lem :
    (x : Text) (t : Bytes) → to_native x ≡ ok t → (t ≡ content x) × (contains_byte 0 t ≡ false)
unfolding to_native
to_native_lem (bytes bs) t e = no_nul_lem bs t e
to_native_lem (str cs) t e = elim (Bool-cases (is_ascii cs)) [
  | inl yes' ↦ no_nul_lem cs t (cc (yes', e))
  | inr no' ↦ absurd (refused (cc (no', e)))
]
  where
    refused : err text_encoding ≡ ok t → ⊥
    refused q = cc

-- An accepted object name is the given text unchanged, from 1 to 242 bytes long and free of NUL.
pub object_name-bounds :
    (x : Text) (t : Bytes)
    → object_name x ≡ ok t
    → (t ≡ content x) × (1 ≤ length t) × (length t ≤ name_capacity) × (contains_byte 0 t ≡ false)
unfolding object_name
object_name-bounds x t e = go (to_native x) refl e
  where
    go :
        (r : Result Bytes)
        → to_native x ≡ r
        → elim r [
          | err e ↦ err e
          | ok d ↦
              if leb 1 (length d) && leb (length d) name_capacity then ok d else err value_error
        ]
          ≡ ok t
        → (t ≡ content x)
          × (1 ≤ length t)
          × (length t ≤ name_capacity)
          × (contains_byte 0 t ≡ false)
    go (err f) h e = absurd (refused e)
      where
        refused : err f ≡ ok t → ⊥
        refused q = cc
    go (ok d) h e = elim (Bool-cases (leb 1 (length d) && leb (length d) name_capacity)) [
      | inl yes' ↦
          (let q : d ≡ t = cc (yes', e) in
            let k = to_native_lem x t (h ∙ ap ok q) in
            let y : (leb 1 (length t) && leb (length t) name_capacity) ≡ true =
              subst (λ z. (leb 1 (length z) && leb (length z) name_capacity) ≡ true) q yes' in
            (k.0, ground arith, ground arith, k.1))
      | inr no' ↦ absurd (refused (cc (no', e)))
    ]
      where
        refused : err value_error ≡ ok t → ⊥
        refused q = cc
