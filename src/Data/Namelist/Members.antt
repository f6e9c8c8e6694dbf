-- ===== src/Data/Namelist/Members.antt =====
-- The members of a namelist text with the blanks around them.
use famepy.Prelude.{
  ℕ, ◌≡◌, refl, sym, ap, ◌∙◌, subst, Bytes, true, false, ◌&&◌, Bool-cases, inl, inr, List, [], ◌∷◌,
  ◌++◌, All, All-append, arith, ◌==◌, if◌then◌else◌,
}
use mathlib.Core.List.{reverse, reverse-reverse, reverse-append, reverse-cons}
use famepy.Errors.{ok, err, data_validation}
use famepy.Data.Namelist.{
  is_blank_byte, strip_left, strip_blanks, is_member_byte, all_member_bytes, is_empty_bytes,
  member_of,
}

-- a member with the blanks that the library lays out around it
pub record Laid : Type 0 where
  pub before : Bytes
  pub member : Bytes
  pub after : Bytes

abbrev pub Blanks : Bytes → Type 0
Blanks bs = All (λ b. is_blank_byte b ≡ true) bs

-- not empty, and of member bytes only
abbrev pub IsMember : Bytes → Type 0
IsMember m = (is_empty_bytes m ≡ false) × (all_member_bytes m ≡ true)

abbrev pub IsLaid : Laid → Type 0
IsLaid l = Blanks l.before × IsMember l.member × Blanks l.after

abbrev pub spelled : Laid → Bytes
spelled l = l.before ++ (l.member ++ l.after)

-- the parts with a comma after each but the last, and the closing brace
unfoldable pub laid_rest : List Laid → Bytes
laid_rest [] = []
laid_rest (l ∷ ls) = b',' ∷ (spelled l ++ laid_rest ls)

-- the text of a namelist with at least one member
abbrev pub laid_text : Laid → List Laid → Bytes
laid_text l ls = b'{' ∷ ((spelled l ++ laid_rest ls) ++ (b'}' ∷ []))

pub strip_left-Blanks : (bs cs : Bytes) → Blanks bs → strip_left (bs ++ cs) ≡ strip_left cs
unfolding strip_left
strip_left-Blanks [] cs h = refl
strip_left-Blanks (b ∷ bs) cs h = rw (h.0) (strip_left-Blanks bs cs h.1)

pub member_byte-blank : (b : ℕ) → is_member_byte b ≡ true → is_blank_byte b ≡ false
member_byte-blank b h = ground arith

pub member_byte-comma : (b : ℕ) → is_member_byte b ≡ true → (b == b',') ≡ false
member_byte-comma b h = ground arith

pub blank-comma : (b : ℕ) → is_blank_byte b ≡ true → (b == b',') ≡ false
blank-comma b h = ground arith

abbrev MemberByte : ℕ → Type 0
MemberByte b = is_member_byte b ≡ true

pub all_member_bytes-All : (m : Bytes) → all_member_bytes m ≡ true → All MemberByte m
unfolding all_member_bytes
all_member_bytes-All [] h = tt
all_member_bytes-All (b ∷ m) h = elim (Bool-cases (is_member_byte b)) [
  | inl yes' ↦ (yes', all_member_bytes-All m (ap (λ x. x && all_member_bytes m) (sym yes') ∙ h))
  | inr no' ↦ absurd (refused (ap (λ x. x && all_member_bytes m) (sym no') ∙ h))
]
  where
    refused : false ≡ true → ⊥
    refused q = cc

All-reverse : (P : ℕ → Type 0) (bs : Bytes) → All P bs → All P (reverse bs)
All-reverse P [] h = tt
All-reverse P (b ∷ bs) h =
    subst (All P) (sym (reverse-cons b bs))
      (All-append P (reverse bs) (b ∷ []) (All-reverse P bs h.1) (h.0, tt))

strip_left-members : (m cs : Bytes) → IsMember m → strip_left (m ++ cs) ≡ m ++ cs
unfolding strip_left all_member_bytes
strip_left-members [] cs h = absurd (refused h.0)
  where
    refused : true ≡ false → ⊥
    refused q = cc
strip_left-members (b ∷ m) cs h = rw (member_byte-blank b (all_member_bytes-All (b ∷ m) h.1).0) refl

strip_left-All : (m : Bytes) → All MemberByte m → strip_left m ≡ m
unfolding strip_left
strip_left-All [] h = refl
strip_left-All (b ∷ m) h = rw (member_byte-blank b h.0) refl

strip_blanks-spelled : (l : Laid) → IsLaid l → strip_blanks (spelled l) ≡ l.member
unfolding strip_blanks
strip_blanks-spelled l (pre, mem, post) =
    ap (λ x. reverse (strip_left (reverse x)))
      (strip_left-Blanks l.before (l.member ++ l.after) pre
        ∙ strip_left-members l.member l.after mem)
    ∙ ap (λ x. reverse (strip_left x)) (reverse-append l.member l.after)
    ∙ ap reverse (
        strip_left-Blanks (reverse l.after) (reverse l.member)
          (All-reverse (λ b. is_blank_byte b ≡ true) l.after post)
        ∙ strip_left-All (reverse l.member)
            (All-reverse MemberByte l.member (all_member_bytes-All l.member mem.1)))
    ∙ reverse-reverse l.member

pub member_of-spelled : (l : Laid) → IsLaid l → member_of (spelled l) ≡ ok l.member
unfolding member_of
member_of-spelled l h =
    ap
      (λ (m : Bytes).
        if is_empty_bytes m
        then err data_validation
        else if all_member_bytes m
        then ok m
        else err data_validation)
      (strip_blanks-spelled l h)
    ∙ rw (h.1.0, h.1.1) refl
