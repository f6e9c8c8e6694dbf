-- ===== src/Data/Namelist/Parsing.antt =====
-- Every layout of a namelist parses to its members, and what parses has valid members.
use famepy.Prelude.{
  ℕ, ◌≡◌, refl, sym, ap, ◌∙◌, subst, Bytes, Bool, true, false, Bool-cases, inl, inr, List, [], ◌∷◌,
  ◌++◌, map, All, All-append, reverse-step, ◌==◌, if◌then◌else◌,
}
use mathlib.Core.List.{reverse, reverse-reverse, reverse-cons, append-nil, append_assoc}
use famepy.Errors.{Result, ok, err, data_validation}
use famepy.Data.Namelist.{
  is_blank_byte, strip_left, strip_blanks, all_member_bytes, is_empty_bytes, member_of, add_member,
  members_from, body_members, closed_body, members_of, namelist_members,
}
use famepy.Data.Namelist.Members.{
  Laid, Blanks, IsMember, IsLaid, spelled, laid_rest, laid_text, strip_left-Blanks,
  member_byte-blank, member_byte-comma, blank-comma, all_member_bytes-All, member_of-spelled,
}

-- no byte is a comma
abbrev NoComma : Bytes → Type 0
NoComma bs = All (λ b. (b == b',') ≡ false) bs

All-map : (P Q : ℕ → Type 0) → ((b : ℕ) → P b → Q b) → (bs : Bytes) → All P bs → All Q bs
All-map P Q f [] h = tt
All-map P Q f (b ∷ bs) h = (f b h.0, All-map P Q f bs h.1)

spelled-NoComma : (l : Laid) → IsLaid l → NoComma (spelled l)
spelled-NoComma l (pre, mem, post) =
    All-append _ l.before (l.member ++ l.after) (All-map _ _ blank-comma l.before pre) (
      All-append _ l.member l.after
        (All-map _ _ member_byte-comma l.member (all_member_bytes-All l.member mem.1))
        (All-map _ _ blank-comma l.after post))

-- a part without a comma is read into the current part
members_from-part :
    (part p rest : Bytes)
    → NoComma p
    → members_from part (p ++ rest) ≡ members_from (reverse p ++ part) rest
unfolding members_from
members_from-part part [] rest h = refl
members_from-part part (b ∷ p) rest h = rw h.0 (
    members_from-part (b ∷ part) p rest h.1
    ∙ ap (λ x. members_from x rest) (sym (reverse-step b p part)))

member_of-ended : (l : Laid) → IsLaid l → member_of (reverse (reverse (spelled l))) ≡ ok l.member
member_of-ended l h = ap member_of (reverse-reverse (spelled l)) ∙ member_of-spelled l h

members_from-spelled :
    (l : Laid) (rest : Bytes)
    → IsLaid l
    → members_from [] (spelled l ++ rest) ≡ members_from (reverse (spelled l)) rest
members_from-spelled l rest h =
    members_from-part [] (spelled l) rest (spelled-NoComma l h)
    ∙ ap (λ x. members_from x rest) (append-nil (reverse (spelled l)))

members_from-laid :
    (l : Laid) (ls : List Laid)
    → IsLaid l
    → All IsLaid ls
    → members_from [] (spelled l ++ laid_rest ls) ≡ ok (l.member ∷ map (λ k. k.member) ls)
unfolding laid_rest members_from
members_from-laid l [] h hs =
    members_from-spelled l [] h ∙ ap (λ r. add_member r (ok [])) (member_of-ended l h)
members_from-laid l (k ∷ ks) h hs =
    members_from-spelled l (laid_rest (k ∷ ks)) h
    ∙ ap (λ r. add_member r (members_from [] (spelled k ++ laid_rest ks))) (member_of-ended l h)
    ∙ ap (add_member (ok l.member)) (members_from-laid k ks hs.0 hs.1)

is_empty-append : (bs cs : Bytes) → is_empty_bytes cs ≡ false → is_empty_bytes (bs ++ cs) ≡ false
is_empty-append [] cs h = h
is_empty-append (b ∷ bs) cs h = refl

is_empty-reverse : (bs : Bytes) → is_empty_bytes bs ≡ false → is_empty_bytes (reverse bs) ≡ false
is_empty-reverse [] h = h
is_empty-reverse (b ∷ bs) h =
    ap is_empty_bytes (reverse-cons b bs) ∙ is_empty-append (reverse bs) (b ∷ []) refl

-- a byte that is no blank is not stripped
strip_left-kept :
    (bs cs : Bytes) (b : ℕ)
    → is_blank_byte b ≡ false
    → is_empty_bytes (strip_left (bs ++ (b ∷ cs))) ≡ false
unfolding strip_left
strip_left-kept [] cs b h = rw h refl
strip_left-kept (a ∷ bs) cs b h = elim (Bool-cases (is_blank_byte a)) [
  | inl yes' ↦ rw yes' (strip_left-kept bs cs b h)
  | inr no' ↦ rw no' refl
]

strip_blanks-kept :
    (cs : Bytes) (b : ℕ) → is_blank_byte b ≡ false → is_empty_bytes (strip_blanks (b ∷ cs)) ≡ false
unfolding strip_blanks strip_left
strip_blanks-kept cs b h = rw h (
    is_empty-reverse (strip_left (reverse (b ∷ cs))) (
      ap (λ x. is_empty_bytes (strip_left x)) (reverse-cons b cs)
      ∙ strip_left-kept (reverse cs) [] b h))

strip_blanks-before : (bs cs : Bytes) → Blanks bs → strip_blanks (bs ++ cs) ≡ strip_blanks cs
unfolding strip_blanks
strip_blanks-before bs cs h = ap (λ x. reverse (strip_left (reverse x))) (strip_left-Blanks bs cs h)

member-kept : (m cs : Bytes) → IsMember m → is_empty_bytes (strip_blanks (m ++ cs)) ≡ false
member-kept [] cs h = absurd (refused h.0)
  where
    refused : true ≡ false → ⊥
    refused q = cc
member-kept (b ∷ m) cs h =
    strip_blanks-kept (m ++ cs) b (member_byte-blank b (all_member_bytes-All (b ∷ m) h.1).0)

body-kept :
    (l : Laid) (rest : Bytes) → IsLaid l → is_empty_bytes (strip_blanks (spelled l ++ rest)) ≡ false
body-kept l rest (pre, mem, post) =
    ap (λ x. is_empty_bytes (strip_blanks x))
      (append_assoc l.before (l.member ++ l.after) rest
        ∙ ap (λ x. l.before ++ x) (append_assoc l.member l.after rest))
    ∙ ap is_empty_bytes (strip_blanks-before l.before (l.member ++ (l.after ++ rest)) pre)
    ∙ member-kept l.member (l.after ++ rest) mem

closed_body-closed : (body : Bytes) → closed_body (body ++ (b'}' ∷ [])) ≡ ok body
unfolding closed_body
closed_body-closed [] = refl
closed_body-closed (b ∷ []) = refl
closed_body-closed (b ∷ c ∷ body) =
    ap (λ (r : Result Bytes). elim r [ ok x ↦ ok (b ∷ x) | err e ↦ err e ])
      (closed_body-closed (c ∷ body))

body_members-laid :
    (l : Laid) (ls : List Laid)
    → IsLaid l
    → All IsLaid ls
    → body_members (spelled l ++ laid_rest ls) ≡ ok (l.member ∷ map (λ k. k.member) ls)
unfolding body_members
body_members-laid l ls h hs = rw (body-kept l (laid_rest ls) h) (members_from-laid l ls h hs)

-- However the library lays blanks out around the members of a namelist, its text parses to the
-- members in their order, where each is printable without braces, commas and blanks.
pub namelist_members-laid :
    (l : Laid) (ls : List Laid)
    → IsLaid l
    → All IsLaid ls
    → namelist_members (laid_text l ls) ≡ ok (l.member ∷ map (λ k. k.member) ls)
unfolding namelist_members
namelist_members-laid l ls h hs =
    ap members_of (closed_body-closed (spelled l ++ laid_rest ls)) ∙ body_members-laid l ls h hs

member_of-IsMember : (part m : Bytes) → member_of part ≡ ok m → IsMember m
unfolding member_of
member_of-IsMember part m e = elim (Bool-cases (is_empty_bytes (strip_blanks part))) [
  | inl empty' ↦ absurd (refused (cc (empty', e)))
  | inr kept ↦ elim (Bool-cases (all_member_bytes (strip_blanks part))) [
    | inl valid ↦
        (let q : strip_blanks part ≡ m = cc (kept, valid, e) in subst IsMember q (kept, valid))
    | inr bad ↦ absurd (refused (cc (kept, bad, e)))
  ]
]
  where
    refused : err data_validation ≡ ok m → ⊥
    refused q = cc

abbrev AllMembers : Result (List Bytes) → Type 0
AllMembers (ok ms) = All IsMember ms
AllMembers (err e) = Unit

add_member-AllMembers :
    (part : Bytes) (rest : Result (List Bytes))
    → AllMembers rest
    → AllMembers (add_member (member_of part) rest)
add_member-AllMembers part rest h = go (member_of part) rest refl h
  where
    go :
        (r : Result Bytes) (rest : Result (List Bytes))
        → member_of part ≡ r
        → AllMembers rest
        → AllMembers (add_member r rest)
    go (err e) rest q h = tt
    go (ok m) (err e) q h = tt
    go (ok m) (ok ms) q h = (member_of-IsMember part m q, h)

members_from-AllMembers : (part bs : Bytes) → AllMembers (members_from part bs)
unfolding members_from
members_from-AllMembers part [] = add_member-AllMembers (reverse part) (ok []) tt
members_from-AllMembers part (b ∷ bs) =
    pick (b == b',') (members_from-AllMembers (if b == b',' then [] else b ∷ part) bs)
  where
    pick :
        (comma : Bool)
        → AllMembers (members_from (if comma then [] else b ∷ part) bs)
        → (let again = members_from (if comma then [] else b ∷ part) bs in
            AllMembers (if comma then add_member (member_of (reverse part)) again else again))
    pick true h = add_member-AllMembers (reverse part) _ h
    pick false h = h

members_of-AllMembers : (r : Result Bytes) → AllMembers (members_of r)
unfolding body_members
members_of-AllMembers (err e) = tt
members_of-AllMembers (ok body) = pick (is_empty_bytes (strip_blanks body))
  where
    pick : (b : Bool) → AllMembers (if b then ok [] else members_from [] body)
    pick true = tt
    pick false = members_from-AllMembers [] body

namelist_members-AllMembers : (bs : Bytes) → AllMembers (namelist_members bs)
unfolding namelist_members
namelist_members-AllMembers [] = tt
namelist_members-AllMembers (b ∷ bs) = pick (b == b'{')
  where
    pick : (c : Bool) → AllMembers (if c then members_of (closed_body bs) else err data_validation)
    pick true = members_of-AllMembers (closed_body bs)
    pick false = tt

-- Every member of a text that is accepted is not empty and of printable bytes without braces,
-- commas and blanks.
pub namelist_members-IsMember :
    (bs : Bytes) (ms : List Bytes) → namelist_members bs ≡ ok ms → All IsMember ms
namelist_members-IsMember bs ms e = subst AllMembers e (namelist_members-AllMembers bs)
