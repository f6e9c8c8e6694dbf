-- ===== src/Text/Values/Utf8.antt =====
-- Strict UTF-8, which src/famepy/_text.py uses for string values: `str.encode` and `bytes.decode`.
use famepy.Prelude.{
  ℕ, suc, zero, ◌≤◌, ◌+◌, ◌-◌, ◌*◌, ◌/◌, ◌%◌, ◌<◌, ◌≡◌, refl, ◌∙◌, ap, subst, Bytes, Bool, true,
  false, ◌&&◌, ◌||◌, not, Option, none, some, List, [], ◌∷◌, ◌++◌, leb, ltb, arith, Bool-cases, inl,
  inr, if◌then◌else◌,
}

-- a surrogate code point
abbrev pub is_surrogate : ℕ → Bool
is_surrogate c = leb 0xd800 c && ltb c 0xe000

-- the bytes of a code point that is no surrogate
unfoldable pub encode_point : ℕ → Bytes
encode_point c =
    if ltb c 0x80
    then c ∷ []
    else if ltb c 0x800
    then (0xc0 + c / 64) ∷ (0x80 + c % 64) ∷ []
    else if ltb c 0x10000
    then (0xe0 + c / 4096) ∷ (0x80 + c / 64 % 64) ∷ (0x80 + c % 64) ∷ []
    else (0xf0 + c / 262144) ∷ (0x80 + c / 4096 % 64) ∷ (0x80 + c / 64 % 64) ∷ (0x80 + c % 64) ∷ []

-- `str.encode("utf-8")`: a surrogate is refused
unfoldable pub encode_utf8 : List ℕ → Option Bytes
encode_utf8 [] = some []
encode_utf8 (c ∷ cs) =
    if is_surrogate c || leb 0x110000 c
    then none
    else elim (encode_utf8 cs) [ none ↦ none | some bs ↦ some (encode_point c ++ bs) ]

-- a code point that its bytes may stand for: the shortest form, no surrogate, in range
abbrev pub is_point : ℕ → ℕ → Bool
is_point least c = leb least c && not (is_surrogate c) && ltb c 0x110000

abbrev pub emit : ℕ → Option (List ℕ) → Option (List ℕ)
emit c none = none
emit c (some cs) = some (c ∷ cs)

-- What a byte begins: a code point of its own, or one with so many more bytes, by the bits so far
-- and the least code point that needs so many; or nothing.
pub data Lead : Type 0 where
  whole bad : Lead
  more : ℕ → ℕ → ℕ → Lead

abbrev pub lead : ℕ → Lead
lead b =
    if ltb b 0x80
    then whole
    else if leb 0xc2 b && ltb b 0xe0
    then more 1 (b - 0xc0) 0x80
    else if leb 0xe0 b && ltb b 0xf0
    then more 2 (b - 0xe0) 0x800
    else if leb 0xf0 b && ltb b 0xf5
    then more 3 (b - 0xf0) 0x10000
    else bad

-- The decoder: how many more bytes the code point has, the bits so far, and the least code point
-- that needs so many bytes.
unfoldable pub decode_from : ℕ → ℕ → ℕ → Bytes → Option (List ℕ)
decode_from zero bits least [] = some []
decode_from (suc n) bits least [] = none
decode_from zero bits least (b ∷ bs) = elim (lead b) [
  | bad ↦ none
  | whole ↦ emit b (decode_from 0 0 0 bs)
  | more n bits' least' ↦ decode_from n bits' least' bs
]
decode_from (suc zero) bits least (b ∷ bs) =
    let c = bits * 64 + (b - 0x80) in
    if leb 0x80 b && ltb b 0xc0 && is_point least c then emit c (decode_from 0 0 0 bs) else none
decode_from (suc (suc n)) bits least (b ∷ bs) =
    if leb 0x80 b && ltb b 0xc0 then decode_from (suc n) (bits * 64 + (b - 0x80)) least bs else none

-- `bytes.decode("utf-8")`
unfoldable pub decode_utf8 : Bytes → Option (List ℕ)
decode_utf8 bs = decode_from 0 0 0 bs

abbrev after_lead : ℕ → Bytes → Lead → Option (List ℕ)
after_lead b bs l = elim l [
  | bad ↦ none
  | whole ↦ emit b (decode_from 0 0 0 bs)
  | more n bits' least' ↦ decode_from n bits' least' bs
]

begin :
    (b : ℕ) (bs : Bytes) (l : Lead) → lead b ≡ l → decode_from 0 0 0 (b ∷ bs) ≡ after_lead b bs l
unfolding decode_from
begin b bs l e = ap (after_lead b bs) e

-- a continuation byte that is not the last
middle :
    (n bits least d : ℕ) (bs : Bytes)
    → d < 64
    → decode_from (suc (suc n)) bits least ((0x80 + d) ∷ bs)
      ≡ decode_from (suc n) (bits * 64 + d) least bs
unfolding decode_from
middle n bits least d bs h =
    rw continues (ap (λ x. decode_from (suc n) (bits * 64 + x) least bs) back)
  where
    continues : (leb 0x80 (0x80 + d) && ltb (0x80 + d) 0xc0) ≡ true
    continues = ground arith

    back : 0x80 + d - 0x80 ≡ d
    back = omega arith

-- the last continuation byte
end_point :
    (bits least d c : ℕ) (bs : Bytes)
    → d < 64
    → bits * 64 + d ≡ c
    → is_point least c ≡ true
    → decode_from 1 bits least ((0x80 + d) ∷ bs) ≡ emit c (decode_from 0 0 0 bs)
unfolding decode_from
end_point bits least d c bs h e k = rw continues (
    ap (λ x. if is_point least x then emit x (decode_from 0 0 0 bs) else none) (back ∙ e)
    ∙ rw k refl)
  where
    continues : (leb 0x80 (0x80 + d) && ltb (0x80 + d) 0xc0) ≡ true
    continues = ground arith

    back : bits * 64 + (0x80 + d - 0x80) ≡ bits * 64 + d
    back = ap (λ x. bits * 64 + x) (omega arith)

lead_two : (q : ℕ) → 2 ≤ q → q < 32 → lead (0xc0 + q) ≡ more 1 q 0x80
lead_two q h k = ground arith

lead_three : (q : ℕ) → q < 16 → lead (0xe0 + q) ≡ more 2 q 0x800
lead_three q k = ground arith

lead_four : (q : ℕ) → q < 5 → lead (0xf0 + q) ≡ more 3 q 0x10000
lead_four q k = ground arith

low : (c : ℕ) → c % 64 < 64
low c = omega arith

two : (c : ℕ) → c / 64 * 64 + c % 64 ≡ c
two c = omega arith

three : (c : ℕ) → (c / 4096 * 64 + c / 64 % 64) * 64 + c % 64 ≡ c
three c = omega arith

four : (c : ℕ) → ((c / 262144 * 64 + c / 4096 % 64) * 64 + c / 64 % 64) * 64 + c % 64 ≡ c
four c = omega arith

module _ (c : ℕ) (bs : Bytes) (s : is_surrogate c ≡ false) (r : leb 0x110000 c ≡ false) where
  Emitted : Bytes → Type 0
  Emitted b = decode_from 0 0 0 (b ++ bs) ≡ emit c (decode_from 0 0 0 bs)

  one_byte : ltb c 0x80 ≡ true → Emitted (c ∷ [])
  unfolding Emitted
  one_byte h = begin c bs whole (ground arith)

  two_bytes :
      ltb c 0x80 ≡ false → ltb c 0x800 ≡ true → Emitted ((0xc0 + c / 64) ∷ (0x80 + c % 64) ∷ [])
  unfolding Emitted
  two_bytes h k =
      begin _ _ (more 1 (c / 64) 0x80) (lead_two (c / 64) (ground arith) (ground arith))
      ∙ end_point (c / 64) 0x80 (c % 64) c bs (low c) (two c) (ground arith)

  three_bytes :
      ltb c 0x800 ≡ false
      → ltb c 0x10000 ≡ true
      → Emitted ((0xe0 + c / 4096) ∷ (0x80 + c / 64 % 64) ∷ (0x80 + c % 64) ∷ [])
  unfolding Emitted
  three_bytes h k =
      begin _ _ (more 2 (c / 4096) 0x800) (lead_three (c / 4096) (ground arith))
      ∙ middle 0 (c / 4096) 0x800 (c / 64 % 64) _ (low (c / 64))
      ∙ end_point _ 0x800 (c % 64) c bs (low c) (three c) (ground arith)

  four_bytes :
      ltb c 0x10000 ≡ false
      → Emitted (
          (0xf0 + c / 262144)
          ∷ (0x80 + c / 4096 % 64)
          ∷ (0x80 + c / 64 % 64)
          ∷ (0x80 + c % 64)
          ∷ [])
  unfolding Emitted
  four_bytes h =
      begin _ _ (more 3 (c / 262144) 0x10000) (lead_four (c / 262144) (ground arith))
      ∙ middle 1 (c / 262144) 0x10000 (c / 4096 % 64) _ (low (c / 4096))
      ∙ middle 0 _ 0x10000 (c / 64 % 64) _ (low (c / 64))
      ∙ end_point _ 0x10000 (c % 64) c bs (low c) (four c) (ground arith)

  decode-encode_point : decode_from 0 0 0 (encode_point c ++ bs) ≡ emit c (decode_from 0 0 0 bs)
  unfolding encode_point Emitted
  decode-encode_point = elim (Bool-cases (ltb c 0x80)) [
    | inl a ↦ rw a (one_byte a)
    | inr a ↦ elim (Bool-cases (ltb c 0x800)) [
      | inl b ↦ rw (a, b) (two_bytes a b)
      | inr b ↦ elim (Bool-cases (ltb c 0x10000)) [
        | inl d ↦ rw (a, b, d) (three_bytes b d)
        | inr d ↦ rw (a, b, d) (four_bytes d)
      ]
    ]
  ]

nothing_left : decode_from 0 0 0 [] ≡ some []
unfolding decode_from
nothing_left = refl

-- A string that UTF-8 encodes comes back from the strict decoder.
pub decode-encode_utf8 :
    (cs : List ℕ) (bs : Bytes) → encode_utf8 cs ≡ some bs → decode_utf8 bs ≡ some cs
unfolding encode_utf8 decode_utf8
decode-encode_utf8 [] bs e =
    (let q : [] ≡ bs = cc e in subst (λ x. decode_from 0 0 0 x ≡ some []) q nothing_left)
decode-encode_utf8 (c ∷ cs) bs e =
    go (encode_utf8 cs) (decode-encode_utf8 cs) (is_surrogate c) (leb 0x110000 c) refl refl e
  where
    go :
        (o : Option Bytes)
        → ((ds : Bytes) → o ≡ some ds → decode_from 0 0 0 ds ≡ some cs)
        → (a b : Bool) → is_surrogate c ≡ a
        → leb 0x110000 c ≡ b
        → (if a || b then none else elim o [ none ↦ none | some ds ↦ some (encode_point c ++ ds) ])
          ≡ some bs
        → decode_from 0 0 0 bs ≡ some (c ∷ cs)
    go o k true b p q e = absurd (refused e)
      where
        refused : none ≡ some bs → ⊥
        refused x = cc
    go o k false true p q e = absurd (refused e)
      where
        refused : none ≡ some bs → ⊥
        refused x = cc
    go none k false false p q e = absurd (refused e)
      where
        refused : none ≡ some bs → ⊥
        refused x = cc
    go (some ds) k false false p q e =
        let same : encode_point c ++ ds ≡ bs = cc e in
        subst (λ x. decode_from 0 0 0 x ≡ some (c ∷ cs)) same
          (decode-encode_point c ds p q ∙ ap (emit c) (k ds refl))
