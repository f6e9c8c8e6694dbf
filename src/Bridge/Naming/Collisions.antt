-- ===== src/Bridge/Naming/Collisions.antt =====
-- Keys that pass the checks for collisions diverge pairwise.
use famepy.Prelude.{
  ◌≡◌, ◌≢◌, ◌⊎◌, refl, sym, ◌∙◌, ap, Bool, true, false, ◌&&◌, Bool-cases, inl, inr, List, [], ◌∷◌,
  ◌++◌, All, bytes_eq, bytes_eq_iff,
}
use famepy.Errors.{ok, name_collision}
use famepy.Data.Results.{and_then-ok, refuse-ok, ok-injective, or_parts}
use famepy.Bridge.Naming.{
  Str, Key, key_eq, has_key, map_onto, branches_of, any_leaf, add_keys, check_keys,
}

-- The two paths differ at some part that both have: neither is the other nor lies above it.
abbrev pub Diverge : Key → Key → Type 0
Diverge [] l = ⊥
Diverge (s ∷ k) [] = ⊥
Diverge (s ∷ k) (t ∷ l) = (s ≢ t) ⊎ Diverge k l

abbrev pub IsPath : Key → Type 0
IsPath [] = ⊥
IsPath (s ∷ k) = Unit

abbrev pub Divergent : List Key → Type 0
Divergent [] = Unit
Divergent (k ∷ ks) = All (Diverge k) ks × Divergent ks

abbrev Differs : Key → Key → Type 0
Differs k b = key_eq k b ≡ false

bytes_apart : (s t : Str) → bytes_eq s t ≡ false → s ≢ t
bytes_apart s t h q = refused (sym h ∙ (bytes_eq_iff s t).1 q)
  where
    refused : false ≡ true → ⊥
    refused q = cc

-- what differs below the same first part
Differs-below :
    (s t : Str) (k : Key) (bs : List Key)
    → bytes_eq s t ≡ true
    → All (Differs (s ∷ k)) (map_onto t bs)
    → All (Differs k) bs
Differs-below s t k [] e h = tt
Differs-below s t k (b ∷ bs) e h =
    (ap (λ x. x && key_eq k b) (sym e) ∙ h.0, Differs-below s t k bs e h.1)

key_eq_self : (s t : Str) → bytes_eq s t ≡ true → key_eq (s ∷ []) (t ∷ []) ≡ true
key_eq_self s t e = rw e refl

bytes_eq_sym : (s t : Str) → bytes_eq s t ≡ true → bytes_eq t s ≡ true
bytes_eq_sym s t e = (bytes_eq_iff t s).1 (sym ((bytes_eq_iff s t).0 e))

pub Diverge-of :
    (k l : Key)
    → IsPath k
    → IsPath l
    → key_eq k l ≡ false
    → All (Differs l) (branches_of k)
    → All (Differs k) (branches_of l)
    → Diverge k l
unfolding branches_of
Diverge-of [] l p q e a b = absurd p
Diverge-of (s ∷ k) [] p q e a b = absurd q
Diverge-of (s ∷ k) (t ∷ l) p q e a b = elim (Bool-cases (bytes_eq s t)) [
  | inr apart ↦ inl (bytes_apart s t apart)
  | inl same ↦ inr (
      below k l same (ap (λ x. x && key_eq k l) (sym same) ∙ e) a b
        λ u v f g. Diverge-of k l u v (ap (λ x. x && key_eq k l) (sym same) ∙ e) f g)
]
  where
    clash : {x : Bool} → x ≡ true → x ≡ false → ⊥
    clash h k = cc (h, k)

    below :
        (k l : Key)
        → bytes_eq s t ≡ true
        → key_eq k l ≡ false
        → All (Differs (t ∷ l)) (branches_of (s ∷ k))
        → All (Differs (s ∷ k)) (branches_of (t ∷ l))
        → (IsPath k
            → IsPath l
            → All (Differs l) (branches_of k)
            → All (Differs k) (branches_of l)
            → Diverge k l)
        → Diverge k l
    below [] [] same e a b rec = absurd (clash refl e)
    below [] (u ∷ l) same e a b rec = absurd (clash (key_eq_self s t same) b.0)
    below (u ∷ k) [] same e a b rec = absurd (clash (key_eq_self t s (bytes_eq_sym s t same)) a.0)
    below (u ∷ k) (v ∷ l) same e a b rec =
        rec tt tt (Differs-below t s (v ∷ l) (branches_of (u ∷ k)) (bytes_eq_sym s t same) a.1)
          (Differs-below s t (u ∷ k) (branches_of (v ∷ l)) same b.1)

abbrev leaves_after : List Key → List Key → List Key
leaves_after [] ls = ls
leaves_after (k ∷ ks) ls = leaves_after ks (k ∷ ls)

abbrev branches_after : List Key → List Key → List Key
branches_after [] bs = bs
branches_after (k ∷ ks) bs = branches_after ks (branches_of k ++ bs)

abbrev PairwiseDiffers : List Key → Type 0
PairwiseDiffers [] = Unit
PairwiseDiffers (k ∷ ks) = All (λ l. key_eq k l ≡ false) ks × PairwiseDiffers ks

abbrev Fresh : List Key → Key → Type 0
Fresh ls k = has_key k ls ≡ false

Fresh-split :
    (k : Key) (ks ls : List Key)
    → All (Fresh (k ∷ ls)) ks
    → All (λ l. key_eq k l ≡ false) ks × All (Fresh ls) ks
unfolding has_key
Fresh-split k [] ls h = (tt, tt)
Fresh-split k (l ∷ ks) ls h =
    let (a, b) = or_parts (key_eq k l) (has_key l ls) h.0 in
    let (c, d) = Fresh-split k ks ls h.1 in ((a, c), (b, d))

-- what the loop over the keys gives where it raises nothing
add_keys-ok :
    (ks ls bs : List Key) (p : List Key × List Key)
    → add_keys ks ls bs ≡ ok p
    → ((leaves_after ks ls, branches_after ks bs) ≡ p) × All (Fresh ls) ks × PairwiseDiffers ks
unfolding add_keys
add_keys-ok [] ls bs p e = (ok-injective e, tt, tt)
add_keys-ok (k ∷ ks) ls bs p e =
    let (fresh, rest) = refuse-ok (has_key k ls) name_collision e in
    let (same, all, pairs) = add_keys-ok ks (k ∷ ls) (branches_of k ++ bs) p rest in
    let (apart, old) = Fresh-split k ks ls all in (same, (fresh, old), (apart, pairs))

module _ (P : Key → Type 0) where
  All-first : (xs ys : List Key) → All P (xs ++ ys) → All P xs × All P ys
  All-first [] ys h = (tt, h)
  All-first (x ∷ xs) ys h = let (a, b) = All-first xs ys h.1 in ((h.0, a), b)

  All-leaves_after : (ks ls : List Key) → All P (leaves_after ks ls) → All P ks × All P ls
  All-leaves_after [] ls h = (tt, h)
  All-leaves_after (k ∷ ks) ls h = let (a, b) = All-leaves_after ks (k ∷ ls) h in ((b.0, a), b.1)

  All-branches_after :
      (ks bs : List Key)
      → All P (branches_after ks bs)
      → All (λ k. All P (branches_of k)) ks × All P bs
  All-branches_after [] bs h = (tt, h)
  All-branches_after (k ∷ ks) bs h =
      let (a, b) = All-branches_after ks (branches_of k ++ bs) h in
      let (c, d) = All-first (branches_of k) bs b in ((c, a), d)

has_key-Differs : (b : Key) (ls : List Key) → has_key b ls ≡ false → All (λ l. Differs l b) ls
unfolding has_key
has_key-Differs b [] h = tt
has_key-Differs b (l ∷ ls) h =
    let (x, y) = or_parts (key_eq l b) (has_key b ls) h in (x, has_key-Differs b ls y)

any_leaf-Fresh :
    (bs ls : List Key) → any_leaf bs ls ≡ false → All (λ b. All (λ l. Differs l b) ls) bs
unfolding any_leaf
any_leaf-Fresh [] ls h = tt
any_leaf-Fresh (b ∷ bs) ls h =
    let (x, y) = or_parts (has_key b ls) (any_leaf bs ls) h in
    (has_key-Differs b ls x, any_leaf-Fresh bs ls y)

-- each key of the second list differs from each branch
abbrev Above : List Key → List Key → Type 0
Above bs ks = All (λ b. All (λ l. Differs l b) ks) bs

Above-head : (bs : List Key) (k : Key) (ks : List Key) → Above bs (k ∷ ks) → All (Differs k) bs
Above-head [] k ks h = tt
Above-head (b ∷ bs) k ks h = (h.0.0, Above-head bs k ks h.1)

Above-tail : (bs : List Key) (k : Key) (ks : List Key) → Above bs (k ∷ ks) → Above bs ks
Above-tail [] k ks h = tt
Above-tail (b ∷ bs) k ks h = (h.0.1, Above-tail bs k ks h.1)

diverging :
    (k : Key) (ks : List Key)
    → IsPath k
    → All IsPath ks
    → All (λ l. key_eq k l ≡ false) ks
    → Above (branches_of k) ks
    → All (λ l. All (Differs k) (branches_of l)) ks
    → All (Diverge k) ks
diverging k [] p ps d a b = tt
diverging k (l ∷ ks) p ps d a b = (
  Diverge-of k l p ps.0 d.0 (Above-head (branches_of k) l ks a) b.0,
  diverging k ks p ps.1 d.1 (Above-tail (branches_of k) l ks a) b.1,
)

abbrev Over : List Key → List Key → Type 0
Over ks ls = All (λ k. Above (branches_of k) ls) ks

Over-head :
    (k : Key) (ls ks : List Key)
    → Over ks (k ∷ ls)
    → All (λ l. All (Differs k) (branches_of l)) ks × Over ks ls
Over-head k ls [] h = (tt, tt)
Over-head k ls (l ∷ ks) h =
    let (a, b) = Over-head k ls ks h.1 in
    ((Above-head (branches_of l) k ls h.0, a), (Above-tail (branches_of l) k ls h.0, b))

All-Divergent : (ks : List Key) → All IsPath ks → PairwiseDiffers ks → Over ks ks → Divergent ks
All-Divergent [] p d o = tt
All-Divergent (k ∷ ks) p d o =
    let (heads, tails) = Over-head k ks ks o.1 in
    (
      diverging k ks p.0 p.1 d.0 (Above-tail (branches_of k) k ks o.0) heads,
      All-Divergent ks p.1 d.1 tails,
    )

leaves-Over :
    (bs ks : List Key) → All (λ b. All (λ l. Differs l b) (leaves_after ks [])) bs → Above bs ks
leaves-Over [] ks h = tt
leaves-Over (b ∷ bs) ks h =
    ((All-leaves_after (λ l. Differs l b) ks [] h.0).0, leaves-Over bs ks h.1)

-- Where the checks of `resolve_names` raise nothing, of any two of the keys neither is the other,
-- nor is one a workspace that the other lies in.
pub check_keys-Divergent : (ks : List Key) → All IsPath ks → check_keys ks ≡ ok tt → Divergent ks
unfolding check_keys
check_keys-Divergent ks paths e =
    let (p, ep, rest) = and_then-ok (add_keys ks [] []) _ e in
    let (same, fresh, pairs) = add_keys-ok ks [] [] p ep in
    let none' = (refuse-ok (any_leaf p.1 p.0) name_collision rest).0 in
    let clear =
      any_leaf-Fresh (branches_after ks []) (leaves_after ks [])
        (ap (λ (q : List Key × List Key). any_leaf q.1 q.0) same ∙ none') in
    All-Divergent ks paths pairs
      (All-branches_after (λ b. All (λ l. Differs l b) ks) ks []
        (leaves-Over (branches_after ks []) ks clear)).0
