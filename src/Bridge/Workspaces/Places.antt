-- ===== src/Bridge/Workspaces/Places.antt =====
-- A workspace into which values are placed is a map from paths to values.
use famepy.Prelude.{
  ◌≡◌, ◌≢◌, ◌⊎◌, refl, sym, ◌∙◌, ap, subst, Bool, true, false, Bool-cases, inl, inr, Option, none,
  some, [], ◌∷◌, bytes_eq, bytes_eq_iff, if◌then◌else◌,
}
use famepy.Errors.{Result, ok, err}
use famepy.Data.Results.{err-ok, ok-injective}
use famepy.Bridge.Naming.{Str, Key}
use famepy.Bridge.Naming.Collisions.{Diverge, IsPath}
use famepy.Bridge.Workspaces.{
  Workspace, Entry, empty, bound, value, space, get_entry, set_entry, set_space, child_of, within,
  place, found_value, found_space, find,
}

eq_cases : (s t : Str) → (s ≡ t) ⊎ (s ≢ t)
eq_cases s t = elim (Bool-cases (bytes_eq s t)) [
  | inl e ↦ inl ((bytes_eq_iff s t).0 e)
  | inr e ↦ inr (λ q. refused (sym e ∙ (bytes_eq_iff s t).1 q))
]
  where
    refused : false ≡ true → ⊥
    refused q = cc

module _ {V : Type 0} where
  get-set_same : (s : Str) (x : Entry V) (w : Workspace V) → get_entry s (set_entry s x w) ≡ some x
  unfolding get_entry set_entry
  get-set_same s x empty = rw ((bytes_eq_iff s s).1 refl) refl
  get-set_same s x (bound t e w) = pick (bytes_eq t s) refl (get-set_same s x w)
    where
      pick :
          (b : Bool)
          → bytes_eq t s ≡ b
          → get_entry s (set_entry s x w) ≡ some x
          → get_entry s (if b then bound t x w else bound t e (set_entry s x w)) ≡ some x
      pick true q h = rw q refl
      pick false q h = rw q h

  get-set_other :
      (s t : Str) (x : Entry V) (w : Workspace V)
      → s ≢ t
      → get_entry t (set_entry s x w) ≡ get_entry t w
  unfolding get_entry set_entry
  get-set_other s t x empty n = rw (apart s t n) refl
    where
      apart : (s t : Str) → s ≢ t → bytes_eq s t ≡ false
      apart s t n = elim (Bool-cases (bytes_eq s t)) [
        | inl e ↦ absurd (n ((bytes_eq_iff s t).0 e))
        | inr e ↦ e
      ]
  get-set_other s t x (bound u e w) n = pick (bytes_eq u s) refl (get-set_other s t x w n)
    where
      pick :
          (b : Bool)
          → bytes_eq u s ≡ b
          → get_entry t (set_entry s x w) ≡ get_entry t w
          → get_entry t (if b then bound u x w else bound u e (set_entry s x w))
            ≡ get_entry t (bound u e w)
      pick true q h = rw (apart (λ r. n (sym ((bytes_eq_iff u s).0 q) ∙ r))) refl
        where
          apart : u ≢ t → bytes_eq u t ≡ false
          apart m = elim (Bool-cases (bytes_eq u t)) [
            | inl e ↦ absurd (m ((bytes_eq_iff u t).0 e))
            | inr e ↦ e
          ]
      pick false q h = ap (λ r. if bytes_eq u t then some e else r) h

  -- one step down
  place-step :
      (s t : Str) (k : Key) (v : V) (w w' : Workspace V)
      → place (s ∷ t ∷ k) v w ≡ ok w'
      → (c : Workspace V) × (c' : Workspace V) × (child_of (get_entry s w) ≡ ok c)
        × (place (t ∷ k) v c ≡ ok c')
        × (set_entry s (space c') w ≡ w')
  unfolding place
  place-step s t k v w w' e = go (child_of (get_entry s w)) refl e
    where
      down :
          (c : Workspace V) (r : Result (Workspace V))
          → child_of (get_entry s w) ≡ ok c
          → place (t ∷ k) v c ≡ r
          → set_space s w r ≡ ok w'
          → (c : Workspace V) × (c' : Workspace V) × (child_of (get_entry s w) ≡ ok c)
            × (place (t ∷ k) v c ≡ ok c')
            × (set_entry s (space c') w ≡ w')
      down c (ok c') q p e = (c, c', q, p, ok-injective e)
      down c (err x) q p e = absurd (err-ok e)

      go :
          (r : Result (Workspace V))
          → child_of (get_entry s w) ≡ r
          → set_space s w (within r (place (t ∷ k) v)) ≡ ok w'
          → (c : Workspace V) × (c' : Workspace V) × (child_of (get_entry s w) ≡ ok c)
            × (place (t ∷ k) v c ≡ ok c')
            × (set_entry s (space c') w ≡ w')
      go (ok c) q e = down c (place (t ∷ k) v c) q refl e
      go (err x) q e = absurd (err-ok e)

  -- what is found below an entry depends on that entry
  find-entry :
      (t : Str) (l : Key) (w w' : Workspace V)
      → get_entry t w' ≡ get_entry t w
      → find (t ∷ l) w' ≡ find (t ∷ l) w
  unfolding find
  find-entry t [] w w' e = ap found_value e
  find-entry t (x ∷ l) w w' e = ap (λ o. found_space o (find (x ∷ l))) e

  find-empty : (l : Key) (e : Workspace V) → e ≡ empty → find l e ≡ none
  unfolding find get_entry
  find-empty [] e q = refl
  find-empty (s ∷ []) e q = ap (λ x. found_value (get_entry s x)) q
  find-empty (s ∷ t ∷ l) e q = ap (λ x. found_space (get_entry s x) (find (t ∷ l))) q

  find-child :
      (s x : Str) (l : Key) (w c : Workspace V)
      → child_of (get_entry s w) ≡ ok c
      → find (s ∷ x ∷ l) w ≡ find (x ∷ l) c
  unfolding find
  find-child s x l w c e = go (get_entry s w) e
    where
      go :
          (o : Option (Entry V)) → child_of o ≡ ok c → found_space o (find (x ∷ l)) ≡ find (x ∷ l) c
      go none e = sym (find-empty (x ∷ l) c (sym (ok-injective e)))
      go (some (space d)) e = ap (find (x ∷ l)) (ok-injective e)
      go (some (value v)) e = absurd (err-ok e)

  find-set_space :
      (s x : Str) (l : Key) (w c : Workspace V)
      → find (s ∷ x ∷ l) (set_entry s (space c) w) ≡ find (x ∷ l) c
  unfolding find
  find-set_space s x l w c = ap (λ o. found_space o (find (x ∷ l))) (get-set_same s (space c) w)

  pub place-find_same :
      (k : Key) (v : V) (w w' : Workspace V) → place k v w ≡ ok w' → find k w' ≡ some v
  unfolding place find
  place-find_same [] v w w' e = absurd (err-ok e)
  place-find_same (s ∷ []) v w w' e =
      ap (λ x. found_value (get_entry s x)) (sym (ok-injective e))
      ∙ ap found_value (get-set_same s (value v) w)
  place-find_same (s ∷ t ∷ k) v w w' e =
      let (c, c', ec, ep, ew) = place-step s t k v w w' e in
      ap (find (s ∷ t ∷ k)) (sym ew) ∙ find-set_space s t k w c' ∙ place-find_same (t ∷ k) v c c' ep

  pub place-find_other :
      (k l : Key) (v : V) (w w' : Workspace V)
      → place k v w ≡ ok w'
      → Diverge k l
      → find l w' ≡ find l w
  unfolding place
  place-find_other [] l v w w' e d = absurd d
  place-find_other (s ∷ k) [] v w w' e d = absurd d
  place-find_other (s ∷ []) (u ∷ l) v w w' e (inr d) = absurd d
  place-find_other (s ∷ []) (u ∷ l) v w w' e (inl n) =
      find-entry u l w w'
        (ap (get_entry u) (sym (ok-injective e)) ∙ get-set_other s u (value v) w n)
  place-find_other (s ∷ t ∷ k) (u ∷ l) v w w' e (inl n) =
      let (c, c', ec, ep, ew) = place-step s t k v w w' e in
      find-entry u l w w' (ap (get_entry u) (sym ew) ∙ get-set_other s u (space c') w n)
  place-find_other (s ∷ t ∷ k) (u ∷ []) v w w' e (inr d) = absurd d
  place-find_other (s ∷ t ∷ k) (u ∷ x ∷ l) v w w' e (inr d) =
      let (c, c', ec, ep, ew) = place-step s t k v w w' e in
      let deeper = place-find_other (t ∷ k) (x ∷ l) v c c' ep d in
      elim (eq_cases s u) [
        | inr n ↦
            find-entry u (x ∷ l) w w' (ap (get_entry u) (sym ew) ∙ get-set_other s u (space c') w n)
        | inl q ↦
            subst (λ y. find (y ∷ x ∷ l) w' ≡ find (y ∷ x ∷ l) w) q
              (ap (find (s ∷ x ∷ l)) (sym ew)
                ∙ find-set_space s x l w c'
                ∙ deeper
                ∙ sym (find-child s x l w c ec))
      ]

  -- a value may be placed at the path
  abbrev pub Room : Key → Workspace V → Type 0
  Room l w = (v : V) → (w' : Workspace V) × (place l v w ≡ ok w')

  -- room further down
  Room-step :
      (s t : Str) (l : Key) (w c : Workspace V)
      → child_of (get_entry s w) ≡ ok c
      → Room (t ∷ l) c
      → Room (s ∷ t ∷ l) w
  unfolding place
  Room-step s t l w c e room v =
      let (c', p) = room v in
      (
        set_entry s (space c') w,
        ap (λ r. set_space s w (within r (place (t ∷ l) v))) e ∙ ap (set_space s w) p,
      )

  Room-child :
      (s t : Str) (l : Key) (w c : Workspace V)
      → child_of (get_entry s w) ≡ ok c
      → Room (s ∷ t ∷ l) w
      → Room (t ∷ l) c
  Room-child s t l w c e room v =
      let (w', p) = room v in
      let (d, d', ed, ep, ew) = place-step s t l v w w' p in
      (d', ap (place (t ∷ l) v) (ok-injective (sym e ∙ ed)) ∙ ep)

  Room-entry :
      (t : Str) (l : Key) (w w' : Workspace V)
      → get_entry t w' ≡ get_entry t w
      → Room (t ∷ l) w
      → Room (t ∷ l) w'
  unfolding place
  Room-entry t [] w w' e room v = (set_entry t (value v) w', refl)
  Room-entry t (x ∷ l) w w' e room v =
      let (w'', p) = room v in
      let (c, c', ec, ep, ew) = place-step t x l v w w'' p in
      (
        set_entry t (space c') w',
        ap (λ r. set_space t w' (within r (place (x ∷ l) v))) (ap child_of e ∙ ec)
            ∙ ap (set_space t w') ep,
      )

  pub Room-empty : (l : Key) → IsPath l → Room l empty
  unfolding place get_entry
  Room-empty [] p v = absurd p
  Room-empty (s ∷ []) p v = (set_entry s (value v) empty, refl)
  Room-empty (s ∷ t ∷ l) p v =
      let (c', q) = Room-empty (t ∷ l) tt v in
      (set_entry s (space c') empty, ap (set_space s empty) q)

  pub place-Room :
      (k l : Key) (v : V) (w w' : Workspace V)
      → place k v w ≡ ok w'
      → Diverge k l
      → Room l w
      → Room l w'
  unfolding place
  place-Room [] l v w w' e d room = absurd d
  place-Room (s ∷ k) [] v w w' e d room = absurd d
  place-Room (s ∷ []) (u ∷ l) v w w' e (inr d) room = absurd d
  place-Room (s ∷ []) (u ∷ l) v w w' e (inl n) room =
      Room-entry u l w w'
        (ap (get_entry u) (sym (ok-injective e)) ∙ get-set_other s u (value v) w n) room
  place-Room (s ∷ t ∷ k) (u ∷ l) v w w' e (inl n) room =
      let (c, c', ec, ep, ew) = place-step s t k v w w' e in
      Room-entry u l w w' (ap (get_entry u) (sym ew) ∙ get-set_other s u (space c') w n) room
  place-Room (s ∷ t ∷ k) (u ∷ []) v w w' e (inr d) room = absurd d
  place-Room (s ∷ t ∷ k) (u ∷ x ∷ l) v w w' e (inr d) room =
      let (c, c', ec, ep, ew) = place-step s t k v w w' e in
      let deeper = place-Room (t ∷ k) (x ∷ l) v c c' ep d in
      elim (eq_cases s u) [
        | inr n ↦
            Room-entry u (x ∷ l) w w' (ap (get_entry u) (sym ew) ∙ get-set_other s u (space c') w n)
              room
        | inl q ↦
            Room-step u x l w' c'
              (ap child_of (
                ap (get_entry u) (sym ew)
                ∙ subst (λ y. get_entry y (set_entry s (space c') w) ≡ some (space c')) q
                    (get-set_same s (space c') w)))
              (deeper
                (Room-child u x l w c (subst (λ y. child_of (get_entry y w) ≡ ok c) q ec) room))
      ]
