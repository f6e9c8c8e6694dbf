-- ===== src/Bridge/Workspaces/Placing.antt =====
-- Values placed at separate paths are found at their paths.
use famepy.Prelude.{◌≡◌, refl, sym, ◌∙◌, ap, inl, inr, some, List, [], ◌∷◌, All}
use famepy.Errors.{Result, ok, err}
use famepy.Bridge.Naming.{Key}
use famepy.Bridge.Naming.Collisions.{Diverge, IsPath}
use famepy.Bridge.Workspaces.{Workspace, empty, place, find}
use famepy.Bridge.Workspaces.Places.{
  place-find_same, place-find_other, place-Room, Room, Room-empty,
}

pub Diverge-sym : (k l : Key) → Diverge k l → Diverge l k
Diverge-sym [] l d = absurd d
Diverge-sym (s ∷ k) [] d = absurd d
Diverge-sym (s ∷ k) (t ∷ l) (inl n) = inl (λ q. n (sym q))
Diverge-sym (s ∷ k) (t ∷ l) (inr d) = inr (Diverge-sym k l d)

-- the values placed one after another
unfoldable pub place_all : {V : Type 0} → List (Key × V) → Workspace V → Result (Workspace V)
place_all [] w = ok w
place_all ((k, v) ∷ rest) w = elim (place k v w) [ ok w' ↦ place_all rest w' | err e ↦ err e ]

module _ {V : Type 0} where
  abbrev Holds : Workspace V → Key × V → Type 0
  Holds w p = find p.0 w ≡ some p.1

  abbrev AllRoom : List (Key × V) → Workspace V → Type 0
  AllRoom ps w = All (λ p. Room p.0 w) ps

  abbrev DivergesFrom : Key → List (Key × V) → Type 0
  DivergesFrom k ps = All (λ p. Diverge k p.0) ps

  -- no key of the list is another or lies above another
  abbrev pub Separate : List (Key × V) → Type 0
  Separate [] = Unit
  Separate (p ∷ ps) = DivergesFrom p.0 ps × Separate ps

  AllRoom-place :
      (k : Key) (v : V) (w w' : Workspace V) (ps : List (Key × V))
      → place k v w ≡ ok w'
      → DivergesFrom k ps
      → AllRoom ps w
      → AllRoom ps w'
  AllRoom-place k v w w' [] e d r = tt
  AllRoom-place k v w w' (p ∷ ps) e d r =
      (place-Room k p.0 v w w' e d.0 r.0, AllRoom-place k v w w' ps e d.1 r.1)

  -- what is placed later leaves a separate key as it was
  place_all-lem :
      (ps : List (Key × V)) (w : Workspace V)
      → Separate ps
      → AllRoom ps w
      → (w' : Workspace V) × (place_all ps w ≡ ok w')
        × All (Holds w') ps
        × ((l : Key) → DivergesFrom l ps → find l w' ≡ find l w)
  unfolding place_all
  place_all-lem [] w s r = (w, refl, tt, λ l d. refl)
  place_all-lem ((k, v) ∷ ps) w s r =
      let (w1, e) = r.0 v in
      let (w2, e2, held, kept) = place_all-lem ps w1 s.1 (AllRoom-place k v w w1 ps e s.0 r.1) in
      (
        w2,
        ap (λ (x : Result (Workspace V)). elim x [ ok y ↦ place_all ps y | err z ↦ err z ]) e ∙ e2,
        (kept k s.0 ∙ place-find_same k v w w1 e, held),
        λ l d. kept l d.1 ∙ place-find_other k l v w w1 e (Diverge-sym l k d.0),
      )

  empty-AllRoom : (ps : List (Key × V)) → All (λ p. IsPath p.0) ps → AllRoom ps empty
  empty-AllRoom [] h = tt
  empty-AllRoom (p ∷ ps) h = (Room-empty p.0 h.0, empty-AllRoom ps h.1)

  -- Values that are placed at separate paths of an empty workspace are all placed, and each is
  -- found at its path: the workspace is a map from those paths to the values.
  pub place_all-found :
      (ps : List (Key × V))
      → All (λ p. IsPath p.0) ps
      → Separate ps
      → (w : Workspace V) × (place_all ps empty ≡ ok w) × All (λ p. find p.0 w ≡ some p.1) ps
  place_all-found ps paths s =
      let (w, e, held, kept) = place_all-lem ps empty s (empty-AllRoom ps paths) in (w, e, held)
