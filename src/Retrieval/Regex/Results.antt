-- ===== src/Retrieval/Regex/Results.antt =====
-- Being one of the matches in a list of them.
use agentic_code_intelligenc.Prelude.{List, [], ◌∷◌, ◌++◌, map, ap, ◌≡◌, refl, ◌⊎◌, inl, inr}
use agentic_code_intelligenc.Retrieval.Regex.{Found, after, each}

-- `f` is one of the matches.
unfoldable pub In : Found → List Found → Type 0
In f [] = ⊥
In f (x ∷ found) = (f ≡ x) ⊎ In f found

pub In-append_left : (f : Found) (l k : List Found) → In f l → In f (l ++ k)
unfolding In
In-append_left f [] k h = elim h [ ]
In-append_left f (x ∷ l) k (inl e) = inl e
In-append_left f (x ∷ l) k (inr h) = inr (In-append_left f l k h)

pub In-append_right : (f : Found) (l k : List Found) → In f k → In f (l ++ k)
unfolding In
In-append_right f [] k h = h
In-append_right f (x ∷ l) k h = inr (In-append_right f l k h)

pub In-append : (f : Found) (l k : List Found) → In f (l ++ k) → In f l ⊎ In f k
unfolding In
In-append f [] k h = inr h
In-append f (x ∷ l) k (inl e) = inl (inl e)
In-append f (x ∷ l) k (inr h) = elim (In-append f l k h) [ inl h' ↦ inl (inr h') | inr h' ↦ inr h' ]

pub In-map : (h : Found → Found) (x : Found) (l : List Found) → In x l → In (h x) (map h l)
unfolding In
In-map h x [] i = elim i [ ]
In-map h x (y ∷ l) (inl e) = inl (ap h e)
In-map h x (y ∷ l) (inr i) = inr (In-map h x l i)

pub map-In :
    (h : Found → Found) (f : Found) (l : List Found)
    → In f (map h l)
    → (x : Found) × In x l × (f ≡ h x)
unfolding In
map-In h f [] i = elim i [ ]
map-In h f (y ∷ l) (inl e) = (y, inl refl, e)
map-In h f (y ∷ l) (inr i) = let (x, i', e) = map-In h f l i in (x, inr i', e)

pub In-each :
    (next : Found → List Found) (x y : Found) (l : List Found)
    → In x l
    → In y (next x)
    → In (after x.matched y) (each next l)
unfolding In each
In-each next x y [] h i = elim h [ ]
In-each next x y (z ∷ l) (inl e) i =
    let i' : In y (next z) = rw e at i in
    In-append_left (after x.matched y) (map (after z.matched) (next z)) (each next l)
      (rw e (In-map (after z.matched) y (next z) i'))
In-each next x y (z ∷ l) (inr h) i =
    In-append_right (after x.matched y) (map (after z.matched) (next z)) (each next l)
      (In-each next x y l h i)

pub each-In :
    (next : Found → List Found) (f : Found) (l : List Found)
    → In f (each next l)
    → (x : Found) × (y : Found) × In x l × In y (next x) × (f ≡ after x.matched y)
unfolding In each
each-In next f [] h = elim h [ ]
each-In next f (z ∷ l) h = elim (In-append f (map (after z.matched) (next z)) (each next l) h) [
  | inl i ↦ let (y, i', e) = map-In (after z.matched) f (next z) i in (z, y, inl refl, i', e)
  | inr i ↦ let (x, y, hx, hy, e) = each-In next f l i in (x, y, inr hx, hy, e)
]
