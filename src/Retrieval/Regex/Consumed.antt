-- ===== src/Retrieval/Regex/Consumed.antt =====
-- Patterns that match no empty text, and what a back reference takes.
use agentic_code_intelligenc.Prelude.{
  ℕ, zero, suc, ◌==◌, Bool, [], ◌∷◌, ◌++◌, map, Text, ◌≡◌, refl, ◌⊎◌, inl, inr, Bool-cases,
}
use agentic_code_intelligenc.Retrieval.Regex.{
  Regex, Groups, Found, after, named, repeats, literal_at, one_of, prefixes,
}
use agentic_code_intelligenc.Retrieval.Regex.Results.{In, In-append, map-In, each-In}

-- No match of the pattern is empty.
unfoldable pub Consumes : Regex → Type 0
Consumes (Regex.one p) = Unit
Consumes (Regex.repeat zero p) = ⊥
Consumes (Regex.repeat (suc n) p) = Unit
Consumes Regex.empty = ⊥
Consumes (Regex.seq a b) = Consumes a ⊎ Consumes b
Consumes (Regex.alt a b) = Consumes a × Consumes b
Consumes (Regex.group name a) = Consumes a
Consumes (Regex.again name) = ⊥

abbrev pub Filled : Text → Type 0
Filled u = (d : ℕ) × (m : Text) × (u ≡ d ∷ m)

pub Filled-append_left : (u v : Text) → Filled u → Filled (u ++ v)
Filled-append_left u v (d, m, e) = (d, m ++ v, rw e refl)

pub Filled-append_right : (u v : Text) → Filled v → Filled (u ++ v)
Filled-append_right [] v h = h
Filled-append_right (c ∷ u) v h = (c, u ++ v, refl)

Filled-one_of :
    (p : ℕ → Bool) (g : Groups) (s : Text) (f : Found) → In f (one_of p g s) → Filled f.matched
unfolding In
Filled-one_of p g [] f h = elim h [ ]
Filled-one_of p g (c ∷ s) f h = elim (Bool-cases (p c)) [
  | inl e ↦
      let h' : In f (record { matched = c ∷ []; rest = s; groups = g } ∷ []) = rw (In, e) at h in
      elim h' [ inl ex ↦ (c, [], rw ex refl) | inr none_left ↦ elim none_left [ ] ]
  | inr e ↦ let h' : In f [] = rw (In, e) at h in elim h' [ ]
]

Filled-repeats :
    (p : ℕ → Bool) (n : ℕ) (g : Groups) (s : Text) (f : Found)
    → In f (repeats (suc n) p g s)
    → Filled f.matched
unfolding repeats In
Filled-repeats p n g [] f h = elim h [ ]
Filled-repeats p n g (c ∷ s) f h = elim (Bool-cases (p c)) [
  | inl e ↦
      let h' : In f (map (after (c ∷ [])) (repeats n p g s)) = rw (In, e) at h in
      let (x, i, ex) = map-In (after (c ∷ [])) f (repeats n p g s) h' in (c, x.matched, rw ex refl)
  | inr e ↦ let h' : In f [] = rw (In, e) at h in elim h' [ ]
]

pub Filled-prefixes :
    (r : Regex) (g : Groups) (s : Text) (f : Found)
    → Consumes r
    → In f (prefixes r g s)
    → Filled f.matched
unfolding prefixes Consumes
Filled-prefixes (Regex.one p) g s f full h = Filled-one_of p g s f h
Filled-prefixes (Regex.repeat zero p) g s f full h = elim full [ ]
Filled-prefixes (Regex.repeat (suc n) p) g s f full h = Filled-repeats p n g s f h
Filled-prefixes Regex.empty g s f full h = elim full [ ]
Filled-prefixes (Regex.seq a b) g s f (inl full) h =
    let (x, y, hx, hy, e) = each-In (λ t. prefixes b t.groups t.rest) f (prefixes a g s) h in
    rw e (Filled-append_left x.matched y.matched (Filled-prefixes a g s x full hx))
Filled-prefixes (Regex.seq a b) g s f (inr full) h =
    let (x, y, hx, hy, e) = each-In (λ t. prefixes b t.groups t.rest) f (prefixes a g s) h in
    rw e (Filled-append_right x.matched y.matched (Filled-prefixes b x.groups x.rest y full hy))
Filled-prefixes (Regex.alt a b) g s f (fa, fb) h =
    elim (In-append f (prefixes a g s) (prefixes b g s) h) [
      | inl i ↦ Filled-prefixes a g s f fa i
      | inr i ↦ Filled-prefixes b g s f fb i
    ]
Filled-prefixes (Regex.group other a) g s f full h =
    let (x, i, e) = map-In (named other) f (prefixes a g s) h in
    rw e (Filled-prefixes a g s x full i)
Filled-prefixes (Regex.again other) g s f full h = elim full [ ]

-- A back reference takes a prefix and adds no group.
pub again_lem :
    (u : Text) (g : Groups) (s : Text) (f : Found)
    → In f (literal_at u g s)
    → (f.matched ++ f.rest ≡ s) × (f.groups ≡ g)
unfolding literal_at In
again_lem [] g s f (inl e) = (rw e refl, rw e refl)
again_lem [] g s f (inr h) = elim h [ ]
again_lem (c ∷ u) g [] f h = elim h [ ]
again_lem (c ∷ u) g (d ∷ s) f h = elim (Bool-cases (c == d)) [
  | inl e ↦
      let h' : In f (map (after (d ∷ [])) (literal_at u g s)) = rw (In, e) at h in
      let (x, i, ex) = map-In (after (d ∷ [])) f (literal_at u g s) h' in
      let (splits, same) = again_lem u g s x i in (rw ex (rw splits refl), rw ex same)
  | inr e ↦ let h' : In f [] = rw (In, e) at h in elim h' [ ]
]
