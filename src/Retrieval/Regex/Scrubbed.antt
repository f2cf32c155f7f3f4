-- ===== src/Retrieval/Regex/Scrubbed.antt =====
-- What `pattern.sub` leaves where each match gives way to one text whose first character the pattern
-- does not know: no match at all.
use agentic_code_intelligenc.Prelude.{
  ℕ, zero, suc, ◌+◌, ◌-◌, ◌==◌, true, not, List, [], ◌∷◌, ◌++◌, all, length, Text, ◌≡◌, refl, ◌⊎◌,
  inl, inr, arith,
}
use agentic_code_intelligenc.Retrieval.Regex.{Regex, Found, prefixes, sub}
use agentic_code_intelligenc.Retrieval.Regex.Results.{In}
use agentic_code_intelligenc.Retrieval.Regex.Prefixes.{before, Misses, Match-prefixes}

-- At no place of the text does a match begin.
unfoldable pub IsClean : Regex → Text → Type 0
IsClean r [] = Unit
IsClean r (c ∷ s) = (prefixes r [] (c ∷ s) ≡ []) × IsClean r s

pub found_cases : (l : List Found) → (l ≡ []) ⊎ ((x : Found) × (xs : List Found) × (l ≡ x ∷ xs))
found_cases [] = inl refl
found_cases (x ∷ xs) = inr (x, xs, refl)

module _ (r : Regex) (f : Found → Text × ℕ) where
  pub sub_kept :
      (c : ℕ) (s : Text)
      → prefixes r [] (c ∷ s) ≡ []
      → sub r f 0 (c ∷ s) ≡ (c ∷ (sub r f 0 s).0, (sub r f 0 s).1)
  unfolding sub
  sub_kept c s e = rw (sub, e) refl

  pub sub_placed :
      (c : ℕ) (s : Text) (x : Found) (xs : List Found)
      → prefixes r [] (c ∷ s) ≡ x ∷ xs
      → sub r f 0 (c ∷ s) ≡ (
        (f x).0 ++ (sub r f (length x.matched - 1) s).0,
        (f x).1 + (sub r f (length x.matched - 1) s).1,
      )
  unfolding sub
  sub_placed c s x xs e = rw (sub, e) refl

  -- A clean text is returned as it is, and nothing is counted.
  pub sub-IsClean : (s : Text) → IsClean r s → sub r f 0 s ≡ (s, 0)
  unfolding IsClean sub
  sub-IsClean [] clean = refl
  sub-IsClean (c ∷ s) (here, clean) = rw (sub_kept c s here) (rw (sub-IsClean s clean) refl)

-- `o` goes with `s` up to a place where it has `mark`.
unfoldable pub Agree : ℕ → Text → Text → Type 0
Agree mark [] s = s ≡ []
Agree mark (c ∷ o) s = (c ≡ mark) ⊎ ((s' : Text) × (s ≡ c ∷ s') × Agree mark o s')

first_other :
    (mark d : ℕ) (u : Text)
    → all (λ c. not (c == mark)) (d ∷ u) ≡ true
    → (¬ (d ≡ mark)) × (all (λ c. not (c == mark)) u ≡ true)
first_other mark d u h = (λ e. ground (arith), ground arith)

-- A prefix of `o` without `mark` is one of `s`.
prefix_of :
    (mark : ℕ) (u v s : Text)
    → all (λ c. not (c == mark)) u ≡ true
    → Agree mark (u ++ v) s
    → (v' : Text) × (u ++ v' ≡ s)
unfolding Agree
prefix_of mark [] v s misses agree = (s, refl)
prefix_of mark (d ∷ u) v s misses (inl same) = elim ((first_other mark d u misses).0 same) [ ]
prefix_of mark (d ∷ u) v s misses (inr (s', es, agree)) =
    let (v', e) = prefix_of mark u v s' (first_other mark d u misses).1 agree in
    (v', rw (e, es) refl)

module _ (mark : ℕ) (name : Text) (r : Regex) (known : Misses mark name r) where
  -- No match in `s`, none in `o`.
  pub none_either : (o s : Text) → prefixes r [] s ≡ [] → Agree mark o s → prefixes r [] o ≡ []
  unfolding In
  none_either o s none_here agree = elim (found_cases (prefixes r [] o)) [
    | inl e ↦ e
    | inr (x, xs, e) ↦ elim (impossible x xs e) [ ]
  ]
    where
      impossible : (x : Found) (xs : List Found) → prefixes r [] o ≡ x ∷ xs → ⊥
      impossible x xs e =
          let found : In x (prefixes r [] o) = rw e (inl refl) in
          let m = Match-prefixes mark name r [] o x known found in
          let agree' : Agree mark (x.matched ++ x.rest) s = rw m.splits agree in
          let (v, ev) = prefix_of mark x.matched x.rest s m.misses agree' in
          let there : In (before v x) (prefixes r [] (x.matched ++ v)) = m.moves v in
          let there' : In (before v x) (prefixes r [] s) = rw ev at there in
          let nowhere : In (before v x) [] = rw none_here at there' in nowhere

  module _ (f : Found → Text × ℕ) (t : Text)
      (places : (s : Text) (x : Found) → In x (prefixes r [] s) → f x ≡ (mark ∷ t, 1))
      (stays : (o : Text) → IsClean r o → IsClean r (mark ∷ t ++ o)) where
    placed_text :
        (c : ℕ) (s : Text) (x : Found) (xs : List Found)
        → prefixes r [] (c ∷ s) ≡ x ∷ xs
        → (sub r f 0 (c ∷ s)).0 ≡ mark ∷ t ++ (sub r f (length x.matched - 1) s).0
    unfolding In
    placed_text c s x xs e =
        let found : In x (prefixes r [] (c ∷ s)) = rw e (inl refl) in
        rw (sub_placed r f c s x xs e) (rw (places (c ∷ s) x found) refl)

    sub-Agree : (s : Text) → Agree mark (sub r f 0 s).0 s
    unfolding Agree sub
    sub-Agree [] = refl
    sub-Agree (c ∷ s) = elim (found_cases (prefixes r [] (c ∷ s))) [
      | inl e ↦ rw (sub_kept r f c s e) (inr (s, refl, sub-Agree s))
      | inr (x, xs, e) ↦ rw (placed_text c s x xs e) (inl refl)
    ]

    -- The text that `sub` leaves is clean.
    pub IsClean-sub : (k : ℕ) (s : Text) → IsClean r (sub r f k s).0
    unfolding IsClean sub Agree
    IsClean-sub k [] = tt
    IsClean-sub (suc k) (c ∷ s) = IsClean-sub k s
    IsClean-sub zero (c ∷ s) = elim (found_cases (prefixes r [] (c ∷ s))) [
      | inl e ↦ rw (sub_kept r f c s e) (
        none_either (c ∷ (sub r f 0 s).0) (c ∷ s) e (inr (s, refl, sub-Agree s)),
        IsClean-sub zero s,
      )
      | inr (x, xs, e) ↦
          rw (placed_text c s x xs e)
            (stays (sub r f (length x.matched - 1) s).0 (IsClean-sub (length x.matched - 1) s))
    ]
