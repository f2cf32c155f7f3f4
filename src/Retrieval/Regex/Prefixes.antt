-- ===== src/Retrieval/Regex/Prefixes.antt =====
-- What a match of a regular expression without back references depends on: the matched prefix alone.
use agentic_code_intelligenc.Prelude.{
  ℕ, zero, suc, ◌==◌, Bool, true, false, not, ◌&&◌, List, [], ◌∷◌, ◌++◌, all, all-append,
  append_assoc, map, Text, text_eq, ◌≡◌, ◌∙◌, refl, inl, inr, Bool-cases, arith,
}
use agentic_code_intelligenc.Retrieval.Regex.{
  Regex, Groups, Found, group_text, after, named, repeats, each, one_of, prefixes,
}
use agentic_code_intelligenc.Retrieval.Regex.Results.{
  In, In-append_left, In-append_right, In-append, In-map, map-In, In-each, each-In,
}

-- Behind the same matched prefix, another text may stand.
abbrev pub before : Text → Found → Found
before v f = record f { rest = v }

module _ (mark : ℕ) (name : Text) where
  -- No class has the character `mark`, no group is called `name`, and nothing is referred to.
  unfoldable pub Misses : Regex → Type 0
  Misses (Regex.one p) = p mark ≡ false
  Misses (Regex.repeat n p) = p mark ≡ false
  Misses Regex.empty = Unit
  Misses (Regex.seq a b) = Misses a × Misses b
  Misses (Regex.alt a b) = Misses a × Misses b
  Misses (Regex.group other a) = (text_eq other name ≡ false) × Misses a
  Misses (Regex.again other) = ⊥

  -- the same as a test
  unfoldable pub missing : Regex → Bool
  missing (Regex.one p) = not (p mark)
  missing (Regex.repeat n p) = not (p mark)
  missing Regex.empty = true
  missing (Regex.seq a b) = missing a && missing b
  missing (Regex.alt a b) = missing a && missing b
  missing (Regex.group other a) = not (text_eq other name) && missing a
  missing (Regex.again other) = false

  pub Misses-missing : (r : Regex) → missing r ≡ true → Misses r
  unfolding Misses missing
  Misses-missing (Regex.one p) h = ground arith
  Misses-missing (Regex.repeat n p) h = ground arith
  Misses-missing Regex.empty h = tt
  Misses-missing (Regex.seq a b) h =
      (Misses-missing a (ground arith), Misses-missing b (ground arith))
  Misses-missing (Regex.alt a b) h =
      (Misses-missing a (ground arith), Misses-missing b (ground arith))
  Misses-missing (Regex.group other a) h = (ground arith, Misses-missing a (ground arith))
  Misses-missing (Regex.again other) h = cc

  -- What is known of one match of `run` in a text `s`.
  pub record Match (run : Text → List Found) (g : Groups) (s : Text) (f : Found) : Type 0 where
    pub splits : f.matched ++ f.rest ≡ s
    pub misses : all (λ c. not (c == mark)) f.matched ≡ true
    pub keeps : group_text name f.groups ≡ group_text name g
    pub moves : (v : Text) → In (before v f) (run (f.matched ++ v))

  empty_lem :
      (run : Text → List Found) (g : Groups) (s : Text)
      → ((v : Text) → In (record { matched = []; rest = v; groups = g }) (run v))
      → Match run g s (record { matched = []; rest = s; groups = g })
  empty_lem run g s h = record { splits = refl; misses = refl; keeps = refl; moves = h }

  other_char : (p : ℕ → Bool) (c : ℕ) → p mark ≡ false → p c ≡ true → not (c == mark) ≡ true
  other_char p c h hc = elim (Bool-cases (c == mark)) [
    | inl e ↦ let same : c ≡ mark = grind arith in let hc' : p mark ≡ true = rw same at hc in cc
    | inr e ↦ rw e refl
  ]

  -- one more character of a class in front
  longer :
      (run : Text → List Found) (all_run : Text → List Found) (p : ℕ → Bool) (c : ℕ) (g : Groups)
      (s : Text) (x : Found)
      → p mark ≡ false
      → p c ≡ true
      → ((v : Text) (y : Found) → In y (run v) → In (after (c ∷ []) y) (all_run (c ∷ v)))
      → Match run g s x
      → Match all_run g (c ∷ s) (after (c ∷ []) x)
  longer run all_run p c g s x miss hc puts m = record {
    splits = rw m.splits refl;
    misses = rw (other_char p c miss hc, m.misses) refl;
    keeps = m.keeps;
    moves = λ v. puts (x.matched ++ v) (before v x) (m.moves v);
  }

  In-repeats_none :
      (p : ℕ → Bool) (g : Groups) (v : Text)
      → In (record { matched = []; rest = v; groups = g }) (repeats zero p g v)
  unfolding repeats In
  In-repeats_none p g [] = inl refl
  In-repeats_none p g (c ∷ s) = elim (Bool-cases (p c)) [
    | inl e ↦
        rw (In, e) (In-append_right _ (map (after (c ∷ [])) (repeats zero p g s)) _ (inl refl))
    | inr e ↦ rw (In, e) (inl refl)
  ]

  In-repeats_more :
      (p : ℕ → Bool) (c : ℕ) (g : Groups)
      → p c ≡ true
      → (n : ℕ) (v : Text) (y : Found) → In y (repeats n p g v)
      → In (after (c ∷ []) y) (repeats (suc n) p g (c ∷ v))
  unfolding repeats In
  In-repeats_more p c g e n v y i = rw (In, e) (In-map (after (c ∷ [])) y (repeats n p g v) i)

  In-repeats_again :
      (p : ℕ → Bool) (c : ℕ) (g : Groups)
      → p c ≡ true
      → (v : Text) (y : Found) → In y (repeats zero p g v)
      → In (after (c ∷ []) y) (repeats zero p g (c ∷ v))
  unfolding repeats In
  In-repeats_again p c g e v y i =
      rw (In, e)
        (In-append_left (after (c ∷ []) y) (map (after (c ∷ [])) (repeats zero p g v)) _
          (In-map (after (c ∷ [])) y (repeats zero p g v) i))

  Match-repeats :
      (p : ℕ → Bool) (g : Groups)
      → p mark ≡ false
      → (n : ℕ) (s : Text) (f : Found) → In f (repeats n p g s)
      → Match (repeats n p g) g s f
  unfolding repeats In
  Match-repeats p g miss zero [] f (inl e) =
      rw e (empty_lem (repeats zero p g) g [] (In-repeats_none p g))
  Match-repeats p g miss zero [] f (inr h) = elim h [ ]
  Match-repeats p g miss (suc n) [] f h = elim h [ ]
  Match-repeats p g miss zero (c ∷ s) f h = elim (Bool-cases (p c)) [
    | inl e ↦
        let h' : In f (
            map (after (c ∷ [])) (repeats zero p g s)
            ++ record { matched = []; rest = c ∷ s; groups = g } ∷ []) =
          rw (In, e) at h in
        elim (In-append f (map (after (c ∷ [])) (repeats zero p g s)) _ h') [
          | inl i ↦
              let (x, i', ex) = map-In (after (c ∷ [])) f (repeats zero p g s) i in
              rw ex (
                longer (repeats zero p g) (repeats zero p g) p c g s x miss e
                  (In-repeats_again p c g e) (Match-repeats p g miss zero s x i'))
          | inr (inl ex) ↦ rw ex (empty_lem (repeats zero p g) g (c ∷ s) (In-repeats_none p g))
          | inr (inr none_left) ↦ elim none_left [ ]
        ]
    | inr e ↦
        let h' : In f (record { matched = []; rest = c ∷ s; groups = g } ∷ []) = rw (In, e) at h in
        elim h' [
          | inl ex ↦ rw ex (empty_lem (repeats zero p g) g (c ∷ s) (In-repeats_none p g))
          | inr none_left ↦ elim none_left [ ]
        ]
  ]
  Match-repeats p g miss (suc n) (c ∷ s) f h = elim (Bool-cases (p c)) [
    | inl e ↦
        let h' : In f (map (after (c ∷ [])) (repeats n p g s)) = rw (In, e) at h in
        let (x, i, ex) = map-In (after (c ∷ [])) f (repeats n p g s) h' in
        rw ex (
          longer (repeats n p g) (repeats (suc n) p g) p c g s x miss e (In-repeats_more p c g e n)
            (Match-repeats p g miss n s x i))
    | inr e ↦ let h' : In f [] = rw (In, e) at h in elim h' [ ]
  ]

  Match-one_of :
      (p : ℕ → Bool) (g : Groups) (s : Text) (f : Found)
      → p mark ≡ false
      → In f (one_of p g s)
      → Match (one_of p g) g s f
  unfolding In
  Match-one_of p g [] f miss h = elim h [ ]
  Match-one_of p g (c ∷ s) f miss h = elim (Bool-cases (p c)) [
    | inl e ↦
        let h' : In f (record { matched = c ∷ []; rest = s; groups = g } ∷ []) = rw (In, e) at h in
        elim h' [
          | inl ex ↦ rw ex (record {
            splits = refl;
            misses = rw (other_char p c miss e) refl;
            keeps = refl;
            moves = λ v. rw (In, e) (inl refl);
          })
          | inr none_left ↦ elim none_left [ ]
        ]
    | inr e ↦ let h' : In f [] = rw (In, e) at h in elim h' [ ]
  ]

  Match-seq :
      (a : Text → List Found) (b : Groups → Text → List Found) (g : Groups) (s : Text) (x y : Found)
      → Match a g s x
      → Match (b x.groups) x.groups x.rest y
      → Match (λ t. each (λ f. b f.groups f.rest) (a t)) g s (after x.matched y)
  Match-seq a b g s x y mx my = record {
    splits = rw (append_assoc x.matched y.matched y.rest, my.splits) mx.splits;
    misses = rw (all-append, mx.misses, my.misses) refl;
    keeps = my.keeps ∙ mx.keeps;
    moves = λ v. rw (append_assoc x.matched y.matched v) (
        In-each (λ f. b f.groups f.rest) (before (y.matched ++ v) x) (before v y)
          (a (x.matched ++ (y.matched ++ v))) (mx.moves (y.matched ++ v)) (my.moves v));
  }

  pub Match-prefixes :
      (r : Regex) (g : Groups) (s : Text) (f : Found)
      → Misses r
      → In f (prefixes r g s)
      → Match (prefixes r g) g s f
  unfolding prefixes Misses In
  Match-prefixes (Regex.one p) g s f miss h = Match-one_of p g s f miss h
  Match-prefixes (Regex.repeat n p) g s f miss h = Match-repeats p g miss n s f h
  Match-prefixes Regex.empty g s f miss (inl e) =
      rw e (empty_lem (prefixes Regex.empty g) g s (λ v. inl refl))
  Match-prefixes Regex.empty g s f miss (inr h) = elim h [ ]
  Match-prefixes (Regex.seq a b) g s f (ha, hb) h =
      let (x, y, hx, hy, e) = each-In (λ t. prefixes b t.groups t.rest) f (prefixes a g s) h in
      rw e (
        Match-seq (prefixes a g) (prefixes b) g s x y (Match-prefixes a g s x ha hx)
          (Match-prefixes b x.groups x.rest y hb hy))
  Match-prefixes (Regex.alt a b) g s f (ha, hb) h =
      elim (In-append f (prefixes a g s) (prefixes b g s) h) [
        | inl i ↦
            let m = Match-prefixes a g s f ha i in
            record {
              splits = m.splits;
              misses = m.misses;
              keeps = m.keeps;
              moves = λ v. In-append_left _ _ (prefixes b g (f.matched ++ v)) (m.moves v);
            }
        | inr i ↦
            let m = Match-prefixes b g s f hb i in
            record {
              splits = m.splits;
              misses = m.misses;
              keeps = m.keeps;
              moves = λ v. In-append_right _ (prefixes a g (f.matched ++ v)) _ (m.moves v);
            }
      ]
  Match-prefixes (Regex.group other a) g s f (unlike, ha) h =
      let (x, i, e) = map-In (named other) f (prefixes a g s) h in
      let m = Match-prefixes a g s x ha i in
      rw e (record {
        splits = m.splits;
        misses = m.misses;
        keeps = rw (group_text, unlike) m.keeps;
        moves = λ v. In-map (named other) (before v x) (prefixes a g (x.matched ++ v)) (m.moves v);
      })
  Match-prefixes (Regex.again other) g s f miss h = elim miss [ ]
