-- ===== src/Retrieval/Regex/Kept.antt =====
-- What `pattern.sub` leaves of a text in which another pattern has no match.
use agentic_code_intelligenc.Prelude.{
  ℕ, zero, suc, ◌-◌, [], ◌∷◌, ◌++◌, append_assoc, length, drop, Text, ◌≡◌, sym, refl, inl, inr,
  arith,
}
use agentic_code_intelligenc.Retrieval.Regex.{Regex, Found, prefixes, sub}
use agentic_code_intelligenc.Retrieval.Regex.Results.{In}
use agentic_code_intelligenc.Retrieval.Regex.Prefixes.{Misses}
use agentic_code_intelligenc.Retrieval.Regex.Scrubbed.{
  IsClean, found_cases, sub_kept, sub_placed, Agree, none_either,
}

Agree-prefix : (mark : ℕ) (u v w : Text) → Agree mark (u ++ mark ∷ w) (u ++ v)
unfolding Agree
Agree-prefix mark [] v w = inl refl
Agree-prefix mark (c ∷ u) v w = inr (u ++ v, refl, Agree-prefix mark u v w)

Agree-append : (mark : ℕ) (u o s : Text) → Agree mark o s → Agree mark (u ++ o) (u ++ s)
unfolding Agree
Agree-append mark [] o s h = h
Agree-append mark (c ∷ u) o s h = inr (u ++ s, refl, Agree-append mark u o s h)

drop-append : (m s : Text) → drop (length m) (m ++ s) ≡ s
drop-append [] s = refl
drop-append (c ∷ m) s = drop-append m s

behind : (c d : ℕ) (m rest s : Text) → d ∷ (m ++ rest) ≡ c ∷ s → s ≡ m ++ rest
behind c d m rest s e = cc

-- What is passed over is the rest of the match.
rest_of :
    (c d : ℕ) (m s : Text) (x : Found)
    → x.matched ≡ d ∷ m
    → x.matched ++ x.rest ≡ c ∷ s
    → drop (length x.matched - 1) s ≡ x.rest
rest_of c d m s x em e =
    let e' : d ∷ (m ++ x.rest) ≡ c ∷ s = rw em at e in
    let passed : length (d ∷ m) - 1 ≡ length m = omega arith in
    rw em (rw passed (rw (behind c d m x.rest s e') (drop-append m x.rest)))

module _ (mark : ℕ) (name : Text) (r : Regex) (known : Misses mark name r) where
  IsClean-prefix :
      (u v o : Text) → IsClean r (u ++ v) → Agree mark o v → IsClean r o → IsClean r (u ++ o)
  unfolding IsClean Agree
  IsClean-prefix [] v o clean agree h = h
  IsClean-prefix (c ∷ u) v o (here, clean) agree h = (
    none_either mark name r known (c ∷ (u ++ o)) (c ∷ (u ++ v)) here
        (inr (u ++ v, refl, Agree-append mark u o v agree)),
    IsClean-prefix u v o clean agree h,
  )

  -- What may take the place of a match: a beginning of the text and then a word from `mark` on in
  -- which no match begins, or the match itself.
  pub data IsPlaced (s : Text) (x : Found) (out : Text) : Type 0 where
    hides :
        (u t v : Text)
        → u ++ v ≡ s
        → out ≡ u ++ mark ∷ t
        → ((o : Text) → IsClean r o → IsClean r (mark ∷ t ++ o))
        → IsPlaced s x out
    leaves :
        (d : ℕ) (m : Text)
        → x.matched ≡ d ∷ m
        → x.matched ++ x.rest ≡ s
        → out ≡ x.matched
        → IsPlaced s x out

  module _ (other : Regex) (f : Found → Text × ℕ)
      (places : (s : Text) (x : Found) → In x (prefixes other [] s) → IsPlaced s x (f x).0) where
    placed_agrees :
        (c : ℕ) (s : Text) (x : Found)
        → Agree mark (sub other f (length x.matched - 1) s).0 (drop (length x.matched - 1) s)
        → IsPlaced (c ∷ s) x (f x).0
        → Agree mark ((f x).0 ++ (sub other f (length x.matched - 1) s).0) (c ∷ s)
    placed_agrees c s x agree (IsPlaced.hides u t v e out stays) =
        rw (out, append_assoc u (mark ∷ t) (sub other f (length x.matched - 1) s).0, sym e)
          (Agree-prefix mark u v _)
    placed_agrees c s x agree (IsPlaced.leaves d m em e out) =
        let agree' : Agree mark (sub other f (length x.matched - 1) s).0 x.rest =
          rw (rest_of c d m s x em e) at agree in
        rw (out, sym e) (Agree-append mark x.matched _ x.rest agree')

    sub-Agree : (k : ℕ) (s : Text) → Agree mark (sub other f k s).0 (drop k s)
    unfolding Agree sub In
    sub-Agree zero [] = refl
    sub-Agree (suc k) [] = refl
    sub-Agree (suc k) (c ∷ s) = sub-Agree k s
    sub-Agree zero (c ∷ s) = elim (found_cases (prefixes other [] (c ∷ s))) [
      | inl e ↦ rw (sub_kept other f c s e) (inr (s, refl, sub-Agree zero s))
      | inr (x, xs, e) ↦
          let found : In x (prefixes other [] (c ∷ s)) = rw e (inl refl) in
          rw (sub_placed other f c s x xs e)
            (placed_agrees c s x (sub-Agree (length x.matched - 1) s) (places (c ∷ s) x found))
    ]

    IsClean-placed :
        (c : ℕ) (s : Text) (x : Found)
        → IsClean r (c ∷ s)
        → IsClean r (sub other f (length x.matched - 1) s).0
        → IsPlaced (c ∷ s) x (f x).0
        → IsClean r ((f x).0 ++ (sub other f (length x.matched - 1) s).0)
    unfolding Agree
    IsClean-placed c s x clean h (IsPlaced.hides u t v e out stays) =
        let o = (sub other f (length x.matched - 1) s).0 in
        let clean' : IsClean r (u ++ v) = rw e clean in
        rw (out, append_assoc u (mark ∷ t) o)
          (IsClean-prefix u v (mark ∷ t ++ o) clean' (inl refl) (stays o h))
    IsClean-placed c s x clean h (IsPlaced.leaves d m em e out) =
        let o = (sub other f (length x.matched - 1) s).0 in
        let clean' : IsClean r (x.matched ++ x.rest) = rw e clean in
        let agree : Agree mark o x.rest =
          rw (rest_of c d m s x em e) at (sub-Agree (length x.matched - 1) s) in
        rw out (IsClean-prefix x.matched x.rest o clean' agree h)

    -- Where `r` has no match, it has none after the other pattern gave way.
    pub IsClean-sub_other : (k : ℕ) (s : Text) → IsClean r s → IsClean r (sub other f k s).0
    unfolding IsClean sub In Agree
    IsClean-sub_other k [] clean = tt
    IsClean-sub_other (suc k) (c ∷ s) (here, clean) = IsClean-sub_other k s clean
    IsClean-sub_other zero (c ∷ s) (here, clean) = elim (found_cases (prefixes other [] (c ∷ s))) [
      | inl e ↦ rw (sub_kept other f c s e) (
        none_either mark name r known (c ∷ (sub other f 0 s).0) (c ∷ s) here
            (inr (s, refl, sub-Agree zero s)),
        IsClean-sub_other zero s clean,
      )
      | inr (x, xs, e) ↦
          let found : In x (prefixes other [] (c ∷ s)) = rw e (inl refl) in
          rw (sub_placed other f c s x xs e) (
            IsClean-placed c s x (here, clean) (IsClean-sub_other (length x.matched - 1) s clean)
              (places (c ∷ s) x found))
    ]
