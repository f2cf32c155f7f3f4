-- ===== src/Retrieval/Redaction/Markers.antt =====
-- The markers of retrieval/redaction.py next to the two rules that know a secret by its shape.
use agentic_code_intelligenc.Prelude.{
  ℕ, ◌==◌, Bool, true, false, not, ◌&&◌, ◌||◌, [], ◌∷◌, ◌++◌, all, append_assoc, Text, codes,
  text_eq, ◌≡◌, refl, Bool-cases, inl, inr, arith,
}
use agentic_code_intelligenc.Retrieval.Regex.{Regex, Found, prefixes, each, group_text}
use agentic_code_intelligenc.Retrieval.Regex.Results.{In}
use agentic_code_intelligenc.Retrieval.Regex.Prefixes.{
  Misses, missing, Misses-missing, Match-prefixes,
}
use agentic_code_intelligenc.Retrieval.Regex.Scrubbed.{IsClean}
use agentic_code_intelligenc.Retrieval.Redaction.{marker, literal, provider_api_key, jwt, place}

-- the first character of a marker
abbrev pub opening : ℕ
opening = 171

abbrev pub unnamed : Text
unnamed = codes "name"

pub Misses-provider_api_key : Misses opening unnamed provider_api_key
unfolding missing provider_api_key literal text_eq
Misses-provider_api_key = Misses-missing opening unnamed provider_api_key refl

pub Misses-jwt : Misses opening unnamed jwt
unfolding missing jwt literal text_eq
Misses-jwt = Misses-missing opening unnamed jwt refl

-- A rule without a name puts its marker in the place of each match.
pub place_shape :
    (reason : Text) (r : Regex) (s : Text) (x : Found)
    → Misses opening unnamed r
    → In x (prefixes r [] s)
    → place reason x ≡ (marker reason, 1)
unfolding place group_text
place_shape reason r s x known found =
    let m = Match-prefixes opening unnamed r [] s x known found in rw (place, m.keeps) refl

-- The matches of `r` begin with the two characters `a` and `b`.
record BeginsWith (r : Regex) (a b : ℕ) : Type 0 where
  pub first : (c : ℕ) (s : Text) → not (c == a) ≡ true → prefixes r [] (c ∷ s) ≡ []
  pub second : (d : ℕ) (s : Text) → not (d == b) ≡ true → prefixes r [] (a ∷ d ∷ s) ≡ []

-- `sk`
BeginsWith-provider_api_key : BeginsWith provider_api_key 115 107
unfolding prefixes provider_api_key literal each
BeginsWith-provider_api_key = record {
  first = λ c s h. let e : (c == 115) ≡ false = ground arith in rw e refl;
  second = λ d s h. let e : (d == 107) ≡ false = ground arith in rw e refl;
}

-- `ey`
BeginsWith-jwt : BeginsWith jwt 101 121
unfolding prefixes jwt literal each
BeginsWith-jwt = record {
  first = λ c s h. let e : (c == 101) ≡ false = ground arith in rw e refl;
  second = λ d s h. let e : (d == 121) ≡ false = ground arith in rw e refl;
}

-- no `a` with a `b` behind it, nor at the end
unfoldable pub pairless : ℕ → ℕ → Text → Bool
pairless a b [] = true
pairless a b (c ∷ []) = not (c == a)
pairless a b (c ∷ d ∷ u) = (not (c == a) || not (d == b)) && pairless a b (d ∷ u)

no_match_here :
    (r : Regex) (a b c d : ℕ) (s : Text)
    → BeginsWith r a b
    → (not (c == a) || not (d == b)) ≡ true
    → prefixes r [] (c ∷ d ∷ s) ≡ []
no_match_here r a b c d s begins h = elim (Bool-cases (c == a)) [
  | inl e ↦ let same : c ≡ a = grind arith in rw same (begins.second d s (ground arith))
  | inr e ↦ begins.first c (d ∷ s) (ground arith)
]

-- A word without the pair can stand before a clean text.
IsClean-word :
    (r : Regex) (a b : ℕ)
    → BeginsWith r a b
    → (u o : Text) → pairless a b u ≡ true
    → IsClean r o
    → IsClean r (u ++ o)
unfolding IsClean pairless
IsClean-word r a b begins [] o h clean = clean
IsClean-word r a b begins (c ∷ []) o h clean = (begins.first c o h, clean)
IsClean-word r a b begins (c ∷ d ∷ u) o h clean = (
  no_match_here r a b c d (u ++ o) begins (ground arith),
  IsClean-word r a b begins (d ∷ u) o (ground arith) clean,
)

-- as a text without an `a`
pairless_lem : (a b : ℕ) (u : Text) → all (λ c. not (c == a)) u ≡ true → pairless a b u ≡ true
unfolding pairless
pairless_lem a b [] h = refl
pairless_lem a b (c ∷ []) h = ground arith
pairless_lem a b (c ∷ d ∷ u) h = let rest = pairless_lem a b (d ∷ u) (ground arith) in ground arith

-- No key and no token begins in what takes the place of a match, from the marker on.
module _ (reason quote : Text) where
  pub provider_behind :
      pairless 115 107 (marker reason) ≡ true
      → all (λ c. not (c == 115)) quote ≡ true
      → (o : Text) → IsClean provider_api_key o
      → IsClean provider_api_key ((marker reason ++ quote) ++ o)
  provider_behind h no_s o clean = rw (append_assoc (marker reason) quote o) (
      IsClean-word provider_api_key 115 107 BeginsWith-provider_api_key (marker reason) (quote ++ o)
        h
        (IsClean-word provider_api_key 115 107 BeginsWith-provider_api_key quote o
          (pairless_lem 115 107 quote no_s) clean))

  pub jwt_behind :
      pairless 101 121 (marker reason) ≡ true
      → all (λ c. not (c == 101)) quote ≡ true
      → (o : Text) → IsClean jwt o
      → IsClean jwt ((marker reason ++ quote) ++ o)
  jwt_behind k no_e o clean = rw (append_assoc (marker reason) quote o) (
      IsClean-word jwt 101 121 BeginsWith-jwt (marker reason) (quote ++ o) k
        (IsClean-word jwt 101 121 BeginsWith-jwt quote o (pairless_lem 101 121 quote no_e) clean))
