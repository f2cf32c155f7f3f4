-- ===== src/Retrieval/Regex.antt =====
-- The regular expressions that retrieval/redaction.py uses, with the matching of Python's `re`: the
-- matches of a prefix in the order in which backtracking tries them, and `sub`.
pub mod Results
pub mod Prefixes
pub mod Consumed
pub mod Scrubbed
pub mod Kept
use agentic_code_intelligenc.Prelude.{
  ℕ, zero, suc, ◌-◌, ◌+◌, ◌==◌, Bool, true, false, Option, none, some, List, [], ◌∷◌, ◌++◌, map,
  length, if◌then◌else◌, Text, text_eq, starts_with, drop,
}

pub data Regex : Type 0 where
  -- one character of a class
  one : (ℕ → Bool) → Regex
  -- at least so many characters of a class, as many as there are
  repeat : ℕ → (ℕ → Bool) → Regex
  empty : Regex
  seq : Regex → Regex → Regex
  -- the first alternative is tried first
  alt : Regex → Regex → Regex
  -- `(?P<name>...)`
  group : Text → Regex → Regex
  -- `(?P=name)`
  again : Text → Regex

abbrev pub Groups : Type 0
Groups = List (Text × Text)

-- A matched prefix, the text behind it, and the groups.
pub record Found : Type 0 where
  pub matched : Text
  pub rest : Text
  pub groups : Groups

unfoldable pub group_text : Text → Groups → Option Text
group_text name [] = none
group_text name ((n, u) ∷ g) =
    let rest = group_text name g in if text_eq n name then some u else rest

abbrev pub after : Text → Found → Found
after u f = record f { matched = u ++ f.matched }

abbrev pub named : Text → Found → Found
named name f = record f { groups = (name, f.matched) ∷ f.groups }

unfoldable pub repeats : ℕ → (ℕ → Bool) → Groups → Text → List Found
repeats zero p g [] = record { matched = []; rest = []; groups = g } ∷ []
repeats (suc n) p g [] = []
repeats zero p g (c ∷ s) = elim (p c) [
  | true ↦
      map (after (c ∷ [])) (repeats zero p g s)
      ++ record { matched = []; rest = c ∷ s; groups = g } ∷ []
  | false ↦ record { matched = []; rest = c ∷ s; groups = g } ∷ []
]
repeats (suc n) p g (c ∷ s) = elim (p c) [
  | true ↦ map (after (c ∷ [])) (repeats n p g s)
  | false ↦ []
]

-- the matches that go on where each of these ends
unfoldable pub each : (Found → List Found) → List Found → List Found
each next [] = []
each next (f ∷ found) = map (after f.matched) (next f) ++ each next found

unfoldable pub literal_at : Text → Groups → Text → List Found
literal_at [] g s = record { matched = []; rest = s; groups = g } ∷ []
literal_at (c ∷ u) g [] = []
literal_at (c ∷ u) g (d ∷ s) = elim (c == d) [
  | true ↦ map (after (d ∷ [])) (literal_at u g s)
  | false ↦ []
]

abbrev pub one_of : (ℕ → Bool) → Groups → Text → List Found
one_of p g [] = []
one_of p g (c ∷ s) = if p c then record { matched = c ∷ []; rest = s; groups = g } ∷ [] else []

abbrev pub recalled : Option Text → Groups → Text → List Found
recalled none g s = []
recalled (some u) g s = literal_at u g s

-- the matches of a prefix, the first one is the match of `re`
unfoldable pub prefixes : Regex → Groups → Text → List Found
unfolding literal_at group_text repeats each
prefixes (Regex.one p) g s = one_of p g s
prefixes (Regex.repeat n p) g s = repeats n p g s
prefixes Regex.empty g s = record { matched = []; rest = s; groups = g } ∷ []
prefixes (Regex.seq a b) g s = each (λ f. prefixes b f.groups f.rest) (prefixes a g s)
prefixes (Regex.alt a b) g s = prefixes a g s ++ prefixes b g s
prefixes (Regex.group name a) g s = map (named name) (prefixes a g s)
prefixes (Regex.again name) g s = recalled (group_text name g) g s

-- `pattern.sub(f, text)`, where no match is empty: `f` gives what takes the place of a match and
-- what is counted for it. The number is how much of the last match is still to be passed over.
module _ (pattern_ : Regex) (f : Found → Text × ℕ) where
  unfoldable pub sub : ℕ → Text → Text × ℕ
  sub k [] = ([], 0)
  sub (suc k) (c ∷ s) = sub k s
  sub zero (c ∷ s) = elim (prefixes pattern_ [] (c ∷ s)) [
    | [] ↦ let (out, n) = sub zero s in (c ∷ out, n)
    | found ∷ _ ↦
        let (out, n) = sub (length found.matched - 1) s in
        let (place, m) = f found in (place ++ out, m + n)
  ]
