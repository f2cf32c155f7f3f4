-- ===== src/Orchestrator/Rename.antt =====
-- `_rename_identifier_tokens` of orchestrator/loop.py: `re.sub(rf"\b{re.escape(old)}\b", new, text)`.
use agentic_code_intelligenc.Prelude.{
  ℕ, zero, suc, ◌-◌, ◌==◌, leb, Bool, true, false, not, ◌&&◌, ◌||◌, Option, none, some, [], ◌∷◌,
  ◌++◌, length, drop, if◌then◌else◌, Text, codes, starts_with, ◌≡◌, refl,
}

-- `\w`; `wide` tells it of the characters above ASCII.
module _ (wide : ℕ → Bool) where
  unfoldable pub is_word : ℕ → Bool
  is_word c =
      leb b'a' c && leb c b'z'
      || leb b'A' c && leb c b'Z'
      || leb b'0' c && leb c b'9'
      || c == b'_'
      || leb 128 c && wide c

  -- `\b` between two characters; `none` stands for an end of the text
  abbrev word_at : Option ℕ → Bool
  word_at none = false
  word_at (some c) = is_word c

  abbrev differ : Bool → Bool → Bool
  differ true b = not b
  differ false b = b

  abbrev first : Text → Option ℕ
  first [] = none
  first (c ∷ s) = some c

  abbrev last : Option ℕ → Text → Option ℕ
  last before [] = before
  last before (c ∷ s) = last (some c) s

  -- a match of the pattern at the front of `s`, `before` being the character in front of it
  abbrev matches : Text → Option ℕ → Text → Bool
  matches old before s =
      starts_with old s
      && differ (word_at before) (word_at (first s))
      && differ (word_at (last before old)) (word_at (first (drop (length old) s)))

  -- The replacements from left to right. `skip` counts the characters of a match that are still to
  -- be passed over.
  sub : Text → Text → ℕ → Option ℕ → Text → Text
  sub old new skip before [] = []
  sub old new (suc skip) before (c ∷ s) = sub old new skip (some c) s
  sub old new zero before (c ∷ s) =
      let hit = new ++ sub old new (length old - 1) (some c) s in
      let miss = c ∷ sub old new zero (some c) s in if matches old before (c ∷ s) then hit else miss

  -- `new` is taken as it stands: names have no backslash, which `re.sub` would read as an escape.
  unfoldable pub rename_identifier_tokens : Text → Text → Text → Text
  unfolding sub
  rename_identifier_tokens text old_name new_name = sub old_name new_name zero none text

collision :
    rename_identifier_tokens
      (λ _. false)
      (codes "user(user_id, get_user).user")
      (codes "user")
      (codes "member")
    ≡ codes "member(user_id, get_user).member"
unfolding rename_identifier_tokens is_word starts_with
collision = refl
