-- ===== src/Retrieval/Cost.antt =====
-- The accounting of retrieval/accounting.py: what a span costs, next to its file.
use agentic_code_intelligenc.Prelude.{
  ℕ, zero, suc, ◌+◌, ◌-◌, ◌==◌, ◌≤◌, not, ◌&&◌, Option, none, some, List, [], ◌∷◌, ◌++◌, take, drop,
  length-append, Text, utf8, utf8-append, ◌≡◌, refl, arith, Bool-cases, inl, inr,
}
use agentic_code_intelligenc.Retrieval.{
  byte_count, token_cost, splitlines, onto_first, is_line_end, starts_line_feed, concat, slice,
}

concat-onto_first : (c : ℕ) (lines : List Text) → concat (onto_first c lines) ≡ c ∷ concat lines
unfolding concat
concat-onto_first c [] = refl
concat-onto_first c (line ∷ lines) = refl

-- Splitting a text into its lines loses nothing.
pub concat-splitlines : (s : Text) → concat (splitlines s) ≡ s
unfolding splitlines concat
concat-splitlines [] = refl
concat-splitlines (c ∷ s) =
    elim (Bool-cases (is_line_end c && not (c == 13 && starts_line_feed s))) [
      | inl ends ↦ rw ends (rw (concat-splitlines s) refl)
      | inr goes ↦ rw goes (rw concat-onto_first (rw (concat-splitlines s) refl))
    ]

byte_count-append : (s t : Text) → byte_count (s ++ t) ≡ byte_count s + byte_count t
unfolding byte_count
byte_count-append s t = rw utf8-append (rw length-append refl)

byte_count-take :
    (n : ℕ) (lines : List Text) → byte_count (concat (take n lines)) ≤ byte_count (concat lines)
unfolding concat byte_count utf8
byte_count-take zero lines = omega arith
byte_count-take (suc n) [] = omega arith
byte_count-take (suc n) (line ∷ lines) = omega (
  arith,
  byte_count-append line (concat lines),
  byte_count-append line (concat (take n lines)),
  byte_count-take n lines,
)

byte_count-drop :
    (n : ℕ) (lines : List Text) → byte_count (concat (drop n lines)) ≤ byte_count (concat lines)
unfolding concat byte_count utf8
byte_count-drop zero lines = omega arith
byte_count-drop (suc n) [] = omega arith
byte_count-drop (suc n) (line ∷ lines) =
    omega (arith, byte_count-append line (concat lines), byte_count-drop n lines)

-- More bytes never cost less.
pub token_cost_mono : (s t : Text) → byte_count s ≤ byte_count t → token_cost s ≤ token_cost t
unfolding token_cost
token_cost_mono s t le = omega (arith, le)

byte_count-slice :
    (start_line : ℕ) (end_line : Option ℕ) (lines : List Text)
    → byte_count (concat (slice start_line end_line lines)) ≤ byte_count (concat lines)
unfolding slice
byte_count-slice start_line none lines = byte_count-drop (start_line - 1) lines
byte_count-slice start_line (some end_line) lines = omega (
  arith,
  byte_count-drop (start_line - 1) lines,
  byte_count-take (end_line - (start_line - 1)) (drop (start_line - 1) lines),
)

token_cost_pos : (s : Text) → 1 ≤ token_cost s
unfolding token_cost
token_cost_pos s = omega arith
