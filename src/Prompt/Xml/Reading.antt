-- ===== src/Prompt/Xml/Reading.antt =====
-- How the reader of model_gateway/prompt.py takes a rendered action apart: token by token.
use agentic_code_intelligenc.Prelude.{
  ℕ, zero, suc, ◌<◌, ◌==◌, true, false, some, List, [], ◌∷◌, ◌++◌, length, length-append, Text,
  codes, text_eq, ◌≡◌, ◌∙◌, refl, ap, arith,
}
use agentic_code_intelligenc.Prompt.Xml.{
  Token, span, skip_space, decode, value_in, chars_in, attributes, tokens,
}
use agentic_code_intelligenc.Prompt.{escape}
use agentic_code_intelligenc.Prompt.Channels.{count, count-escape_lt, count-escape_quot}
use agentic_code_intelligenc.Prompt.Xml.Characters.{
  IsPlain, IsOneLine, IsOneLine-IsPlain, normalise_same, span_stop, any_lt, decode-escape,
  length-escape_pos,
}

-- With any fuel above the length, `s` is read as `l`.
abbrev pub Reads : Text → List Token → Type 0
Reads s l = (fuel : ℕ) → length s < fuel → tokens fuel s ≡ some l

pub Reads-nil : Reads [] []
unfolding tokens
Reads-nil zero enough = absurd (omega (arith, enough))
Reads-nil (suc fuel) enough = refl

value_in-escape :
    (v rest : Text)
    → IsOneLine v
    → value_in (span (λ d. d == b'"') (escape true v ++ b'"' ∷ rest)) ≡ some (v, rest)
unfolding value_in
value_in-escape v rest h = rw (span_stop b'"' (escape true v) rest (count-escape_quot v)) (
    rw
      (
        any_lt (escape true v) (count-escape_lt true v),
        decode-escape true v (suc (length (escape true v))) (IsOneLine-IsPlain v h) (omega arith),
        normalise_same v h,
      )
      refl)

attributes_name :
    (fuel : ℕ) (v rest : Text)
    → IsOneLine v
    → attributes (suc (suc fuel)) (codes " name=\"" ++ (escape true v ++ b'"' ∷ b'>' ∷ rest)) []
      ≡ some ((codes "name", v) ∷ [], false, rest)
unfolding attributes skip_space text_eq span
attributes_name fuel v rest h = rw (value_in-escape v (b'>' ∷ rest) h) refl

attributes_kind :
    (fuel : ℕ) (v rest : Text)
    → IsOneLine v
    → attributes (suc (suc fuel)) (codes " kind=\"" ++ (escape true v ++ b'"' ∷ b'>' ∷ rest)) []
      ≡ some ((codes "kind", v) ∷ [], false, rest)
unfolding attributes skip_space text_eq span
attributes_kind fuel v rest h = rw (value_in-escape v (b'>' ∷ rest) h) refl

pub Reads-field_start :
    (k rest : Text) (l : List Token)
    → IsOneLine k
    → Reads rest l
    → Reads
        (codes "<field name=\"" ++ (escape true k ++ b'"' ∷ b'>' ∷ rest))
        (Token.start (codes "field") ((codes "name", k) ∷ []) ∷ l)
unfolding tokens span text_eq
Reads-field_start k rest l h next zero enough = absurd (omega (arith, enough))
Reads-field_start k rest l h next (suc fuel) enough =
    let body = escape true k ++ b'"' ∷ b'>' ∷ rest in
    let short : length rest < fuel =
      omega (arith, enough, length-append (escape true k) (b'"' ∷ b'>' ∷ rest)) in
    rw (attributes_name (length (codes "ield name=\"" ++ body)) k rest h)
      (rw (next fuel short) refl)

pub Reads-action_start :
    (kind rest : Text) (l : List Token)
    → IsOneLine kind
    → Reads rest l
    → Reads
        (codes "<action kind=\"" ++ (escape true kind ++ b'"' ∷ b'>' ∷ rest))
        (Token.start (codes "action") ((codes "kind", kind) ∷ []) ∷ l)
unfolding tokens span text_eq
Reads-action_start kind rest l h next zero enough = absurd (omega (arith, enough))
Reads-action_start kind rest l h next (suc fuel) enough =
    let body = escape true kind ++ b'"' ∷ b'>' ∷ rest in
    let short : length rest < fuel =
      omega (arith, enough, length-append (escape true kind) (b'"' ∷ b'>' ∷ rest)) in
    rw (attributes_kind (length (codes "ction kind=\"" ++ body)) kind rest h)
      (rw (next fuel short) refl)

pub Reads-field_end :
    (rest : Text) (l : List Token)
    → Reads rest l
    → Reads (codes "</field>" ++ rest) (Token.end (codes "field") ∷ l)
unfolding tokens span skip_space
Reads-field_end rest l next zero enough = absurd (omega (arith, enough))
Reads-field_end rest l next (suc fuel) enough = rw (next fuel (omega (arith, enough))) refl

pub Reads-action_end : Reads (codes "</action>") (Token.end (codes "action") ∷ [])
unfolding tokens span skip_space
Reads-action_end zero enough = absurd (omega (arith, enough))
Reads-action_end (suc fuel) enough = rw (Reads-nil fuel (omega (arith, enough))) refl

chars_in-raw :
    (raw rest t : Text)
    → count b'<' raw ≡ 0
    → decode (suc (length raw)) raw ≡ some t
    → chars_in (span (λ d. d == b'<') (raw ++ b'<' ∷ rest)) ≡ some (t, b'<' ∷ rest)
unfolding chars_in
chars_in-raw raw rest t no_tag read = ap chars_in (span_stop b'<' raw rest no_tag) ∙ here
  where
    here : chars_in (raw, b'<' ∷ rest) ≡ some (t, b'<' ∷ rest)
    here = rw (chars_in, read) refl

Reads-raw :
    (raw rest t : Text) (l : List Token)
    → 0 < length raw
    → count b'<' raw ≡ 0
    → decode (suc (length raw)) raw ≡ some t
    → Reads (b'<' ∷ rest) l
    → Reads (raw ++ b'<' ∷ rest) (Token.chars t ∷ l)
unfolding tokens
Reads-raw [] rest t l some_text no_tag read next fuel enough = absurd (omega (arith, some_text))
Reads-raw (c ∷ raw) rest t l some_text no_tag read next zero enough = absurd (omega (arith, enough))
Reads-raw (c ∷ raw) rest t l some_text no_tag read next (suc fuel) enough =
    let e : (c == b'<') ≡ false = ground (arith, no_tag) in
    let short : length (b'<' ∷ rest) < fuel =
      omega (arith, enough, length-append raw (b'<' ∷ rest)) in
    rw (e, chars_in-raw (c ∷ raw) rest t no_tag read) (rw (next fuel short) refl)

-- The text of a field, where there is any.
pub Reads-text :
    (c : ℕ) (v rest : Text) (l : List Token)
    → IsPlain (c ∷ v)
    → Reads (b'<' ∷ rest) l
    → Reads (escape false (c ∷ v) ++ b'<' ∷ rest) (Token.chars (c ∷ v) ∷ l)
Reads-text c v rest l plain next =
    let raw = escape false (c ∷ v) in
    Reads-raw raw rest (c ∷ v) l (length-escape_pos false c v) (count-escape_lt false (c ∷ v))
      (decode-escape false (c ∷ v) (suc (length raw)) plain (omega arith)) next
