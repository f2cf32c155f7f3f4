-- ===== src/Prompt/Xml/Characters.antt =====
-- Character data of the prompts of model_gateway/prompt.py: what was escaped is read back as it was.
use agentic_code_intelligenc.Prelude.{
  ℕ, zero, suc, ◌<◌, ◌==◌, leb, not, ◌&&◌, Bool, true, false, some, [], ◌∷◌, ◌++◌, length,
  length-append, any, all, all-append, All, Text, text_eq, ◌≡◌, refl, arith, Bool-cases, inl, inr,
}
use agentic_code_intelligenc.Prompt.Xml.{is_xml_char, span, reference, decode, normalise}
use agentic_code_intelligenc.Prompt.{escape_char, escape}
use agentic_code_intelligenc.Prompt.Channels.{count}

-- a character that XML takes and gives back as it is
abbrev pub plain_char : ℕ → Bool
plain_char c = is_xml_char c && not (c == 0xD)

abbrev pub IsPlain : Text → Type 0
IsPlain s = All (λ c. plain_char c ≡ true) s

-- a text of such characters, with no white space but blanks
abbrev pub line_char : ℕ → Bool
line_char c = is_xml_char c && leb 0x20 c

abbrev pub IsOneLine : Text → Type 0
IsOneLine s = All (λ c. line_char c ≡ true) s

pub IsOneLine-IsPlain : (s : Text) → IsOneLine s → IsPlain s
IsOneLine-IsPlain [] h = tt
IsOneLine-IsPlain (c ∷ s) h = (ground (arith, h.0), IsOneLine-IsPlain s h.1)

-- A literal is one line by evaluation.
pub IsOneLine-literal : (s : Text) → all line_char s ≡ true → IsOneLine s
IsOneLine-literal [] h = tt
IsOneLine-literal (c ∷ s) h = (ground (arith, h), IsOneLine-literal s (ground (arith, h)))

pub normalise_same : (s : Text) → IsOneLine s → normalise s ≡ s
unfolding normalise
normalise_same [] h = refl
normalise_same (c ∷ s) h = ground (arith, h.0, normalise_same s h.1)

-- a scan stops at the first `q`
pub span_stop :
    (q : ℕ) (s rest : Text) → count q s ≡ 0 → span (λ d. d == q) (s ++ q ∷ rest) ≡ (s, q ∷ rest)
unfolding span
span_stop q [] rest h = rw (let e : (q == q) ≡ true = ground arith in e) refl
span_stop q (c ∷ s) rest h =
    let e : (c == q) ≡ false = ground (arith, h) in
    let h' : count q s ≡ 0 = ground (arith, h) in rw (span_stop q s rest h', e) refl

pub any_lt : (s : Text) → count b'<' s ≡ 0 → any (λ d. d == b'<') s ≡ false
any_lt [] h = refl
any_lt (c ∷ s) h = ground (arith, h, any_lt s)

escape_char_pos : (quot : Bool) (c : ℕ) → 0 < length (escape_char quot c)
unfolding escape_char
escape_char_pos quot c = ground arith

decode_char :
    (quot : Bool) (c : ℕ) (rest t : Text) (fuel : ℕ)
    → plain_char c ≡ true
    → decode fuel rest ≡ some t
    → decode (suc fuel) (escape_char quot c ++ rest) ≡ some (c ∷ t)
unfolding decode span reference escape_char text_eq
decode_char quot c rest t fuel plain h = elim (Bool-cases (c == b'&')) [
  | inl e ↦ let k : c ≡ b'&' = ground (arith, e) in rw (k, h) refl
  | inr amp ↦ elim (Bool-cases (c == b'>')) [
    | inl e ↦ let k : c ≡ b'>' = ground (arith, e) in rw (k, h) refl
    | inr gt ↦ elim (Bool-cases (c == b'<')) [
      | inl e ↦ let k : c ≡ b'<' = ground (arith, e) in rw (k, h) refl
      | inr lt ↦ elim (Bool-cases (c == b'"')) [
        | inl e ↦ let k : c ≡ b'"' = ground (arith, e) in rw k (of_quot quot)
        | inr q ↦
            let cr : (c == 0xD) ≡ false = ground (arith, plain) in
            rw (amp, gt, lt, q, amp, cr, h) refl
      ]
    ]
  ]
]
  where
    of_quot : (b : Bool) → decode (suc fuel) (escape_char b b'"' ++ rest) ≡ some (b'"' ∷ t)
    of_quot true = rw h refl
    of_quot false = rw h refl

-- Escaping is undone by reading, with any fuel above the length.
pub decode-escape :
    (quot : Bool) (s : Text) (fuel : ℕ)
    → IsPlain s
    → length (escape quot s) < fuel
    → decode fuel (escape quot s) ≡ some s
unfolding escape
decode-escape quot s zero plain enough = absurd (omega (arith, enough))
decode-escape quot [] (suc fuel) plain enough = unfold decode in refl
decode-escape quot (c ∷ s) (suc fuel) plain enough =
    decode_char quot c (escape quot s) s fuel plain.0 (
      decode-escape quot s fuel plain.1 (
        omega (
          arith,
          length-append (escape_char quot c) (escape quot s),
          enough,
          escape_char_pos quot c,
        )))

pub length-escape_pos : (quot : Bool) (c : ℕ) (s : Text) → 0 < length (escape quot (c ∷ s))
unfolding escape
length-escape_pos quot c s =
    omega (arith, length-append (escape_char quot c) (escape quot s), escape_char_pos quot c)

-- A literal is plain by evaluation.
pub IsPlain-literal : (s : Text) → all plain_char s ≡ true → IsPlain s
IsPlain-literal [] h = tt
IsPlain-literal (c ∷ s) h = (ground (arith, h), IsPlain-literal s (ground (arith, h)))

pub literal-IsPlain : (s : Text) → IsPlain s → all plain_char s ≡ true
literal-IsPlain [] h = refl
literal-IsPlain (c ∷ s) h = ground (arith, h.0, literal-IsPlain s h.1)

escape_char_xml :
    (quot : Bool) (c : ℕ) → plain_char c ≡ true → all is_xml_char (escape_char quot c) ≡ true
unfolding escape_char
escape_char_xml quot c h = ground (arith, h)

-- What is escaped holds the characters of XML alone.
pub escape_xml : (quot : Bool) (s : Text) → IsPlain s → all is_xml_char (escape quot s) ≡ true
unfolding escape
escape_xml quot [] h = refl
escape_xml quot (c ∷ s) h = rw (all-append, escape_char_xml quot c h.0, escape_xml quot s h.1) refl
