-- ===== src/Sandbox/Docker/Payload.antt =====
-- `_extract_payload` of sandbox_client/docker_runner.py: the result that stands between the last pair
-- of sentinels of the container's output, and how its values are read.
use agentic_code_intelligenc.Prelude.{
  ℕ, ℤ, pos, negsuc, zero, suc, ◌+◌, ◌-◌, ◌*◌, ◌==◌, leb, Bool, true, false, not, ◌&&◌, ◌||◌,
  Option, none, some, List, [], ◌∷◌, ◌++◌, length, drop, if◌then◌else◌, Text, codes, text_eq, str,
  starts_with, starts_with-append, occurs, occurs-append, strip_space, ◌≡◌, refl, arith,
}

-- A value of a JSON document. `other` is a fraction, a list or a dictionary, with its truth value and
-- the text that `str` makes of it.
pub data Json : Type 0 where
  null : Json
  bool : Bool → Json
  int : ℤ → Json
  text : Text → Json
  other : Bool → Text → Json

unfoldable pub lookup : Text → List (Text × Json) → Option Json
lookup k [] = none
lookup k ((j, v) ∷ d) = if text_eq j k then some v else lookup k d

-- `bool(v)`
unfoldable pub truthy : Json → Bool
truthy Json.null = false
truthy (Json.bool b) = b
truthy (Json.int (pos zero)) = false
truthy (Json.int _) = true
truthy (Json.text []) = false
truthy (Json.text (c ∷ s)) = true
truthy (Json.other b s) = b

-- `str(v)`
unfoldable pub text_of : Json → Text
text_of Json.null = codes "None"
text_of (Json.bool true) = codes "True"
text_of (Json.bool false) = codes "False"
text_of (Json.int (pos n)) = str n
text_of (Json.int (negsuc n)) = b'-' ∷ str (suc n)
text_of (Json.text s) = s
text_of (Json.other b s) = s

-- the digits of `int(s)`, with single underscores between them; `seen` tells that a digit came last
digits_of : Bool → ℕ → Text → Option ℕ
digits_of seen acc [] = if seen then some acc else none
digits_of seen acc (c ∷ s) =
    let on = digits_of true (10 * acc + (c - b'0')) s in
    let skip = digits_of false acc s in
    if leb b'0' c && leb c b'9' then on else if c == b'_' && seen then skip else none

-- `-n`
abbrev negated : ℕ → ℤ
negated zero = pos zero
negated (suc n) = negsuc n

abbrev signed : (ℕ → ℤ) → Option ℕ → Option ℤ
signed sign none = none
signed sign (some n) = some (sign n)

abbrev is_blank : ℕ → Bool
is_blank c = c == 0x20 || leb 0x9 c && leb c 0xD

abbrev signed_digits : Text → Option ℤ
signed_digits [] = none
signed_digits (c ∷ s) =
    if c == b'-'
    then signed negated (digits_of false 0 s)
    else if c == b'+'
    then signed pos (digits_of false 0 s)
    else signed pos (digits_of false 0 (c ∷ s))

-- `int(s)`, for ASCII texts
unfoldable pub int_of : Text → Option ℤ
unfolding digits_of strip_space
int_of s = signed_digits (strip_space is_blank s)

abbrev pub result_begin : Text
result_begin = codes "<<<ACP_RESULT_BEGIN>>>"

abbrev pub result_end : Text
result_end = codes "<<<ACP_RESULT_END>>>"

-- `s.rsplit(sep, 1)[1]`, where `sep` occurs: what follows the last occurrence
unfoldable pub after_last : Text → Text → Option Text
after_last sep [] = none
after_last sep (c ∷ s) = elim (after_last sep s) [
  | some rest ↦ some rest
  | none ↦ if starts_with sep (c ∷ s) then some (drop (length sep) (c ∷ s)) else none
]

-- `s.split(sep, 1)[0]`: what stands before the first occurrence, all where there is none
unfoldable pub before_first : Text → Text → Text
before_first sep [] = []
before_first sep (c ∷ s) =
    let rest = before_first sep s in if starts_with sep (c ∷ s) then [] else c ∷ rest

module _ (space : ℕ → Bool) (loads : Text → Option (List (Text × Json))) where
  abbrev load_body : Option Text → Option (List (Text × Json))
  load_body none = none
  load_body (some rest) = loads (strip_space space (before_first result_end rest))

  unfoldable pub extract_payload : Text → Option (List (Text × Json))
  extract_payload out =
      if not (occurs result_begin out) || not (occurs result_end out)
      then none
      else load_body (after_last result_begin out)

after_last-append :
    (sep s t rest : Text) → after_last sep t ≡ some rest → after_last sep (s ++ t) ≡ some rest
unfolding after_last
after_last-append sep [] t rest h = h
after_last-append sep (c ∷ s) t rest h = ground (arith, after_last-append sep s t rest h)

-- The opening sentinel cannot begin inside itself.
after_last-begin :
    (rest : Text)
    → after_last result_begin rest ≡ none
    → after_last result_begin (result_begin ++ rest) ≡ some rest
unfolding after_last starts_with
after_last-begin rest h = rw h refl

occurs_begin : (s rest : Text) → occurs result_begin (s ++ (result_begin ++ rest)) ≡ true
unfolding occurs
occurs_begin s rest =
    occurs-append result_begin s (result_begin ++ rest)
      (ground (arith, starts_with-append result_begin rest))

-- Whatever a container prints before it, sentinels included, the payload is read from behind the last
-- opening sentinel.
pub extract_payload_last :
    (space : ℕ → Bool) (loads : Text → Option (List (Text × Json))) (noise rest : Text)
    → after_last result_begin rest ≡ none
    → occurs result_end rest ≡ true
    → extract_payload space loads (noise ++ (result_begin ++ rest))
      ≡ loads (strip_space space (before_first result_end rest))
unfolding extract_payload
extract_payload_last space loads noise rest last ends =
    rw
      (
        occurs_begin noise rest,
        occurs-append result_end noise (result_begin ++ rest)
            (occurs-append result_end result_begin rest ends),
        after_last-append result_begin noise (result_begin ++ rest) rest
            (after_last-begin rest last),
      )
      refl
