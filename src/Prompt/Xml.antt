-- ===== src/Prompt/Xml.antt =====
-- The part of `xml.etree.ElementTree` that `parse_action` of model_gateway/prompt.py relies on: a
-- document of nested elements with attributes, text and references. Comments, CDATA sections,
-- processing instructions, document types and namespaces are not read: such a reply counts as not
-- well-formed.
pub mod Characters
pub mod Reading
pub mod Fields
use agentic_code_intelligenc.Prelude.{
  ℕ, zero, suc, ◌+◌, ◌*◌, ◌-◌, ◌==◌, leb, Bool, true, false, not, ◌&&◌, ◌||◌, Option, none, some,
  List, [], ◌∷◌, ◌++◌, any, all, reverse, length, if◌then◌else◌, Text, codes, text_eq, ◌≡◌, refl,
}

pub data Token : Type 0 where
  start : Text → List (Text × Text) → Token
  end : Text → Token
  chars : Text → Token

-- the characters that XML takes
abbrev pub is_xml_char : ℕ → Bool
is_xml_char c =
    c == 0x9
    || c == 0xA
    || c == 0xD
    || leb 0x20 c && leb c 0xD7FF
    || leb 0xE000 c && leb c 0xFFFD
    || leb 0x10000 c && leb c 0x10FFFF

abbrev is_space : ℕ → Bool
is_space c = c == 0x20 || c == 0x9 || c == 0xA || c == 0xD

-- a character that ends a name
abbrev ends_name : ℕ → Bool
ends_name c =
    is_space c || c == b'>' || c == b'/' || c == b'=' || c == b'<' || c == b'"' || c == b'&'

-- the characters of a name, those above ASCII all taken; a colon would be a namespace's
abbrev begins_name : ℕ → Bool
begins_name c = leb b'a' c && leb c b'z' || leb b'A' c && leb c b'Z' || c == b'_' || leb 0x80 c

abbrev in_name : ℕ → Bool
in_name c = begins_name c || leb b'0' c && leb c b'9' || c == b'-' || c == b'.'

abbrev is_name : Text → Bool
is_name [] = false
is_name (c ∷ s) = begins_name c && all in_name s && not (text_eq (c ∷ s) (codes "xmlns"))

-- an attribute is followed by white space or by the end of its tag
abbrev is_separated : Text → Bool
is_separated [] = true
is_separated (c ∷ s) = is_space c || c == b'>' || c == b'/'

-- the characters before the first that `stop` takes, and the rest
pub span : (ℕ → Bool) → Text → Text × Text
span stop [] = ([], [])
span stop (c ∷ s) = let (a, b) = span stop s in if stop c then ([], c ∷ s) else (c ∷ a, b)

pub skip_space : Text → Text
skip_space [] = []
skip_space (c ∷ s) = let rest = skip_space s in if is_space c then rest else c ∷ s

abbrev digit_value : ℕ → ℕ → Option ℕ
digit_value base c =
    if leb b'0' c && leb c b'9'
    then some (c - b'0')
    else if base == 16 && leb b'a' c && leb c b'f'
    then some (c - b'a' + 10)
    else if base == 16 && leb b'A' c && leb c b'F'
    then some (c - b'A' + 10)
    else none

number : ℕ → ℕ → Text → Option ℕ
number base acc [] = some acc
number base acc (c ∷ s) = elim (digit_value base c) [
  | none ↦ none
  | some d ↦ number base (acc * base + d) s
]

abbrev xml_char : Option ℕ → Option ℕ
xml_char none = none
xml_char (some c) = if is_xml_char c then some c else none

abbrev char_reference : Text → Option ℕ
char_reference [] = none
char_reference (c ∷ s) =
    xml_char
      (if c == b'x' then (if text_eq s [] then none else number 16 0 s) else number 10 0 (c ∷ s))

abbrev numbered : Text → Option ℕ
numbered [] = none
numbered (c ∷ s) = if c == b'#' then char_reference s else none

-- the character of a reference `&name;`
pub reference : Text → Option ℕ
unfolding number
reference name =
    if text_eq name (codes "amp")
    then some b'&'
    else if text_eq name (codes "lt")
    then some b'<'
    else if text_eq name (codes "gt")
    then some b'>'
    else if text_eq name (codes "quot")
    then some b'"'
    else if text_eq name (codes "apos")
    then some b'\''
    else numbered name

-- the part of a text behind its first `;`, the rest of a reference's name being skipped
after : ℕ → Text → Text
after zero s = s
after (suc n) [] = []
after (suc n) (c ∷ s) = after n s

-- Character data with its references replaced; a carriage return, alone or before a line feed, is
-- read as a line feed.
pub decode : ℕ → Text → Option Text
decode zero s = none
decode (suc fuel) [] = some []
decode (suc fuel) (c ∷ s) =
    let (name, rest) = span (λ d. d == b';') s in
    let at_reference : Option Text = elim (reference name) [
      | none ↦ none
      | some d ↦ elim rest [
        | [] ↦ none
        | _ ∷ rest' ↦ elim (decode fuel rest') [ none ↦ none | some t ↦ some (d ∷ t) ]
      ]
    ] in
    let plain : Option Text = elim (decode fuel s) [ none ↦ none | some t ↦ some (c ∷ t) ] in
    let newline : Option Text = elim s [
      | [] ↦ some (0xA ∷ [])
      | d ∷ s' ↦ elim (decode fuel (if d == 0xA then s' else d ∷ s')) [
        | none ↦ none
        | some t ↦ some (0xA ∷ t)
      ]
    ] in
    if c == b'&' then at_reference else if c == 0xD then newline else plain

unfoldable pub unescape : Text → Option Text
unfolding decode span reference after
unescape s = decode (suc (length s)) s

-- an attribute's white space is read as blanks
pub normalise : Text → Text
normalise [] = []
normalise (c ∷ s) = (if c == 0x9 || c == 0xA then 0x20 else c) ∷ normalise s

-- the value of an attribute, up to its closing quote, and what follows it
pub value_in : Text × Text → Option (Text × Text)
value_in (raw, []) = none
value_in (raw, q ∷ after_quote) =
    let value : Option (Text × Text) = elim (decode (suc (length raw)) raw) [
      | none ↦ none
      | some v ↦ some (normalise v, after_quote)
    ] in
    if any (λ d. d == b'<') raw then none else value

-- the attributes behind a tag's name, up to `>` or `/>`: the attributes, whether the element ends
-- here, and the rest of the document
pub attributes : ℕ → Text → List (Text × Text) → Option (List (Text × Text) × Bool × Text)
attributes zero s acc = none
attributes (suc fuel) s acc = elim (skip_space s) [
  | [] ↦ none
  | c ∷ rest ↦
      if c == b'>'
      then some (reverse acc, false, rest)
      else if c == b'/'
      then elim rest [
        | [] ↦ none
        | d ∷ rest' ↦ if d == b'>' then some (reverse acc, true, rest') else none
      ]
      else let (name, behind) = span ends_name (c ∷ rest) in
        let value : Option (List (Text × Text) × Bool × Text) = elim (skip_space behind) [
          | [] ↦ none
          | e ∷ behind' ↦
              if not (e == b'=') || not (is_name name) || any (λ a. text_eq a.0 name) acc
              then none
              else elim (skip_space behind') [
                | [] ↦ none
                | q ∷ quoted ↦
                    if q == b'"' || q == b'\''
                    then elim (value_in (span (λ d. d == q) quoted)) [
                      | none ↦ none
                      | some (v, after_quote) ↦
                          let more = attributes fuel after_quote ((name, v) ∷ acc) in
                          if is_separated after_quote then more else none
                    ]
                    else none
              ]
        ] in
        value
]

-- the character data before a tag, and what follows
pub chars_in : Text × Text → Option (Text × Text)
chars_in (raw, rest) = elim (decode (suc (length raw)) raw) [
  | none ↦ none
  | some t ↦ some (t, rest)
]

-- The tokens of a document.
pub tokens : ℕ → Text → Option (List Token)
tokens zero s = none
tokens (suc fuel) [] = some []
tokens (suc fuel) (c ∷ s) =
    let closing : Text → Option (List Token) = λ s'.
      let (name, rest) = span ends_name s' in
      elim (skip_space rest) [
        | [] ↦ none
        | d ∷ rest' ↦
            if d == b'>'
            then elim (tokens fuel rest') [ none ↦ none | some l ↦ some (Token.end name ∷ l) ]
            else none
      ] in
    let opening : Option (List Token) =
      let (name, rest) = span ends_name s in
      if not (is_name name) then none else elim (attributes (suc (length s)) rest []) [
        | none ↦ none
        | some (attrs, ends, rest') ↦ elim (tokens fuel rest') [
          | none ↦ none
          | some l ↦ some (Token.start name attrs ∷ (if ends then Token.end name ∷ l else l))
        ]
      ] in
    let tag : Option (List Token) = elim s [
      | [] ↦ none
      | d ∷ s' ↦ let close = closing s' in if d == b'/' then close else opening
    ] in
    let content : Option (List Token) = elim (chars_in (span (λ d. d == b'<') (c ∷ s))) [
      | none ↦ none
      | some (t, rest) ↦ elim (tokens fuel rest) [ none ↦ none | some l ↦ some (Token.chars t ∷ l) ]
    ] in
    if c == b'<' then tag else content

-- One element below the root: `text` is what stands before its first child.
pub record Child : Type 0 where
  pub tag : Text
  pub attrib : List (Text × Text)
  pub text : Text

pub record Element : Type 0 where
  pub tag : Text
  pub attrib : List (Text × Text)
  pub children : List Child

-- The children read so far, newest first; `open` holds the open tags below the root, innermost
-- first; `whole` tells that the newest child has a child itself, so its text is complete.
pub record Builder : Type 0 where
  pub done : List Child
  pub tags : List Text
  pub whole : Bool

begin_tag : Text → List (Text × Text) → Builder → Builder
begin_tag tag attrib b = elim b.tags [
  | [] ↦ record {
    done = record { tag = tag; attrib = attrib; text = [] } ∷ b.done;
    tags = tag ∷ [];
    whole = false;
  }
  | t ∷ ts ↦ record { done = b.done; tags = tag ∷ t ∷ ts; whole = true }
]

add_text : Text → List Child → List Child
add_text t [] = []
add_text t (c ∷ done) = record c { text = c.text ++ t } ∷ done

add_chars : Text → Builder → Builder
unfolding add_text
add_chars t b = elim b.tags [
  | [] ↦ b
  | _ ∷ _ ↦ if b.whole then b else record b { done = add_text t b.done }
]

blank : List Token → Bool
blank [] = true
blank (_ ∷ _) = false

-- the content of the root up to its end tag, behind which only white space may stand
pub build : Text → List Token → Builder → Option (List Child)
unfolding begin_tag add_chars blank
build root [] b = none
build root (Token.start tag attrib ∷ l) b = build root l (begin_tag tag attrib b)
build root (Token.chars t ∷ l) b = build root l (add_chars t b)
build root (Token.end tag ∷ l) b = elim b.tags [
  | [] ↦ if text_eq tag root && blank l then some (reverse b.done) else none
  | t ∷ ts ↦ if text_eq tag t then build root l (record b { tags = ts }) else none
]

pub element : List Token → Option Element
unfolding build
element (Token.start tag attrib ∷ l) =
    elim (build tag l (record { done = []; tags = []; whole = false })) [
      | none ↦ none
      | some children ↦ some (record { tag = tag; attrib = attrib; children = children })
    ]
element _ = none

-- the white space of Python
abbrev is_blank : ℕ → Bool
is_blank c =
    leb 0x9 c && leb c 0xD
    || leb 0x1C c && leb c 0x20
    || c == 0x85
    || c == 0xA0
    || c == 0x1680
    || leb 0x2000 c && leb c 0x200A
    || c == 0x2028
    || c == 0x2029
    || c == 0x202F
    || c == 0x205F
    || c == 0x3000

pub lstrip : Text → Text
lstrip [] = []
lstrip (c ∷ s) = let rest = lstrip s in if is_blank c then rest else c ∷ s

-- `text.strip()`
pub strip : Text → Text
strip s = reverse (lstrip (reverse (lstrip s)))

-- `ET.fromstring(text)`; `none` stands for `ET.ParseError`.
pub read_document : Text → Option Element
unfolding decode span reference after normalise skip_space value_in chars_in attributes tokens
    element
read_document doc =
    let root : Option Element = elim (tokens (suc (length doc)) doc) [
      | none ↦ none
      | some l ↦ element l
    ] in
    if all is_xml_char doc then root else none

-- `ET.fromstring(text.strip())`
unfoldable pub from_string : Text → Option Element
unfolding read_document strip lstrip
from_string s = read_document (strip s)

nested :
    from_string (codes " <a k='1&amp;2'><b n=\"x\">t &lt;<c/>u</b><d/></a>")
    ≡ some (record {
      tag = codes "a";
      attrib = (codes "k", codes "1&2") ∷ [];
      children =
          record { tag = codes "b"; attrib = (codes "n", codes "x") ∷ []; text = codes "t <" }
          ∷ record { tag = codes "d"; attrib = []; text = [] }
          ∷ [];
    })
unfolding from_string text_eq
nested = refl
