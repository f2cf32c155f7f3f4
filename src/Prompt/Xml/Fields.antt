-- ===== src/Prompt/Xml/Fields.antt =====
-- The document that `render_action` of model_gateway/prompt.py writes, read by the XML parser: the
-- element with the fields that were written.
use agentic_code_intelligenc.Prelude.{
  suc, true, false, some, List, [], ◌∷◌, ◌++◌, length, all, all-append, All, map, reverse, Text,
  codes, text_eq, text_eq_refl, append_assoc, ◌≡◌, ◌∙◌, refl, ap, arith,
}
use mathlib.Core.List.{reverse_aux, reverse-append, reverse-reverse}
use agentic_code_intelligenc.Prompt.Xml.{
  Token, Child, Builder, is_xml_char, lstrip, strip, build, element, read_document, from_string,
}
use agentic_code_intelligenc.Prompt.{escape, fields_xml}
use agentic_code_intelligenc.Prompt.Xml.Characters.{
  IsPlain, IsOneLine, IsOneLine-IsPlain, escape_xml,
}
use agentic_code_intelligenc.Prompt.Xml.Reading.{
  Reads, Reads-field_start, Reads-field_end, Reads-action_start, Reads-action_end, Reads-text,
}

-- the name of a field is one line, and its value has no control characters
abbrev pub IsField : Text × Text → Type 0
IsField f = IsOneLine f.0 × IsPlain f.1

abbrev text_tokens : Text → List Token → List Token
text_tokens [] l = l
text_tokens (c ∷ v) l = Token.chars (c ∷ v) ∷ l

abbrev field_tokens : List (Text × Text) → List Token → List Token
field_tokens [] l = l
field_tokens ((k, v) ∷ fields) l =
    Token.start (codes "field") ((codes "name", k) ∷ [])
    ∷ text_tokens v (Token.end (codes "field") ∷ field_tokens fields l)

Reads-value :
    (v rest : Text) (l : List Token)
    → IsPlain v
    → Reads (b'<' ∷ rest) l
    → Reads (escape false v ++ b'<' ∷ rest) (text_tokens v l)
unfolding escape
Reads-value [] rest l plain next = next
Reads-value (c ∷ v) rest l plain next = Reads-text c v rest l plain next

-- the text of one field in front of `rest`
abbrev field_xml : Text → Text → Text → Text
field_xml k v rest =
    codes "<field name=\""
    ++ (escape true k ++ (b'"' ∷ b'>' ∷ (escape false v ++ (codes "</field>" ++ rest))))

fields_xml-cons :
    (k v : Text) (fields : List (Text × Text)) (rest : Text)
    → fields_xml ((k, v) ∷ fields) ++ rest ≡ field_xml k v (fields_xml fields ++ rest)
unfolding fields_xml
fields_xml-cons k v fields rest =
    rw (append_assoc (escape true k) _ rest, append_assoc (escape false v) _ rest) refl

Reads-fields :
    (fields : List (Text × Text)) (rest : Text) (l : List Token)
    → All IsField fields
    → Reads rest l
    → Reads (fields_xml fields ++ rest) (field_tokens fields l)
Reads-fields [] rest l h next = unfold fields_xml in next
Reads-fields ((k, v) ∷ fields) rest l h next = rw (fields_xml-cons k v fields rest) (
    Reads-field_start k _ _ h.0.0
      (Reads-value v _ _ h.0.1 (Reads-field_end _ _ (Reads-fields fields rest l h.1 next))))

abbrev pub child_of : Text × Text → Child
child_of f = record { tag = codes "field"; attrib = (codes "name", f.0) ∷ []; text = f.1 }

abbrev building : List Child → Builder
building done = record { done = done; tags = []; whole = false }

build-field_tokens :
    (root : Text) (fields : List (Text × Text)) (l : List Token) (done : List Child)
    → build root (field_tokens fields l) (building done)
      ≡ build root l (building (reverse_aux (map child_of fields) done))
unfolding build text_eq
build-field_tokens root [] l done = refl
build-field_tokens root ((k, []) ∷ fields) l done =
    build-field_tokens root fields l (child_of (k, []) ∷ done)
build-field_tokens root ((k, c ∷ v) ∷ fields) l done =
    build-field_tokens root fields l (child_of (k, c ∷ v) ∷ done)

build_end :
    (root : Text) (done : List Child)
    → build root (Token.end root ∷ []) (building done) ≡ some (reverse done)
unfolding build
build_end root done = rw (text_eq_refl root) refl

-- white space is stripped from a document's ends alone
strip_document :
    (body : Text) → strip (b'<' ∷ (body ++ codes "</action>")) ≡ b'<' ∷ (body ++ codes "</action>")
unfolding strip lstrip
strip_document body =
    let doc = b'<' ∷ (body ++ codes "</action>") in
    let back : reverse doc ≡ codes ">noitca/<" ++ reverse (b'<' ∷ body) =
      reverse-append (b'<' ∷ body) (codes "</action>") in
    let kept : lstrip (reverse doc) ≡ reverse doc = rw back refl in
    ap reverse kept ∙ reverse-reverse doc

-- the document of an action of this kind
abbrev pub document : Text → List (Text × Text) → Text
document kind fields =
    codes "<action kind=\""
    ++ (escape true kind ++ (b'"' ∷ b'>' ∷ (fields_xml fields ++ codes "</action>")))

document_tokens :
    (kind : Text) (fields : List (Text × Text))
    → IsOneLine kind
    → All IsField fields
    → Reads (document kind fields) (
        Token.start (codes "action") ((codes "kind", kind) ∷ [])
        ∷ field_tokens fields (Token.end (codes "action") ∷ []))
document_tokens kind fields one_line h =
    Reads-action_start kind _ _ one_line
      (Reads-fields fields (codes "</action>") _ h Reads-action_end)

strip-document :
    (kind : Text) (fields : List (Text × Text))
    → strip (document kind fields) ≡ document kind fields
strip-document kind fields =
    let middle = escape true kind ++ (b'"' ∷ b'>' ∷ fields_xml fields) in
    let e : document kind fields
        ≡ b'<' ∷ ((codes "action kind=\"" ++ middle) ++ codes "</action>") =
      rw (append_assoc (escape true kind) (b'"' ∷ b'>' ∷ fields_xml fields) (codes "</action>"))
        refl in
    rw e (strip_document (codes "action kind=\"" ++ middle))

element_document :
    (kind : Text) (fields : List (Text × Text))
    → element (
        Token.start (codes "action") ((codes "kind", kind) ∷ [])
        ∷ field_tokens fields (Token.end (codes "action") ∷ []))
      ≡ some (record {
        tag = codes "action";
        attrib = (codes "kind", kind) ∷ [];
        children = map child_of fields;
      })
unfolding element
element_document kind fields =
    rw
      (
        element,
        build-field_tokens (codes "action") fields (Token.end (codes "action") ∷ []) [],
        build_end (codes "action") (reverse (map child_of fields)),
        reverse-reverse (map child_of fields),
      )
      refl

all-fields_xml :
    (fields : List (Text × Text)) → All IsField fields → all is_xml_char (fields_xml fields) ≡ true
unfolding fields_xml
all-fields_xml [] h = refl
all-fields_xml ((k, v) ∷ fields) h =
    simp
      (
        all-append,
        escape_xml true k (IsOneLine-IsPlain k h.0.0),
        escape_xml false v h.0.1,
        all-fields_xml fields h.1,
      )
      refl

-- The document of an action holds the characters of XML alone.
pub document_xml :
    (kind : Text) (fields : List (Text × Text))
    → IsOneLine kind
    → All IsField fields
    → all is_xml_char (document kind fields) ≡ true
document_xml kind fields one_line h =
    simp
      (all-append, escape_xml true kind (IsOneLine-IsPlain kind one_line), all-fields_xml fields h)
      refl

-- The document of an action is read as its kind and its fields, in the order in which they were
-- written.
pub from_string-document :
    (kind : Text) (fields : List (Text × Text))
    → IsOneLine kind
    → All IsField fields
    → from_string (document kind fields)
      ≡ some (record {
        tag = codes "action";
        attrib = (codes "kind", kind) ∷ [];
        children = map child_of fields;
      })
unfolding from_string read_document
from_string-document kind fields one_line h = ap read_document (strip-document kind fields) ∙ read
  where
    read :
        read_document (document kind fields)
        ≡ some (record {
          tag = codes "action";
          attrib = (codes "kind", kind) ∷ [];
          children = map child_of fields;
        })
    read =
        rw
          (
            read_document,
            document_tokens kind fields one_line h (suc (length (document kind fields)))
                (omega arith),
            document_xml kind fields one_line h,
          )
          (element_document kind fields)
