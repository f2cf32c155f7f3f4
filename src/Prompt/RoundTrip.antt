-- ===== src/Prompt/RoundTrip.antt =====
-- `render_action` and `parse_action` of model_gateway/prompt.py: what is rendered is read back.
use agentic_code_intelligenc.Prelude.{
  Bool, true, false, some, List, [], ◌∷◌, ◌++◌, all, any, All, map, Text, codes, text_eq,
  text_eq_iff, text_lt, sorted, insert_sorted, append_assoc, append-nil, ◌≡◌, ◌∙◌, refl, ap, arith,
  Bool-cases, inl, inr,
}
use agentic_code_intelligenc.Common.{ok}
use agentic_code_intelligenc.Prompt.Xml.{Element, is_xml_char, from_string}
use agentic_code_intelligenc.Prompt.{
  AgentAction, ActionKind, escape, render_action, kind_value, parse_kind, allowed_fields, contains,
  get, put, read_fields, gate, is_surrogate, parse_action, by_name,
}
use agentic_code_intelligenc.Prompt.Xml.Characters.{
  IsPlain, IsOneLine, IsOneLine-literal, line_char,
}
use agentic_code_intelligenc.Prompt.Xml.Fields.{
  IsField, child_of, document, document_xml, from_string-document,
}

-- no field of this name
abbrev Lacks : Text → List (Text × Text) → Type 0
Lacks k fields = All (λ f. text_eq f.0 k ≡ false) fields

-- the keys of a dict are different
abbrev pub IsDict : List (Text × Text) → Type 0
IsDict [] = Unit
IsDict (f ∷ fields) = Lacks f.0 fields × IsDict fields

-- What the vocabulary and the XML let an action say.
pub record IsWritable (action : AgentAction) : Type 0 where
  pub known : All (λ f. contains (allowed_fields action.kind) f.0 ≡ true) action.fields
  pub plain : All (λ f. IsPlain f.1) action.fields
  pub distinct : IsDict action.fields

-- Sorting keeps what holds of each field.
module _ (P : Text × Text → Type 0) where
  All-insert_sorted :
      (f : Text × Text) (fields : List (Text × Text))
      → P f
      → All P fields
      → All P (insert_sorted by_name f fields)
  All-insert_sorted f [] p h = (p, tt)
  All-insert_sorted f (g ∷ fields) p h = elim (Bool-cases (text_lt g.0 f.0)) [
    | inl e ↦ rw e (h.0, All-insert_sorted f fields p h.1)
    | inr e ↦ rw e (p, h)
  ]

  All-sorted : (fields : List (Text × Text)) → All P fields → All P (sorted by_name fields)
  All-sorted [] h = tt
  All-sorted (f ∷ fields) h =
      All-insert_sorted f (sorted by_name fields) h.0 (All-sorted fields h.1)

text_eq_sym : (a b : Text) → text_eq a b ≡ false → text_eq b a ≡ false
text_eq_sym a b h = ground (arith, text_eq_iff a b, text_eq_iff b a)

IsDict-insert_sorted :
    (f : Text × Text) (fields : List (Text × Text))
    → Lacks f.0 fields
    → IsDict fields
    → IsDict (insert_sorted by_name f fields)
IsDict-insert_sorted f [] new d = (tt, tt)
IsDict-insert_sorted f (g ∷ fields) new d = elim (Bool-cases (text_lt g.0 f.0)) [
  | inl e ↦ rw e (
    All-insert_sorted (λ h. text_eq h.0 g.0 ≡ false) f fields (text_eq_sym g.0 f.0 new.0) d.0,
    IsDict-insert_sorted f fields new.1 d.1,
  )
  | inr e ↦ rw e (new, d)
]

IsDict-sorted : (fields : List (Text × Text)) → IsDict fields → IsDict (sorted by_name fields)
IsDict-sorted [] d = tt
IsDict-sorted (f ∷ fields) d =
    IsDict-insert_sorted f (sorted by_name fields)
      (All-sorted (λ h. text_eq h.0 f.0 ≡ false) fields d.0) (IsDict-sorted fields d.1)

put_new :
    (k v : Text) (fields : List (Text × Text))
    → Lacks k fields
    → put k v fields ≡ fields ++ (k, v) ∷ []
unfolding put
put_new k v [] new = refl
put_new k v ((j, w) ∷ fields) new = rw new.0 (ap (λ l. (j, w) ∷ l) (put_new k v fields new.1))

Lacks-append :
    (k : Text) (fields : List (Text × Text)) (f : Text × Text)
    → Lacks k fields
    → text_eq f.0 k ≡ false
    → Lacks k (fields ++ f ∷ [])
Lacks-append k [] f h e = (e, tt)
Lacks-append k (g ∷ fields) f h e = (h.0, Lacks-append k fields f h.1 e)

-- no name of `more` is in `read`
abbrev Apart : List (Text × Text) → List (Text × Text) → Type 0
Apart read more = All (λ f. Lacks f.0 read) more

Apart-append :
    (read more : List (Text × Text)) (f : Text × Text)
    → Apart read more
    → Lacks f.0 more
    → Apart (read ++ f ∷ []) more
Apart-append read [] f h new = tt
Apart-append read (g ∷ more) f h new =
    (Lacks-append g.0 read f h.0 (text_eq_sym g.0 f.0 new.0), Apart-append read more f h.1 new.1)

read_fields-child_of :
    (fields read : List (Text × Text))
    → Apart read fields
    → IsDict fields
    → read_fields (map child_of fields) read ≡ some (read ++ fields)
unfolding read_fields get text_eq
read_fields-child_of [] read apart d = rw (append-nil read) refl
read_fields-child_of (f ∷ fields) read apart d = rw (put_new f.0 f.1 read apart.0) (
    read_fields-child_of fields (read ++ f ∷ []) (Apart-append read fields f apart.1 d.0) d.1
    ∙ ap some (append_assoc read (f ∷ []) fields))

names-literal : (names : List Text) → all (all line_char) names ≡ true → All IsOneLine names
names-literal [] h = tt
names-literal (n ∷ names) h =
    (IsOneLine-literal n (ground (arith, h)), names-literal names (ground (arith, h)))

names-IsOneLine : (kind : ActionKind) → All IsOneLine (allowed_fields kind)
unfolding allowed_fields
names-IsOneLine ActionKind.plan = names-literal (allowed_fields ActionKind.plan) refl
names-IsOneLine ActionKind.retrieve = names-literal (allowed_fields ActionKind.retrieve) refl
names-IsOneLine ActionKind.edit = names-literal (allowed_fields ActionKind.edit) refl
names-IsOneLine ActionKind.verify = names-literal (allowed_fields ActionKind.verify) refl
names-IsOneLine ActionKind.give_up = names-literal (allowed_fields ActionKind.give_up) refl
names-IsOneLine ActionKind.rename = names-literal (allowed_fields ActionKind.rename) refl

contains-IsOneLine :
    (names : List Text) (k : Text) → All IsOneLine names → contains names k ≡ true → IsOneLine k
unfolding contains
contains-IsOneLine [] k h c = cc
contains-IsOneLine (n ∷ names) k h c = elim (Bool-cases (text_eq k n)) [
  | inl e ↦ let same : k ≡ n = ground (arith, e, text_eq_iff k n) in rw same h.0
  | inr e ↦ contains-IsOneLine names k h.1 (rw e at c)
]

All-IsField :
    (kind : ActionKind) (fields : List (Text × Text))
    → All (λ f. contains (allowed_fields kind) f.0 ≡ true) fields
    → All (λ f. IsPlain f.1) fields
    → All IsField fields
All-IsField kind [] known plain = tt
All-IsField kind (f ∷ fields) known plain = (
  (contains-IsOneLine (allowed_fields kind) f.0 (names-IsOneLine kind) known.0, plain.0),
  All-IsField kind fields known.1 plain.1,
)

all_of_All :
    (p : Text × Text → Bool) (fields : List (Text × Text))
    → All (λ f. p f ≡ true) fields
    → all p fields ≡ true
all_of_All p [] h = refl
all_of_All p (f ∷ fields) h = rw h.0 (all_of_All p fields h.1)

kind-IsOneLine : (kind : ActionKind) → IsOneLine (kind_value kind)
kind-IsOneLine ActionKind.plan = IsOneLine-literal (kind_value ActionKind.plan) refl
kind-IsOneLine ActionKind.retrieve = IsOneLine-literal (kind_value ActionKind.retrieve) refl
kind-IsOneLine ActionKind.edit = IsOneLine-literal (kind_value ActionKind.edit) refl
kind-IsOneLine ActionKind.verify = IsOneLine-literal (kind_value ActionKind.verify) refl
kind-IsOneLine ActionKind.give_up = IsOneLine-literal (kind_value ActionKind.give_up) refl
kind-IsOneLine ActionKind.rename = IsOneLine-literal (kind_value ActionKind.rename) refl

parse_kind-kind_value : (kind : ActionKind) → parse_kind (kind_value kind) ≡ some kind
unfolding parse_kind text_eq
parse_kind-kind_value ActionKind.plan = refl
parse_kind-kind_value ActionKind.retrieve = refl
parse_kind-kind_value ActionKind.edit = refl
parse_kind-kind_value ActionKind.verify = refl
parse_kind-kind_value ActionKind.give_up = refl
parse_kind-kind_value ActionKind.rename = refl

render_document :
    (kind : ActionKind) (fields : List (Text × Text))
    → render_action (record { kind = kind; fields = fields })
      ≡ document (kind_value kind) (sorted by_name fields)
unfolding render_action escape
render_document ActionKind.plan fields = refl
render_document ActionKind.retrieve fields = refl
render_document ActionKind.edit fields = refl
render_document ActionKind.verify fields = refl
render_document ActionKind.give_up fields = refl
render_document ActionKind.rename fields = refl

gate-document :
    (kind : ActionKind) (fields : List (Text × Text))
    → All (λ f. contains (allowed_fields kind) f.0 ≡ true) fields
    → IsDict fields
    → gate (record {
      tag = codes "action";
      attrib = (codes "kind", kind_value kind) ∷ [];
      children = map child_of fields;
    })
      ≡ ok (record { kind = kind; fields = fields })
unfolding gate get text_eq
gate-document kind fields known d =
    rw
      (
        parse_kind-kind_value kind,
        read_fields-child_of fields [] (apart_nil fields) d,
        all_of_All (λ f. contains (allowed_fields kind) f.0) fields known,
      )
      refl
  where
    apart_nil : (more : List (Text × Text)) → Apart [] more
    apart_nil [] = tt
    apart_nil (f ∷ more) = (tt, apart_nil more)

no_surrogate : (s : Text) → all is_xml_char s ≡ true → any is_surrogate s ≡ false
no_surrogate [] h = refl
no_surrogate (c ∷ s) h = ground (arith, h, no_surrogate s)

parse_action-gate :
    (doc : Text) (root : Element)
    → all is_xml_char doc ≡ true
    → from_string doc ≡ some root
    → parse_action doc ≡ gate root
unfolding parse_action
parse_action-gate doc root h e = rw (parse_action, no_surrogate doc h, e) refl

-- An action of the vocabulary, with different field names and with values of the characters that XML
-- takes but the carriage return, is read back from its XML: the kind, and the same fields sorted by
-- name, whatever markup the values hold.
pub parse_action-render_action :
    (action : AgentAction)
    → IsWritable action
    → parse_action (render_action action)
      ≡ ok (record { kind = action.kind; fields = sorted by_name action.fields })
parse_action-render_action action h =
    let fields = sorted by_name action.fields in
    let known =
      All-sorted (λ f. contains (allowed_fields action.kind) f.0 ≡ true) action.fields h.known in
    let plain = All-sorted (λ f. IsPlain f.1) action.fields h.plain in
    ap parse_action (render_document action.kind action.fields)
    ∙ parse_action-gate _ _
        (document_xml (kind_value action.kind) fields (kind-IsOneLine action.kind)
          (All-IsField action.kind fields known plain))
        (from_string-document (kind_value action.kind) fields (kind-IsOneLine action.kind)
          (All-IsField action.kind fields known plain))
    ∙ gate-document action.kind fields known (IsDict-sorted action.fields h.distinct)
