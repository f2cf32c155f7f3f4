-- ===== src/Prompt/Gate.antt =====
-- The gate of model_gateway/prompt.py: what a reply may be that reaches the loop.
use agentic_code_intelligenc.Prelude.{
  true, some, [], all, any, Text, codes, text_eq_iff, Option-cases, Bool-cases, ◌≡◌, refl, arith,
  inl, inr,
}
use agentic_code_intelligenc.Common.{ok}
use agentic_code_intelligenc.Prompt.{
  AgentAction, ActionKind, allowed_fields, kind_value, parse_kind, get, contains, gate,
  parse_action, is_surrogate, read_fields,
}
use agentic_code_intelligenc.Prompt.Xml.{Element, from_string}

parse_kind_value : (s : Text) (k : ActionKind) → parse_kind s ≡ some k → s ≡ kind_value k
unfolding parse_kind
parse_kind_value s k h = ground (
  arith,
  h,
  text_eq_iff s (codes "plan"),
  text_eq_iff s (codes "retrieve"),
  text_eq_iff s (codes "edit"),
  text_eq_iff s (codes "verify"),
  text_eq_iff s (codes "give_up"),
  text_eq_iff s (codes "rename"),
)

-- What a reply has that becomes an action.
pub record IsAdmitted (root : Element) (action : AgentAction) : Type 0 where
  pub tag : root.tag ≡ codes "action"
  pub kind : get (codes "kind") root.attrib ≡ some (kind_value action.kind)
  pub fields : all (λ f. contains (allowed_fields action.kind) f.0) action.fields ≡ true

gate-IsAdmitted :
    (root : Element) (action : AgentAction) → gate root ≡ ok action → IsAdmitted root action
unfolding gate
gate-IsAdmitted root action h = elim (Option-cases (get (codes "kind") root.attrib)) [
  | inl missing ↦ absurd (ground (arith, h, missing))
  | inr (raw, at) ↦ elim (Option-cases (parse_kind raw)) [
    | inl unknown ↦ absurd (ground (arith, h, at, unknown))
    | inr (k, known) ↦ elim (Option-cases (read_fields root.children [])) [
      | inl bad ↦ absurd (ground (arith, h, at, known, bad))
      | inr (fields, good) ↦ elim (Bool-cases (all (λ f. contains (allowed_fields k) f.0) fields)) [
        | inr no_ ↦ absurd (ground (arith, h, at, known, good, no_))
        | inl yes_ ↦
            let same : action ≡ record { kind = k; fields = fields } =
              ground (arith, h, at, known, good, yes_) in
            rw same (record {
              tag = ground (arith, h, text_eq_iff root.tag (codes "action"));
              kind = rw (at, parse_kind_value raw k known) refl;
              fields = yes_;
            })
      ]
    ]
  ]
]

-- Whatever text the model sends: a reply that becomes an action is an XML document whose root is
-- `<action>`, with one of the six kinds as its `kind`, and every field of it is in the vocabulary of
-- that kind. All else is refused.
pub parse_action-IsAdmitted :
    (content_xml : Text) (action : AgentAction)
    → parse_action content_xml ≡ ok action
    → (root : Element) × (from_string content_xml ≡ some root) × IsAdmitted root action
unfolding parse_action
parse_action-IsAdmitted content_xml action h = elim (Option-cases (from_string content_xml)) [
  | inl bad ↦ absurd (ground (arith, h, bad))
  | inr (root, parsed) ↦ elim (Bool-cases (any is_surrogate content_xml)) [
    | inl surrogate ↦ absurd (ground (arith, h, surrogate))
    | inr encoded ↦
        (root, parsed, gate-IsAdmitted root action (rw (parsed, encoded, parse_action) at h))
  ]
]
