-- ===== src/Retrieval/Redaction/Named.antt =====
-- What a match of the third rule of retrieval/redaction.py is made of, and what takes its place.
use agentic_code_intelligenc.Prelude.{
  ℕ, ◌==◌, true, not, some, [], ◌++◌, all, append_assoc, Text, codes, text_eq, text_eq_refl, ◌≡◌,
  ◌∙◌, sym, subst, ap, refl, inl, inr,
}
use agentic_code_intelligenc.Retrieval.Regex.{
  Regex, Found, Groups, prefixes, group_text, literal_at, named, after,
}
use agentic_code_intelligenc.Retrieval.Regex.Results.{In, map-In, each-In}
use agentic_code_intelligenc.Retrieval.Regex.Prefixes.{
  missing, Misses-missing, Match, Match-prefixes,
}
use agentic_code_intelligenc.Retrieval.Regex.Consumed.{Filled, Filled-prefixes, Consumes, again_lem}
use agentic_code_intelligenc.Retrieval.Redaction.{
  named_secret, name_part, sep_part, quote_part, value_part,
}

-- The five parts of a match in `s`: the name, the separator, the quote, the value, the quote again.
pub record Parts (s : Text) (x : Found) : Type 0 where
  pub name : Text
  pub sep : Text
  pub quote : Text
  pub value : Text
  pub close : Text
  pub behind : Text
  pub matched_is : x.matched ≡ name ++ (sep ++ (quote ++ (value ++ close)))
  pub begins : name ++ (sep ++ (quote ++ behind)) ≡ s
  pub splits : x.matched ++ x.rest ≡ s
  pub filled : Filled sep
  -- the quote is not an `s`, with which a provider key begins, nor an `e`, as of a token
  pub no_s : all (λ c. not (c == 115)) quote ≡ true
  pub no_e : all (λ c. not (c == 101)) quote ≡ true
  pub name_is : group_text (codes "name") x.groups ≡ some name
  pub sep_is : group_text (codes "sep") x.groups ≡ some sep
  pub quote_is : group_text (codes "q") x.groups ≡ some quote

-- A group holds the text that it matched.
own_text :
    (other : Text) (a : Regex) (g : Groups) (s : Text) (f : Found)
    → In f (prefixes (Regex.group other a) g s)
    → group_text other f.groups ≡ some f.matched
unfolding prefixes group_text
own_text other a g s f h =
    let (x, i, e) = map-In (named other) f (prefixes a g s) h in rw e (rw (text_eq_refl other) refl)

-- Another group keeps its text, and the match is a prefix.
kept_text :
    (mark : ℕ) (name other : Text) (a : Regex) (g : Groups) (s : Text) (f : Found)
    → missing mark name (Regex.group other a) ≡ true
    → In f (prefixes (Regex.group other a) g s)
    → Match mark name (prefixes (Regex.group other a) g) g s f
kept_text mark name other a g s f known h =
    Match-prefixes mark name (Regex.group other a) g s f
      (Misses-missing mark name (Regex.group other a) known) h

abbrev q : Text
q = codes "q"

module _ (s : Text) (x1 x2 x3 x4 y : Found)
    (h1 : In x1 (prefixes (Regex.group (codes "name") name_part) [] s))
    (h2 : In x2 (prefixes (Regex.group (codes "sep") sep_part) x1.groups x1.rest))
    (h3 : In x3 (prefixes (Regex.group q quote_part) x2.groups x2.rest))
    (h4 : In x4 (prefixes (Regex.group (codes "secret") value_part) x3.groups x3.rest))
    (h5 : In y (prefixes (Regex.again q) x4.groups x4.rest)) where
  -- the value is one more group
  value_keeps :
      (name : Text)
      → missing 96 name (Regex.group (codes "secret") value_part) ≡ true
      → group_text name x4.groups ≡ group_text name x3.groups
  value_keeps name known =
      (kept_text 96 name (codes "secret") value_part x3.groups x3.rest x4 known h4).keeps

  closing : (y.matched ++ y.rest ≡ x4.rest) × (y.groups ≡ x4.groups)
  unfolding prefixes missing text_eq
  closing =
      let known : group_text q x4.groups ≡ some x3.matched =
        value_keeps q refl ∙ own_text q quote_part x2.groups x2.rest x3 h3 in
      let literal_is : In y (literal_at x3.matched x4.groups x4.rest) = rw known at h5 in
      again_lem x3.matched x4.groups x4.rest y literal_is

  parts_of : Parts s (after x1.matched (after x2.matched (after x3.matched (after x4.matched y))))
  unfolding missing text_eq Consumes
  parts_of =
      let m1 = kept_text 96 q (codes "name") name_part [] s x1 refl h1 in
      let m2 = kept_text 96 (codes "name") (codes "sep") sep_part x1.groups x1.rest x2 refl h2 in
      let m3 = kept_text 115 (codes "name") q quote_part x2.groups x2.rest x3 refl h3 in
      let m3' = kept_text 101 (codes "sep") q quote_part x2.groups x2.rest x3 refl h3 in
      let m4 = kept_text 96 q (codes "secret") value_part x3.groups x3.rest x4 refl h4 in
      let (close_splits, same_groups) = closing in
      record {
        name = x1.matched;
        sep = x2.matched;
        quote = x3.matched;
        value = x4.matched;
        close = y.matched;
        behind = x3.rest;
        matched_is = refl;
        begins = rw (m3.splits, m2.splits) m1.splits;
        splits =
            rw
              (
                append_assoc, append_assoc, append_assoc, append_assoc, close_splits, m4.splits,
                m3.splits, m2.splits,
              )
              m1.splits;
        filled =
            Filled-prefixes (Regex.group (codes "sep") sep_part) x1.groups x1.rest x2 (inr (inl tt))
              h2;
        no_s = m3.misses;
        no_e = m3'.misses;
        name_is =
            ap (group_text (codes "name")) same_groups
            ∙ value_keeps (codes "name") refl
            ∙ m3.keeps
            ∙ m2.keeps
            ∙ own_text (codes "name") name_part [] s x1 h1;
        sep_is =
            ap (group_text (codes "sep")) same_groups
            ∙ value_keeps (codes "sep") refl
            ∙ m3'.keeps
            ∙ own_text (codes "sep") sep_part x1.groups x1.rest x2 h2;
        quote_is =
            ap (group_text q) same_groups
            ∙ value_keeps q refl
            ∙ own_text q quote_part x2.groups x2.rest x3 h3;
      }

-- Each match of the rule is made of its five parts.
pub Parts-named_secret : (s : Text) (x : Found) → In x (prefixes named_secret [] s) → Parts s x
unfolding named_secret prefixes
Parts-named_secret s x h =
    let rest3 = Regex.seq (Regex.group (codes "secret") value_part) (Regex.again q) in
    let rest2 = Regex.seq (Regex.group q quote_part) rest3 in
    let rest1 = Regex.seq (Regex.group (codes "sep") sep_part) rest2 in
    let (x1, y1, h1, k1, e1) =
      each-In (λ t. prefixes rest1 t.groups t.rest) x
        (prefixes (Regex.group (codes "name") name_part) [] s) h in
    let (x2, y2, h2, k2, e2) =
      each-In (λ t. prefixes rest2 t.groups t.rest) y1
        (prefixes (Regex.group (codes "sep") sep_part) x1.groups x1.rest) k1 in
    let (x3, y3, h3, k3, e3) =
      each-In (λ t. prefixes rest3 t.groups t.rest) y2
        (prefixes (Regex.group q quote_part) x2.groups x2.rest) k2 in
    let (x4, y4, h4, k4, e4) =
      each-In (λ t. prefixes (Regex.again q) t.groups t.rest) y3
        (prefixes (Regex.group (codes "secret") value_part) x3.groups x3.rest) k3 in
    let whole =
      e1 ∙ ap (after x1.matched) (e2 ∙ ap (after x2.matched) (e3 ∙ ap (after x3.matched) e4)) in
    subst (λ t. Parts s t) (sym whole) (parts_of s x1 x2 x3 x4 y4 h1 h2 h3 h4 k4)
