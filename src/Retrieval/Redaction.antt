-- ===== src/Retrieval/Redaction.antt =====
-- The scrubbing of secrets of retrieval/redaction.py: the three rules, in their order, over the text.
pub mod Clean
pub mod Markers
pub mod Named
use agentic_code_intelligenc.Prelude.{
  ℕ, zero, suc, ◌+◌, ◌==◌, leb, Bool, not, ◌&&◌, ◌||◌, Option, none, some, List, [], ◌∷◌, ◌++◌, any,
  map, if◌then◌else◌, Text, codes, text_eq, strip_space,
}
use agentic_code_intelligenc.Retrieval.Regex.{Regex, Found, Groups, group_text, sub}

-- `RedactionEvent`
pub record RedactionEvent : Type 0 where
  pub reason : Text
  pub number : ℕ

-- `RedactionResult`
pub record RedactionResult : Type 0 where
  pub content : Text
  pub events : List RedactionEvent

-- `total_redactions`
unfoldable pub total_redactions : List RedactionEvent → ℕ
total_redactions [] = 0
total_redactions (e ∷ events) = e.number + total_redactions events

-- `_marker`
unfoldable pub marker : Text → Text
marker reason = codes "«redacted:" ++ reason ++ codes "»"

-- `\s`
abbrev pub is_space : ℕ → Bool
is_space c =
    (leb 9 c && leb c 13)
    || (leb 28 c && leb c 32)
    || any (λ d. c == d) (133 ∷ 160 ∷ 5760 ∷ 8232 ∷ 8233 ∷ 8239 ∷ 8287 ∷ 12288 ∷ [])
    || (leb 8192 c && leb c 8202)

abbrev is_alnum : ℕ → Bool
is_alnum c = (leb 48 c && leb c 57) || (leb 65 c && leb c 90) || (leb 97 c && leb c 122)

-- under `(?i)`, the small letter that a character is taken for: four that are not ASCII count as i, s
-- and k
abbrev folded : ℕ → ℕ
folded c =
    if leb 65 c && leb c 90
    then c + 32
    else if (c == 304) || (c == 305)
    then 105
    else if c == 383
    then 115
    else if c == 8490
    then 107
    else c

-- `[A-Za-z0-9_]` under `(?i)`
abbrev is_word_any_case : ℕ → Bool
is_word_any_case c = is_alnum (folded c) || (c == 95)

abbrev optional : Regex → Regex
optional r = Regex.alt r Regex.empty

abbrev dash : ℕ → Bool
dash c = (c == 45) || (c == 95)

unfoldable pub literal : Text → Regex
literal [] = Regex.empty
literal (c ∷ s) = Regex.seq (Regex.one (λ d. d == c)) (literal s)

abbrev any_case : Text → Regex
any_case [] = Regex.empty
any_case (c ∷ s) = Regex.seq (Regex.one (λ d. folded d == c)) (any_case s)

-- `sk[-_](?:live|test)?[-_]?[A-Za-z0-9]{8,}`
unfoldable pub provider_api_key : Regex
provider_api_key = Regex.group (codes "secret") (
    Regex.seq (literal (codes "sk")) (
      Regex.seq (Regex.one dash) (
        Regex.seq (optional (Regex.alt (literal (codes "live")) (literal (codes "test"))))
          (Regex.seq (optional (Regex.one dash)) (Regex.repeat 8 is_alnum)))))

-- `ey[A-Za-z0-9_-]*\.[A-Za-z0-9_.-]+\.[A-Za-z0-9_-]+`
unfoldable pub jwt : Regex
jwt =
    let segment : ℕ → Bool = λ c. is_alnum c || dash c in
    let dot = Regex.one (λ c. c == 46) in
    Regex.group (codes "secret") (
      Regex.seq (literal (codes "ey")) (
        Regex.seq (Regex.repeat 0 segment) (
          Regex.seq dot (
            Regex.seq (Regex.repeat 1 (λ c. segment c || (c == 46)))
              (Regex.seq dot (Regex.repeat 1 segment))))))

-- `secret|password|passwd|api[_-]?key|token|signing[_-]?key|access[_-]?key|private[_-]?key|`
-- `client[_-]?secret`
abbrev two_words : Text → Text → Regex
two_words a b = Regex.seq (any_case a) (Regex.seq (optional (Regex.one dash)) (any_case b))

abbrev one_among : List Regex → Regex → Regex
one_among [] last = last
one_among (r ∷ rs) last = Regex.alt r (one_among rs last)

abbrev keyword : Regex
keyword =
    one_among
      (any_case (codes "secret")
        ∷ any_case (codes "password")
        ∷ any_case (codes "passwd")
        ∷ two_words (codes "api") (codes "key")
        ∷ any_case (codes "token")
        ∷ two_words (codes "signing") (codes "key")
        ∷ two_words (codes "access") (codes "key")
        ∷ two_words (codes "private") (codes "key")
        ∷ [])
      (two_words (codes "client") (codes "secret"))

-- `[A-Za-z0-9_]*(?:...)[A-Za-z0-9_]*`
abbrev pub name_part : Regex
name_part =
    Regex.seq (Regex.repeat 0 is_word_any_case)
      (Regex.seq keyword (Regex.repeat 0 is_word_any_case))

-- `\s*[:=]\s*`
abbrev pub sep_part : Regex
sep_part =
    Regex.seq (Regex.repeat 0 is_space)
      (Regex.seq (Regex.one (λ c. (c == 58) || (c == 61))) (Regex.repeat 0 is_space))

-- `['"]?`
abbrev pub quote_part : Regex
quote_part = optional (Regex.one (λ c. (c == 39) || (c == 34)))

-- `[^\s'"`]+`
abbrev pub value_part : Regex
value_part = Regex.repeat 1 (λ c. not (is_space c || (c == 39) || (c == 34) || (c == 96)))

-- the name, the separator, a quote perhaps, the value, and the same quote again
unfoldable pub named_secret : Regex
named_secret = Regex.seq (Regex.group (codes "name") name_part) (
    Regex.seq (Regex.group (codes "sep") sep_part) (
      Regex.seq (Regex.group (codes "q") quote_part)
        (Regex.seq (Regex.group (codes "secret") value_part) (Regex.again (codes "q")))))

-- `_ALLOW_NAMES`
unfoldable pub allowed_name : Text → Bool
allowed_name name =
    any (λ benign. text_eq (map folded name) (codes benign))
      ("database_url" ∷ "db_url" ∷ "redis_url" ∷ [])

abbrev pub or_empty : Option Text → Text
or_empty none = []
or_empty (some u) = u

-- `_sub`: what takes the place of a match, and what is counted for it
abbrev pub placed : Text → Found → Option Text → Text × ℕ
placed reason found none = (marker reason, 1)
placed reason found (some name) =
    if allowed_name (strip_space is_space name) then (found.matched, 0) else (
      name
          ++ or_empty (group_text (codes "sep") found.groups)
          ++ or_empty (group_text (codes "q") found.groups)
          ++ marker reason
          ++ or_empty (group_text (codes "q") found.groups),
      1,
    )

unfoldable pub place : Text → Found → Text × ℕ
place reason found = placed reason found (group_text (codes "name") found.groups)

-- `_RULES`
abbrev pub rules : List (Text × Regex)
rules =
    (codes "provider_api_key", provider_api_key)
    ∷ (codes "jwt", jwt)
    ∷ (codes "named_secret", named_secret)
    ∷ []

abbrev noted : Text → ℕ → List RedactionEvent
noted reason number = if number == 0 then [] else record { reason = reason; number = number } ∷ []

-- the loop of `redact`
unfoldable pub apply_rules : List (Text × Regex) → Text → List RedactionEvent → RedactionResult
apply_rules [] text events = record { content = text; events = events }
apply_rules ((reason, rule) ∷ rest) text events =
    let (text', number) = sub rule (place reason) 0 text in
    apply_rules rest text' (events ++ noted reason number)

-- `redact`
unfoldable pub redact : Text → RedactionResult
unfolding apply_rules
redact content = apply_rules rules content []

-- `redact_secrets`
unfoldable pub redact_secrets : Text → Text
unfolding redact
redact_secrets content = (redact content).content
