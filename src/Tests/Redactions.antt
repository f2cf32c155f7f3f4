-- ===== src/Tests/Redactions.antt =====
-- Examples for the scrubbing of secrets.
use agentic_code_intelligenc.Prelude.{codes, text_eq, starts_with, strip_space, ◌≡◌, refl}
use agentic_code_intelligenc.Retrieval.Regex.{sub, prefixes, group_text, repeats, each, literal_at}
use agentic_code_intelligenc.Retrieval.Regex.Scrubbed.{IsClean}
use agentic_code_intelligenc.Retrieval.Redaction.Clean.{redact-IsClean}
use agentic_code_intelligenc.Retrieval.Redaction.{
  RedactionResult, redact, apply_rules, place, marker, allowed_name, provider_api_key, jwt,
  named_secret, literal, total_redactions,
}

-- a key by its shape
abbrev bare_key : RedactionResult
bare_key = redact (codes "k sk_live_12345678;")

bare_key_text :
    (bare_key.content ≡ codes "k «redacted:provider_api_key»;")
    × (total_redactions bare_key.events ≡ 1)
unfolding redact apply_rules place marker allowed_name provider_api_key jwt named_secret literal sub
    prefixes group_text repeats each literal_at text_eq starts_with strip_space total_redactions
bare_key_text = (refl, refl)

-- a token of three segments
abbrev token_of_three : RedactionResult
token_of_three = redact (codes "ey1.a.b-c d")

token_of_three_text :
    (token_of_three.content ≡ codes "«redacted:jwt» d")
    × (total_redactions token_of_three.events ≡ 1)
unfolding redact apply_rules place marker allowed_name provider_api_key jwt named_secret literal sub
    prefixes group_text repeats each literal_at text_eq starts_with strip_space total_redactions
token_of_three_text = (refl, refl)

-- the name and the quotes stay
abbrev quoted_password : RedactionResult
quoted_password = redact (codes "Password = \"pw\"")

quoted_password_text :
    (quoted_password.content ≡ codes "Password = \"«redacted:named_secret»\"")
    × (total_redactions quoted_password.events ≡ 1)
unfolding redact apply_rules place marker allowed_name provider_api_key jwt named_secret literal sub
    prefixes group_text repeats each literal_at text_eq starts_with strip_space total_redactions
quoted_password_text = (refl, refl)

-- the second rule that fits takes the place of the first one's marker
abbrev key_in_assignment : RedactionResult
key_in_assignment = redact (codes "KEY_TOKEN=sk-12345678")

key_in_assignment_text :
    (key_in_assignment.content ≡ codes "KEY_TOKEN=«redacted:named_secret»")
    × (total_redactions key_in_assignment.events ≡ 2)
unfolding redact apply_rules place marker allowed_name provider_api_key jwt named_secret literal sub
    prefixes group_text repeats each literal_at text_eq starts_with strip_space total_redactions
key_in_assignment_text = (refl, refl)

-- a quoted value with a space is left as it is
abbrev two_words_in_quotes : RedactionResult
two_words_in_quotes = redact (codes "password = \"one two\"")

two_words_in_quotes_text :
    (two_words_in_quotes.content ≡ codes "password = \"one two\"")
    × (total_redactions two_words_in_quotes.events ≡ 0)
unfolding redact apply_rules place marker allowed_name provider_api_key jwt named_secret literal sub
    prefixes group_text repeats each literal_at text_eq starts_with strip_space total_redactions
two_words_in_quotes_text = (refl, refl)

redact-IsClean_example : IsClean provider_api_key bare_key.content × IsClean jwt bare_key.content
redact-IsClean_example = redact-IsClean (codes "k sk_live_12345678;")
