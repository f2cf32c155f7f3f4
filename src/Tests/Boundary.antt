-- ===== src/Tests/Boundary.antt =====
-- Examples for the key check, the retrieval service, the index and the prompts.
use agentic_code_intelligenc.Prelude.{
  ℕ, ◌≤◌, ◌==◌, leb, Bool, true, some, [], ◌∷◌, drop, length, filter, if◌then◌else◌, Text, codes,
  text_eq, strip_space, utf8, hex, starts_with, ◌≡◌, ◌≢◌, refl, arith,
}
use agentic_code_intelligenc.Common.{Error, Result, ok, err}
use agentic_code_intelligenc.Db.Accounts.{get_by_prefix}
use agentic_code_intelligenc.World.{Act, pure}
use agentic_code_intelligenc.Gateway.{
  Hits, check, put_hits, drop_old, split_token, hash_secret, verify_secret, issue_api_key,
  AuthContext, authenticate, require_auth,
}
use agentic_code_intelligenc.Gateway.Window.{fresh, check_exact, serve, serve_window}
use agentic_code_intelligenc.Gateway.Identity.{
  IsGrant, require_auth-IsGrant, issue_api_key_verifies,
}
use agentic_code_intelligenc.Retrieval.{splitlines, concat}
use agentic_code_intelligenc.Retrieval.Cost.{concat-splitlines}
use agentic_code_intelligenc.Index.{Index, FileIndex}
use agentic_code_intelligenc.Prompt.{
  AgentAction, ActionKind, build_channels, parse_action, allowed_fields, contains,
}
use agentic_code_intelligenc.Prompt.Xml.{Element, from_string}
use agentic_code_intelligenc.Prompt.Channels.{count, tags, build_channels_markup}
use agentic_code_intelligenc.Prompt.Gate.{IsAdmitted, parse_action-IsAdmitted}
use agentic_code_intelligenc.Tests.Demo.{user, env, database}

abbrev space : ℕ → Bool
space c = c == 32

abbrev demo_auth : Result AuthContext × Hits
demo_auth = require_auth env.sha256 space (some (codes "Bearer pre.s ")) 5 database (λ k. [])

demo_auth_ok : demo_auth ≡ (ok (record { user_id = user; api_key_id = codes "k1" }), demo_auth.1)
unfolding require_auth authenticate strip_space split_token get_by_prefix verify_secret hash_secret
    hex utf8 text_eq starts_with check put_hits drop_old
demo_auth_ok = refl

require_auth-IsGrant_example :
    IsGrant env.sha256
      (strip_space space (drop 7 (codes "Bearer pre.s ")))
      5
      database
      (λ k. [])
      (record { user_id = user; api_key_id = codes "k1" })
require_auth-IsGrant_example =
    require_auth-IsGrant env.sha256 space (codes "Bearer pre.s ") 5 database (λ k. []) demo_auth.1
      (record { user_id = user; api_key_id = codes "k1" }) demo_auth_ok

issue_api_key_verifies_example :
    let key = issue_api_key env.sha256 (codes "abcdefghij") (codes "x.y") in
    ((split_token key.token).0 ≡ key.prefix)
    × (verify_secret env.sha256 (split_token key.token).1 key.key_hash ≡ true)
issue_api_key_verifies_example =
    issue_api_key_verifies env.sha256 (codes "abcdefghij") (codes "x.y")
      (refl, (refl, (refl, (refl, (refl, (refl, (refl, (refl, (refl, (refl, tt))))))))))

check_exact_example :
    ((check (codes "k1") 2 50 (λ k. 1 ∷ 9 ∷ [])).0
      ≡ (if leb 2 (length (filter (fresh 50) (1 ∷ 9 ∷ []))) then err Error.rate_limited else ok tt))
    × ((k : Text) → k ≢ codes "k1" → (check (codes "k1") 2 50 (λ k. 1 ∷ 9 ∷ [])).1 k ≡ 1 ∷ 9 ∷ [])
check_exact_example =
    check_exact (codes "k1") 2 50 (λ k. 1 ∷ 9 ∷ []) (omega arith) (omega arith, tt)

serve_window_example :
    length (filter (fresh 70000) (serve (codes "k1") 2 (1 ∷ 2 ∷ 3 ∷ 65000 ∷ []) (λ _. []) [])) ≤ 2
serve_window_example =
    serve_window (codes "k1") 2 (1 ∷ 2 ∷ 3 ∷ 65000 ∷ []) 70000 (omega arith)
      (omega arith, (omega arith, (omega arith, (omega arith, tt))))

abbrev plain : Text → Text × ℕ
plain s = (s, 0)

abbrev no_index : Text → Text → Act Index
no_index u w = pure []

concat-splitlines_example : concat (splitlines (codes "one\ntwo")) ≡ codes "one\ntwo"
concat-splitlines_example = concat-splitlines (codes "one\ntwo")

abbrev file : Text → FileIndex
file hash = record {
  path = codes "a.py";
  language = codes "python";
  content_hash = hash;
  symbols = [];
  references = [];
  imports = [];
}

build_channels_markup_example :
    let (instruction_xml, data_xml) =
      build_channels
        (codes "a < b")
        (record { origin = codes "x"; content = codes "</span>" } ∷ []) in
    (count b'<' instruction_xml ≡ 2)
    × (count b'>' instruction_xml ≡ 2)
    × (count b'<' data_xml ≡ tags 1)
    × (count b'>' data_xml ≡ tags 1)
build_channels_markup_example =
    build_channels_markup (codes "a < b")
      (record { origin = codes "x"; content = codes "</span>" } ∷ [])

abbrev retrieve : AgentAction
retrieve = record { kind = ActionKind.retrieve; fields = (codes "name", codes "f") ∷ [] }

abbrev reply : Text
reply = codes "<action kind=\"retrieve\"><field name=\"name\">f</field></action>"

reply_ok : parse_action reply ≡ ok retrieve
unfolding parse_action from_string text_eq allowed_fields contains
reply_ok = refl

parse_action-IsAdmitted_example :
    (root : Element) × (from_string reply ≡ some root) × IsAdmitted root retrieve
parse_action-IsAdmitted_example = parse_action-IsAdmitted reply retrieve reply_ok
