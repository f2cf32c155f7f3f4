-- ===== src/Backend.antt =====
-- `StubModelBackend` of model_gateway/stub.py: the keyless backend that answers by a script, from what
-- the instruction channel hints at and from the number of the step.

pub mod Script
use agentic_code_intelligenc.Prelude.{
  ℕ, zero, suc, ◌+◌, ◌/◌, leb, ◌==◌, Bool, true, false, not, ◌&&◌, ◌||◌, Option, none, some, List,
  [], ◌∷◌, ◌++◌, length, drop, if◌then◌else◌, Text, codes, starts_with, utf8, is_some,
}
use agentic_code_intelligenc.World.{ModelRequest, ModelResponse}
use agentic_code_intelligenc.Prompt.{AgentAction, ActionKind, render_action}
use agentic_code_intelligenc.Orchestrator.Rename.{is_word}

-- `[A-Za-z_]` and `[A-Za-z0-9_]`
abbrev pub starts_ident : ℕ → Bool
starts_ident c = leb b'a' c && leb c b'z' || leb b'A' c && leb c b'Z' || c == b'_'

abbrev pub in_ident : ℕ → Bool
in_ident c = starts_ident c || leb b'0' c && leb c b'9'

-- the longest run of identifier characters at the front, and the rest
pub ident_run : Text → Text × Text
ident_run [] = ([], [])
ident_run (c ∷ s) = let (a, b) = ident_run s in if in_ident c then (c ∷ a, b) else ([], c ∷ s)

-- an identifier at the front
pub ident_at : Text → Option (Text × Text)
unfolding ident_run
ident_at [] = none
ident_at (c ∷ s) = if starts_ident c then some (ident_run (c ∷ s)) else none

-- `key` at the front, and an identifier behind it
pub hint_at : Text → Text → Option (Text × Text)
unfolding ident_at
hint_at key s = if starts_with key s then ident_at (drop (length key) s) else none

-- `_TARGET_RE.search`: `target_symbol=` with the identifier behind it, at the leftmost place
pub find_target : Text → Option Text
unfolding hint_at
find_target [] = none
find_target (c ∷ s) = elim (hint_at (codes "target_symbol=") (c ∷ s)) [
  | some (name, _) ↦ some name
  | none ↦ find_target s
]

unfoldable pub target : Text → Text
unfolding find_target
target instruction_xml = elim (find_target instruction_xml) [
  | none ↦ codes "serialize_user"
  | some name ↦ name
]

-- `wide` tells which characters above ASCII `\w` takes.
module _ (wide : ℕ → Bool) where
  pub begins_word : Text → Bool
  begins_word [] = false
  begins_word (c ∷ s) = is_word wide c

  -- `\bkey(ident)\b`: the identifier takes all that it can, so a word character behind it leaves no
  -- match at this place. `inside` tells that the character in front is a word character.
  pub find_hint : Text → Bool → Text → Option Text
  unfolding hint_at begins_word
  find_hint key inside [] = none
  find_hint key inside (c ∷ s) =
      let later = find_hint key (is_word wide c) s in
      elim (hint_at key (c ∷ s)) [
        | none ↦ later
        | some (name, behind) ↦ if inside || begins_word behind then later else some name
      ]

  -- `\bfail_first=1\b`
  has_fail_first : Bool → Text → Bool
  unfolding begins_word
  has_fail_first inside [] = false
  has_fail_first inside (c ∷ s) =
      not inside
        && starts_with (codes "fail_first=1") (c ∷ s)
        && not (begins_word (drop 12 (c ∷ s)))
      || has_fail_first (is_word wide c) s

  unfoldable pub fail_first_hint : Text → Bool
  unfolding has_fail_first
  fail_first_hint instruction_xml = has_fail_first false instruction_xml

  unfoldable pub rename_target : Text → Option Text
  unfolding find_hint
  rename_target instruction_xml = find_hint (codes "rename_target=") false instruction_xml

  unfoldable pub new_name : Text → Option Text
  unfolding find_hint
  new_name instruction_xml = find_hint (codes "new_name=") false instruction_xml

abbrev pub test_path : Text
test_path = codes "backend/tests/test_agent_change.py"

abbrev pub bad_path : Text
bad_path = codes "backend/tests/test_bad_attempt.py"

unfoldable pub proposed_bad_edit_content : Text → Text
proposed_bad_edit_content symbol =
    codes "\"\"\"Bad first attempt for "
    ++ (symbol
        ++ (codes
              " — wrong path, repair needed.\"\"\"\n\n# This file was written to the wrong location by the stub's first attempt.\ndef test_bad_attempt_"
            ++ (symbol
                ++ codes "() -> None:\n    pass  # not the file the FakeSandbox looks for\n")))

unfoldable pub proposed_edit_content : Text → Text
proposed_edit_content symbol =
    codes "\"\"\"Agent-authored verification test for "
    ++ (symbol
        ++ (codes
              " (Phase-4 stub).\"\"\"\n\nfrom __future__ import annotations\n\nfrom app.users.models import User\nfrom app.users.service import "
            ++ (symbol
                ++ (codes
                      "\n\n\ndef test_agent_change_serialize_active() -> None:\n    user = User(id=\"a1\", name=\"Ada Lovelace\", email=\"ada@example.com\")\n    result = "
                    ++ (symbol
                        ++ codes
                            "(user)\n    assert result[\"id\"] == \"a1\"\n    assert result[\"active\"] is True\n")))))

abbrev pub verify_action : AgentAction
verify_action = record { kind = ActionKind.verify; fields = [] }

abbrev pub plan_action : Text → Text → AgentAction
plan_action summary symbol = record {
  kind = ActionKind.plan;
  fields = (codes "summary", summary) ∷ (codes "target_symbol", symbol) ∷ [];
}

abbrev pub edit_action : Text → Text → AgentAction
edit_action path content = record {
  kind = ActionKind.edit;
  fields =
      (codes "op", codes "write") ∷ (codes "file_path", path) ∷ (codes "content", content) ∷ [];
}

-- the script of a rename
abbrev pub rename_step : ℕ → Text → Text → AgentAction
rename_step zero old new =
    plan_action
      (codes "rename " ++ (old ++ (codes " to " ++ (new ++ codes " across all call sites")))) old
rename_step (suc zero) old new = record {
  kind = ActionKind.rename;
  fields = (codes "old_name", old) ∷ (codes "new_name", new) ∷ [];
}
rename_step _ old new = verify_action

-- the script of a single file
abbrev pub test_step : ℕ → Text → Bool → AgentAction
test_step zero symbol fail_first =
    plan_action (codes "add a passing test exercising " ++ symbol) symbol
test_step (suc zero) symbol fail_first = record {
  kind = ActionKind.retrieve;
  fields = (codes "primitive", codes "definition") ∷ (codes "name", symbol) ∷ [];
}
test_step (suc (suc zero)) symbol fail_first =
    if fail_first
    then edit_action bad_path (proposed_bad_edit_content symbol)
    else edit_action test_path (proposed_edit_content symbol)
test_step (suc (suc (suc (suc zero)))) symbol fail_first =
    if fail_first then edit_action test_path (proposed_edit_content symbol) else verify_action
test_step _ symbol fail_first = verify_action

-- `if rename_target and new_name`: the hints are no empty texts
unfoldable pub action_for_step : ℕ → Text → Bool → Option Text → Option Text → AgentAction
action_for_step step symbol fail_first (some old) (some new) = rename_step step old new
action_for_step step symbol fail_first _ _ = test_step step symbol fail_first

unfoldable pub token_estimate : Text → ℕ
token_estimate text = 1 + (length (utf8 text) + 3) / 4

module _ (wide : ℕ → Bool) where
  -- the action of a request
  abbrev pub scripted : Text → ℕ → AgentAction
  scripted instruction_xml step =
      action_for_step step (target instruction_xml) (fail_first_hint wide instruction_xml)
        (rename_target wide instruction_xml) (new_name wide instruction_xml)

  unfoldable pub complete : ModelRequest → ModelResponse
  unfolding action_for_step token_estimate
  complete request =
      let content_xml = render_action (scripted request.instruction_xml request.step_index) in
      record {
        content_xml = content_xml;
        input_tokens = token_estimate (request.instruction_xml ++ request.data_xml);
        output_tokens = token_estimate content_xml;
        backend = codes "stub";
      }
