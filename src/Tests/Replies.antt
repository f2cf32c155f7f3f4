-- ===== src/Tests/Replies.antt =====
-- Examples for the replies of the model: an edit whose content looks like markup, and the stub's script.
use agentic_code_intelligenc.Prelude.{
  ◌++◌, Text, ℕ, Bool, false, [], ◌∷◌, codes, text_eq, starts_with, sorted, ◌≡◌, refl,
}
use agentic_code_intelligenc.Common.{Error, ok, err}
use agentic_code_intelligenc.Prompt.Xml.{from_string}
use agentic_code_intelligenc.World.{ModelRequest}
use agentic_code_intelligenc.Prompt.{
  get, AgentAction, ActionKind, render_action, parse_action, allowed_fields, contains, by_name,
}
use agentic_code_intelligenc.Prompt.Xml.Characters.{IsPlain-literal}
use agentic_code_intelligenc.Prompt.RoundTrip.{IsWritable, parse_action-render_action}
use agentic_code_intelligenc.Backend.{
  scripted, bad_path, proposed_bad_edit_content, action_for_step, target, fail_first_hint,
  rename_target, new_name,
}
use agentic_code_intelligenc.Orchestrator.Rename.{is_word}

abbrev edit : AgentAction
edit = record {
  kind = ActionKind.edit;
  fields =
      (codes "op", codes "write")
      ∷ (codes "file_path", codes "a.py")
      ∷ (codes "content", codes "x = \"</field>\" & 1 < 2\n")
      ∷ [];
}

edit-IsWritable : IsWritable edit
unfolding allowed_fields contains text_eq
edit-IsWritable = record {
  known = (refl, (refl, (refl, tt)));
  plain = (
    IsPlain-literal (codes "write") refl,
    (
      IsPlain-literal (codes "a.py") refl,
      (IsPlain-literal (codes "x = \"</field>\" & 1 < 2\n") refl, tt),
    ),
  );
  distinct = ((refl, (refl, tt)), ((refl, tt), (tt, tt)));
}

parse_action-render_action_example :
    parse_action (render_action edit)
    ≡ ok (record { kind = ActionKind.edit; fields = sorted by_name edit.fields })
parse_action-render_action_example = parse_action-render_action edit edit-IsWritable

abbrev ascii_only : ℕ → Bool
ascii_only c = false

abbrev request : ModelRequest
request = record {
  task_id = codes "t1";
  step_index = 2;
  instruction_xml = codes "<instruction>target_symbol=f fail_first=1</instruction>";
  data_xml = codes "<data>rename_target=g new_name=h</data>";
}

-- the hint of the instruction is followed, those of the data are not seen
script_follows_instruction :
    (scripted ascii_only request.instruction_xml 2).fields
    ≡ (codes "op", codes "write")
      ∷ (codes "file_path", bad_path)
      ∷ (codes "content", proposed_bad_edit_content (codes "f"))
      ∷ []
unfolding action_for_step target fail_first_hint rename_target new_name is_word starts_with
script_follows_instruction = refl

-- a reply with one odd character, as it stands or as a reference
abbrev odd : Text → Text
odd s = codes "<action kind='verify'>" ++ (s ++ codes "</action>")

odd_replies :
    (parse_action (odd (0xFFFE ∷ [])) ≡ err Error.model_protocol_error)
    × (parse_action (odd (codes "&#1;")) ≡ err Error.model_protocol_error)
    × (parse_action (odd (0xD800 ∷ [])) ≡ err Error.value_error)
    × (parse_action (0xA0 ∷ odd (codes "&#x41;"))
        ≡ ok (record { kind = ActionKind.verify; fields = [] }))
unfolding parse_action from_string text_eq get contains allowed_fields
odd_replies = (refl, refl, refl, refl)
