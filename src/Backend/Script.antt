-- ===== src/Backend/Script.antt =====
-- The replies of model_gateway/stub.py: the gate takes each of them, and they follow the instruction
-- channel alone.
use agentic_code_intelligenc.Prelude.{Option, none, some, Text}
use agentic_code_intelligenc.Prompt.Xml.Characters.{IsPlain}

-- the identifier of a hint, where there is one
abbrev PlainName : Option (Text × Text) → Type 0
PlainName none = Unit
PlainName (some (name, behind)) = IsPlain name

abbrev PlainText : Option Text → Type 0
PlainText none = Unit
PlainText (some name) = IsPlain name
