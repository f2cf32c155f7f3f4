-- ===== src/Retrieval/Calls.antt =====
-- The primitives of retrieval/service.py as data: what a caller may ask, and what it is answered.
use agentic_code_intelligenc.Prelude.{ℕ, Option, List, Text}
use agentic_code_intelligenc.Orchestrator.Services.{Symbol, SpanRef, RetrievalResult}

-- A call of one of the primitives, with its arguments.
pub data Call : Type 0 where
  search_symbols : Text → ℕ → Call
  definition : Text → Call
  references : Text → Call
  read_span : SpanRef → Call
  read_file : Text → Call
  list_dir : Text → Call
  structural_grep : Text → ℕ → Call

-- What a call returns.
pub data Answer : Type 0 where
  symbols : List Symbol → Answer
  symbol : Option Symbol → Answer
  spans : List SpanRef → Answer
  content : RetrievalResult → Answer
