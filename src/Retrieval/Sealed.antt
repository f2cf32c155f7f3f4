-- ===== src/Retrieval/Sealed.antt =====
-- The reading primitives of retrieval/service.py with the rules of retrieval/redaction.py: what they
-- return.
use agentic_code_intelligenc.Prelude.{ℕ, Bool, true, false, if◌then◌else◌, Text}
use agentic_code_intelligenc.Common.{Error}
use agentic_code_intelligenc.Files.{FilePath}
use agentic_code_intelligenc.World.{World, Act, pure, raise, ◌>>=◌}
use agentic_code_intelligenc.World.Post.{Post, Post-bind}
use agentic_code_intelligenc.Index.{Index}
use agentic_code_intelligenc.Orchestrator.Services.{SpanRef, RetrievalResult}
use agentic_code_intelligenc.Retrieval.{
  SnapshotRef, charge, charge_note, token_cost, meter_content, read_span, read_file,
}
use agentic_code_intelligenc.Retrieval.Search.{listed_below, list_dir}
use agentic_code_intelligenc.Retrieval.Redaction.{redact, total_redactions, provider_api_key, jwt}
use agentic_code_intelligenc.Retrieval.Redaction.Clean.{redact-IsClean}
use agentic_code_intelligenc.Retrieval.Regex.Scrubbed.{IsClean}

-- `redact` as `_meter_content` reads its result: the text and `total_redactions`
unfoldable pub scrub : Text → Text × ℕ
scrub content = let result = redact content in (result.content, total_redactions result.events)

-- No provider key and no token of three segments begins in the content.
abbrev pub IsSealed : RetrievalResult → World → Type 0
IsSealed res w = IsClean provider_api_key res.content × IsClean jwt res.content

-- An action that returns sealed content only.
record Seals (m : Act RetrievalResult) : Type 0 where
  pub at : (w : World) → Post IsSealed (m w)

Seals-raise : (e : Error) → Seals (raise e)
unfolding raise
Seals-raise e = record { at = λ w. tt }

Seals-if : (b : Bool) (m n : Act RetrievalResult) → Seals m → Seals n → Seals (if b then m else n)
Seals-if true m n hm hn = hm
Seals-if false m n hm hn = hn

Seals-bind :
    {A : Type 0} (m : Act A) (f : A → Act RetrievalResult)
    → ((a : A) → Seals (f a))
    → Seals (m >>= f)
Seals-bind m f hf = record { at = λ w. Post-bind IsSealed m f w (λ a w' e. (hf a).at w') }

module _ (lower : Text → Text) (load_index : Text → Text → Act Index) (root : FilePath)
    (user_id scope : Text) (budget_tokens : ℕ) where
  Seals-meter_content :
      (text primitive : Text)
      → Seals (meter_content scrub load_index root user_id scope budget_tokens text primitive)
  unfolding meter_content scrub pure
  Seals-meter_content text primitive =
      Seals-bind
        (charge scrub load_index root user_id scope budget_tokens (token_cost (redact text).content)
          (charge_note primitive (scrub text).1))
        _ λ _. record { at = λ w. redact-IsClean text }

  Seals-read_span :
      (snap : SnapshotRef) (span : SpanRef)
      → Seals (read_span scrub load_index root user_id scope budget_tokens snap span)
  unfolding read_span
  Seals-read_span snap span = Seals-bind _ _ λ text. Seals-meter_content text _

  Seals-read_file :
      (snap : SnapshotRef) (path : Text)
      → Seals (read_file scrub load_index root user_id scope budget_tokens snap path)
  unfolding read_file
  Seals-read_file snap path = Seals-bind _ _ λ text. Seals-meter_content text _

  Seals-listed_below :
      (repo target : FilePath)
      → Seals (listed_below lower scrub load_index root user_id scope budget_tokens repo target)
  Seals-listed_below repo target =
      Seals-if _ _ _ (Seals-raise _)
        (Seals-bind _ _ λ fs. Seals-if _ _ _ (Seals-raise _) (Seals-meter_content _ _))

  Seals-list_dir :
      (snap : SnapshotRef) (path : Text)
      → Seals (list_dir lower scrub load_index root user_id scope budget_tokens snap path)
  unfolding list_dir
  Seals-list_dir snap path = Seals-bind _ _ λ _. Seals-bind _ _ λ repo. Seals-listed_below _ _

  -- Whatever a file, a span of it or a directory holds, and whatever the world: where one of the
  -- reading primitives returns, no provider key and no token of three segments begins anywhere in the
  -- content that it returns.
  pub reads-IsSealed :
      (snap : SnapshotRef) (span : SpanRef) (path dir : Text) (w : World)
      → Post IsSealed (read_span scrub load_index root user_id scope budget_tokens snap span w)
        × Post IsSealed (read_file scrub load_index root user_id scope budget_tokens snap path w)
        × Post IsSealed
            (list_dir lower scrub load_index root user_id scope budget_tokens snap dir w)
  reads-IsSealed snap span path dir w = (
    (Seals-read_span snap span).at w,
    (Seals-read_file snap path).at w,
    (Seals-list_dir snap dir).at w,
  )
