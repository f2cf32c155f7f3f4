-- ===== src/Prompt/Channels.antt =====
-- `build_channels` of model_gateway/prompt.py: what stands in a channel cannot add markup to it.
use agentic_code_intelligenc.Prelude.{
  ℕ, ◌+◌, ◌*◌, ◌==◌, Bool, true, List, [], ◌∷◌, ◌++◌, length, if◌then◌else◌, Text, ◌≡◌, refl, arith,
}
use agentic_code_intelligenc.Prompt.{
  DataSpan, escape_char, escape, spans_xml, instruction_channel, data_channel, build_channels,
}

abbrev pub count : ℕ → Text → ℕ
count k [] = 0
count k (c ∷ s) = (if c == k then 1 else 0) + count k s

count-append : (k : ℕ) (s t : Text) → count k (s ++ t) ≡ count k s + count k t
count-append k [] t = omega arith
count-append k (c ∷ s) t = omega (arith, count-append k s t)

pub count-escape_lt : (quot : Bool) (s : Text) → count b'<' (escape quot s) ≡ 0
unfolding escape
count-escape_lt quot [] = refl
count-escape_lt quot (c ∷ s) =
    ground (arith, count-append b'<' (escape_char quot c) (escape quot s), count-escape_lt quot s)

count-escape_gt : (quot : Bool) (s : Text) → count b'>' (escape quot s) ≡ 0
unfolding escape
count-escape_gt quot [] = refl
count-escape_gt quot (c ∷ s) =
    ground (arith, count-append b'>' (escape_char quot c) (escape quot s), count-escape_gt quot s)

pub count-escape_quot : (s : Text) → count b'"' (escape true s) ≡ 0
unfolding escape
count-escape_quot [] = refl
count-escape_quot (c ∷ s) =
    ground (arith, count-append b'"' (escape_char true c) (escape true s), count-escape_quot s)

ruleset counts = (arith, count-append, count-escape_lt, count-escape_gt)

spans_lt : (spans : List DataSpan) → count b'<' (spans_xml spans) ≡ 2 * length spans
unfolding spans_xml
spans_lt [] = refl
spans_lt (span ∷ spans) = simp (count-append, count-escape_lt, spans_lt spans) (omega arith)

spans_gt : (spans : List DataSpan) → count b'>' (spans_xml spans) ≡ 2 * length spans
unfolding spans_xml
spans_gt [] = refl
spans_gt (span ∷ spans) = simp (count-append, count-escape_gt, spans_gt spans) (omega arith)

-- The tags of the data channel: one `<data/>` for no span, and else two of `<data>` and two of each
-- `<span>`.
abbrev pub tags : ℕ → ℕ
tags n = if n == 0 then 1 else 2 + 2 * n

-- Whatever the instruction says and whatever bytes were retrieved, the angle brackets of the two
-- channels are those of their own tags: two of `<instruction>`, and in the data channel a number
-- that the number of spans determines. No retrieved byte opens or closes a tag.
pub build_channels_markup :
    (instruction : Text) (spans : List DataSpan)
    → let (instruction_xml, data_xml) = build_channels instruction spans in
      (count b'<' instruction_xml ≡ 2)
      × (count b'>' instruction_xml ≡ 2)
      × (count b'<' data_xml ≡ tags (length spans))
      × (count b'>' data_xml ≡ tags (length spans))
unfolding build_channels instruction_channel data_channel
build_channels_markup instruction [] = (
  simp (count-append, count-escape_lt) (omega arith),
  simp (count-append, count-escape_gt) (omega arith),
  refl,
  refl,
)
build_channels_markup instruction (span ∷ spans) = (
  simp (count-append, count-escape_lt) (omega arith),
  simp (count-append, count-escape_gt) (omega arith),
  simp (count-append, spans_lt (span ∷ spans)) (ground arith),
  simp (count-append, spans_gt (span ∷ spans)) (ground arith),
)
