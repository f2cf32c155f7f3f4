-- ===== src/Orchestrator/Patch.antt =====
-- The patch envelopes of orchestrator/loop.py: their JSON text and their content hash.
use agentic_code_intelligenc.Prelude.{
  ℕ, ◌+◌, ◌-◌, ◌/◌, ◌%◌, ◌==◌, leb, ltb, ◌&&◌, List, [], ◌∷◌, ◌++◌, if◌then◌else◌, Text, codes,
  utf8, hex, ◌≡◌, refl,
}
use agentic_code_intelligenc.Sandbox.{PatchOp}

-- the four hexadecimal digits of `\uXXXX`
abbrev unit : ℕ → Text
unit n = codes "\\u" ++ hex (n / 256 ∷ n % 256 ∷ [])

-- a character in a JSON string, as `json.dumps` writes it
dumps_char : ℕ → Text
dumps_char c =
    if c == b'"'
    then codes "\\\""
    else if c == b'\\'
    then codes "\\\\"
    else if c == 0xA
    then codes "\\n"
    else if c == 0xD
    then codes "\\r"
    else if c == 0x9
    then codes "\\t"
    else if c == 0x8
    then codes "\\b"
    else if c == 0xC
    then codes "\\f"
    else if leb 0x20 c && leb c 0x7E
    then c ∷ []
    else if ltb c 0x10000
    then unit c
    else unit (0xD800 + (c - 0x10000) / 1024) ++ unit (0xDC00 + (c - 0x10000) % 1024)

dumps_text : Text → Text
unfolding dumps_char
dumps_text [] = []
dumps_text (c ∷ s) = dumps_char c ++ dumps_text s

dumps_op : PatchOp → Text
unfolding dumps_text
dumps_op o =
    codes "{\"op\": \""
    ++ (dumps_text o.op
        ++ (codes "\", \"path\": \""
            ++ (dumps_text o.path
                ++ (codes "\", \"content\": \"" ++ (dumps_text o.content ++ codes "\"}")))))

dumps_ops : List PatchOp → Text
unfolding dumps_op
dumps_ops [] = []
dumps_ops (o ∷ []) = dumps_op o
dumps_ops (o ∷ p ∷ ops) = dumps_op o ++ (codes ", " ++ dumps_ops (p ∷ ops))

-- `json.dumps({"ops": ops})`
unfoldable pub dumps_patch : List PatchOp → Text
unfolding dumps_ops
dumps_patch ops = codes "{\"ops\": [" ++ (dumps_ops ops ++ codes "]}")

-- `hashlib.sha256(envelope.encode("utf-8")).hexdigest()`
unfoldable pub content_hash : (List ℕ → List ℕ) → List PatchOp → Text
content_hash sha256 ops = hex (sha256 (utf8 (dumps_patch ops)))

one_write :
    dumps_patch
      (record { op = codes "write"; path = codes "a.py"; content = codes "x = \"1\"\n" } ∷ [])
    ≡ codes
        "{\"ops\": [{\"op\": \"write\", \"path\": \"a.py\", \"content\": \"x = \\\"1\\\"\\n\"}]}"
unfolding dumps_patch hex
one_write = refl
