-- ===== src/Tests/Searches.antt =====
-- Examples for the searches of the retrieval service: one symbol, in the demonstration's workspace.
use agentic_code_intelligenc.Prelude.{
  ◌+◌, ◌&&◌, leb, [], ◌∷◌, ◌++◌, map, if◌then◌else◌, Text, codes, text_eq, text_lt, starts_with,
  occurs, ◌≡◌, refl,
}
use agentic_code_intelligenc.Files.{Fs, strip}
use agentic_code_intelligenc.World.{World, Act, pure}
use agentic_code_intelligenc.World.Post.{Post}
use agentic_code_intelligenc.Orchestrator.Services.{SpanRef}
use agentic_code_intelligenc.Index.{CodeSymbol, Index, all_symbols}
use agentic_code_intelligenc.Index.Builder.{to_set}
use agentic_code_intelligenc.Retrieval.{SnapshotRef, read_span, read_file}
use agentic_code_intelligenc.Retrieval.Search.{matching, listing, list_dir}
use agentic_code_intelligenc.Retrieval.Sealed.{scrub, IsSealed, reads-IsSealed}
use agentic_code_intelligenc.Tests.Demo.{user, ws, scope, root, base, world}

abbrev lower : Text → Text
lower s = map (λ c. if leb 65 c && leb c 90 then c + 32 else c) s

abbrev helper : Text → CodeSymbol
helper name = record {
  name = name;
  kind = codes "function";
  language = codes "python";
  file_path = codes "a.py";
  start_line = 3;
  end_line = 4;
  start_col = 0;
  end_col = 8;
}

abbrev index : Index
index =
    record {
      path = codes "a.py";
      language = codes "python";
      content_hash = [];
      symbols = helper (codes "Parse") ∷ helper (codes "sparse") ∷ helper (codes "print") ∷ [];
      references = [];
      imports = [];
    }
    ∷ []

matching_both :
    matching lower (codes "PARSE") 20 index ≡ helper (codes "Parse") ∷ helper (codes "sparse") ∷ []
unfolding matching all_symbols occurs starts_with text_eq text_lt
matching_both = refl

matching_limit : matching lower (codes "p") 1 index ≡ helper (codes "Parse") ∷ []
unfolding matching all_symbols occurs starts_with text_eq text_lt
matching_limit = refl

abbrev load : Text → Text → Act Index
load u w = pure index

abbrev snap : SnapshotRef
snap = record { workspace_id = ws; commit = codes "h0" }

abbrev tree : Fs
tree = record {
  files =
      (codes "r" ∷ codes "b.py" ∷ [], [])
      ∷ (codes "r" ∷ codes "lib" ∷ codes "x.py" ∷ [], [])
      ∷ (codes "q" ∷ [], [])
      ∷ [];
  dirs = (codes "r" ∷ []) ∷ (codes "r" ∷ codes "lib" ∷ []) ∷ (codes "r" ∷ codes "a" ∷ []) ∷ [];
}

listing_of_tree : listing (codes "r" ∷ []) tree ≡ codes "a/" ∷ codes "b.py" ∷ codes "lib/" ∷ []
unfolding listing to_set strip text_eq text_lt
listing_of_tree = refl

-- the demonstration's workspace with a key in its file
abbrev leaky : World
leaky = record world {
  fs = record {
    files = (base ++ codes "a.py" ∷ [], codes "k sk_live_12345678") ∷ [];
    dirs = root ∷ base ∷ [];
  };
}

abbrev first_line : SpanRef
first_line = record { file_path = codes "a.py"; start_line = 1; end_line = 1 }

reads-IsSealed_example :
    Post IsSealed (read_span scrub load root user scope 40 snap first_line leaky)
    × Post IsSealed (read_file scrub load root user scope 40 snap (codes "a.py") leaky)
    × Post IsSealed (list_dir lower scrub load root user scope 40 snap [] leaky)
reads-IsSealed_example =
    reads-IsSealed lower load root user scope 40 snap first_line (codes "a.py") [] leaky
