-- ===== src/Slicer/Halving.antt =====
-- What the loop over the cuts of slicer/slice.py writes for a cut: a head and a tail that compute
-- together what the model does.
use split_inference.Base.{String, ◌≡◌, List, [], ◌∷◌, ◌++◌, nat_eq, string_eq, pair_eq, ok}
use split_inference.Base.Exec.{Exec}
use split_inference.Wire.Struct.{Bytes}
use split_inference.Slicer.Graph.{Model}
use split_inference.Slicer.Cut.{Tools, cc_codegen, Artifact, head_model, tail_model, head_code}

-- The files that `write_halves` adds.
abbrev pub files_of : String → Bytes → Bytes → List Artifact
files_of name head_blob tail_blob =
    head_model name head_blob
    ∷ tail_model name tail_blob
    ∷ head_code (cc_codegen name head_blob)
    ∷ []

record AreWritten (tools : Tools) (name : String) (head tail : Model) (before after : List Artifact)
    : Type 0 where
  head_blob : Bytes
  tail_blob : Bytes
  packed_head : tools.pack_model head ≡ ok head_blob
  packed_tail : tools.pack_model tail ≡ ok tail_blob
  written : after ≡ before ++ files_of name head_blob tail_blob
