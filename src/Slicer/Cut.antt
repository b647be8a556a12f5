-- ===== src/Slicer/Cut.antt =====
-- `cc_codegen` and the loop over the configured cuts of `main`, slicer/slice.py. Packing a model and
-- loading a packed one are flatbuffers and TensorFlow Lite.
use split_inference.Base.{
  ℕ, ◌+◌, ◌-◌, String, Bool, true, false, ◌&&◌, Option, none, some, List, [], ◌∷◌, ◌++◌,
  if◌then◌else◌, ◌==◌, nat_eq, string_eq, pair_eq, index_error, assertion_error, type_error, Result,
  ok, err, or_raise, length, get_elem?,
}
use split_inference.Base.Exec.{Exec, ◌>>=◌, ◌>>◌, modify, lift, pure}
use split_inference.Base.Int.{ℤ}
use split_inference.Wire.Struct.{Bytes}
use split_inference.Wire.Fragment.{slices}
use split_inference.Config.Types.{CutCfg}
use split_inference.Slicer.Graph.{Model}
use split_inference.Slicer.Candidates.{TensorInfo, Candidate, find_candidate}
use split_inference.Slicer.Build.{build_submodel}

-- pack_model, sanity_load with the quantization of its input and output, and
-- abs(got[0] - q["scale"]) < 1e-12.
pub record Tools : Type 0 where
  pub pack_model : Model → Result Bytes
  pub sanity_load : Bytes → Result ((ℕ × ℤ) × (ℕ × ℤ))
  pub is_close : ℕ → ℕ → Bool
  pub same_zero : ℤ → ℤ → Bool

-- The array of a generated file, row by row, and its `_len`.
pub record CcFile : Type 0 where
  pub name : String
  pub rows : List Bytes
  pub len : ℕ

unfoldable pub cc_codegen : String → Bytes → CcFile
cc_codegen name blob = record {
  name = name;
  rows = slices (length blob) 12 blob;
  len = length blob;
}

-- A file that the loop writes.
pub data Artifact : Type 0 where
  head_model tail_model : String → Bytes → Artifact
  head_code : CcFile → Artifact

-- An entry of `cuts_out["cuts"]`.
pub data CutEntry : Type 0 where
  offload : String → Option ℕ → CutEntry
  split :
      (name : String) (boundary_op : ℕ) (info : TensorInfo)
      (head_ops tail_ops head_tflite_bytes tail_tflite_bytes : ℕ)
      → CutEntry

abbrev pub assert : Bool → Result (Unit {0})
assert true = ok tt
assert false = err assertion_error

-- `if cut.get("tensor_name")`: neither None nor empty.
abbrev pub check_name : Option String → String → Result (Unit {0})
check_name none found = ok tt
check_name (some wanted) found = if wanted == "" then ok tt else assert (found == wanted)

unfoldable pub same_quant : Tools → ℕ × ℤ → ℕ × ℤ → Bool
same_quant tools got q = tools.is_close got.0 q.0 && tools.same_zero got.1 q.1

unfoldable pub check_quant : Tools → Option (ℕ × ℤ) → ℕ × ℤ → ℕ × ℤ → Result (Unit {0})
check_quant tools none h_out t_in = err type_error
check_quant tools (some q) h_out t_in = assert (same_quant tools h_out q && same_quant tools t_in q)

abbrev pub write_file : Artifact → Exec (List Artifact) Unit
write_file a = modify (λ written. written ++ a ∷ [])

-- The body of the loop once the candidate and both models are there.
unfoldable pub write_halves :
    Tools → ℕ → String → Candidate → Model → Model → Exec (List Artifact) CutEntry
write_halves tools n_ops name c head tail = do
  head_blob ← lift (tools.pack_model head)
  tail_blob ← lift (tools.pack_model tail)
  write_file (head_model name head_blob)
  write_file (tail_model name tail_blob)
  h ← lift (tools.sanity_load head_blob)
  t ← lift (tools.sanity_load tail_blob)
  lift (check_quant tools c.info.quant h.1 t.0)
  write_file (head_code (cc_codegen name head_blob))
  pure (
      split name c.boundary_op c.info (c.boundary_op + 1) (n_ops - c.boundary_op - 1)
        (length head_blob) (length tail_blob))

unfoldable pub slice_at :
    Tools → Model → List Candidate → String → Option String → ℕ → Exec (List Artifact) CutEntry
slice_at tools m cands name tensor_name bop = do
  c ← lift (or_raise assertion_error (find_candidate bop cands))
  lift (check_name tensor_name c.info.tensor_name)
  first ← lift (or_raise index_error (get_elem? m.inputs 0))
  head ← lift (build_submodel m 0 (bop + 1) (first ∷ []) (c.crossing_tensor ∷ []))
  tail ← lift (build_submodel m (bop + 1) (length m.operators) (c.crossing_tensor ∷ []) m.outputs)
  write_halves tools (length m.operators) name c head tail

-- The body of the loop.
abbrev pub slice_cut :
    Tools
    → Model
    → List Candidate
    → Option ℕ
    → String
    → Option String
    → Option ℕ
    → Exec (List Artifact) CutEntry
slice_cut tools m cands jpeg_ref name tensor_name none = pure (offload name jpeg_ref)
slice_cut tools m cands jpeg_ref name tensor_name (some bop) =
    slice_at tools m cands name tensor_name bop

unfoldable pub slice_cuts :
    Tools → Model → List Candidate → Option ℕ → List CutCfg → Exec (List Artifact) (List CutEntry)
slice_cuts tools m cands jpeg_ref [] = pure []
slice_cuts tools m cands jpeg_ref (cut ∷ cuts) = do
  entry ← slice_cut tools m cands jpeg_ref cut.name cut.tensor_name cut.boundary_op
  rest ← slice_cuts tools m cands jpeg_ref cuts
  pure (entry ∷ rest)

-- The `#define FLEET_TENSOR_BYTES_…` of models.h: the name of the cut, in capitals there, and its
-- bytes. The same cuts have an `extern`.
unfoldable pub size_macros : List CutEntry → List (String × ℕ)
size_macros [] = []
size_macros (offload name jpeg_ref ∷ es) = size_macros es
size_macros (split name bop info ho to hb tb ∷ es) = (name, info.tensor_bytes) ∷ size_macros es
