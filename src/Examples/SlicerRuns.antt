-- ===== src/Examples/SlicerRuns.antt =====
-- The theorems on slicer/slice.py at a model of two operators.
use split_inference.Base.{
  ℕ, ◌+◌, String, true, ok, Option, some, none, List, length, nat_eqb, map, ◌≡◌, refl, [], ◌∷◌,
  nat_eq, string_eq, pair_eq,
}
use split_inference.Base.Int.{pos, negsuc}
use split_inference.Base.Dict.{get, put}
use split_inference.Slicer.Graph.{
  Payload, OperatorCode, Model, crossing_tensors, keep_variable, is_const, insert, sorted_set,
}
use split_inference.Slicer.Build.{
  build_submodel, copy_tensors, copy_ops, intern, rename, rename_inputs, position, see,
}
use split_inference.Slicer.Candidates.{Candidate, TensorInfo, unnamed}
use split_inference.Slicer.Cut.{Tools, CutEntry, split}
use split_inference.Slicer.Run.{Kernels, Interpreter, results}
use split_inference.Slicer.Renaming.{IsSubmodel, build_submodel-IsSubmodel}

abbrev plain : String → Payload
plain name = record {
  name = name;
  shape = 1 ∷ 2 ∷ [];
  quantization = some (record { scale = some (7 ∷ []); zero_point = some (negsuc 0 ∷ []) });
}

abbrev code : ℕ → OperatorCode
code n = record { builtin_code = n; deprecated_builtin_code = 0 }

-- The input 0 goes through the weights 1 to 2, and through the weights 3 to the output 4.
abbrev model : Model
model = record {
  tensors =
      record { buffer = 0; payload = plain "input" }
      ∷ record { buffer = 1; payload = plain "weights" }
      ∷ record { buffer = 0; payload = plain "features" }
      ∷ record { buffer = 2; payload = plain "more weights" }
      ∷ record { buffer = 0; payload = plain "logits" }
      ∷ [];
  operators =
      record { opcode_index = 0; inputs = pos 0 ∷ pos 1 ∷ negsuc 0 ∷ []; outputs = 2 ∷ [] }
      ∷ record { opcode_index = 1; inputs = pos 2 ∷ pos 3 ∷ []; outputs = 4 ∷ [] }
      ∷ [];
  inputs = 0 ∷ [];
  outputs = 4 ∷ [];
  buffers = [] ∷ (5 ∷ []) ∷ (6 ∷ []) ∷ [];
  operator_codes = code 3 ∷ code 9 ∷ [];
}

crosses : crossing_tensors model 0 ≡ ok (2 ∷ [])
unfolding crossing_tensors keep_variable is_const insert sorted_set
crosses = refl

abbrev tail : Model
tail = record {
  tensors =
      record { buffer = 0; payload = plain "features" }
      ∷ record { buffer = 1; payload = plain "more weights" }
      ∷ record { buffer = 0; payload = plain "logits" }
      ∷ [];
  operators = record { opcode_index = 0; inputs = pos 0 ∷ pos 1 ∷ []; outputs = 2 ∷ [] } ∷ [];
  inputs = 0 ∷ [];
  outputs = 2 ∷ [];
  buffers = [] ∷ (6 ∷ []) ∷ [];
  operator_codes = code 9 ∷ [];
}

built : build_submodel model 1 2 (2 ∷ []) (4 ∷ []) ≡ ok tail
unfolding build_submodel copy_tensors copy_ops intern rename rename_inputs position see get put
built = refl

build_submodel-IsSubmodel_example : IsSubmodel model 1 2 (2 ∷ []) (4 ∷ []) tail
build_submodel-IsSubmodel_example =
    build_submodel-IsSubmodel model 1 2 (2 ∷ []) (4 ∷ []) tail refl built

abbrev no_names : ℕ → Option String
no_names n = none

abbrev features : TensorInfo
features = record {
  tensor_name = "features";
  shape = 1 ∷ 2 ∷ [];
  tensor_bytes = 2;
  quant = some (7, negsuc 0);
}

abbrev boundary : Candidate
boundary = record { boundary_op = 0; op = unnamed 3; crossing_tensor = 2; info = features }

-- A model is packed to one byte for each operator.
abbrev tools : Tools
tools = record {
  pack_model = λ m. ok (map (λ op. 1) m.operators);
  sanity_load = λ blob. ok ((7, negsuc 0), (7, negsuc 0));
  is_close = nat_eqb;
  same_zero = λ a b. true;
}

-- An operator sums what it reads.
abbrev sum_reads : List (Option (Option Payload × ℕ)) → ℕ
sum_reads [] = 0
sum_reads (none ∷ rs) = sum_reads rs
sum_reads (some (p, n) ∷ rs) = n + sum_reads rs

abbrev summing : Kernels
summing = record {
  Value = ℕ;
  blank = 0;
  constant = λ p bytes. length bytes;
  kernel = λ c reads outs i. sum_reads reads;
}

abbrev interpreter : Interpreter summing
interpreter = record { invoke = results summing; in_order = λ m xs. refl }

abbrev cut_at_0 : CutEntry
cut_at_0 = split "k1" 0 features 1 1 1 1
