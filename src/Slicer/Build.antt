-- ===== src/Slicer/Build.antt =====
-- `build_submodel` of slicer/slice.py: a model of some operators, whose tensors, buffers and operator
-- codes are numbered anew.
use split_inference.Base.{
  ℕ, suc, Option, none, some, List, [], ◌∷◌, ◌++◌, if◌then◌else◌, nat_eqb, nat_eq, string_eq,
  pair_eq, key_error, index_error, Result, ok, err, or_raise, ◌>>=◌, length, get_elem?, take, drop,
}
use split_inference.Base.Int.{ℤ, pos, negsuc}
use split_inference.Base.Dict.{Dict, get, put}
use split_inference.Wire.Struct.{Bytes}
use split_inference.Slicer.Graph.{Tensor, OperatorCode, Op, Model, member, given}

-- if ti not in seen: keep.append(ti)
unfoldable pub see : List ℕ → List ℕ → List ℕ
see keep [] = keep
see keep (t ∷ ts) = if member t keep then see keep ts else see (keep ++ t ∷ []) ts

-- The tensors of the operators, then those of the interface.
abbrev pub tensors_of : List Op → List ℕ
tensors_of [] = []
tensors_of (op ∷ ops) = given op.inputs ++ op.outputs ++ tensors_of ops

abbrev pub kept : List Op → List ℕ → List ℕ → List ℕ
kept ops in_tensors out_tensors = see [] (tensors_of ops ++ in_tensors ++ out_tensors)

-- tmap = {old: new for new, old in enumerate(keep)}; the old indices are distinct.
unfoldable pub position : ℕ → List ℕ → Option ℕ
position t [] = none
position t (k ∷ ks) =
    if nat_eqb k t then some 0 else elim (position t ks) [ none ↦ none | some i ↦ some (suc i) ]

unfoldable pub rename : List ℕ → List ℕ → Result (List ℕ)
rename keep [] = ok []
rename keep (t ∷ ts) =
    or_raise key_error (position t keep) >>= λ n. rename keep ts >>= λ rest. ok (n ∷ rest)

-- tmap[int(i)] if i >= 0 else -1
unfoldable pub rename_inputs : List ℕ → List ℤ → Result (List ℤ)
rename_inputs keep [] = ok []
rename_inputs keep (negsuc t ∷ ts) = rename_inputs keep ts >>= λ rest. ok (negsuc 0 ∷ rest)
rename_inputs keep (pos t ∷ ts) = or_raise key_error (position t keep) >>= λ n.
    rename_inputs keep ts >>= λ rest. ok (pos n ∷ rest)

-- A pool of copied entries: where an old entry stands now, and the entries.
pub record Pool (A : Type 0) : Type 0 where
  pub places : Dict ℕ ℕ
  pub entries : List A

-- if ob not in bmap: …
unfoldable pub intern : {A : Type 0} → List A → ℕ → Pool A → Result (ℕ × Pool A)
intern source old p = elim (get old p.places) [
  | some new ↦ ok (new, p)
  | none ↦ elim (get_elem? source old) [
    | none ↦ err index_error
    | some a ↦ ok (
      length p.entries,
      record { places = put old (length p.entries) p.places; entries = p.entries ++ a ∷ [] },
    )
  ]
]

unfoldable pub copy_tensors : Model → List ℕ → Pool Bytes → Result (List Tensor × Pool Bytes)
copy_tensors m [] p = ok ([], p)
copy_tensors m (old ∷ keep) p = or_raise index_error (get_elem? m.tensors old) >>= λ t.
    intern m.buffers t.buffer p >>= λ place.
    copy_tensors m keep place.1 >>= λ rest. ok (record t { buffer = place.0 } ∷ rest.0, rest.1)

unfoldable pub copy_ops :
    Model → List ℕ → List Op → Pool OperatorCode → Result (List Op × Pool OperatorCode)
copy_ops m keep [] p = ok ([], p)
copy_ops m keep (op ∷ ops) p = intern m.operator_codes op.opcode_index p >>= λ place.
    rename_inputs keep op.inputs >>= λ inputs. rename keep op.outputs >>= λ outputs.
    copy_ops m keep ops place.1 >>= λ rest.
    ok (record { opcode_index = place.0; inputs = inputs; outputs = outputs } ∷ rest.0, rest.1)

-- src.operators[op_lo:op_hi]
abbrev pub op_slice : Model → ℕ → ℕ → List Op
op_slice m op_lo op_hi = drop op_lo (take op_hi m.operators)

unfoldable pub build_submodel : Model → ℕ → ℕ → List ℕ → List ℕ → Result Model
build_submodel m op_lo op_hi in_tensors out_tensors =
    let ops = op_slice m op_lo op_hi in
    let keep = kept ops in_tensors out_tensors in
    copy_tensors m keep (record { places = put 0 0 []; entries = [] ∷ [] }) >>= λ ts.
    copy_ops m keep ops (record { places = []; entries = [] }) >>= λ os.
    rename keep in_tensors >>= λ inputs. rename keep out_tensors >>= λ outputs. ok (record {
      tensors = ts.0;
      operators = os.0;
      inputs = inputs;
      outputs = outputs;
      buffers = ts.1.entries;
      operator_codes = os.1.entries;
    })
