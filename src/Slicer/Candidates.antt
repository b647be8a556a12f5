-- ===== src/Slicer/Candidates.antt =====
-- The boundaries at which slicer/slice.py can cut a model: `op_name`, `tensor_info` and `candidates`.
use split_inference.Base.{
  ℕ, ◌-◌, ◌*◌, max, String, Option, none, some, List, [], ◌∷◌, ◌++◌, if◌then◌else◌, nat_eqb, nat_eq,
  string_eq, pair_eq, index_error, type_error, Result, ok, err, or_raise, ◌>>=◌, length, get_elem?,
  range,
}
use split_inference.Base.Int.{ℤ}
use split_inference.Slicer.Graph.{Quantization, Op, Model, crossing_tensors}

-- OP_NAMES.get(code, f"OP_{code}")
pub data OpName : Type 0 where
  builtin : String → OpName
  unnamed : ℕ → OpName

abbrev pub name_of : Option String → ℕ → OpName
name_of (some name) code = builtin name
name_of none code = unnamed code

-- `names` are the operators of the schema.
unfoldable pub op_name : (ℕ → Option String) → Model → Op → Result OpName
op_name names m op = or_raise index_error (get_elem? m.operator_codes op.opcode_index) >>= λ oc.
    let code = max oc.builtin_code oc.deprecated_builtin_code in ok (name_of (names code) code)

-- np.prod
unfoldable pub prod : List ℕ → ℕ
prod [] = 1
prod (n ∷ ns) = n * prod ns

pub record TensorInfo : Type 0 where
  pub tensor_name : String
  pub shape : List ℕ
  pub tensor_bytes : ℕ
  pub quant : Option (ℕ × ℤ)

-- qp.zeroPoint[0]
unfoldable pub first_zero : Option (List ℤ) → Result ℤ
first_zero none = err type_error
first_zero (some []) = err index_error
first_zero (some (z ∷ zs)) = ok z

unfoldable pub quant_of : Option (List ℕ) → Option (List ℤ) → Result (Option (ℕ × ℤ))
quant_of none zeros = ok none
quant_of (some []) zeros = ok none
quant_of (some (s ∷ ss)) zeros = first_zero zeros >>= λ z. ok (some (s, z))

abbrev pub quant : Option Quantization → Result (Option (ℕ × ℤ))
quant none = ok none
quant (some qp) = quant_of qp.scale qp.zero_point

unfoldable pub tensor_info : Model → ℕ → Result TensorInfo
tensor_info m tensor_idx = or_raise index_error (get_elem? m.tensors tensor_idx) >>= λ t.
    quant t.payload.quantization >>= λ q. ok (record {
      tensor_name = t.payload.name;
      shape = t.payload.shape;
      tensor_bytes = prod t.payload.shape;
      quant = q;
    })

pub record Candidate : Type 0 where
  pub boundary_op : ℕ
  pub op : OpName
  pub crossing_tensor : ℕ
  pub info : TensorInfo

-- if len(xs) == 1: …
unfoldable pub add_candidate : (ℕ → Option String) → Model → ℕ → List ℕ → Result (List Candidate)
add_candidate names m c (x ∷ []) = tensor_info m x >>= λ info.
    or_raise index_error (get_elem? m.operators c) >>= λ op. op_name names m op >>= λ name.
    ok (record { boundary_op = c; op = name; crossing_tensor = x; info = info } ∷ [])
add_candidate names m c [] = ok []
add_candidate names m c (x ∷ (y ∷ xs)) = ok []

unfoldable pub candidates_from : (ℕ → Option String) → Model → List ℕ → Result (List Candidate)
candidates_from names m [] = ok []
candidates_from names m (c ∷ cs) = crossing_tensors m c >>= λ xs.
    add_candidate names m c xs >>= λ found.
    candidates_from names m cs >>= λ rest. ok (found ++ rest)

abbrev pub candidates : (ℕ → Option String) → Model → Result (List Candidate)
candidates names m = candidates_from names m (range (length m.operators - 1))

-- cand_by_op.get(bop); the boundaries are distinct.
abbrev pub find_candidate : ℕ → List Candidate → Option Candidate
find_candidate bop [] = none
find_candidate bop (c ∷ cs) = if nat_eqb c.boundary_op bop then some c else find_candidate bop cs
