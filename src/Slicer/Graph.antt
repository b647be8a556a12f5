-- ===== src/Slicer/Graph.antt =====
-- The graph that slicer/slice.py cuts: `is_const` and `crossing_tensors`.
-- The fields are the ones that the slicer reads.
use split_inference.Base.{
  ℕ, ◌+◌, String, Bool, true, false, ◌||◌, Option, List, [], ◌∷◌, ◌++◌, ltb, if◌then◌else◌, nat_eqb,
  nat_eq, string_eq, pair_eq, index_error, Result, ok, or_raise, ◌>>=◌, get_elem?, take, drop,
  keep_if,
}
use split_inference.Base.Int.{ℤ, pos, negsuc}
use split_inference.Wire.Struct.{Bytes}

-- A scale is the bit pattern of a float. None is `none`.
pub record Quantization : Type 0 where
  pub scale : Option (List ℕ)
  pub zero_point : Option (List ℤ)

-- The rest of a tensor.
pub record Payload : Type 0 where
  pub name : String
  pub shape : List ℕ
  pub quantization : Option Quantization

pub record Tensor : Type 0 where
  pub buffer : ℕ
  pub payload : Payload

pub record OperatorCode : Type 0 where
  pub builtin_code : ℕ
  pub deprecated_builtin_code : ℕ

-- Operators name their tensors by index, and an optional input that is left out by -1.
pub record Op : Type 0 where
  pub opcode_index : ℕ
  pub inputs : List ℤ
  pub outputs : List ℕ

pub record Model : Type 0 where
  pub tensors : List Tensor
  pub operators : List Op
  pub inputs : List ℕ
  pub outputs : List ℕ
  pub buffers : List Bytes
  pub operator_codes : List OperatorCode

-- The tensors that an operator reads: `i >= 0`.
abbrev pub given : List ℤ → List ℕ
given [] = []
given (pos i ∷ is) = i ∷ given is
given (negsuc i ∷ is) = given is

-- len(b.data) > 0
abbrev pub nonempty : Bytes → Bool
nonempty [] = false
nonempty (b ∷ bs) = true

-- Buffer 0 is the empty sentinel.
unfoldable pub is_const : Model → ℕ → Result Bool
is_const m tensor_idx = or_raise index_error (get_elem? m.tensors tensor_idx) >>= λ t.
    if nat_eqb t.buffer 0
    then ok false
    else (or_raise index_error (get_elem? m.buffers t.buffer) >>= λ b. ok (nonempty b))

abbrev pub outputs_of : List Op → List ℕ
outputs_of [] = []
outputs_of (op ∷ ops) = op.outputs ++ outputs_of ops

abbrev pub inputs_of : List Op → List ℕ
inputs_of [] = []
inputs_of (op ∷ ops) = given op.inputs ++ inputs_of ops

abbrev pub member : ℕ → List ℕ → Bool
member n [] = false
member n (m ∷ ms) = nat_eqb n m || member n ms

-- The tensors produced, resp. consumed, at a boundary.
abbrev pub produced : Model → ℕ → List ℕ
produced m cut_after = m.inputs ++ outputs_of (take (cut_after + 1) m.operators)

abbrev pub consumed_later : Model → ℕ → List ℕ
consumed_later m cut_after = m.outputs ++ inputs_of (drop (cut_after + 1) m.operators)

-- sorted(t for t in … if not is_const(model_t, t)), over the indices in order.
unfoldable pub keep_variable : Model → List ℕ → Result (List ℕ)
keep_variable m [] = ok []
keep_variable m (t ∷ ts) =
    is_const m t >>= λ c. keep_variable m ts >>= λ rest. ok (if c then rest else t ∷ rest)

-- A set of indices in ascending order.
unfoldable pub insert : ℕ → List ℕ → List ℕ
insert n [] = n ∷ []
insert n (m ∷ ms) = if ltb n m then n ∷ m ∷ ms else if nat_eqb n m then m ∷ ms else m ∷ insert n ms

unfoldable pub sorted_set : List ℕ → List ℕ
sorted_set [] = []
sorted_set (n ∷ ns) = insert n (sorted_set ns)

-- The tensors of `produced & consumed_later`.
abbrev pub crossing : Model → ℕ → List ℕ
crossing m cut_after =
    sorted_set (keep_if (λ t. member t (consumed_later m cut_after)) (produced m cut_after))

unfoldable pub crossing_tensors : Model → ℕ → Result (List ℕ)
crossing_tensors m cut_after = keep_variable m (crossing m cut_after)
