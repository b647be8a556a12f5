-- ===== src/Slicer/Run.antt =====
-- What is asked of the TensorFlow Lite interpreter that runs the models of slicer/slice.py: it runs
-- the operators in their order, each a function of its code and of the tensors that it reads.
use split_inference.Base.{
  ℕ, suc, ◌≡◌, Option, none, some, List, [], ◌∷◌, map, if◌then◌else◌, nat_eqb, nat_eq, string_eq,
  pair_eq, get_elem?,
}
use split_inference.Base.Int.{ℤ, pos, negsuc}
use split_inference.Wire.Struct.{Bytes}
use split_inference.Slicer.Graph.{Payload, OperatorCode, Op, Model}
use split_inference.Slicer.Renaming.{holds}

-- `blank` is what a tensor has that is neither constant nor written.
pub record Kernels : Type 1 where
  pub Value : Type 0
  pub blank : Value
  pub constant : Option Payload → Bytes → Value
  pub kernel :
      Option OperatorCode
      → List (Option (Option Payload × Value))
      → List (Option Payload)
      → ℕ
      → Value

-- What a model says of a tensor.
abbrev pub view : Model → ℕ → Option Payload × Option Bytes
view m t = holds m.buffers (get_elem? m.tensors t)

abbrev pub write : {V : Type 0} → ℕ → V → (ℕ → V) → ℕ → V
write o v memory t = if nat_eqb o t then v else memory t

-- The values `v 0`, `v 1`, … to the tensors of a list.
abbrev pub write_all : {V : Type 0} → List ℕ → (ℕ → V) → (ℕ → V) → ℕ → V
write_all [] v memory = memory
write_all (o ∷ os) v memory = write_all os (λ k. v (suc k)) (write o (v 0) memory)

module _ (k : Kernels) where
  open k use {Value, blank, constant, kernel}

  -- A tensor whose buffer holds bytes is constant.
  abbrev pub value_of : Option Payload × Option Bytes → Value → Value
  value_of (payload, some (b ∷ bs)) v = constant payload (b ∷ bs)
  value_of (payload, some []) v = v
  value_of (payload, none) v = v

  abbrev pub seen : Model → (ℕ → Value) → ℕ → Value
  seen m memory t = value_of (view m t) (memory t)

  abbrev pub read : Model → (ℕ → Value) → ℤ → Option (Option Payload × Value)
  read m memory (pos t) = some ((view m t).0, seen m memory t)
  read m memory (negsuc t) = none

  abbrev pub outcome : Model → Op → (ℕ → Value) → ℕ → Value
  outcome m op memory =
      kernel (get_elem? m.operator_codes op.opcode_index) (map (read m memory) op.inputs)
        (map (λ t. (view m t).0) op.outputs)

  unfoldable pub run : Model → List Op → (ℕ → Value) → ℕ → Value
  run m [] memory = memory
  run m (op ∷ ops) memory = run m ops (write_all op.outputs (outcome m op memory) memory)

  -- The inputs are set, the operators run, the outputs are read.
  abbrev pub results : Model → (ℕ → Value) → List Value
  results m xs = map (seen m (run m m.operators (write_all m.inputs xs (λ t. blank)))) m.outputs

-- An interpreter, and what it is documented to do.
pub record Interpreter (k : Kernels) : Type 1 where
  pub invoke : Model → (ℕ → k.Value) → List k.Value
  pub in_order : (m : Model) (xs : ℕ → k.Value) → invoke m xs ≡ results k m xs
