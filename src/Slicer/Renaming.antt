-- ===== src/Slicer/Renaming.antt =====
-- What `build_submodel` of slicer/slice.py keeps of a model.
use split_inference.Base.{
  or_raise-ok, ℕ, ◌≡◌, refl, sym, ap, ◌∙◌, subst, Bool, true, false, Option, none, some, List, [],
  ◌∷◌, ◌++◌, map, if◌then◌else◌, nat_eqb_iff, ◌==◌, nat_eq, string_eq, pair_eq, index_error, ok,
  or_raise, bind-ok, ok-injective, get_elem?,
}
use mathlib.Core.Path.{ap₂}
use split_inference.Base.Dict.{get, put}
use split_inference.Wire.Struct.{Bytes}
use split_inference.Slicer.Graph.{Payload, Tensor, OperatorCode, Op, Model}
use split_inference.Slicer.Build.{
  kept, tensors_of, rename, rename_inputs, Pool, intern, copy_tensors, copy_ops, op_slice,
  build_submodel,
}
use split_inference.Slicer.Kept.{AreDistinct, see-AreDistinct}
use split_inference.Slicer.Pools.{
  some-injective, rename_lem, named, rename_inputs_lem, Extends, IsCopy, intern-IsInterned,
}

nothing-IsCopy :
    {A : Type 0} (source : List A) → IsCopy source (record { places = []; entries = [] })
unfolding get
nothing-IsCopy source = record { copied = λ old new h. cc }

-- What an operator says: the code it has, and the tensors it reads and writes under given names.
abbrev pub meaning :
    List OperatorCode
    → (ℕ → Option ℕ)
    → Op
    → Option OperatorCode × (List (Option (Option ℕ)) × List (Option ℕ))
meaning codes f op = (get_elem? codes op.opcode_index, (map (named f) op.inputs, map f op.outputs))

record IsOps (m : Model) (keep : List ℕ) (ops : List Op) (p : Pool OperatorCode)
    (q : List Op × Pool OperatorCode) : Type 0 where
  extends : Extends p.entries q.1.entries
  same : map (meaning q.1.entries (get_elem? keep)) q.0 ≡ map (meaning m.operator_codes some) ops

copy_ops-IsOps :
    (m : Model) (keep : List ℕ) (ops : List Op) (p : Pool OperatorCode)
    (q : List Op × Pool OperatorCode)
    → IsCopy m.operator_codes p
    → copy_ops m keep ops p ≡ ok q
    → IsOps m keep ops p q
unfolding copy_ops
copy_ops-IsOps m keep [] p q c h =
    subst (IsOps m keep [] p) (ok-injective h) (record { extends = λ i a at. at; same = refl })
copy_ops-IsOps m keep (op ∷ ops) p q c h =
    let (place, interned, h1) = bind-ok (intern m.operator_codes op.opcode_index p) _ h in
    let (inputs, reads, h2) = bind-ok (rename_inputs keep op.inputs) _ h1 in
    let (outputs, writes, h3) = bind-ok (rename keep op.outputs) _ h2 in
    let (rest, more, last) = bind-ok (copy_ops m keep ops place.1) _ h3 in
    let i = intern-IsInterned m.operator_codes op.opcode_index p place c interned in
    let r = copy_ops-IsOps m keep ops place.1 rest i.sound more in
    let (code, from, to) = i.entry in
    subst (IsOps m keep (op ∷ ops) p) (ok-injective last) (record {
      extends = λ j a at. r.extends j a (i.extends j a at);
      same =
          ap₂ (λ o os. o ∷ os)
            (ap₂ (λ c io. (c, io)) (r.extends place.0 code to ∙ sym from)
              (ap₂ (λ x y. (x, y)) (rename_inputs_lem keep op.inputs inputs reads)
                (rename_lem keep op.outputs outputs writes)))
            r.same;
    })

-- What a tensor holds: its payload and the contents of its buffer.
abbrev pub holds : List Bytes → Option Tensor → Option Payload × Option Bytes
holds buffers none = (none, none)
holds buffers (some t) = (some t.payload, get_elem? buffers t.buffer)

record IsTensors (m : Model) (keep : List ℕ) (p : Pool Bytes) (q : List Tensor × Pool Bytes)
    : Type 0 where
  extends : Extends p.entries q.1.entries
  same :
      map (λ t. holds q.1.entries (some t)) q.0
      ≡ map (λ old. holds m.buffers (get_elem? m.tensors old)) keep

copy_tensors-IsTensors :
    (m : Model) (keep : List ℕ) (p : Pool Bytes) (q : List Tensor × Pool Bytes)
    → IsCopy m.buffers p
    → copy_tensors m keep p ≡ ok q
    → IsTensors m keep p q
unfolding copy_tensors
copy_tensors-IsTensors m [] p q c h =
    subst (IsTensors m [] p) (ok-injective h) (record { extends = λ i a at. at; same = refl })
copy_tensors-IsTensors m (old ∷ keep) p q c h =
    let (t, at, h1) = bind-ok (or_raise index_error (get_elem? m.tensors old)) _ h in
    let (place, interned, h2) = bind-ok (intern m.buffers t.buffer p) _ h1 in
    let (rest, more, last) = bind-ok (copy_tensors m keep place.1) _ h2 in
    let i = intern-IsInterned m.buffers t.buffer p place c interned in
    let r = copy_tensors-IsTensors m keep place.1 rest i.sound more in
    let (contents, from, to) = i.entry in
    subst (IsTensors m (old ∷ keep) p) (ok-injective last) (record {
      extends = λ j a at. r.extends j a (i.extends j a at);
      same =
          ap₂ (λ o os. o ∷ os)
            (ap (λ b. (some t.payload, b)) (r.extends place.0 contents to ∙ sym from)
              ∙ ap (holds m.buffers) (sym (or_raise-ok index_error (get_elem? m.tensors old) at)))
            r.same;
    })

first-IsCopy :
    (m : Model)
    → get_elem? m.buffers 0 ≡ some []
    → IsCopy m.buffers (record { places = put 0 0 []; entries = [] ∷ [] })
unfolding put get
first-IsCopy m empty = record { copied = λ old new h. split (0 == old) ((nat_eqb_iff 0 old).0) h }
  where
    split :
        {old new : ℕ} (b : Bool)
        → (b ≡ true → 0 ≡ old)
        → (if b then some 0 else none) ≡ some new
        → (a : Bytes) × (get_elem? m.buffers old ≡ some a)
          × (get_elem? {A = Bytes} ([] ∷ []) new ≡ some a)
    split true same h = (
      [],
      subst (λ k. get_elem? m.buffers k ≡ some []) (same refl) empty,
      subst (λ k. get_elem? {A = Bytes} ([] ∷ []) k ≡ some []) (some-injective h) refl,
    )
    split false same h = cc

-- A submodel says what the model's operators `op_lo` to `op_hi` say, in their order, once its tensor
-- numbers are read through the list of kept tensors, which are distinct; so do its inputs and outputs, and its tensors
-- hold what those of that list hold.
pub record IsSubmodel (m : Model) (op_lo op_hi : ℕ) (ins outs : List ℕ) (sub : Model) : Type 0 where
  pub keep : List ℕ
  pub distinct : AreDistinct keep
  pub operators :
      map (meaning sub.operator_codes (get_elem? keep)) sub.operators
      ≡ map (meaning m.operator_codes some) (op_slice m op_lo op_hi)
  pub tensors :
      map (λ t. holds sub.buffers (some t)) sub.tensors
      ≡ map (λ old. holds m.buffers (get_elem? m.tensors old)) keep
  pub inputs : map (get_elem? keep) sub.inputs ≡ map some ins
  pub outputs : map (get_elem? keep) sub.outputs ≡ map some outs

-- What `build_submodel` returns for a model whose buffer 0 is empty says, once its tensor numbers
-- are read through the list of kept tensors, what the operators of the slice say, in order; its
-- inputs and outputs are those asked for and its tensors hold what the kept ones hold.
pub build_submodel-IsSubmodel :
    (m : Model) (op_lo op_hi : ℕ) (ins outs : List ℕ) (sub : Model)
    → get_elem? m.buffers 0 ≡ some []
    → build_submodel m op_lo op_hi ins outs ≡ ok sub
    → IsSubmodel m op_lo op_hi ins outs sub
unfolding build_submodel
build_submodel-IsSubmodel m op_lo op_hi ins outs sub empty h =
    let ops = op_slice m op_lo op_hi in
    let keep = kept ops ins outs in
    let (ts, copied, h1) =
      bind-ok (copy_tensors m keep (record { places = put 0 0 []; entries = [] ∷ [] })) _ h in
    let none_yet : Pool OperatorCode = record { places = []; entries = [] } in
    let (os, built, h2) = bind-ok (copy_ops m keep ops none_yet) _ h1 in
    let (new_ins, reads, h3) = bind-ok (rename keep ins) _ h2 in
    let (new_outs, writes, last) = bind-ok (rename keep outs) _ h3 in
    let i = copy_ops-IsOps m keep ops none_yet os (nothing-IsCopy m.operator_codes) built in
    let first : Pool Bytes = record { places = put 0 0 []; entries = [] ∷ [] } in
    let j = copy_tensors-IsTensors m keep first ts (first-IsCopy m empty) copied in
    subst (IsSubmodel m op_lo op_hi ins outs) (ok-injective last) (record {
      keep = keep;
      distinct = see-AreDistinct [] (tensors_of ops ++ ins ++ outs) tt;
      operators = i.same;
      tensors = j.same;
      inputs = rename_lem keep ins new_ins reads;
      outputs = rename_lem keep outs new_outs writes;
    })
