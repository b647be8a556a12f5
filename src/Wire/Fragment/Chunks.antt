-- ===== src/Wire/Fragment/Chunks.antt =====
-- The chunks that `fragment_tensor` of orchestrator/protocol.py cuts.
use split_inference.Base.{
  ℕ, zero, suc, ◌+◌, ◌-◌, ◌*◌, ◌%◌, ◌≤◌, ◌<◌, ◌≡◌, refl, sym, ◌∙◌, some, List, [], ◌∷◌, ◌++◌, arith,
  nat_eq, string_eq, pair_eq, ok, length, get_elem?, take, drop, concat, All, take-append-drop,
  length-take, length-drop,
}
use split_inference.Wire.Struct.{Bytes}
use mathlib.Core.Option.{some-injective}
use native.Mathlib.Decide.{dec_lt}
use native.Mathlib.Nat.{mod-eq_of_lt, mod-eq-sub-mod}
use split_inference.Wire.Fragment.{IsFrag, pack_frag, pack_frag-IsFrag, slices, or_one_empty}

-- The length of the last chunk.
abbrev pub last_length : List Bytes → ℕ
last_length [] = 0
last_length (c ∷ []) = length c
last_length (c ∷ (d ∷ cs)) = last_length (d ∷ cs)

pub last_length-snoc : (cs : List Bytes) (c : Bytes) → last_length (cs ++ c ∷ []) ≡ length c
last_length-snoc [] c = refl
last_length-snoc (b ∷ []) c = refl
last_length-snoc (b ∷ (d ∷ cs)) c = last_length-snoc (d ∷ cs) c

pub concat-slices : (f m : ℕ) (bs : Bytes) → 0 < m → length bs ≤ f → concat (slices f m bs) ≡ bs
unfolding slices
concat-slices zero m [] p h = refl
concat-slices zero m (b ∷ bs) p h = absurd (omega arith)
concat-slices (suc f) m [] p h = refl
concat-slices (suc f) m (b ∷ bs) p h =
    rw (concat-slices f m (drop m (b ∷ bs)) p (omega (arith, length-drop m (b ∷ bs))))
      (take-append-drop m (b ∷ bs))

pub slices_small : (f m : ℕ) (bs : Bytes) → All (λ c. length c ≤ m) (slices f m bs)
unfolding slices
slices_small zero m bs = tt
slices_small (suc f) m [] = tt
slices_small (suc f) m (b ∷ bs) =
    (omega (arith, length-take m (b ∷ bs)), slices_small f m (drop m (b ∷ bs)))

-- At most one chunk for each started block of `m` bytes.
pub length-slices-le : (f m k : ℕ) (bs : Bytes) → length bs ≤ k * m → length (slices f m bs) ≤ k
unfolding slices
length-slices-le zero m k bs h = omega arith
length-slices-le (suc f) m k [] h = omega arith
length-slices-le (suc f) m zero (b ∷ bs) h = absurd (omega arith)
length-slices-le (suc f) m (suc k) (b ∷ bs) h =
    omega (arith, length-slices-le f m k (drop m (b ∷ bs)) (omega (arith, length-drop m (b ∷ bs))))

-- The datagram at position `j` carries chunk `j` under index `i + j`.
abbrev pub Carries : ℕ → ℕ → ℕ → ℕ → List Bytes → List Bytes → Type 0
Carries node_id req_id i total cs ds =
    (j : ℕ) (c : Bytes)
    → get_elem? cs j ≡ some c
    → (d : Bytes) × (get_elem? ds j ≡ some d)
      × IsFrag node_id req_id (record { idx = i + j; total = total; chunk = c }) d

pub Carries-cons :
    (node_id req_id i total : ℕ) (c d : Bytes) (cs ds : List Bytes)
    → pack_frag node_id req_id i total c ≡ ok d
    → Carries node_id req_id (suc i) total cs ds
    → Carries node_id req_id i total (c ∷ cs) (d ∷ ds)
Carries-cons node_id req_id i total c d cs ds packed each zero c' g =
    let e : i + 0 ≡ i = omega arith in
    rw (e, ← some-injective c c' g) (d, refl, pack_frag-IsFrag node_id req_id i total c d packed)
Carries-cons node_id req_id i total c d cs ds packed each (suc j) c' g =
    let e : i + suc j ≡ suc i + j = omega arith in rw e (each j c' g)

last_length-cons :
    (c : Bytes) (cs : List Bytes) → 0 < length cs → last_length (c ∷ cs) ≡ last_length cs
last_length-cons c [] h = absurd (omega arith)
last_length-cons c (d ∷ cs) h = refl

pub slices_some :
    (f m : ℕ) (bs : Bytes) → 0 < length bs → length bs ≤ f → 0 < length (slices f m bs)
unfolding slices
slices_some zero m bs q h = absurd (omega arith)
slices_some (suc f) m [] q h = absurd (omega arith)
slices_some (suc f) m (b ∷ bs) q h = omega arith

slices-nil : (f m : ℕ) (bs : Bytes) → length bs ≡ 0 → slices f m bs ≡ []
unfolding slices
slices-nil zero m bs h = refl
slices-nil (suc f) m [] h = refl
slices-nil (suc f) m (b ∷ bs) h = absurd (omega arith)

-- The last chunk has what is left over by the full ones.
pub last_length-slices :
    (f m : ℕ) (bs : Bytes)
    → 0 < m
    → length bs ≤ f
    → 0 < length bs
    → last_length (slices f m bs) ≡ (length bs - 1) % m + 1
unfolding slices
last_length-slices zero m bs p h q = absurd (omega arith)
last_length-slices (suc f) m [] p h q = absurd (omega arith)
last_length-slices (suc f) m (b ∷ bs) p h q = elim (dec_lt 0 (length (drop m (b ∷ bs)))) [
  | yes more ↦
      let rest =
        last_length-slices f m (drop m (b ∷ bs)) p (omega (arith, length-drop m (b ∷ bs))) more in
      let shorter : length (drop m (b ∷ bs)) - 1 ≡ length bs - m =
        omega (arith, length-drop m (b ∷ bs)) in
      let less : (length bs - m) % m ≡ length bs % m =
        sym (mod-eq-sub-mod (omega (arith, length-drop m (b ∷ bs)))) in
      let same : suc (length bs) - 1 ≡ length bs = omega arith in
      last_length-cons (take m (b ∷ bs)) (slices f m (drop m (b ∷ bs)))
        (slices_some f m (drop m (b ∷ bs)) more (omega (arith, length-drop m (b ∷ bs))))
      ∙ rest
      ∙ rw (shorter, less, same)
  | no done ↦
      let same : suc (length bs) - 1 ≡ length bs = omega arith in
      let whole = mod-eq_of_lt {n = length bs} {m = m} (omega (arith, length-drop m (b ∷ bs))) in
      rw (slices-nil f m (drop m (b ∷ bs)) (omega arith), same, whole)
        (omega (arith, length-take m (b ∷ bs), length-drop m (b ∷ bs)))
]

pub last_length-or_one_empty :
    (cs : List Bytes) → 0 < length cs → last_length (or_one_empty cs) ≡ last_length cs
last_length-or_one_empty [] h = absurd (omega arith)
last_length-or_one_empty (c ∷ cs) h = refl
