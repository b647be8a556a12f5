-- ===== src/Wire/Nack/Bitmap.antt =====
-- The bits of a NACK bitmap: what `bitmap[i // 8] |= 1 << (i % 8)` changes.
use Prim.Native.Nat.{bit_and, bit_or, bit_and-bitwise}
use split_inference.Base.{
  ℕ, zero, suc, ◌/◌, ◌%◌, ◌^◌, ◌<◌, ◌≡◌, refl, sym, ◌∙◌, inl, inr, Bool, true, false, not, ◌&&◌,
  ◌||◌, some, List, [], ◌∷◌, arith, ltb, if◌then◌else◌, nat_eqb, nat_eqb_iff, ltb→lt, Bool-cases,
  nat_eq, string_eq, pair_eq, ok, length, get_elem?, replicate, All, get_elem?_lt, lt_of_get_elem?,
  set, length-set, get_elem?-set, All-set, All-get_elem?, get_elem?-replicate, elem,
}
use split_inference.Wire.Struct.{Bytes, IsBytes}
use split_inference.Wire.Nack.{set_bit, set_bits, test_bit}

-- A test of every number below a bound.
every : (ℕ → Bool) → ℕ → Bool
every p zero = true
every p (suc n) = every p n && p n

every-below : (p : ℕ → Bool) (n i : ℕ) → i < n → every p n ≡ true → p i ≡ true
unfolding every
every-below p zero i below h = absurd (omega arith)
every-below p (suc n) i below h = ground (arith, every-below p n i)

abbrev bit : ℕ → ℕ → Bool
bit b k = not (nat_eqb (bit_and b (2 ^ k)) 0)

bool_eqb : Bool → Bool → Bool
bool_eqb true b = b
bool_eqb false b = not b

bool_eq : (a b : Bool) → bool_eqb a b ≡ true → a ≡ b
unfolding bool_eqb
bool_eq true b h = sym h
bool_eq false b h = ground arith

and-eq_true : (a b : Bool) → (a && b) ≡ true → (a ≡ true) × (b ≡ true)
and-eq_true a b h = ground arith

-- Setting bit `j` of a byte keeps it a byte and changes the reading of no other bit.
abbrev sets : ℕ → ℕ → ℕ → Bool
sets b j k =
    ltb (bit_or b (2 ^ j)) 256 && bool_eqb (bit (bit_or b (2 ^ j)) k) (nat_eqb j k || bit b k)

byte_table : every (λ b. every (λ j. every (λ k. sets b j k) 8) 8) 256 ≡ true
unfolding every bool_eqb
byte_table = refl

byte_sets :
    (b j k : ℕ)
    → b < 256
    → j < 8
    → k < 8
    → (bit_or b (2 ^ j) < 256) × (bit (bit_or b (2 ^ j)) k ≡ (nat_eqb j k || bit b k))
byte_sets b j k hb hj hk =
    let row = every-below (λ b. every (λ j. every (λ k. sets b j k) 8) 8) 256 b hb byte_table in
    let column = every-below (λ j. every (λ k. sets b j k) 8) 8 j hj row in
    let (small, reads) =
      and-eq_true (ltb (bit_or b (2 ^ j)) 256) _ (every-below (λ k. sets b j k) 8 k hk column) in
    (ltb→lt _ _ small, bool_eq _ _ reads)

same_byte : (i j : ℕ) → nat_eqb (i / 8) (j / 8) ≡ true → nat_eqb i j ≡ nat_eqb (i % 8) (j % 8)
same_byte i j h = ground arith

other_byte : (i j : ℕ) → nat_eqb (i / 8) (j / 8) ≡ false → nat_eqb i j ≡ false
other_byte i j h = ground arith

or-if : (a b : Bool) → ok (a || b) ≡ (if a then ok true else ok b)
or-if true b = refl
or-if false b = refl

if-or {ℓ} :
    {A : Type ℓ} (a b : Bool) (x y : A)
    → (if b then x else if a then x else y) ≡ (if a || b then x else y)
if-or a b x y = ground arith

-- What marking `i` does to a bitmap.
pub record Marks (i : ℕ) (bitmap marked : Bytes) : Type 0 where
  pub bytes : IsBytes marked
  pub same_length : length marked ≡ length bitmap
  pub reads : (j : ℕ) → test_bit j marked ≡ (if nat_eqb i j then ok true else test_bit j bitmap)

module _ (i : ℕ) (bitmap : Bytes) (bytes : IsBytes bitmap) (b : ℕ) where
  abbrev marked_with : Bytes
  marked_with = set bitmap (i / 8) (bit_or b (2 ^ (i % 8)))

  -- Marked where it lies in the same byte, and read as before where it does not.
  test_bit-marked :
      get_elem? bitmap (i / 8) ≡ some b
      → (j : ℕ) → test_bit j marked_with ≡ (if nat_eqb i j then ok true else test_bit j bitmap)
  unfolding test_bit
  test_bit-marked at j =
      let found =
        get_elem?-set bitmap (i / 8) (j / 8) (bit_or b (2 ^ (i % 8)))
          (lt_of_get_elem? bitmap (i / 8) b at) in
      let small = All-get_elem? (λ x. x < 256) bitmap (i / 8) b bytes at in
      let reads = (byte_sets b (i % 8) (j % 8) small (omega arith) (omega arith)).1 in
      elim (Bool-cases (nat_eqb (i / 8) (j / 8))) [
        | inl same ↦
            let here : get_elem? bitmap (j / 8) ≡ some b =
              rw (← (nat_eqb_iff (i / 8) (j / 8)).0 same) at in
            let inside : nat_eqb i j ≡ nat_eqb (i % 8) (j % 8) = same_byte i j same in
            rw (found, same, here, inside, reads) (or-if (nat_eqb (i % 8) (j % 8)) _)
        | inr other ↦ rw (found, other, other_byte i j other)
      ]

  marked_with-Marks : get_elem? bitmap (i / 8) ≡ some b → Marks i bitmap marked_with
  marked_with-Marks at = record {
    bytes =
        All-set (λ x. x < 256) bitmap (i / 8) (bit_or b (2 ^ (i % 8))) bytes
          (byte_sets b (i % 8) 0 (All-get_elem? (λ x. x < 256) bitmap (i / 8) b bytes at)
            (omega arith) (omega arith)).0;
    same_length = length-set bitmap (i / 8) (bit_or b (2 ^ (i % 8)));
    reads = test_bit-marked at;
  }

-- Marking an index whose byte exists succeeds.
pub set_bit-Marks :
    (i : ℕ) (bitmap : Bytes)
    → IsBytes bitmap
    → i / 8 < length bitmap
    → (marked : Bytes) × (set_bit i bitmap ≡ ok marked) × Marks i bitmap marked
unfolding set_bit
set_bit-Marks i bitmap bytes h =
    let (b, at) = get_elem?_lt bitmap (i / 8) h in
    (marked_with i bitmap bytes b, rw at, marked_with-Marks i bitmap bytes b at)

-- After marking a list of indices, exactly those and the bits set before read as set.
pub set_bits-reads :
    (is : List ℕ) (bitmap : Bytes)
    → IsBytes bitmap
    → All (λ i. i / 8 < length bitmap) is
    → (marked : Bytes) × (set_bits is bitmap ≡ ok marked)
      × (length marked ≡ length bitmap)
      × ((j : ℕ) → test_bit j marked ≡ (if elem j is then ok true else test_bit j bitmap))
unfolding set_bits
set_bits-reads [] bitmap bytes h = (bitmap, refl, refl, λ j. refl)
set_bits-reads (i ∷ is) bitmap bytes h =
    let (first, step, m) = set_bit-Marks i bitmap bytes h.0 in
    let (marked, run, same, reads) = set_bits-reads is first m.bytes (rw m.same_length h.1) in
    (
      marked,
      rw (step, run),
      same ∙ m.same_length,
      λ j. reads j ∙ rw (m.reads j) (if-or (nat_eqb i j) (elem j is) _ _),
    )

zero-bit_and : (b : ℕ) → bit_and 0 b ≡ 0
zero-bit_and b = bit_and-bitwise 0 b

-- In a fresh bitmap no bit is set.
pub test_bit-zeros : (n i : ℕ) → i / 8 < n → test_bit i (replicate n 0) ≡ ok false
unfolding test_bit
test_bit-zeros n i h = rw (get_elem?-replicate {A = ℕ} n (i / 8) 0 h, zero-bit_and (2 ^ (i % 8)))
