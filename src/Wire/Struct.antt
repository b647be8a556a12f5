-- ===== src/Wire/Struct.antt =====
-- Python's `struct` for the little-endian formats that orchestrator/protocol.py uses, as typed
-- lists of fields.
mod Endian
use split_inference.Base.{
  ℕ, ◌+◌, ◌-◌, ◌*◌, ◌/◌, ◌%◌, ◌^◌, ◌≤◌, ◌<◌, ◌≡◌, refl, Bool, true, false, List, [], ◌∷◌, ◌++◌,
  arith, ltb, zero, suc, nat_eqb, if◌then◌else◌, length, take, drop, Result, ok, err, struct_error,
  ◌>>=◌, bind-ok, ap, length-append, take-append_length, drop-append_length, append_assoc,
  append-nil, ok-injective, sym, ◌∙◌, lt→ltb, Bool-cases, inl, inr, All-take, All-drop, length-take,
  length-drop, take-add,
}
use split_inference.Base.Int.{ℤ, pos, negsuc}
pub use Endian.{Bytes, IsBytes, to_le-IsBytes}
unfoldable pub use Endian.{to_le, from_le}
pub use Endian.{length-to_le, from_le-to_le, from_le-lt, to_le-from_le}

-- The codes B, b, H and I.
pub data Code : Type 0 where
  u8 i8 u16 u32 : Code

abbrev pub width : Code → ℕ
width u8 = 1
width i8 = 1
width u16 = 2
width u32 = 4

abbrev pub Value : Code → Type 0
Value u8 = ℕ
Value i8 = ℤ
Value u16 = ℕ
Value u32 = ℕ

abbrev pub Values : List Code → Type 0
Values [] = Unit {0}
Values (c ∷ cs) = Value c × Values cs

abbrev pub size : List Code → ℕ
size [] = 0
size (c ∷ cs) = width c + size cs

-- A number that does not fit its field raises `struct.error`.
abbrev pub unsigned : ℕ → ℕ → Result Bytes
unsigned w n = if ltb n (256 ^ w) then ok (to_le w n) else err struct_error

abbrev pub encode : (c : Code) → Value c → Result Bytes
encode u8 n = unsigned 1 n
encode i8 (pos n) = if ltb n 128 then ok (to_le 1 n) else err struct_error
encode i8 (negsuc n) = if ltb n 128 then ok (to_le 1 (255 - n)) else err struct_error
encode u16 n = unsigned 2 n
encode u32 n = unsigned 4 n

abbrev pub signed8 : ℕ → ℤ
signed8 n = if ltb n 128 then pos n else negsuc (255 - n)

abbrev pub decode : (c : Code) → Bytes → Value c
decode u8 bs = from_le bs
decode i8 bs = signed8 (from_le bs)
decode u16 bs = from_le bs
decode u32 bs = from_le bs

-- `Struct.pack`
unfoldable pub pack_fields : (f : List Code) → Values f → Result Bytes
unfolding to_le
pack_fields [] v = ok []
pack_fields (c ∷ cs) (v, vs) = encode c v >>= λ b. pack_fields cs vs >>= λ bs. ok (b ++ bs)

read : (f : List Code) → Bytes → Values f
read [] bs = tt
read (c ∷ cs) bs = (decode c (take (width c) bs), read cs (drop (width c) bs))

-- `Struct.unpack_from`: a buffer that is too short raises `struct.error`.
unfoldable pub unpack_from : (f : List Code) → Bytes → Result (Values f)
unfolding read from_le
unpack_from f bs = if ltb (length bs) (size f) then err struct_error else ok (read f bs)

-- `Struct.unpack`: the buffer has exactly the struct's size.
unfoldable pub unpack_exact : (f : List Code) → Bytes → Result (Values f)
unfolding read from_le
unpack_exact f bs = if nat_eqb (length bs) (size f) then ok (read f bs) else err struct_error

unsigned-decode : (w n : ℕ) (b : Bytes) → unsigned w n ≡ ok b → (length b ≡ w) × (from_le b ≡ n)
unsigned-decode w n b h = ground (arith, length-to_le w n, from_le-to_le w n)

encode-decode :
    (c : Code) (v : Value c) (b : Bytes)
    → encode c v ≡ ok b
    → (length b ≡ width c) × (decode c b ≡ v)
encode-decode u8 v b h = unsigned-decode 1 v b h
encode-decode i8 (pos n) b h = ground (arith, length-to_le 1 n, from_le-to_le 1 n)
encode-decode i8 (negsuc n) b h =
    ground (arith, length-to_le 1 (255 - n), from_le-to_le 1 (255 - n))
encode-decode u16 v b h = unsigned-decode 2 v b h
encode-decode u32 v b h = unsigned-decode 4 v b h

-- What was packed is read back, whatever follows it.
read-pack_fields :
    (f : List Code) (v : Values f) (b rest : Bytes)
    → pack_fields f v ≡ ok b
    → (length b ≡ size f) × (read f (b ++ rest) ≡ v)
unfolding read pack_fields
read-pack_fields [] v b rest h = (ground arith, refl)
read-pack_fields (c ∷ cs) (v, vs) b rest h =
    let (b1, e1, h1) = bind-ok (encode c v) _ h in
    let (b2, e2, h2) = bind-ok (pack_fields cs vs) _ h1 in
    let (l1, d1) = encode-decode c v b1 e1 in
    let (l2, d2) = read-pack_fields cs vs b2 rest e2 in
    let e : b1 ++ b2 ≡ b = ok-injective h2 in
    let shape : b ++ rest ≡ b1 ++ (b2 ++ rest) =
      ap (λ t. t ++ rest) (sym e) ∙ append_assoc b1 b2 rest in
    (
      rw (← e) (omega (arith, length-append b1 b2)),
      rw (
        shape,
        take-append_length b1 (b2 ++ rest) (width c) l1,
        drop-append_length b1 (b2 ++ rest) (width c) l1,
        d1,
        d2,
      ),
    )

module _ (f : List Code) (v : Values f) (b : Bytes) (packed : pack_fields f v ≡ ok b) where
  pub length-pack_fields : length b ≡ size f
  length-pack_fields = (read-pack_fields f v b [] packed).0

  pub unpack_from-pack_fields : (rest : Bytes) → unpack_from f (b ++ rest) ≡ ok v
  unfolding unpack_from
  unpack_from-pack_fields rest =
      let (l, r) = read-pack_fields f v b rest packed in ground (arith, l, r, length-append b rest)

  pub unpack_exact-pack_fields : unpack_exact f b ≡ ok v
  unfolding unpack_exact
  unpack_exact-pack_fields =
      let (l, r) = read-pack_fields f v b [] packed in ground (arith, l, r, append-nil b)

pub unpack_from_short :
    (f : List Code) (b : Bytes) → length b < size f → unpack_from f b ≡ err struct_error
unfolding unpack_from
unpack_from_short f b h = ground arith

unsigned-from_le : (w : ℕ) (b : Bytes) → IsBytes b → length b ≡ w → unsigned w (from_le b) ≡ ok b
unsigned-from_le w b h l = rw (← l, lt→ltb _ _ (from_le-lt b h), to_le-from_le b h)

decode-encode :
    (c : Code) (b : Bytes) → IsBytes b → length b ≡ width c → encode c (decode c b) ≡ ok b
decode-encode u8 b h l = unsigned-from_le 1 b h l
decode-encode i8 b h l =
    let bytes : to_le 1 (from_le b) ≡ b = rw (← l) (to_le-from_le b h) in
    let small : from_le b < 256 = omega (arith, from_le-lt b h, ap (λ t. 256 ^ t) l) in
    elim (Bool-cases (ltb (from_le b) 128)) [
      | inl low ↦ rw (low, encode, low) (ap ok bytes)
      | inr high ↦
          let back : 255 - (255 - from_le b) ≡ from_le b = omega arith in
          let fits : ltb (255 - from_le b) 128 ≡ true = ground arith in
          rw (high, encode, fits, back) (ap ok bytes)
    ]
decode-encode u16 b h l = unsigned-from_le 2 b h l
decode-encode u32 b h l = unsigned-from_le 4 b h l

-- Bytes that were read pack to the same bytes.
pack_fields-read :
    (f : List Code) (b : Bytes)
    → IsBytes b
    → size f ≤ length b
    → pack_fields f (read f b) ≡ ok (take (size f) b)
unfolding read pack_fields
pack_fields-read [] b h l = refl
pack_fields-read (c ∷ cs) b h l =
    let front =
      decode-encode c (take (width c) b) (All-take (λ x. x < 256) (width c) b h)
        (omega (arith, length-take (width c) b)) in
    let back =
      pack_fields-read cs (drop (width c) b) (All-drop (λ x. x < 256) (width c) b h)
        (omega (arith, length-drop (width c) b)) in
    rw (front, back, take-add (width c) (size cs) b)

pub pack_fields-unpack_from :
    (f : List Code) (v : Values f) (b : Bytes)
    → IsBytes b
    → unpack_from f b ≡ ok v
    → pack_fields f v ≡ ok (take (size f) b)
unfolding unpack_from
pack_fields-unpack_from f v b h u = elim (Bool-cases (ltb (length b) (size f))) [
  | inl short ↦ cc (ap (λ t. if t then err struct_error else ok (read f b)) short)
  | inr long ↦
      let e : ok (read f b) ≡ ok v =
        ap (λ t. if t then err struct_error else ok (read f b)) (sym long) ∙ u in
      rw (← ok-injective e) (pack_fields-read f b h (ground arith))
]

-- The values that fit their fields.
abbrev pub Fits : (c : Code) → Value c → Type 0
Fits u8 n = n < 256
Fits i8 (pos n) = n < 128
Fits i8 (negsuc n) = n < 128
Fits u16 n = n < 65536
Fits u32 n = n < 4294967296

abbrev pub InRange : (f : List Code) → Values f → Type 0
InRange [] v = Unit {0}
InRange (c ∷ cs) (v, vs) = Fits c v × InRange cs vs

encode_total : (c : Code) (v : Value c) → Fits c v → (b : Bytes) × (encode c v ≡ ok b)
encode_total u8 n h = (to_le 1 n, rw (lt→ltb n 256 h))
encode_total i8 (pos n) h = (to_le 1 n, rw (lt→ltb n 128 h))
encode_total i8 (negsuc n) h = (to_le 1 (255 - n), rw (lt→ltb n 128 h))
encode_total u16 n h = (to_le 2 n, rw (lt→ltb n 65536 h))
encode_total u32 n h = (to_le 4 n, rw (lt→ltb n 4294967296 h))

-- Packing succeeds on every value that fits.
pub pack_fields_total :
    (f : List Code) (v : Values f) → InRange f v → (b : Bytes) × (pack_fields f v ≡ ok b)
unfolding pack_fields
pack_fields_total [] v h = ([], refl)
pack_fields_total (c ∷ cs) (v, vs) h =
    let (b, e) = encode_total c v h.0 in
    let (bs, es) = pack_fields_total cs vs h.1 in (b ++ bs, rw (e, es))
