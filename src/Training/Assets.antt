-- ===== src/Training/Assets.antt =====
-- The flash images that model/make_flash_assets.py writes and `_load_assets` of scripts/sim_node.py
-- reads. Encoding an image as JPEG, its pixels, and the rounding of the quantization are given. The
-- file f"img{i:02d}.jpg" is known by its extension and number.
use split_inference.Base.{
  ℕ, suc, ◌+◌, ◌-◌, ◌/◌, min, String, Bool, Option, none, some, List, [], ◌∷◌, map, nat_eq,
  string_eq, pair_eq, value_error, Result, ok, err, ◌>>=◌, length,
}
use split_inference.Base.Dict.{Dict, get, put}
use split_inference.Base.Int.{ℤ, pos, negsuc}
use split_inference.Wire.Struct.{Bytes}

abbrev pub File : Type 0
File = String × ℕ

-- An item of manifest["images"].
pub record Entry : Type 0 where
  pub jpg : File
  pub raw : File
  pub label : ℕ
  pub jpeg_bytes : ℕ

-- manifest.json, without the quantization of the input.
pub record Manifest : Type 0 where
  pub jpeg_quality : ℕ
  pub synthetic : Bool
  pub images : List Entry
  pub avg_jpeg_bytes : ℕ

-- np.clip(…, -128, 127).astype(np.int8), as a byte
abbrev pub clip : ℤ → ℕ
clip (pos n) = min n 127
clip (negsuc n) = 255 - min n 127

-- q8 = np.clip(np.round(px / scale + zp), -128, 127).astype(np.int8).tobytes()
abbrev pub quantized : (ℕ → ℤ) → List ℕ → Bytes
quantized rounded px = map (λ p. clip (rounded p)) px

abbrev pub sum : List ℕ → ℕ
sum [] = 0
sum (n ∷ ns) = n + sum ns

-- int(np.mean(sizes)): the mean of nothing is not a number, which int refuses.
abbrev pub mean : List ℕ → Result ℕ
mean [] = err value_error
mean (n ∷ ns) = ok (sum (n ∷ ns) / length (n ∷ ns))

-- m["images"]: (self.assets_dir / im["jpg"]).read_bytes(), none if a file is missing
unfoldable pub read_all : (Entry → File) → List Entry → Dict File Bytes → Option (List Bytes)
read_all name [] files = some []
read_all name (im ∷ ims) files = elim (get (name im) files) [
  | none ↦ none
  | some bytes ↦ elim (read_all name ims files) [ none ↦ none | some rest ↦ some (bytes ∷ rest) ]
]

-- self.jpegs and self.raws
abbrev pub load_assets : Manifest → Dict File Bytes → Option (List Bytes) × Option (List Bytes)
load_assets m files =
    (read_all (λ im. im.jpg) m.images files, read_all (λ im. im.raw) m.images files)

module _ {Img : Type 0} (jpeg : Img → Bytes) (pixels : Img → List ℕ) (rounded : ℕ → ℤ) where
  abbrev pub raw_bytes : Img → Bytes
  raw_bytes pil = quantized rounded (pixels pil)

  abbrev pub entry : ℕ → Img → ℕ → Entry
  entry i pil label = record {
    jpg = ("jpg", i);
    raw = ("raw", i);
    label = label;
    jpeg_bytes = length (jpeg pil);
  }

  -- jpg.write_bytes(…); raw.write_bytes(…)
  abbrev pub write_image : ℕ → Img → Dict File Bytes → Dict File Bytes
  write_image i pil files = put ("raw", i) (raw_bytes pil) (put ("jpg", i) (jpeg pil) files)

  -- for i, (pil, label) in enumerate(images): …
  unfoldable pub write_images : ℕ → List (Img × ℕ) → Dict File Bytes → List Entry × Dict File Bytes
  write_images i [] files = ([], files)
  write_images i ((pil, label) ∷ images) files =
      let (entries, files') = write_images (suc i) images (write_image i pil files) in
      (entry i pil label ∷ entries, files')

  unfoldable pub make_assets :
      ℕ → Bool → List (Img × ℕ) → Dict File Bytes → Result (Manifest × Dict File Bytes)
  make_assets q dev images files =
      let (entries, files') = write_images 0 images files in
      mean (map (λ im. im.jpeg_bytes) entries) >>= λ avg.
      ok (
        record { jpeg_quality = q; synthetic = dev; images = entries; avg_jpeg_bytes = avg },
        files',
      )
