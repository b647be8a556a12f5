-- ===== src/Examples/AssetRuns.antt =====
-- The theorem on model/make_flash_assets.py at two images of two pixels.
use split_inference.Base.{
  ℕ, ◌≡◌, refl, true, some, List, [], ◌∷◌, map, nat_eq, string_eq, pair_eq, ok,
}
use split_inference.Base.Dict.{Dict, put}
use split_inference.Base.Int.{ℤ, minus}
use split_inference.Wire.Struct.{Bytes}
use split_inference.Training.Assets.{
  File, Manifest, load_assets, raw_bytes, write_images, make_assets,
}
use split_inference.Training.Readback.{label_size, image_size, make_assets-load_assets}

abbrev encode : List ℕ → Bytes
encode px = 255 ∷ px

abbrev itself : List ℕ → List ℕ
itself px = px

-- Scale 1 and zero point -128.
abbrev shifted : ℕ → ℤ
shifted p = minus p 128

abbrev images : List (List ℕ × ℕ)
images = ((0 ∷ 255 ∷ []), 1) ∷ ((128 ∷ []), 0) ∷ []

abbrev written : Manifest
written = record {
  jpeg_quality = 85;
  synthetic = true;
  images =
      record { jpg = ("jpg", 0); raw = ("raw", 0); label = 1; jpeg_bytes = 3 }
      ∷ record { jpg = ("jpg", 1); raw = ("raw", 1); label = 0; jpeg_bytes = 2 }
      ∷ [];
  avg_jpeg_bytes = 2;
}

abbrev files : Dict File Bytes
files =
    (("jpg", 0), 255 ∷ 0 ∷ 255 ∷ [])
    ∷ (("raw", 0), 128 ∷ 127 ∷ [])
    ∷ (("jpg", 1), 255 ∷ 128 ∷ [])
    ∷ (("raw", 1), 0 ∷ [])
    ∷ []

made : make_assets encode itself shifted 85 true images [] ≡ ok (written, files)
unfolding make_assets write_images put
made = refl

make_assets-load_assets_example :
    (load_assets written files ≡ (
      some (map (λ (x : List ℕ × ℕ). encode x.0) images),
      some (map (λ (x : List ℕ × ℕ). raw_bytes encode itself shifted x.0) images),
    ))
    × (map label_size written.images ≡ map (image_size encode) images)
make_assets-load_assets_example =
    make_assets-load_assets encode itself shifted 85 true images [] files written made
