-- ===== src/Training/Readback.antt =====
-- The simulated nodes read the flash images that were written.
use split_inference.Base.{
  ℕ, suc, ◌<◌, String, ◌≡◌, refl, ap, ◌∙◌, subst, Bool, true, false, ◌&&◌, Option, none, some, List,
  [], ◌∷◌, map, arith, if◌then◌else◌, nat_eqb, nat_eqb_iff, ◌==◌, nat_eq, string_eq, pair_eq, ok,
  bind-ok, ok-injective, length,
}
use split_inference.Base.Dict.{Dict, get, put, get-put}
use split_inference.Base.Int.{ℤ}
use split_inference.Wire.Struct.{Bytes}
use split_inference.Training.Assets.{
  File, Entry, Manifest, mean, read_all, load_assets, raw_bytes, entry, write_image, write_images,
  make_assets,
}

and_false : (b : Bool) → (b && false) ≡ false
and_false true = refl
and_false false = refl

-- The label and the size of a JPEG: in the manifest, and of the image.
abbrev pub label_size : Entry → ℕ × ℕ
label_size im = (im.label, im.jpeg_bytes)

abbrev pub image_size : {Img : Type 0} → (Img → Bytes) → Img × ℕ → ℕ × ℕ
image_size jpeg (pil, label) = (label, length (jpeg pil))

itself : (i : ℕ) → nat_eqb i i ≡ true
itself i = (nat_eqb_iff i i).1 refl

module _ {Img : Type 0} (jpeg : Img → Bytes) (pixels : Img → List ℕ) (rounded : ℕ → ℤ) where
  -- Later images leave the files of earlier ones.
  write_images-earlier :
      (kind : String) (j i : ℕ) (images : List (Img × ℕ)) (files : Dict File Bytes)
      → j < i
      → get (kind, j) (write_images jpeg pixels rounded i images files).1 ≡ get (kind, j) files
  unfolding write_images
  write_images-earlier kind j i [] files h = refl
  write_images-earlier kind j i ((pil, label) ∷ images) files h =
      write_images-earlier kind j (suc i) images (write_image jpeg pixels rounded i pil files)
        (omega arith)
      ∙ other "raw" (put ("jpg", i) (jpeg pil) files) (raw_bytes jpeg pixels rounded pil)
      ∙ other "jpg" files (jpeg pil)
    where
      differ : nat_eqb i j ≡ false
      differ = ground arith

      other :
          (ext : String) (d : Dict File Bytes) (bytes : Bytes)
          → get (kind, j) (put (ext, i) bytes d) ≡ get (kind, j) d
      other ext d bytes =
          get-put (ext, i) (kind, j) bytes d
          ∙ ap (λ (b : Bool). if (ext == kind) && b then some bytes else get (kind, j) d) differ
          ∙ ap (λ (b : Bool). if b then some bytes else get (kind, j) d) (and_false (ext == kind))

  jpg_written :
      (i : ℕ) (pil : Img) (files : Dict File Bytes)
      → get ("jpg", i) (write_image jpeg pixels rounded i pil files) ≡ some (jpeg pil)
  jpg_written i pil files =
      get-put ("raw", i) ("jpg", i) (raw_bytes jpeg pixels rounded pil)
        (put ("jpg", i) (jpeg pil) files)
      ∙ get-put ("jpg", i) ("jpg", i) (jpeg pil) files
      ∙ ap (λ (b : Bool). if b then some (jpeg pil) else get ("jpg", i) files) (itself i)

  raw_written :
      (i : ℕ) (pil : Img) (files : Dict File Bytes)
      → get ("raw", i) (write_image jpeg pixels rounded i pil files)
        ≡ some (raw_bytes jpeg pixels rounded pil)
  raw_written i pil files =
      get-put ("raw", i) ("raw", i) (raw_bytes jpeg pixels rounded pil)
        (put ("jpg", i) (jpeg pil) files)
      ∙ ap
          (λ (b : Bool).
            if b
            then some (raw_bytes jpeg pixels rounded pil)
            else get ("raw", i) (put ("jpg", i) (jpeg pil) files))
          (itself i)

  read_all-write_images :
      (kind : String) (name : Entry → File) (content : Img → Bytes)
      → ((i : ℕ) (pil : Img) (label : ℕ) → name (entry jpeg pixels rounded i pil label) ≡ (kind, i))
      → ((i : ℕ) (pil : Img) (files : Dict File Bytes)
          → get (kind, i) (write_image jpeg pixels rounded i pil files) ≡ some (content pil))
      → (i : ℕ) (images : List (Img × ℕ)) (files : Dict File Bytes)
      → (let (entries, files') = write_images jpeg pixels rounded i images files in
          read_all name entries files')
        ≡ some (map (λ x. content x.0) images)
  unfolding read_all write_images
  read_all-write_images kind name content named written i [] files = refl
  read_all-write_images kind name content named written i ((pil, label) ∷ images) files =
      joined _ _
        (ap (λ f. get f final) (named i pil label)
          ∙ write_images-earlier kind i (suc i) images (write_image jpeg pixels rounded i pil files)
              (omega arith)
          ∙ written i pil files)
        (read_all-write_images kind name content named written (suc i) images
          (write_image jpeg pixels rounded i pil files))
    where
      final : Dict File Bytes
      final =
          (write_images jpeg pixels rounded (suc i) images
            (write_image jpeg pixels rounded i pil files)).1

      joined :
          (o : Option Bytes) (p : Option (List Bytes))
          → o ≡ some (content pil)
          → p ≡ some (map (λ x. content x.0) images)
          → elim o as (λ _. Option (List Bytes)) [
            | none ↦ none
            | some bytes ↦ elim p [ none ↦ none | some rest ↦ some (bytes ∷ rest) ]
          ]
            ≡ some (content pil ∷ map (λ x. content x.0) images)
      joined o p h k = rw (h, k) refl

  labels-write_images :
      (i : ℕ) (images : List (Img × ℕ)) (files : Dict File Bytes)
      → map label_size (write_images jpeg pixels rounded i images files).0
        ≡ map (image_size jpeg) images
  unfolding write_images
  labels-write_images i [] files = refl
  labels-write_images i ((pil, label) ∷ images) files =
      ap (λ xs. (label, length (jpeg pil)) ∷ xs)
        (labels-write_images (suc i) images (write_image jpeg pixels rounded i pil files))

  -- If the flash images are written, into a directory with any files, a simulated node that loads
  -- the manifest reads the JPEG and the quantized pixels of every image, in order, and the
  -- manifest lists their labels and the sizes of their JPEGs.
  pub make_assets-load_assets :
      (q : ℕ) (dev : Bool) (images : List (Img × ℕ)) (files files' : Dict File Bytes) (m : Manifest)
      → make_assets jpeg pixels rounded q dev images files ≡ ok (m, files')
      → (load_assets m files' ≡ (
        some (map (λ x. jpeg x.0) images),
        some (map (λ x. raw_bytes jpeg pixels rounded x.0) images),
      ))
        × (map label_size m.images ≡ map (image_size jpeg) images)
  unfolding make_assets
  make_assets-load_assets q dev images files files' m h =
      let (avg, _, last) =
        bind-ok
          (mean (map (λ im. im.jpeg_bytes) (write_images jpeg pixels rounded 0 images files).0)) _
          h in
      subst
        (λ (r : Manifest × Dict File Bytes).
          (load_assets r.0 r.1 ≡ (
            some (map (λ x. jpeg x.0) images),
            some (map (λ x. raw_bytes jpeg pixels rounded x.0) images),
          ))
          × (map label_size r.0.images ≡ map (image_size jpeg) images))
        (ok-injective last)
        (
          (λ i. (
            read_all-write_images "jpg" (λ im. im.jpg) jpeg (λ _ _ _. refl) jpg_written 0 images
                files i,
            read_all-write_images "raw" (λ im. im.raw) (raw_bytes jpeg pixels rounded)
                (λ _ _ _. refl) raw_written 0 images files i,
          )),
          labels-write_images 0 images files,
        )
