-- ===== src/Training/Dataset.antt =====
-- `load_split`, `calibration_items`, `eval_int8` and the gate of model/train.py, and the selection of
-- model/make_flash_assets.py. Joining paths, the generator's draws, decoding, quantizing and the
-- interpreter are given.
use split_inference.Base.{
  elem, ℕ, zero, suc, ◌+◌, ◌-◌, ◌*◌, ◌/◌, max, String, Bool, Option, none, some, List, [], ◌∷◌,
  ◌++◌, map, leb, if◌then◌else◌, nat_eqb, ◌==◌, nat_eq, string_eq, pair_eq, index_error,
  zero_division, Result, ok, err, or_raise, ◌>>=◌, length, get_elem?, take, keep_if,
}
use split_inference.Base.Dict.{Dict, get_or, put}

-- The COCO file, by the keys that are read.
pub record Category : Type 0 where
  pub id : ℕ
  pub name : String

pub record Annotation : Type 0 where
  pub category_id : ℕ
  pub image_id : ℕ

pub record Image : Type 0 where
  pub id : ℕ
  pub file_name : String

pub record Coco : Type 0 where
  pub categories : List Category
  pub annotations : List Annotation
  pub images : List Image

-- A path and its label.
abbrev pub Item : Type 0
Item = String × ℕ

-- {c["id"] for c in d["categories"] if c["name"] == "person"}
abbrev pub person_ids : List Category → List ℕ
person_ids cs = map (λ c. c.id) (keep_if (λ c. c.name == "person") cs)

-- 1 if a["category_id"] in person_ids else 0
abbrev pub lab : List ℕ → Annotation → ℕ
lab persons a = if elem a.category_id persons then 1 else 0

-- for a in d["annotations"]: label[…] = max(label.get(…, 0), lab)
unfoldable pub label : List ℕ → List Annotation → Dict ℕ ℕ → Dict ℕ ℕ
label persons [] d = d
label persons (a ∷ anns) d =
    label persons anns (put a.image_id (max (get_or a.image_id 0 d) (lab persons a)) d)

unfoldable pub load_split : (String → String → String) → String → Coco → List Item
load_split join images_dir d =
    let labels = label (person_ids d.categories) d.annotations [] in
    map (λ im. (join images_dir im.file_name, get_or im.id 0 labels)) d.images

-- rng.choice(size, size=k, replace=False), which takes the generator on.
abbrev pub Choice : Type 0 → Type 0
Choice Rng = ℕ → ℕ → Rng → Result (List ℕ × Rng)

-- [pool[i] for i in …]
unfoldable pub items_at : List Item → List ℕ → Result (List Item)
items_at pool [] = ok []
items_at pool (i ∷ is) =
    or_raise index_error (get_elem? pool i) >>= λ x. items_at pool is >>= λ xs. ok (x ∷ xs)

unfoldable pub pick : {Rng : Type 0} → Choice Rng → List Item → ℕ → Rng → Result (List Item × Rng)
pick choice pool k rng =
    choice (length pool) k rng >>= λ (is, rng'). items_at pool is >>= λ xs. ok (xs, rng')

abbrev pub labelled : ℕ → List Item → List Item
labelled y items = keep_if (λ it. nat_eqb it.1 y) items

unfoldable pub calibration_items :
    {Rng : Type 0} → Choice Rng → Rng → List Item → ℕ → Result (List Item)
calibration_items choice rng train_items n =
    pick choice (labelled 1 train_items) (n / 2) rng >>= λ (pos, rng').
    pick choice (labelled 0 train_items) (n - n / 2) rng' >>= λ (neg, _). ok (pos ++ neg)

-- The number of images whose prediction is their label, and of all.
unfoldable pub eval_int8 : (String → ℕ) → List Item → ℕ × ℕ
eval_int8 predict [] = (0, 0)
eval_int8 predict ((path, y) ∷ items) =
    let (correct, total) = eval_int8 predict items in
    ((if nat_eqb (predict path) y then 1 else 0) + correct, 1 + total)

-- items[:limit], where no limit takes all
abbrev pub limited : Option ℕ → List Item → List Item
limited none items = items
limited (some limit) items = take limit items

-- correct / total, and acc >= gate, the gate in thousandths
unfoldable pub passed : ℕ → ℕ × ℕ → Result Bool
passed gate (correct, zero) = err zero_division
passed gate (correct, suc total) = ok (leb (gate * suc total) (1000 * correct))
