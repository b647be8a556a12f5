-- ===== src/Examples/TrainingRuns.antt =====
-- The theorems on model/train.py at concrete inputs.
use split_inference.Base.{
  All-range_from, ℕ, suc, ◌≤◌, ◌<◌, String, ◌≡◌, refl, ap, ◌⊎◌, Bool, true, false, List, [], ◌∷◌,
  map, arith, leb, if◌then◌else◌, nat_eq, string_eq, pair_eq, value_error, ok, err, range,
  length-range_from,
}
use split_inference.Base.Dict.{get, put}
use split_inference.Training.Dataset.{
  Item, Image, Coco, Choice, items_at, pick, calibration_items, label, load_split, eval_int8,
  passed,
}
use split_inference.Training.Labels.{bit, shows_person, load_split-IsLabelled}
use split_inference.Training.Picks.{IsChoice, IsStratified}
use split_inference.Training.Calibration.{calibration_items-IsStratified}

-- Three images: two people, none, and a dog.
abbrev coco : Coco
coco = record {
  categories = record { id = 1; name = "person" } ∷ record { id = 18; name = "dog" } ∷ [];
  annotations =
      record { category_id = 1; image_id = 7 }
      ∷ record { category_id = 18; image_id = 9 }
      ∷ record { category_id = 1; image_id = 7 }
      ∷ record { category_id = 18; image_id = 7 }
      ∷ [];
  images =
      record { id = 7; file_name = "a" }
      ∷ record { id = 8; file_name = "b" }
      ∷ record { id = 9; file_name = "c" }
      ∷ [];
}

abbrev last_part : String → String → String
last_part images_dir file_name = file_name

abbrev items : List Item
items = ("a", 1) ∷ ("b", 0) ∷ ("c", 0) ∷ []

loaded : load_split last_part "images" coco ≡ items
unfolding load_split label get put
loaded = refl

load_split-IsLabelled_example :
    load_split last_part "images" coco
    ≡ map
        (λ (im : Image). (
          last_part "images" im.file_name,
          bit (shows_person coco.categories coco.annotations im.id),
        ))
        coco.images
load_split-IsLabelled_example = load_split-IsLabelled last_part "images" coco

-- A generator that draws the first indices, and counts its draws.
abbrev first_ones : Choice ℕ
first_ones n k rng = if leb k n then ok (range k, suc rng) else err value_error

first_ones-IsChoice : IsChoice first_ones
first_ones-IsChoice = record {
  drawn = λ n k rng h. (
    range k,
    suc rng,
    ap (λ (b : Bool). if b then ok (range k, suc rng) else err value_error) (fits h),
    length-range_from 0 k,
    All-range_from (λ i. i < n) 0 k (λ i lo hi. omega arith),
  );
  refused =
      λ n k rng h. ap (λ (b : Bool). if b then ok (range k, suc rng) else err value_error) (over h);
}
  where
    fits : {n k : ℕ} → k ≤ n → leb k n ≡ true
    fits h = ground arith

    over : {n k : ℕ} → n < k → leb k n ≡ false
    over h = ground arith

calibration_items-IsStratified_example :
    (1 ≤ 1
      → 1 ≤ 2
      → (xs : List Item) × (calibration_items first_ones 0 items 2 ≡ ok xs)
        × IsStratified 2 items xs)
    × ((1 < 1) ⊎ (2 < 1) → calibration_items first_ones 0 items 2 ≡ err value_error)
calibration_items-IsStratified_example =
    calibration_items-IsStratified first_ones first_ones-IsChoice 0 items 2

calibrated : calibration_items first_ones 0 items 2 ≡ ok (("a", 1) ∷ ("b", 0) ∷ [])
unfolding calibration_items pick items_at
calibrated = refl

-- One person among the items is too few for four images.
too_few : calibration_items first_ones 0 items 4 ≡ err value_error
unfolding calibration_items pick items_at
too_few = refl

-- Two of three predictions are right: 666 thousandths pass, 667 do not.
gated :
    (passed 666 (eval_int8 (λ path. 0) items) ≡ ok true)
    × (passed 667 (eval_int8 (λ path. 0) items) ≡ ok false)
unfolding passed eval_int8
gated = (refl, refl)
