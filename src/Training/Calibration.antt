-- ===== src/Training/Calibration.antt =====
-- The representative set of `calibration_items`, model/train.py, and of the flash images.
use split_inference.Base.{
  ℕ, ◌-◌, ◌/◌, ◌≤◌, ◌<◌, ◌≡◌, ap, ◌∙◌, ◌⊎◌, inl, inr, true, false, List, ◌++◌, arith, nat_eqb,
  nat_eq, string_eq, pair_eq, value_error, Result, ok, err, ◌>>=◌, length, All, All-append,
  length-append, All-imp,
}
use native.Mathlib.Decide.{dec_lt}
use split_inference.Preflight.Distinct.{has}
use split_inference.Training.Dataset.{Item, Choice, pick, labelled, calibration_items}
use split_inference.Training.Picks.{
  IsChoice, IsStratified, pick-All, pick-refused, Picked, labelled-Picked, kept_all, kept_none,
  keep_if-append,
}

apart_one : (m : ℕ) → nat_eqb m 0 ≡ true → nat_eqb m 1 ≡ false
apart_one m h = ground arith

apart_zero : (m : ℕ) → nat_eqb m 1 ≡ true → nat_eqb m 0 ≡ false
apart_zero m h = ground arith

both-IsStratified :
    (n : ℕ) (items pos neg : List Item)
    → length pos ≡ n / 2
    → length neg ≡ n - n / 2
    → All (Picked 1 items) pos
    → All (Picked 0 items) neg
    → IsStratified n items (pos ++ neg)
both-IsStratified n items pos neg p q a b = record {
  size = omega (arith, length-append pos neg);
  persons =
      ap length (keep_if-append (λ it. nat_eqb it.1 1) pos neg)
      ∙ length-append (labelled 1 pos) (labelled 1 neg)
      ∙ omega (
        arith,
        ap length (kept_all (λ (it : Item). nat_eqb it.1 1) pos (is_one pos a)),
        ap length (kept_none (λ (it : Item). nat_eqb it.1 1) neg (not_one neg b)),
      );
  others =
      ap length (keep_if-append (λ it. nat_eqb it.1 0) pos neg)
      ∙ length-append (labelled 0 pos) (labelled 0 neg)
      ∙ omega (
        arith,
        ap length (kept_none (λ (it : Item). nat_eqb it.1 0) pos (not_zero pos a)),
        ap length (kept_all (λ (it : Item). nat_eqb it.1 0) neg (is_zero neg b)),
      );
  members =
      All-append (λ it. has it items ≡ true) pos neg
        (All-imp (Picked 1 items) (λ it. has it items ≡ true) pos a (λ it h. h.0))
        (All-imp (Picked 0 items) (λ it. has it items ≡ true) neg b (λ it h. h.0));
}
  where
    is_one : (xs : List Item) → All (Picked 1 items) xs → All (λ it. nat_eqb it.1 1 ≡ true) xs
    is_one xs h = All-imp (Picked 1 items) (λ it. nat_eqb it.1 1 ≡ true) xs h (λ it k. k.1)

    is_zero : (xs : List Item) → All (Picked 0 items) xs → All (λ it. nat_eqb it.1 0 ≡ true) xs
    is_zero xs h = All-imp (Picked 0 items) (λ it. nat_eqb it.1 0 ≡ true) xs h (λ it k. k.1)

    not_one : (xs : List Item) → All (Picked 0 items) xs → All (λ it. nat_eqb it.1 1 ≡ false) xs
    not_one xs h =
        All-imp (Picked 0 items) (λ it. nat_eqb it.1 1 ≡ false) xs h (λ it k. apart_one it.1 k.1)

    not_zero : (xs : List Item) → All (Picked 1 items) xs → All (λ it. nat_eqb it.1 0 ≡ false) xs
    not_zero xs h =
        All-imp (Picked 1 items) (λ it. nat_eqb it.1 0 ≡ false) xs h (λ it k. apart_zero it.1 k.1)

-- Under a generator whose draws without replacement are indices of the pool, as many as asked for,
-- and a ValueError when the pool is too small, `calibration_items` returns n items of the training
-- set, n // 2 of them labelled 1 and the others 0, if there are that many of each label; if not,
-- it raises the ValueError.
pub calibration_items-IsStratified :
    {Rng : Type 0} (choice : Choice Rng) (c : IsChoice choice) (rng : Rng) (train_items : List Item)
    (n : ℕ)
    → (n / 2 ≤ length (labelled 1 train_items)
        → n - n / 2 ≤ length (labelled 0 train_items)
        → (items : List Item) × (calibration_items choice rng train_items n ≡ ok items)
          × IsStratified n train_items items)
      × (length (labelled 1 train_items) < n / 2 ⊎ length (labelled 0 train_items) < n - n / 2
          → calibration_items choice rng train_items n ≡ err value_error)
unfolding calibration_items
calibration_items-IsStratified {Rng = Rng} choice c rng train_items n = (enough, few)
  where
    neg_after : List Item → Rng → Result (List Item)
    neg_after pos rng' =
        pick choice (labelled 0 train_items) (n - n / 2) rng' >>= λ d. ok (pos ++ d.0)

    persons_first :
        n / 2 ≤ length (labelled 1 train_items)
        → (pos : List Item) × (rng' : Rng) × (pick choice (labelled 1 train_items) (n / 2) rng
            ≡ ok (pos, rng'))
          × (length pos ≡ n / 2)
          × All (Picked 1 train_items) pos
    persons_first =
        pick-All choice c (Picked 1 train_items) (labelled 1 train_items) (n / 2) rng
          (labelled-Picked 1 train_items)

    enough :
        n / 2 ≤ length (labelled 1 train_items)
        → n - n / 2 ≤ length (labelled 0 train_items)
        → (items : List Item) × (calibration_items choice rng train_items n ≡ ok items)
          × IsStratified n train_items items
    enough h k =
        let (pos, rng', first, p, a) = persons_first h in
        let (neg, rng'', second, q, b) =
          pick-All choice c (Picked 0 train_items) (labelled 0 train_items) (n - n / 2) rng'
            (labelled-Picked 0 train_items) k in
        (
          pos ++ neg,
          ap (λ r. r >>= λ d. neg_after d.0 d.1) first
              ∙ ap (λ r. r >>= λ d. ok (pos ++ d.0)) second,
          both-IsStratified n train_items pos neg p q a b,
        )

    few_persons :
        length (labelled 1 train_items) < n / 2
        → calibration_items choice rng train_items n ≡ err value_error
    few_persons h =
        ap (λ r. r >>= λ d. neg_after d.0 d.1)
          (pick-refused choice c (labelled 1 train_items) (n / 2) rng h)

    few :
        length (labelled 1 train_items) < n / 2 ⊎ length (labelled 0 train_items) < n - n / 2
        → calibration_items choice rng train_items n ≡ err value_error
    few (inl h) = few_persons h
    few (inr h) = elim (dec_lt (length (labelled 1 train_items)) (n / 2)) [
      | yes k ↦ few_persons k
      | no k ↦
          let (pos, rng', first, p, a) = persons_first (omega arith) in
          ap (λ r. r >>= λ d. neg_after d.0 d.1) first
          ∙ ap (λ r. r >>= λ d. ok (pos ++ d.0))
              (pick-refused choice c (labelled 0 train_items) (n - n / 2) rng' h)
    ]
