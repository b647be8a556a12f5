-- ===== src/Preflight/Counted.antt =====
-- The gates V2, V3 and V4 of scripts/preflight.py: what they have checked.
use split_inference.Base.{
  ℕ, zero, suc, ◌-◌, ◌*◌, ◌≤◌, ◌<◌, min, max, String, ◌≡◌, refl, false, Option, none, some, List,
  [], ◌∷◌, arith, leb, if◌then◌else◌, nat_eqb, nat_eqb_iff, ◌==◌, nat_eq, string_eq, pair_eq, All,
  All-imp,
}
use split_inference.Preflight.Queries.{Run, spread, max_of, min_of}
use split_inference.Preflight.Gates.{
  corrupt, failure_rate, Counts, integrity_gates, sum_counts, reboot_gate,
}
use split_inference.Preflight.Cleared.{append-none, cleared, raised}

-- The gates V2 and V3.
pub no_crc : (cs : List Counts) → (sum_counts cs).1.0 ≡ 0 → All (λ (c : Counts). c.1.0 ≡ 0) cs
unfolding sum_counts
no_crc [] h = tt
no_crc ((n, (crc, bad)) ∷ cs) h = (omega arith, no_crc cs (omega arith))

abbrev pub IsIntact : List Counts → Type 0
IsIntact cs =
    let (total, (crc, fails)) = sum_counts cs in (crc ≡ 0) × (100 * fails < 3 * max total 1)

pub integrity_gates-none : (cs : List Counts) → integrity_gates cs ≡ [] → IsIntact cs
unfolding integrity_gates
integrity_gates-none cs h =
    let (total, (crc, fails)) = sum_counts cs in
    let (clean, low) = append-none (if nat_eqb crc 0 then [] else corrupt crc ∷ []) _ h in
    let bound = raised (leb (3 * max total 1) (100 * fails)) (failure_rate fails total) low in
    ((nat_eqb_iff crc 0).0 (cleared (nat_eqb crc 0) [] (corrupt crc) clean), ground arith)

abbrev pub IsUncorrupted : Run → Type 0
IsUncorrupted run = All (λ q. (q.status == "CRC") ≡ false) run.requests

-- The gate V4.
pub reboot_gate-none :
    (runs : List (String × Option ℕ))
    → reboot_gate runs ≡ []
    → All (λ (x : String × Option ℕ). (d : ℕ) → x.1 ≡ some d → d ≡ 0) runs
unfolding reboot_gate
reboot_gate-none [] h = tt
reboot_gate-none ((name, none) ∷ runs) h = (λ d e. cc, reboot_gate-none runs h)
reboot_gate-none ((name, some zero) ∷ runs) h = (λ d e. cc, reboot_gate-none runs h)
reboot_gate-none ((name, some (suc n)) ∷ runs) h = cc

max_of-All : (bs : List ℕ) → All (λ c. c ≤ max_of bs) bs
max_of-All [] = tt
max_of-All (b ∷ bs) = (
  omega arith,
  All-imp (λ c. c ≤ max_of bs) (λ c. c ≤ max b (max_of bs)) bs (max_of-All bs) (λ c h. omega arith),
)

min_of-All : (b : ℕ) (bs : List ℕ) → (min_of b bs ≤ b) × All (λ c. min_of b bs ≤ c) bs
min_of-All b [] = (omega arith, tt)
min_of-All b (c ∷ bs) =
    let (here, rest) = min_of-All b bs in
    (
      omega arith,
      (
        omega arith,
        All-imp (λ d. min_of b bs ≤ d) (λ d. min c (min_of b bs) ≤ d) bs rest (λ d h. omega arith),
      ),
    )

-- All boot counts of a run are one number.
abbrev pub IsSteady : List ℕ → Type 0
IsSteady bs = (b : ℕ) × All (λ c. c ≡ b) bs

pub spread-IsSteady : (bs : List ℕ) → ((d : ℕ) → spread bs ≡ some d → d ≡ 0) → IsSteady bs
spread-IsSteady [] h = (0, tt)
spread-IsSteady (b ∷ bs) h =
    let flat = h (max b (max_of bs) - min_of b bs) refl in
    let (low, above) = min_of-All b bs in
    (b, (refl, both bs above (max_of-All bs) (λ c l u. omega arith)))
  where
    both :
        {m : ℕ} (cs : List ℕ)
        → All (λ c. min_of b bs ≤ c) cs
        → All (λ c. c ≤ m) cs
        → ((c : ℕ) → min_of b bs ≤ c → c ≤ m → c ≡ b)
        → All (λ c. c ≡ b) cs
    both [] l u f = tt
    both (c ∷ cs) l u f = (f c l.0 u.0, both cs l.1 u.1 f)
