-- ===== src/Figures/Crossover.antt =====
-- What `crossovers` of analysis/figures.py says of a node.
use split_inference.Base.{
  ℕ, String, ◌≡◌, refl, sym, ap, subst, ◌≢◌, ◌⊎◌, inl, inr, Bool, false, Option, none, some, List,
  [], ◌∷◌, ◌++◌, if◌then◌else◌, Bool-cases, ◌==◌, nat_eq, string_eq, pair_eq, ok, ok-injective, All,
  true-ne-false,
}
use split_inference.Figures.Projection.{
  Number, Projected, pred, argmin, winner_at, find_flip, last_winner, factor_of, wins_of, Crossover,
  crossover,
}

module _ (n : Number) where
  open n use {Float, lt, lt_asym, lt_irrefl, ge_trans}

  abbrev pub Among : Projected n → List (Projected n) → Type 0
  Among r [] = ⊥
  Among r (s ∷ ss) = (r ≡ s) ⊎ Among r ss

  abbrev pub NotBelow : Float → Projected n → Projected n → Type 0
  NotBelow factor r s = lt (pred n factor s) (pred n factor r) ≡ false

  -- At a factor, a row with this action is projected no slower than any row of the node.
  pub record Wins (cand : List (Projected n)) (factor : Float) (action : String) : Type 0 where
    pub winner : Projected n
    pub among : Among winner cand
    pub named : winner.action ≡ action
    pub least : All (NotBelow factor winner) cand

  -- The two claims on the rest of the search, once `s` has been compared with `r`.
  abbrev LeastOf : Float → Projected n → Projected n → List (Projected n) → Bool → Type 0
  LeastOf factor r s ss b =
      All (NotBelow factor (argmin n factor (if b then s else r) ss)) (r ∷ s ∷ ss)

  abbrev AmongOf : Float → Projected n → Projected n → List (Projected n) → Bool → Type 0
  AmongOf factor r s ss b = Among (argmin n factor (if b then s else r) ss) (r ∷ s ∷ ss)

  argmin-least :
      (factor : Float) (r : Projected n) (rs : List (Projected n))
      → All (NotBelow factor (argmin n factor r rs)) (r ∷ rs)
  unfolding argmin
  argmin-least factor r [] = (lt_irrefl (pred n factor r), tt)
  argmin-least factor r (s ∷ ss) = elim (Bool-cases (lt (pred n factor s) (pred n factor r))) [
    | inl below ↦
        let ih = argmin-least factor s ss in
        let chosen : Projected n = argmin n factor s ss in
        subst (LeastOf factor r s ss) (sym below) (
          ge_trans (pred n factor r) (pred n factor s) (pred n factor chosen)
              (lt_asym (pred n factor s) (pred n factor r) below) ih.0,
          ih,
        )
    | inr above ↦
        let ih = argmin-least factor r ss in
        let chosen : Projected n = argmin n factor r ss in
        subst (LeastOf factor r s ss) (sym above) (
          ih.0,
          (ge_trans (pred n factor s) (pred n factor r) (pred n factor chosen) above ih.0, ih.1),
        )
  ]

  argmin-Among :
      (factor : Float) (r : Projected n) (rs : List (Projected n))
      → Among (argmin n factor r rs) (r ∷ rs)
  unfolding argmin
  argmin-Among factor r [] = inl refl
  argmin-Among factor r (s ∷ ss) = elim (Bool-cases (lt (pred n factor s) (pred n factor r))) [
    | inl below ↦ subst (AmongOf factor r s ss) (sym below) (inr (argmin-Among factor s ss))
    | inr above ↦
        subst (AmongOf factor r s ss) (sym above)
          (elim (argmin-Among factor r ss) [ inl first ↦ inl first | inr later ↦ inr (inr later) ])
  ]

  argmin-Wins :
      (factor : Float) (r : Projected n) (rs : List (Projected n))
      → Wins (r ∷ rs) factor (argmin n factor r rs).action
  argmin-Wins factor r rs = record {
    winner = argmin n factor r rs;
    among = argmin-Among factor r rs;
    named = refl;
    least = argmin-least factor r rs;
  }

  -- Where the winner changes along the factors: nowhere, or first at one of them.
  pub data Flips (cand : List (Projected n)) (now : String) (factors : List Float) (slow : String)
      : Option Float → Option String → Type 0 where
    never : All (λ f. Wins cand f now) factors → slow ≡ now → Flips cand now factors slow none none
    first :
        (before after : List Float) (f : Float) (w : String)
        → factors ≡ before ++ f ∷ after
        → All (λ g. Wins cand g now) before
        → w ≢ now
        → Wins cand f w
        → Flips cand now factors slow (some f) (some w)

  later_Flips :
      (r : Projected n) (rs : List (Projected n)) (now slow : String) (f : Float) (fs : List Float)
      (o : Option Float) (w : Option String)
      → Wins (r ∷ rs) f now
      → Flips (r ∷ rs) now fs slow o w
      → Flips (r ∷ rs) now (f ∷ fs) slow o w
  later_Flips r rs now slow f fs none none now_wins (never all last) = never (now_wins, all) last
  later_Flips r rs now slow f fs (some g) (some w) now_wins
        (first before after _ _ cut all ne wins) =
      first (f ∷ before) after g w (ap (λ l. f ∷ l) cut) (now_wins, all) ne wins
  later_Flips r rs now slow f fs none (some w) now_wins flips = elim flips [ ]
  later_Flips r rs now slow f fs (some g) none now_wins flips = elim flips [ ]

  str_false : (a b : String) → (a == b) ≡ false → a ≢ b
  str_false a b h same = true-ne-false ((string_eq.beq_iff a b).1 same) h

  winner_at-Flips :
      (r : Projected n) (rs : List (Projected n)) (now : String) (fs : List Float)
      → Flips
          (r ∷ rs)
          now
          fs
          (last_winner n now (winner_at n r rs fs))
          (factor_of n (find_flip n now (winner_at n r rs fs)))
          (wins_of n (find_flip n now (winner_at n r rs fs)))
  unfolding winner_at find_flip last_winner
  winner_at-Flips r rs now [] = never tt refl
  winner_at-Flips r rs now (f ∷ fs) = elim (Bool-cases ((argmin n f r rs).action == now)) [
    | inl p ↦
        let same = (string_eq.beq_iff (argmin n f r rs).action now).0 p in
        rw p (
          subst
            (λ v.
              Flips (r ∷ rs) now (f ∷ fs) (last_winner n v (winner_at n r rs fs))
                (factor_of n (find_flip n now (winner_at n r rs fs)))
                (wins_of n (find_flip n now (winner_at n r rs fs))))
            (sym same)
            (later_Flips r rs now (last_winner n now (winner_at n r rs fs)) f fs
              (factor_of n (find_flip n now (winner_at n r rs fs)))
              (wins_of n (find_flip n now (winner_at n r rs fs)))
              (subst (Wins (r ∷ rs) f) same (argmin-Wins f r rs)) (winner_at-Flips r rs now fs)))
    | inr p ↦ rw p (
        first [] fs f (argmin n f r rs).action refl tt (str_false (argmin n f r rs).action now p)
          (argmin-Wins f r rs))
  ]

  pub record IsCrossover (cand : List (Projected n)) (f : Float) (fs : List Float) (c : Crossover n)
      : Type 0 where
    pub now_wins : Wins cand f c.now
    pub flips : Flips cand c.now fs c.slow c.factor c.wins

  -- For the rows of a node and factors under a total order of the projected latencies, `now` wins
  -- at the first factor, where a winner is an action of a row that no row is projected below; and
  -- either `now` wins at all factors and is `slow`, or `factor` is a later factor at which `wins`,
  -- which is not `now`, wins, and `now` wins at all between.
  pub crossover-IsCrossover :
      (f : Float) (fs : List Float) (node : ℕ) (cand : List (Projected n)) (c : Crossover n)
      → crossover n (f ∷ fs) node cand ≡ ok c
      → IsCrossover cand f fs c
  unfolding crossover
  crossover-IsCrossover f fs node [] c h = cc
  crossover-IsCrossover f fs node (r ∷ rs) c h =
      subst (IsCrossover (r ∷ rs) f fs) (ok-injective h) (record {
        now_wins = argmin-Wins f r rs;
        flips = winner_at-Flips r rs (argmin n f r rs).action fs;
      })
