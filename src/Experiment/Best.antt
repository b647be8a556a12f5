-- ===== src/Experiment/Best.antt =====
-- `derive_best_table` of orchestrator/experiment.py, on the rows that its query returns: a node, an
-- action and the mean latency of the action on the node, one row for each such pair. SQLite's
-- average is a float; its order is all that is used, so it is held as a whole number of units.
use split_inference.Base.{
  true-ne-false, ℕ, ◌≤◌, String, ◌≡◌, refl, sym, ap, subst, ◌≢◌, ◌⊎◌, inl, inr, Bool, true, false,
  Option, none, some, List, [], ◌∷◌, ◌++◌, append-nil, append_assoc, arith, ltb, if◌then◌else◌,
  nat_eqb, nat_eqb_iff, Bool-cases, ◌==◌, nat_eq, string_eq, pair_eq,
}
use split_inference.Base.Dict.{Dict, get, put, get-put_self, get-put_ne}

abbrev pub Row : Type 0
Row = ℕ × (String × ℕ)

-- if node_id not in best or avg < best[node_id][1]: best[node_id] = (action, avg)
abbrev pub improve : Row → Dict ℕ (String × ℕ) → Dict ℕ (String × ℕ)
improve (node_id, (action, avg)) best = elim (get node_id best) [
  | none ↦ put node_id (action, avg) best
  | some (a, b) ↦ if ltb avg b then put node_id (action, avg) best else best
]

unfoldable pub best_of : List Row → Dict ℕ (String × ℕ) → Dict ℕ (String × ℕ)
best_of [] best = best
best_of (row ∷ rows) best = best_of rows (improve row best)

-- {int(n): a for n, (a, _) in best.items()}
abbrev pub actions : Dict ℕ (String × ℕ) → Dict ℕ String
actions [] = []
actions ((n, (a, _)) ∷ best) = (n, a) ∷ actions best

unfoldable pub derive_best_table : List Row → Dict ℕ String
derive_best_table rows = actions (best_of rows [])

-- A row of the list.
abbrev pub Listed : Row → List Row → Type 0
Listed r [] = ⊥
Listed r (row ∷ rows) = (r ≡ row) ⊎ Listed r rows

-- The entry for a node after some rows: their minimum, or nothing if no row is of the node.
pub data IsBest (n : ℕ) (rows : List Row) : Option (String × ℕ) → Type 0 where
  absent : ((a : String) (t : ℕ) → Listed (n, (a, t)) rows → ⊥) → IsBest n rows none
  least :
      (a : String) (t : ℕ)
      → Listed (n, (a, t)) rows
      → ((a' : String) (t' : ℕ) → Listed (n, (a', t')) rows → t ≤ t')
      → IsBest n rows (some (a, t))

Listed-snoc :
    (r row : Row) (rows : List Row) → Listed r (rows ++ row ∷ []) → Listed r rows ⊎ (r ≡ row)
Listed-snoc r row [] (inl e) = inr e
Listed-snoc r row [] (inr l) = elim l [ ]
Listed-snoc r row (x ∷ rows) (inl e) = inl (inl e)
Listed-snoc r row (x ∷ rows) (inr l) = elim (Listed-snoc r row rows l) [
  | inl l' ↦ inl (inr l')
  | inr e ↦ inr e
]

snoc-Listed : (r row : Row) (rows : List Row) → Listed r rows → Listed r (rows ++ row ∷ [])
snoc-Listed r row [] l = elim l [ ]
snoc-Listed r row (x ∷ rows) (inl e) = inl e
snoc-Listed r row (x ∷ rows) (inr l) = inr (snoc-Listed r row rows l)

last-Listed : (row : Row) (rows : List Row) → Listed row (rows ++ row ∷ [])
last-Listed row [] = inl refl
last-Listed row (x ∷ rows) = inr (last-Listed row rows)

-- A row of another node changes nothing.
other-IsBest :
    (n : ℕ) (row : Row) (rows : List Row) (o : Option (String × ℕ))
    → n ≢ row.0
    → IsBest n rows o
    → IsBest n (rows ++ row ∷ []) o
other-IsBest n row rows none ne (absent fresh) = absent (λ a t l.
    elim (Listed-snoc (n, (a, t)) row rows l) [
      | inl l' ↦ fresh a t l'
      | inr e ↦ ne (ap (λ (r : Row). r.0) e)
    ])
other-IsBest n row rows (some _) ne (least a t l low) =
    least a t (snoc-Listed (n, (a, t)) row rows l) (λ a' t' l'.
      elim (Listed-snoc (n, (a', t')) row rows l') [
        | inl k ↦ low a' t' k
        | inr e ↦ absurd (ne (ap (λ (r : Row). r.0) e))
      ])

abbrev time_of : Row → ℕ
time_of (n, (a, t)) = t

same_time : (n : ℕ) (a a' : String) (t t' : ℕ) → ◌≡◌ {A = Row} (n, (a', t')) (n, (a, t)) → t ≤ t'
same_time n a a' t t' e = let same : t' ≡ t = ap time_of e in omega arith

-- What the entry of the row's own node becomes.
abbrev better : String → ℕ → Option (String × ℕ) → Option (String × ℕ)
better a t none = some (a, t)
better a t (some (b, u)) = if ltb t u then some (a, t) else some (b, u)

lt_through : (t u t' : ℕ) → ltb t u ≡ true → u ≤ t' → t ≤ t'
lt_through t u t' h l = ground arith

le_through : (t u t' : ℕ) → ltb t u ≡ false → t ≤ t' → u ≤ t'
le_through t u t' h l = ground arith

own-IsBest :
    (n : ℕ) (a : String) (t : ℕ) (rows : List Row) (o : Option (String × ℕ))
    → IsBest n rows o
    → IsBest n (rows ++ (n, (a, t)) ∷ []) (better a t o)
own-IsBest n a t rows none (absent fresh) = least a t (last-Listed (n, (a, t)) rows) (λ a' t' l.
    elim (Listed-snoc (n, (a', t')) (n, (a, t)) rows l) [
      | inl k ↦ absurd (fresh a' t' k)
      | inr e ↦ same_time n a a' t t' e
    ])
own-IsBest n a t rows (some _) (least b u l low) = split (ltb t u) refl
  where
    split :
        (c : Bool)
        → ltb t u ≡ c
        → IsBest n (rows ++ (n, (a, t)) ∷ []) (if c then some (a, t) else some (b, u))
    split true h = least a t (last-Listed (n, (a, t)) rows) (λ a' t' l'.
        elim (Listed-snoc (n, (a', t')) (n, (a, t)) rows l') [
          | inl k ↦ lt_through t u t' h (low a' t' k)
          | inr e ↦ same_time n a a' t t' e
        ])
    split false h = least b u (snoc-Listed (n, (b, u)) (n, (a, t)) rows l) (λ a' t' l'.
        elim (Listed-snoc (n, (a', t')) (n, (a, t)) rows l') [
          | inl k ↦ low a' t' k
          | inr e ↦ let same : t ≤ t' = same_time n a a' t t' e in le_through t u t' h same
        ])

get-improve_self :
    (n : ℕ) (a : String) (t : ℕ) (best : Dict ℕ (String × ℕ))
    → get n (improve (n, (a, t)) best) ≡ better a t (get n best)
get-improve_self n a t best = split (get n best) refl
  where
    split :
        (o : Option (String × ℕ))
        → get n best ≡ o
        → get n (elim o [
          | none ↦ put n (a, t) best
          | some (b, u) ↦ if ltb t u then put n (a, t) best else best
        ])
          ≡ better a t o
    split none h = get-put_self n (a, t) best
    split (some (b, u)) h = elim (Bool-cases (ltb t u)) [
      | inl p ↦ rw (p) (get-put_self n (a, t) best)
      | inr p ↦ rw (p) h
    ]

get-improve_other :
    (n m : ℕ) (a : String) (t : ℕ) (best : Dict ℕ (String × ℕ))
    → n ≢ m
    → get n (improve (m, (a, t)) best) ≡ get n best
get-improve_other n m a t best ne = split (get m best)
  where
    split :
        (o : Option (String × ℕ))
        → get n (elim o [
          | none ↦ put m (a, t) best
          | some (b, u) ↦ if ltb t u then put m (a, t) best else best
        ])
          ≡ get n best
    split none = get-put_ne m n (a, t) best ne
    split (some (b, u)) = elim (Bool-cases (ltb t u)) [
      | inl p ↦ rw (p) (get-put_ne m n (a, t) best ne)
      | inr p ↦ rw (p) refl
    ]

improve-IsBest :
    (n : ℕ) (row : Row) (rows : List Row) (best : Dict ℕ (String × ℕ))
    → IsBest n rows (get n best)
    → IsBest n (rows ++ row ∷ []) (get n (improve row best))
improve-IsBest n (m, (a, t)) rows best i = elim (Bool-cases (nat_eqb n m)) [
  | inl p ↦
      let same : n ≡ m = (nat_eqb_iff n m).0 p in
      subst (λ k. IsBest n (rows ++ (k, (a, t)) ∷ []) (get n (improve (k, (a, t)) best))) same
        (subst (IsBest n (rows ++ (n, (a, t)) ∷ [])) (sym (get-improve_self n a t best))
          (own-IsBest n a t rows (get n best) i))
  | inr p ↦
      let differ : n ≢ m = λ e. true-ne-false ((nat_eqb_iff n m).1 e) p in
      subst (IsBest n (rows ++ (m, (a, t)) ∷ [])) (sym (get-improve_other n m a t best differ))
        (other-IsBest n (m, (a, t)) rows (get n best) differ i)
]

best_of-IsBest :
    (n : ℕ) (seen rows : List Row) (best : Dict ℕ (String × ℕ))
    → IsBest n seen (get n best)
    → IsBest n (seen ++ rows) (get n (best_of rows best))
unfolding best_of
best_of-IsBest n seen [] best i = rw (append-nil seen) i
best_of-IsBest n seen (row ∷ rows) best i =
    subst (λ rs. IsBest n rs (get n (best_of rows (improve row best))))
      (append_assoc seen (row ∷ []) rows)
      (best_of-IsBest n (seen ++ row ∷ []) rows (improve row best)
        (improve-IsBest n row seen best i))

abbrev pub action_of : Option (String × ℕ) → Option String
action_of none = none
action_of (some (a, t)) = some a

pub get-actions :
    (n : ℕ) (best : Dict ℕ (String × ℕ)) → get n (actions best) ≡ action_of (get n best)
unfolding get
get-actions n [] = refl
get-actions n ((m, (a, t)) ∷ best) = elim (Bool-cases (m == n)) [
  | inl p ↦ rw (p) refl
  | inr p ↦ rw (p) (get-actions n best)
]

-- The best table has no entry for a node without rows, and else an action of its rows whose mean
-- latency is the least.
pub derive_best_table-IsBest :
    (rows : List Row) (n : ℕ)
    → (best : Option (String × ℕ)) × IsBest n rows best
      × (get n (derive_best_table rows) ≡ action_of best)
unfolding derive_best_table get
derive_best_table-IsBest rows n = (
  get n (best_of rows []),
  best_of-IsBest n [] rows [] (absent (λ a t l. elim l [ ])),
  get-actions n (best_of rows []),
)
