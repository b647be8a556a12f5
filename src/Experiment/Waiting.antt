-- ===== src/Experiment/Waiting.antt =====
-- The waiting loop of `amain`, orchestrator/experiment.py: it ends, and why.
use split_inference.Base.{
  elem, ℕ, zero, suc, ◌+◌, ◌*◌, ◌≤◌, ◌<◌, ◌≡◌, refl, sym, ◌≢◌, ◌⊎◌, inl, inr, Bool, true, false,
  not, ◌||◌, List, [], ◌∷◌, map, arith, ltb, if◌then◌else◌, nat_eqb, nat_eqb_iff, nat_eq, string_eq,
  pair_eq, length, keep_if, All, length-map, true-ne-false,
}
use split_inference.Base.Int.{ℤ, pos, negsuc}
use split_inference.Config.Types.{Config, NodeCfg}
use split_inference.Registry.Table.{Nodes, NodeState, is_lost, silent, alive, values}
use split_inference.Slicer.Graph.{sorted_set}
use split_inference.Experiment.Driver.{is_incomplete, absent_nodes, node_ids}
use split_inference.Experiment.Session.{Poll, Wait, complete, aborted, wait_nodes}

-- await asyncio.sleep(0.2), in microseconds
abbrev pub poll_gap : ℕ
poll_gap = 200_000

-- The clock goes on, by at least the sleep from one poll to the next.
pub record Ticks (polls : ℕ → Poll) : Type 0 where
  pub slept : (k : ℕ) → (polls k).clock + poll_gap ≤ (polls (suc k)).clock
  pub in_turn : (k : ℕ) → (polls k).now ≤ (polls k).later

-- A loop that ended: at a poll with all nodes, or at one after the deadline.
pub data IsWaited (cfg : Config) (deadline : ℕ) (polls : ℕ → Poll) : Wait → Type 0 where
  all_there :
      (k : ℕ)
      → is_incomplete cfg (polls k).now (polls k).nodes ≡ false
      → IsWaited cfg deadline polls complete
  too_late :
      (k : ℕ)
      → is_incomplete cfg (polls k).now (polls k).nodes ≡ true
      → deadline < (polls k).clock
      → IsWaited cfg deadline polls
          (aborted (sorted_set (absent_nodes cfg (polls k).later (polls k).nodes)))

-- One poll.
poll-IsWaited :
    (cfg : Config) (deadline : ℕ) (polls : ℕ → Poll) (fuel k : ℕ)
    → (ltb deadline (polls k).clock ≡ false
        → IsWaited cfg deadline polls (wait_nodes cfg deadline polls fuel (suc k)))
    → IsWaited cfg deadline polls (wait_nodes cfg deadline polls (suc fuel) k)
unfolding wait_nodes
poll-IsWaited cfg deadline polls fuel k next =
    split (is_incomplete cfg (polls k).now (polls k).nodes) (ltb deadline (polls k).clock) refl refl
  where
    split :
        (b c : Bool)
        → is_incomplete cfg (polls k).now (polls k).nodes ≡ b
        → ltb deadline (polls k).clock ≡ c
        → IsWaited cfg deadline polls (elim b [
          | false ↦ complete
          | true ↦ elim c [
            | true ↦ aborted (sorted_set (absent_nodes cfg (polls k).later (polls k).nodes))
            | false ↦ wait_nodes cfg deadline polls fuel (suc k)
          ]
        ])
    split false c p q = all_there k p
    split true true p q = too_late k p (ground arith)
    split true false p q = next q

pub wait_nodes-IsWaited :
    (cfg : Config) (deadline : ℕ) (polls : ℕ → Poll)
    → Ticks polls
    → (n k : ℕ) → deadline < (polls k).clock + n * poll_gap
    → IsWaited cfg deadline polls (wait_nodes cfg deadline polls (suc n) k)
wait_nodes-IsWaited cfg deadline polls t zero k h =
    poll-IsWaited cfg deadline polls zero k (λ q. absurd (past q))
  where
    past : ltb deadline (polls k).clock ≡ false → ⊥
    past q = ground arith
wait_nodes-IsWaited cfg deadline polls t (suc n) k h =
    let longer = t.slept k in
    poll-IsWaited cfg deadline polls (suc n) k
      (λ q. wait_nodes-IsWaited cfg deadline polls t n (suc k) (omega arith))

-- The nodes alive later were alive before.
silent_on :
    (hb : ℤ) (lost_after now later : ℕ)
    → now ≤ later
    → silent hb lost_after now ≡ true
    → silent hb lost_after later ≡ true
silent_on (pos t) lost_after now later h s = ground arith
silent_on (negsuc n) lost_after now later h s = refl

abbrev pub AreDistinctIds : List ℕ → Type 0
AreDistinctIds [] = Unit
AreDistinctIds (n ∷ ns) = (elem n ns ≡ false) × AreDistinctIds ns

abbrev take_out : ℕ → List ℕ → List ℕ
take_out n [] = []
take_out n (m ∷ ms) = let rest = take_out n ms in if nat_eqb n m then ms else m ∷ rest

length-take_out :
    (n : ℕ) (ms : List ℕ) → elem n ms ≡ true → length ms ≡ suc (length (take_out n ms))
length-take_out n [] h = absurd (true-ne-false h refl)
length-take_out n (m ∷ ms) h = ground (arith, length-take_out n ms)

elem-take_out : (n k : ℕ) (ms : List ℕ) → n ≢ k → elem k ms ≡ true → elem k (take_out n ms) ≡ true
elem-take_out n k [] ne h = h
elem-take_out n k (m ∷ ms) ne h = ground (arith, elem-take_out n k ms)

or_first : (a b : Bool) → (a || b) ≡ false → a ≡ false
or_first true b h = cc
or_first false b h = refl

or_second : (a b : Bool) → (a || b) ≡ false → b ≡ false
or_second true b h = cc
or_second false b h = h

others :
    (n : ℕ) (ns ms : List ℕ)
    → elem n ns ≡ false
    → All (λ k. elem k ms ≡ true) ns
    → All (λ k. elem k (take_out n ms) ≡ true) ns
others n [] ms d h = tt
others n (k ∷ ns) ms d h = (
  elem-take_out n k ms (λ e. true-ne-false ((nat_eqb_iff k n).1 (sym e)) (or_first _ _ d)) h.0,
  others n ns ms (or_second _ _ d) h.1,
)

-- Distinct numbers that all stand in a list are no more than it has.
distinct-length :
    (ns ms : List ℕ) → AreDistinctIds ns → All (λ n. elem n ms ≡ true) ns → length ns ≤ length ms
distinct-length [] ms d h = omega arith
distinct-length (n ∷ ns) ms d h =
    let rest = distinct-length ns (take_out n ms) d.1 (others n ns ms d.0 h.1) in
    omega (arith, length-take_out n ms h.0)

named_or_all :
    (ns ms : List ℕ)
    → ((n : ℕ) × (elem n (keep_if (λ k. not (elem k ms)) ns) ≡ true))
      ⊎ All (λ n. elem n ms ≡ true) ns
named_or_all [] ms = inr tt
named_or_all (n ∷ ns) ms = split (elem n ms) refl (named_or_all ns ms)
  where
    split :
        (b : Bool)
        → elem n ms ≡ b
        → ((m : ℕ) × (elem m (keep_if (λ k. not (elem k ms)) ns) ≡ true))
          ⊎ All (λ m. elem m ms ≡ true) ns
        → ((m : ℕ) × (elem m (
                if not b
                then n ∷ keep_if (λ k. not (elem k ms)) ns
                else keep_if (λ k. not (elem k ms)) ns)
              ≡ true))
          ⊎ (elem n ms ≡ true) × All (λ m. elem m ms ≡ true) ns
    split true p (inl x) = inl x
    split true p (inr all) = inr (p, all)
    split false p x = inl (n, ground (arith, nat_eqb_iff n n))

alive_later :
    (cfg : Config) (now later : ℕ) (sts : List NodeState)
    → now ≤ later
    → length (keep_if (λ st. not (is_lost cfg later st)) sts)
      ≤ length (keep_if (λ st. not (is_lost cfg now st)) sts)
unfolding is_lost
alive_later cfg now later [] h = omega arith
alive_later cfg now later (st ∷ sts) h =
    split _ _ _ _ (silent_on st.last_hb (cfg.registry.lost_after_s * 1_000_000) now later h)
      (alive_later cfg now later sts h)
  where
    split :
        (xs ys : List NodeState) (b c : Bool)
        → (b ≡ true → c ≡ true)
        → length ys ≤ length xs
        → length (if not c then st ∷ ys else ys) ≤ length (if not b then st ∷ xs else xs)
    split xs ys true true f l = l
    split xs ys true false f l = absurd (true-ne-false (f refl) refl)
    split xs ys false true f l = omega arith
    split xs ys false false f l = omega arith

-- At a poll without all nodes, some configured node is missing.
pub absent_nodes-named :
    (cfg : Config) (now later : ℕ) (nodes : Nodes)
    → AreDistinctIds (node_ids cfg)
    → now ≤ later
    → is_incomplete cfg now nodes ≡ true
    → (n : ℕ) × (elem n (absent_nodes cfg later nodes) ≡ true)
unfolding is_incomplete alive
absent_nodes-named cfg now later nodes d t h =
    elim (named_or_all (node_ids cfg) (map (λ st. st.node_id) (alive cfg later nodes))) [
      | inl x ↦ x
      | inr all ↦
          let few = distinct-length (node_ids cfg) _ d all in
          let fewer = alive_later cfg now later (values nodes) t in
          absurd (
            omega (
              arith,
              length-map (λ (st : NodeState). st.node_id) (alive cfg later nodes),
              length-map (λ (n : NodeCfg). n.node_id) cfg.nodes,
              short,
            ))
    ]
  where
    short : length (alive cfg now nodes) < length cfg.nodes
    short = ground arith
