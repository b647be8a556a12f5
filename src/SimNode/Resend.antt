-- ===== src/SimNode/Resend.antt =====
-- What a NACK makes a node send: `_retransmit` of scripts/sim_node.py.
use split_inference.Base.{
  ℕ, zero, suc, ◌+◌, ◌≡◌, refl, sym, ap, ◌∙◌, subst, Bool, true, false, not, Option, none, some,
  List, [], ◌∷◌, ◌++◌, append-nil, append_assoc, arith, if◌then◌else◌, nat_eqb_iff, nat_eq,
  string_eq, pair_eq, ==-false, get_elem?, keep_if,
}
use split_inference.Base.Dict.{get}
use split_inference.Wire.Struct.{Bytes}
use split_inference.SimNode.Node.{Sim, enumerate, send_frag, retransmit_one, retransmit}

get-enumerate : (ds : List Bytes) (k j : ℕ) → get (k + j) (enumerate k ds) ≡ get_elem? ds j
unfolding enumerate get
get-enumerate [] k j = refl
get-enumerate (d ∷ ds) k zero = rw ((nat_eqb_iff k (k + 0)).1 (omega arith)) refl
get-enumerate (d ∷ ds) k (suc j) = rw (==-false k (k + suc j) (λ e. omega arith)) (
    subst (λ i. get i (enumerate (suc k) ds) ≡ get_elem? ds j) (omega arith)
      (get-enumerate ds (suc k) j))

-- The datagrams at some indices, without those that there are not.
abbrev pub pick : List Bytes → List ℕ → List Bytes
pick ds [] = []
pick ds (i ∷ is) = elim (get_elem? ds i) [ none ↦ pick ds is | some d ↦ d ∷ pick ds is ]

-- A node that serves a request with these datagrams.
pub record Holds (ds : List Bytes) (s : Sim) : Type 0 where
  pub frags : s.frags ≡ enumerate 0 ds
  pub req_id : ℕ
  pub current : s.current_req ≡ some req_id

module _ (ds : List Bytes) (i : ℕ) (s : Sim) (h : Holds ds s) where
  abbrev found : Option Bytes → List Bytes
  found none = []
  found (some d) = d ∷ []

  pick-found : pick ds (i ∷ []) ≡ found (get_elem? ds i)
  pick-found = split (get_elem? ds i)
    where
      split : (o : Option Bytes) → elim o [ none ↦ pick ds [] | some d ↦ d ∷ pick ds [] ] ≡ found o
      split none = refl
      split (some d) = refl

  abbrev Sends : Bool → Sim → Type 0
  Sends lost t =
      Holds ds t × (t.data_sent ≡ s.data_sent ++ pick ds (if not lost then i ∷ [] else []))

  no_request : {A : Type 0} → s.current_req ≡ none → A
  no_request e = absurd (none-ne-some (sym e ∙ h.current))
    where
      none-ne-some : {n : ℕ} → none ≡ some n → ⊥
      none-ne-some g = cc

  retransmit_one-Sends : (lost : Bool) → Sends lost (retransmit_one lost i s)
  unfolding retransmit_one send_frag
  retransmit_one-Sends lost =
      let at : get i s.frags ≡ get_elem? ds i =
        ap (get i) h.frags
        ∙ subst (λ k. get k (enumerate 0 ds) ≡ get_elem? ds i) (omega arith)
            (get-enumerate ds 0 i) in
      split (get i s.frags) s.current_req lost (pick-found ∙ ap found (sym at)) refl
    where
      split :
          (o : Option Bytes) (c : Option ℕ) (lost : Bool)
          → pick ds (i ∷ []) ≡ found o
          → s.current_req ≡ c
          → Sends lost (elim o [
            | none ↦ s
            | some d ↦ elim c [
              | none ↦ s
              | some r ↦ if lost then s else record s { data_sent = s.data_sent ++ d ∷ [] }
            ]
          ])
      split o none lost p e = no_request e
      split none (some r) true p e = (h, sym (append-nil s.data_sent))
      split none (some r) false p e =
          (h, sym (ap (λ xs. s.data_sent ++ xs) p ∙ append-nil s.data_sent))
      split (some d) (some r) true p e = (h, sym (append-nil s.data_sent))
      split (some d) (some r) false p e = (
        record { frags = h.frags; req_id = h.req_id; current = h.current },
        ap (λ xs. s.data_sent ++ xs) (sym p),
      )

pub pick-append : (ds : List Bytes) (xs ys : List ℕ) → pick ds (xs ++ ys) ≡ pick ds xs ++ pick ds ys
pick-append ds [] ys = refl
pick-append ds (x ∷ xs) ys = split (get_elem? ds x) (pick-append ds xs ys)
  where
    split :
        (o : Option Bytes)
        → pick ds (xs ++ ys) ≡ pick ds xs ++ pick ds ys
        → elim o [ none ↦ pick ds (xs ++ ys) | some d ↦ d ∷ pick ds (xs ++ ys) ]
          ≡ elim o [ none ↦ pick ds xs | some d ↦ d ∷ pick ds xs ] ++ pick ds ys
    split none e = e
    split (some d) e = ap (λ zs. d ∷ zs) e

keep_if-cons :
    (p : ℕ → Bool) (i : ℕ) (is : List ℕ)
    → keep_if p (i ∷ is) ≡ (if p i then i ∷ [] else []) ++ keep_if p is
keep_if-cons p i is = split (p i)
  where
    split :
        (b : Bool)
        → (if b then i ∷ keep_if p is else keep_if p is)
          ≡ (if b then i ∷ [] else []) ++ keep_if p is
    split true = refl
    split false = refl

-- While a simulated node serves a request whose datagrams it holds, a retransmission sends exactly
-- those of the asked indices that there are, in order, without those lost on the air.
pub retransmit-pick :
    (ds : List Bytes) (lost : ℕ → Bool) (is : List ℕ) (s : Sim)
    → Holds ds s
    → (retransmit lost is s).data_sent ≡ s.data_sent ++ pick ds (keep_if (λ i. not (lost i)) is)
unfolding retransmit
retransmit-pick ds lost [] s h = sym (append-nil s.data_sent)
retransmit-pick ds lost (i ∷ is) s h =
    let (h', sent) = retransmit_one-Sends ds i s h (lost i) in
    let p : ℕ → Bool = λ i. not (lost i) in
    let now = if p i then i ∷ [] else [] in
    retransmit-pick ds lost is (retransmit_one (lost i) i s) h'
    ∙ ap (λ xs. xs ++ pick ds (keep_if p is)) sent
    ∙ append_assoc s.data_sent (pick ds now) (pick ds (keep_if p is))
    ∙ ap (λ xs. s.data_sent ++ xs)
        (sym (ap (pick ds) (keep_if-cons p i is) ∙ pick-append ds now (keep_if p is)))
