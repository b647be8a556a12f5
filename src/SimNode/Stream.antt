-- ===== src/SimNode/Stream.antt =====
-- What `_serve` of scripts/sim_node.py sends: the fragments in order, then what NACKs ask for.
use split_inference.Base.{
  ℕ, zero, suc, ◌≡◌, refl, sym, ap, ◌∙◌, subst, Bool, true, false, not, some, List, [], ◌∷◌, ◌++◌,
  append-nil, append_assoc, arith, if◌then◌else◌, nat_eq, string_eq, pair_eq, ok, length, get_elem?,
  keep_if, length-append, range_from, range,
}
use split_inference.Wire.Struct.{Bytes}
use split_inference.Config.Types.{Config}
use split_inference.SimNode.Node.{
  Phase, capturing, sending, Serve, Sim, datagrams_of, fragmented, send_frag, resume, retransmit,
}
use split_inference.SimNode.Resend.{pick, pick-append, Holds, retransmit-pick}

-- The task of a request in a phase.
abbrev pub task : ℕ → ℕ → Phase → Serve
task req_id action_idx phase = record {
  req_id = req_id;
  action_idx = action_idx;
  phase = phase;
  cancelling = false;
}

-- The fragments without those lost on the air, from the index `i` on.
unlost : (ℕ → Bool) → ℕ → List Bytes → List Bytes
unlost lost i [] = []
unlost lost i (d ∷ ds) = (if lost i then [] else d ∷ []) ++ unlost lost (suc i) ds

get_elem?-middle :
    (before after : List Bytes) (d : Bytes) (i : ℕ)
    → length before ≡ i
    → get_elem? (before ++ d ∷ after) i ≡ some d
get_elem?-middle [] after d zero h = refl
get_elem?-middle [] after d (suc i) h = absurd (omega arith)
get_elem?-middle (b ∷ before) after d zero h = absurd (omega arith)
get_elem?-middle (b ∷ before) after d (suc i) h = get_elem?-middle before after d i (omega arith)

pick-unlost :
    (lost : ℕ → Bool) (i : ℕ) (before rest : List Bytes)
    → length before ≡ i
    → pick (before ++ rest) (keep_if (λ j. not (lost j)) (range_from i (length rest)))
      ≡ unlost lost i rest
unfolding unlost
pick-unlost lost i before [] h = refl
pick-unlost lost i before (d ∷ rest) h = split (lost i) (
    subst (λ ds. pick ds later ≡ unlost lost (suc i) rest) (append_assoc before (d ∷ []) rest)
      (pick-unlost lost (suc i) (before ++ d ∷ []) rest
        (omega (arith, length-append before (d ∷ [])))))
  where
    later : List ℕ
    later = keep_if (λ j. not (lost j)) (range_from (suc i) (length rest))

    split :
        (b : Bool)
        → pick (before ++ d ∷ rest) later ≡ unlost lost (suc i) rest
        → pick (before ++ d ∷ rest) (if not b then i ∷ later else later)
          ≡ (if b then [] else d ∷ []) ++ unlost lost (suc i) rest
    split true ih = ih
    split false ih = rw (get_elem?-middle before rest d i h, pick) (ap (λ ds. d ∷ ds) ih)

module _ (cfg : Config) (nid req_id action_idx : ℕ) (payload : Bytes) (cap_us edge_us : ℕ) where
  -- The awaits of the loop over the fragments end one after the other; `lost` are the indices of
  -- those lost on the air.
  unfoldable pub send_rest : (ℕ → Bool) → ℕ → List Bytes → Sim → Sim
  send_rest lost i [] s = s
  send_rest lost i (d ∷ ds) s =
      send_rest lost (suc i) ds (
        resume cfg nid payload cap_us edge_us (lost i) (task req_id action_idx (sending (d ∷ ds)))
          s)

  -- The capture and the head end, and all fragments are sent.
  unfoldable pub serve_all : (ℕ → Bool) → List Bytes → Sim → Sim
  serve_all lost ds s =
      send_rest lost 0 ds
        (resume cfg nid payload cap_us edge_us false (task req_id action_idx capturing) s)

  record IsSent (ds : List Bytes) (s t : Sim) (stream : List Bytes) : Type 0 where
    frags : t.frags ≡ s.frags
    current : t.current_req ≡ s.current_req
    appended : t.data_sent ≡ s.data_sent ++ stream

  send_rest-IsSent :
      (lost : ℕ → Bool) (i : ℕ) (ds : List Bytes) (s : Sim)
      → IsSent ds s (send_rest lost i ds s) (unlost lost i ds)
  unfolding send_rest unlost resume send_frag
  send_rest-IsSent lost i [] s = record {
    frags = refl;
    current = refl;
    appended = sym (append-nil s.data_sent);
  }
  send_rest-IsSent lost i (d ∷ ds) s =
      let t =
        resume cfg nid payload cap_us edge_us (lost i) (task req_id action_idx (sending (d ∷ ds)))
          s in
      let one = one_sent (lost i) in
      let rest = send_rest-IsSent lost (suc i) ds t in
      record {
        frags = rest.frags ∙ one.frags;
        current = rest.current ∙ one.current;
        appended =
            rest.appended
            ∙ ap (λ xs. xs ++ unlost lost (suc i) ds) one.appended
            ∙ append_assoc s.data_sent (if lost i then [] else d ∷ []) (unlost lost (suc i) ds);
      }
    where
      one_sent :
          (b : Bool)
          → IsSent
              (d ∷ ds)
              s
              (resume cfg nid payload cap_us edge_us b
                (task req_id action_idx (sending (d ∷ ds)))
                s)
              (if b then [] else d ∷ [])
      one_sent true = record {
        frags = refl;
        current = refl;
        appended = sym (append-nil s.data_sent);
      }
      one_sent false = record { frags = refl; current = refl; appended = refl }

  -- The node holds its datagrams, and has sent those of the first pass and those asked for.
  pub retransmit-serve_all :
      (lost lost_again : ℕ → Bool) (asked : List ℕ) (ds : List Bytes) (s : Sim)
      → s.current_req ≡ some req_id
      → datagrams_of cfg nid req_id payload cap_us edge_us ≡ ok ds
      → (retransmit lost_again asked (serve_all lost ds s)).data_sent
        ≡ s.data_sent
          ++ pick ds (
              keep_if (λ j. not (lost j)) (range (length ds))
              ++ keep_if (λ j. not (lost_again j)) asked)
  unfolding serve_all resume
  retransmit-serve_all lost lost_again asked ds s current made =
      let t : Sim = fragmented (task req_id action_idx capturing) (ok ds) s in
      let made_t = ap (λ r. fragmented (task req_id action_idx capturing) r s) made in
      let first = send_rest-IsSent lost 0 ds t in
      let u = send_rest lost 0 ds t in
      let p : List ℕ = keep_if (λ j. not (lost j)) (range (length ds)) in
      let q : List ℕ = keep_if (λ j. not (lost_again j)) asked in
      let holds : Holds ds u = record {
        frags = first.frags;
        req_id = req_id;
        current = first.current ∙ current;
      } in
      ap (λ v. (retransmit lost_again asked (send_rest lost 0 ds v)).data_sent) made_t
      ∙ retransmit-pick ds lost_again asked u holds
      ∙ ap (λ xs. xs ++ pick ds q)
          (first.appended ∙ ap (λ xs. s.data_sent ++ xs) (sym (pick-unlost lost 0 [] ds refl)))
      ∙ append_assoc s.data_sent (pick ds p) (pick ds q)
      ∙ ap (λ xs. s.data_sent ++ xs) (sym (pick-append ds p q))
