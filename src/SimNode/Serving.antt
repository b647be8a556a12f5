-- ===== src/SimNode/Serving.antt =====
-- What a `_serve` of scripts/sim_node.py does to the busy flag, the current request and the task.
use split_inference.Base.{
  ℕ, ◌≡◌, refl, sym, ap, ◌∙◌, Bool, true, false, Option, none, some, List, [], ◌∷◌, ◌++◌,
  if◌then◌else◌, nat_eq, string_eq, pair_eq, Result, ok, err, get_elem?,
}
use split_inference.Base.Dict.{Dict}
use split_inference.Wire.Struct.{Bytes}
use split_inference.Config.Types.{Config, CutCfg}
use split_inference.SimNode.Node.{
  Phase, capturing, sending, awaiting, Serve, Sim, end_serve, begin_serve, cancel_serve, send_frag,
  enumerate, rest_phase, with_phase, datagrams_of, fragmented, resume,
}

pub data IsCoherent (s : Sim) : Type 0 where
  idle_node : s.busy ≡ false → s.current_req ≡ none → s.serve_task ≡ none → IsCoherent s
  serving :
      (t : Serve)
      → s.busy ≡ true
      → s.current_req ≡ some t.req_id
      → s.serve_task ≡ some t
      → IsCoherent s

-- Writes to the other fields.
module _ (s : Sim) where
  pub outside :
      (evt : Bool) (fs : Dict ℕ Bytes) (rs : List (List ℕ)) (cs ds : List Bytes)
      → IsCoherent s
      → IsCoherent
          (record s { result_evt = evt; frags = fs; retransmits = rs; ctrl = cs; data_sent = ds })
  outside evt fs rs cs ds (idle_node b c t) = idle_node b c t
  outside evt fs rs cs ds (serving t b c e) = serving t b c e

  pub end_serve-IsCoherent : IsCoherent (end_serve s)
  unfolding end_serve
  end_serve-IsCoherent = idle_node refl refl refl

  pub begin_serve-IsCoherent :
      (cfg : Config) (req_id action_idx : ℕ) → IsCoherent (begin_serve cfg req_id action_idx s)
  unfolding begin_serve end_serve
  begin_serve-IsCoherent cfg req_id action_idx = split (get_elem? cfg.cuts action_idx)
    where
      split :
          (o : Option CutCfg)
          → IsCoherent (elim o [
            | none ↦ end_serve (record s { result_evt = false; frags = [] })
            | some cut ↦ record s {
              busy = true;
              current_req = some req_id;
              result_evt = false;
              frags = [];
              serve_task = some (record {
                req_id = req_id;
                action_idx = action_idx;
                phase = capturing;
                cancelling = false;
              });
            }
          ])
      split none = idle_node refl refl refl
      split (some cut) = serving _ refl refl refl

  -- The task changes, but not its request.
  pub retask :
      (t t' : Serve)
      → s.serve_task ≡ some t
      → t'.req_id ≡ t.req_id
      → IsCoherent s
      → IsCoherent (record s { serve_task = some t' })
  retask t t' h same (idle_node b c e) = absurd (none-ne-some (sym e ∙ h))
    where
      none-ne-some : none ≡ some t → ⊥
      none-ne-some g = cc
  retask t t' h same (serving u b c e) =
      serving t' b (c ∙ ap (λ o. id_of o) (sym e ∙ h) ∙ ap some (sym same)) refl
    where
      id_of : Option Serve → Option ℕ
      id_of none = none
      id_of (some v) = some v.req_id

  pub cancel_serve-IsCoherent : IsCoherent s → IsCoherent (cancel_serve s)
  unfolding cancel_serve
  cancel_serve-IsCoherent c = split s.serve_task refl
    where
      split :
          (o : Option Serve)
          → s.serve_task ≡ o
          → IsCoherent (elim o [
            | none ↦ s
            | some t ↦ record s { serve_task = some (record t { cancelling = true }) }
          ])
      split none e = c
      split (some t) e = retask t (record t { cancelling = true }) e refl c

pub send_frag-IsCoherent :
    (lost : Bool) (d : Bytes) (s : Sim) → IsCoherent s → IsCoherent (send_frag lost d s)
unfolding send_frag
send_frag-IsCoherent true d s c = c
send_frag-IsCoherent false d s c =
    outside s s.result_evt s.frags s.retransmits s.ctrl (s.data_sent ++ d ∷ []) c

fragmented-IsCoherent :
    (t : Serve) (r : Result (List Bytes)) (s : Sim)
    → s.serve_task ≡ some t
    → IsCoherent s
    → IsCoherent (fragmented t r s)
fragmented-IsCoherent t (err e) s h c = end_serve-IsCoherent s
fragmented-IsCoherent t (ok ds) s h c =
    retask (record s { frags = enumerate 0 ds }) t (record t { phase = rest_phase ds }) h refl
      (outside s s.result_evt (enumerate 0 ds) s.retransmits s.ctrl s.data_sent c)

pub resume-IsCoherent :
    (cfg : Config) (nid : ℕ) (payload : Bytes) (cap_us edge_us : ℕ) (lost : Bool) (t : Serve)
    (s : Sim)
    → s.serve_task ≡ some t
    → IsCoherent s
    → IsCoherent (resume cfg nid payload cap_us edge_us lost t s)
unfolding resume
resume-IsCoherent cfg nid payload cap_us edge_us lost t s h c = split t.cancelling t.phase
  where
    split :
        (b : Bool) (p : Phase)
        → IsCoherent (
            if b then end_serve s else elim p [
              | capturing ↦ fragmented t (datagrams_of cfg nid t.req_id payload cap_us edge_us) s
              | sending [] ↦ with_phase t awaiting s
              | sending (d ∷ ds) ↦ send_frag lost d (with_phase t (rest_phase ds) s)
              | awaiting ↦ end_serve s
            ])
    split true p = end_serve-IsCoherent s
    split false capturing =
        fragmented-IsCoherent t (datagrams_of cfg nid t.req_id payload cap_us edge_us) s h c
    split false (sending []) = retask s t (record t { phase = awaiting }) h refl c
    split false (sending (d ∷ ds)) =
        send_frag-IsCoherent lost d _ (retask s t (record t { phase = rest_phase ds }) h refl c)
    split false awaiting = end_serve-IsCoherent s
