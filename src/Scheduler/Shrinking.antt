-- ===== src/Scheduler/Shrinking.antt =====
-- What the start of a `_handle` of orchestrator/scheduler.py, and an acknowledgement, do to the
-- requests in flight: no node is added, and none has more.
use split_inference.Base.{
  ℕ, String, Bool, true, false, Option, none, some, ◌∷◌, nat_eq, string_eq, pair_eq, Result, ok,
  err,
}
use split_inference.Base.Exec.{◌>>=◌, lift, continue_post}
use split_inference.Base.Dict.{get, put}
use split_inference.Config.Types.{Config}
use split_inference.Config.Cuts.{cut_index}
use split_inference.Reassembly.Receive.{start}
use split_inference.Registry.Table.{NodeState}
use split_inference.Scheduler.World.{Task, World, on_assign_ack}
use split_inference.Scheduler.Handle.{on_reassembler, choose_cut, register, admit, admitted, begin}
use split_inference.Scheduler.Lighter.{Lighter, try_assign-Lighter}

choose_cut-Lighter : (m : ℕ) (v w : World) → Lighter v w → Lighter v (choose_cut m w).1
unfolding choose_cut
choose_cut-Lighter m v w s = s

register-Lighter :
    (cfg : Config) (now m : ℕ) (st : NodeState) (arm : String) (i : ℕ) (v w : World)
    → Lighter v w
    → Lighter v (register cfg now m st arm i w).1
unfolding register on_reassembler start
register-Lighter cfg now m st arm i v w s = s

admit-Lighter :
    (cfg : Config) (now m : ℕ) (st : NodeState) (v w : World)
    → Lighter v w
    → Lighter v (admit cfg now m st w).1
unfolding admit
admit-Lighter cfg now m st v w s =
    let (cut, u) = choose_cut m w in
    let chosen = choose_cut-Lighter m v w s in
    continue_post (Lighter v) cut (λ arm. lift (cut_index cfg arm) >>= register cfg now m st arm) u
      chosen
      (λ arm _.
        continue_post (Lighter v) (cut_index cfg arm) (register cfg now m st arm) u chosen
          (λ i _. register-Lighter cfg now m st arm i v u chosen))

admitted-Lighter :
    (cfg : Config) (now m : ℕ) (v : World) (r : Result Task × World)
    → Lighter v r.1
    → Lighter v (admitted cfg now m r)
admitted-Lighter cfg now m v (err e, w) s = s
admitted-Lighter cfg now m v (ok t, w) s =
    try_assign-Lighter cfg now cfg.protocol.assign_max_retries t v w s

pub begin-Lighter :
    (cfg : Config) (now m : ℕ) (v w : World) → Lighter v w → Lighter v (begin cfg now m w)
unfolding begin
begin-Lighter cfg now m v w s = split (get m w.nodes)
  where
    split :
        (o : Option NodeState)
        → Lighter v (elim o [
          | none ↦ record w { dead = m ∷ w.dead }
          | some st ↦ admitted cfg now m (admit cfg now m st w)
        ])
    split none = s
    split (some st) =
        admitted-Lighter cfg now m v (admit cfg now m st w) (admit-Lighter cfg now m st v w s)

pub on_assign_ack-Lighter :
    (node_id req_id : ℕ) (v w : World) → Lighter v w → Lighter v (on_assign_ack node_id req_id w)
unfolding on_assign_ack
on_assign_ack-Lighter node_id req_id v w s = split (get (node_id, req_id) w.acks)
  where
    split :
        (o : Option Bool)
        → Lighter v (elim o [
          | some false ↦ record w { acks = put (node_id, req_id) true w.acks }
          | some true ↦ w
          | none ↦ w
        ])
    split none = s
    split (some true) = s
    split (some false) = s
