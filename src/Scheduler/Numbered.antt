-- ===== src/Scheduler/Numbered.antt =====
-- The start of a `_handle` of orchestrator/scheduler.py, its counts and its log.
use split_inference.Base.{
  ℕ, ◌+◌, ◌≤◌, String, ◌≡◌, refl, sym, ap, ◌∙◌, Bool, true, false, Option, none, some, [], ◌∷◌,
  arith, if◌then◌else◌, nat_eqb_iff, ◌==◌, nat_eq, string_eq, pair_eq, Result, ok, err,
}
use split_inference.Base.Exec.{◌>>=◌, lift, continue}
use split_inference.Base.Dict.{get}
use split_inference.Config.Types.{Config}
use split_inference.Config.Cuts.{cut_index}
use split_inference.Reassembly.Receive.{start}
use split_inference.Registry.Table.{NodeState}
use split_inference.Scheduler.World.{Task, World}
use split_inference.Scheduler.Handle.{on_reassembler, choose_cut, register, admit, admitted, begin}
use split_inference.Scheduler.Load.{one_if}
use split_inference.Scheduler.Ledger.{logged, running, room, IsLedger}
use split_inference.Scheduler.Counted.{count_up}
use split_inference.Scheduler.Booked.{try_assign-IsLedger}

-- What the first part of `_handle` leaves: a task in hand, or none.
abbrev InHand : Result Task → World → Type 0
InHand (ok t) w = IsLedger (t ∷ []) w
InHand (err e) w = IsLedger [] w

-- A request that has its number and no task yet.
record IsNumbered (w : World) : Type 0 where
  booked : IsLedger [] w
  unused : logged w.req_counter w.rows + running w.req_counter w.tasks ≡ 0

choose_cut-IsNumbered : (m : ℕ) (w : World) → IsLedger [] w → IsNumbered (choose_cut m w).1
unfolding choose_cut
choose_cut-IsNumbered m w l = record {
  booked = record {
    ok_rows = l.ok_rows;
    attempted = l.attempted;
    once = λ i. let before = l.once i in ground arith;
  };
  unused = let before = l.once (w.req_counter + 1) in ground arith;
}

takes_room :
    (c j a b : ℕ) → (c ≡ j → a + b ≡ 0) → a + b ≤ room j c → a + (one_if j c + b) ≤ room j c
takes_room c j a b h l = split (c == j) refl
  where
    fits : c ≡ j → 1 ≤ room j c
    fits e = ground arith

    split : (q : Bool) → (c == j) ≡ q → a + ((if q then 1 else 0) + b) ≤ room j c
    split true p =
        let e = (nat_eqb_iff c j).0 p in let none_yet = h e in let room_left = fits e in omega arith
    split false p = omega arith

register-InHand :
    (cfg : Config) (now m : ℕ) (st : NodeState) (arm : String) (i : ℕ) (w : World)
    → IsNumbered w
    → let (r, u) = register cfg now m st arm i w in InHand r u
unfolding register on_reassembler start
register-InHand cfg now m st arm i w k = record {
  ok_rows = k.booked.ok_rows;
  attempted = λ n. omega (arith, k.booked.attempted n, count_up m n w.attempts);
  once = λ j.
      takes_room w.req_counter j (logged j w.rows) (running j w.tasks)
        (λ e. ap (λ c. logged c w.rows + running c w.tasks) (sym e) ∙ k.unused) (k.booked.once j);
}

admit-InHand :
    (cfg : Config) (now m : ℕ) (st : NodeState) (w : World)
    → IsLedger [] w
    → let (r, u) = admit cfg now m st w in InHand r u
unfolding admit
admit-InHand cfg now m st w l =
    arm_chosen (choose_cut m w).0 (choose_cut m w).1 (choose_cut-IsNumbered m w l)
  where
    indexed :
        (arm : String) (r : Result ℕ) (u : World)
        → IsNumbered u
        → let (q, v) = continue r (register cfg now m st arm) u in InHand q v
    indexed arm (err e) u k = k.booked
    indexed arm (ok i) u k = register-InHand cfg now m st arm i u k

    arm_chosen :
        (r : Result String) (u : World)
        → IsNumbered u
        → let (q, v) =
            continue r (λ arm. lift (cut_index cfg arm) >>= register cfg now m st arm) u in
          InHand q v
    arm_chosen (err e) u k = k.booked
    arm_chosen (ok arm) u k = indexed arm (cut_index cfg arm) u k

pub begin-IsLedger :
    (cfg : Config) (now m : ℕ) (w : World) → IsLedger [] w → IsLedger [] (begin cfg now m w)
unfolding begin
begin-IsLedger cfg now m w l = known (get m w.nodes)
  where
    dead : (v : World) → IsLedger [] v → IsLedger [] (record v { dead = m ∷ v.dead })
    dead v k = record { ok_rows = k.ok_rows; attempted = k.attempted; once = k.once }

    handed : (r : Result Task) (v : World) → InHand r v → IsLedger [] (admitted cfg now m (r, v))
    handed (err e) v k = dead v k
    handed (ok t) v k = try_assign-IsLedger cfg now cfg.protocol.assign_max_retries t v k

    known :
        (o : Option NodeState)
        → IsLedger [] (elim o [
          | none ↦ record w { dead = m ∷ w.dead }
          | some st ↦ admitted cfg now m (admit cfg now m st w)
        ])
    known none = dead w l
    known (some st) =
        handed (admit cfg now m st w).0 (admit cfg now m st w).1 (admit-InHand cfg now m st w l)
