-- ===== src/Examples/LedgerRuns.antt =====
-- The counts of orchestrator/scheduler.py after a request that nobody acknowledges.
use split_inference.Base.{ℕ, ◌≡◌, refl, false, some, [], ◌∷◌, ◌++◌, nat_eq, string_eq, pair_eq}
use split_inference.Base.Dict.{get, get_or, put, remove}
use split_inference.Config.Cuts.{cut_index, index_of}
use split_inference.Policy.Choice.{fixed_cut, select, wants}
use split_inference.Reassembly.Receive.{start, abort, abort_buf, notify, fail_unless_done}
use split_inference.Reassembly.State.{cancel_timer}
use split_inference.Registry.Table.{ready, is_lost, mark_lost}
use split_inference.Wire.Struct.{pack_fields}
use split_inference.Wire.Packet.{pack}
use split_inference.Scheduler.World.{World, Task, lost, assigning, satisfied, set_in_flight}
use split_inference.Scheduler.Handle.{
  tick, offer_all, offer_work, begin, admit, choose_cut, register, on_reassembler, try_assign,
  ack_awaited, send_packet, give_up, cancel, lose_node, finish, release, log_request, row_of,
}
use split_inference.Scheduler.Flight.{Reach, here, next, ticked, begun, assigned}
use split_inference.Scheduler.Ledger.{IsLedger}
use split_inference.Scheduler.Logged.{IsUnused, Reach-IsLedger}
use split_inference.Examples.Setup.{cfg}
use split_inference.Examples.SchedulerRuns.{entered, seen}

-- The best table has node 11.
abbrev unused : World
unused = record entered { policy = fixed_cut "best" ((11, "k0") ∷ []) }

abbrev ticked_once : World
ticked_once = (tick cfg 2000 unused).1

abbrev offered : World
offered = begin cfg 2000 11 (record ticked_once { created = [] })

abbrev task : ℕ → Task
task n = record {
  node_id = 11;
  req_id = 1;
  tier = "A";
  arm = "k0";
  action_idx = 0;
  rssi = seen.rssi;
  t_assign = 2000;
  tensor_fut = 0;
  phase = assigning n;
}

abbrev again : ℕ → World → World
again n w = ack_awaited cfg 3000 false n (task n) (record w { tasks = [] })

abbrev silent : World
silent = again 0 (again 1 (again 2 offered))

made : ticked_once.created ≡ [] ++ 11 ∷ []
unfolding tick offer_all offer_work ready is_lost satisfied wants get
made = refl

waits : (offered.tasks ≡ [] ++ task 2 ∷ []) × (get (11, 1) offered.acks ≡ some false)
unfolding begin tick offer_all offer_work ready is_lost satisfied wants get set_in_flight put admit
    choose_cut select register on_reassembler start try_assign send_packet cut_index index_of
    pack_fields pack
waits = (refl, refl)

tries_again :
    ((again 2 offered).tasks ≡ [] ++ task 1 ∷ [])
    × (get (11, 1) (again 2 offered).acks ≡ some false)
unfolding begin tick offer_all offer_work ready is_lost satisfied wants get set_in_flight put admit
    choose_cut select register on_reassembler start try_assign send_packet cut_index index_of
    pack_fields pack ack_awaited remove
tries_again = (refl, refl)

tries_last :
    ((again 1 (again 2 offered)).tasks ≡ [] ++ task 0 ∷ [])
    × (get (11, 1) (again 1 (again 2 offered)).acks ≡ some false)
unfolding begin tick offer_all offer_work ready is_lost satisfied wants get set_in_flight put admit
    choose_cut select register on_reassembler start try_assign send_packet cut_index index_of
    pack_fields pack ack_awaited remove
tries_last = (refl, refl)

silent-Reach : Reach cfg unused silent
silent-Reach =
    next
      (next
        (next (next (next here (ticked 2000)) (begun 2000 11 [] [] made))
          (assigned 3000 (task 2) [] [] 2 waits.0 refl false waits.1))
        (assigned 3000 (task 1) [] [] 1 tries_again.0 refl false tries_again.1))
      (assigned 3000 (task 0) [] [] 0 tries_last.0 refl false tries_last.1)

unused-IsUnused : IsUnused unused
unfolding get
unused-IsUnused = record { no_ok = λ n. refl; no_rows = refl; no_tasks = refl }

Reach-IsLedger_example : IsLedger [] silent
Reach-IsLedger_example = Reach-IsLedger cfg unused silent unused-IsUnused silent-Reach

-- One attempt, one row with LOST, no task left.
lost_once :
    (silent.rows ≡ row_of (task 0) lost ∷ [])
    × ((silent.tasks ≡ []) × (get_or 11 0 silent.attempts ≡ 1))
unfolding begin tick offer_all offer_work ready is_lost satisfied wants get set_in_flight put admit
    choose_cut select register on_reassembler start try_assign send_packet cut_index index_of
    pack_fields pack ack_awaited remove give_up cancel lose_node finish release log_request
    mark_lost abort abort_buf notify fail_unless_done cancel_timer
lost_once = (refl, (refl, refl))
