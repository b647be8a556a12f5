-- ===== src/Examples/ReassemblyRuns.antt =====
-- The theorems on orchestrator/reassembly.py at concrete inputs.
use split_inference.Base.{
  ℕ, zero, suc, ◌<◌, ◌≡◌, refl, true, some, List, [], ◌∷◌, arith, nat_eq, string_eq, pair_eq, ok,
  elem,
}
use split_inference.Base.Dict.{get}
use split_inference.Wire.Struct.{pack_fields}
use split_inference.Wire.Packet.{trailer_s}
use split_inference.Wire.Crc.{crc32}
use split_inference.Reassembly.State.{
  Reassembled, ReqBuf, Reassembler, pending, result, failed, crc, init,
}
use split_inference.Reassembly.Receive.{start, new_buf, on_timer}
use split_inference.Reassembly.Delivery.{Arrival, indices, arrivals}
use split_inference.Reassembly.Tensor.{tensor_delivered, torn_trailer_fails}
use split_inference.Reassembly.Timeout.{IsAborted, on_timer_aborts}
use split_inference.Reassembly.Invariant.{AllCounted, starts, Reach, fresh, next, Reach-AllCounted}
use split_inference.Examples.Setup.{address, protocol_cfg}
use split_inference.Examples.WireRuns.{
  tensor, trailer, torn_datagrams, fragmented_at_8, whole_datagrams, fragmented_at_20,
}

sealed : pack_fields trailer_s (crc32 tensor, (120000, (5, tt))) ≡ ok trailer
unfolding pack_fields crc32
sealed = refl

-- The last fragment first, and it comes twice.
abbrev backwards : List Arrival
backwards = (1, address, 100) ∷ (0, address, 101) ∷ (1, address, 102) ∷ []

abbrev once : List Arrival
once = (0, address, 100) ∷ []

all_of_one : (i : ℕ) → i < 1 → elem i (indices once) ≡ true
all_of_one zero h = refl
all_of_one (suc i) h = absurd (omega arith)

all_of_two : (i : ℕ) → i < 2 → elem i (indices backwards) ≡ true
all_of_two zero h = refl
all_of_two (suc zero) h = refl
all_of_two (suc (suc i)) h = absurd (omega arith)

tensor_delivered_example :
    (r : Reassembled) × (get 0
        (arrivals protocol_cfg whole_datagrams once (start 11 7 init).1).futures
      ≡ some (result r))
    × (r.body ≡ tensor)
    × (r.t_capture_us ≡ 120000)
    × (r.t_edge_us ≡ 5)
    × (r.n_frags ≡ 1)
tensor_delivered_example =
    tensor_delivered protocol_cfg 11 7 tensor trailer 20 whole_datagrams 120000 5 init once
      fragmented_at_20 sealed all_of_one (omega arith)

torn_trailer_fails_example :
    (buf : ReqBuf) × (get 0
        (arrivals protocol_cfg torn_datagrams backwards (start 11 7 init).1).futures
      ≡ some (failed crc buf))
torn_trailer_fails_example =
    torn_trailer_fails protocol_cfg 11 7 tensor trailer 8 torn_datagrams 120000 5 init backwards
      fragmented_at_8 sealed all_of_two (omega arith)

-- A request of five fragments, two of which have arrived.
abbrev partial : ReqBuf
partial = record (new_buf 11 0) {
  addr = some address;
  total = some 5;
  chunks = (0, 1 ∷ []) ∷ (3, 2 ∷ []) ∷ [];
}

abbrev exhausted : ReqBuf
exhausted = record partial { nack_rounds = 2 }

abbrev holding : ReqBuf → Reassembler
holding buf = record init { reqs = (7, buf) ∷ []; futures = (0, pending) ∷ []; next_future = 1 }

known : (buf : ReqBuf) → get 7 (holding buf).reqs ≡ some buf
unfolding get
known buf = refl

opened : (buf : ReqBuf) → get 0 (holding buf).futures ≡ some pending
unfolding get
opened buf = refl

on_timer_aborts_example :
    IsAborted 7 exhausted address (holding exhausted) (on_timer protocol_cfg 7 (holding exhausted))
on_timer_aborts_example =
    on_timer_aborts protocol_cfg 7 (holding exhausted) exhausted (known exhausted)
      (opened exhausted) address (omega arith) refl (omega arith) (omega arith)

started : Reach protocol_cfg (start 11 7 init).1
started = next fresh (starts 11 7 init)

Reach-AllCounted_example : AllCounted protocol_cfg (start 11 7 init).1.reqs
Reach-AllCounted_example = Reach-AllCounted protocol_cfg started
