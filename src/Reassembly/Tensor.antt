-- ===== src/Reassembly/Tensor.antt =====
-- End to end: a tensor with its trailer through orchestrator/protocol.py, the data port of
-- orchestrator/server.py and orchestrator/reassembly.py.
use split_inference.Base.{
  ℕ, ◌+◌, ◌-◌, ◌%◌, ◌≤◌, ◌<◌, ◌≡◌, refl, sym, ap, ◌∙◌, inr, true, some, List, ◌++◌, arith, nat_eq,
  string_eq, pair_eq, ==-refl, ok, length, length-append, elem,
}
use split_inference.Base.Dict.{get, get-put_self}
use split_inference.Wire.Struct.{
  Bytes, Values, pack_fields, length-pack_fields, unpack_exact-pack_fields,
}
use split_inference.Wire.Packet.{trailer_s}
use split_inference.Wire.Crc.{crc32}
use split_inference.Wire.Fragment.{fragment_tensor}
use split_inference.Wire.Fragment.Chunks.{last_length}
use split_inference.Wire.Fragment.Split.{IsSplit, fragment_tensor-IsSplit}
use split_inference.Config.Types.{ProtocolCfg}
use split_inference.Reassembly.State.{
  Reassembled, ReqBuf, Future, pending, result, failed, crc, Reassembler,
}
use split_inference.Reassembly.Receive.{start, new_buf, outcome, verdict}
use split_inference.Reassembly.Chunks.{IsPartial-empty, IsFull, outcome_full, outcome_full_short}
use split_inference.Reassembly.Delivery.{Arrival, indices, arrivals, Waits, Done, arrivals_settle}

-- A request that was just started waits for its fragments.
start-Waits :
    (node_id req_id : ℕ) (cs : List Bytes) (s : Reassembler)
    → 0 < length cs
    → Waits node_id req_id s.next_future cs (start node_id req_id s).1
unfolding start
start-Waits node_id req_id cs s h =
    let buf = new_buf node_id s.next_future in
    record {
      buf = buf;
      known = get-put_self req_id buf s.reqs;
      node = refl;
      handle = refl;
      part = IsPartial-empty cs;
      open_request = h;
      pends = get-put_self s.next_future pending s.futures;
    }

module _ (cfg : ProtocolCfg) (node_id req_id : ℕ) (tensor trailer : Bytes) (m : ℕ) (ds : List Bytes)
    (t_capture_us t_edge_us : ℕ) (s : Reassembler) (l : List Arrival)
    (sent : fragment_tensor node_id req_id tensor trailer m ≡ ok ds)
    (sealed : pack_fields trailer_s (crc32 tensor, (t_capture_us, (t_edge_us, tt))) ≡ ok trailer)
    (all_arrive : (i : ℕ) → i < length ds → elem i (indices l) ≡ true) where
  abbrev fields : Values trailer_s
  fields = (crc32 tensor, (t_capture_us, (t_edge_us, tt)))

  abbrev split : IsSplit node_id req_id (tensor ++ trailer) m ds
  split = fragment_tensor-IsSplit node_id req_id tensor trailer m ds sent

  trailer-length : length trailer ≡ 12
  trailer-length = length-pack_fields trailer_s fields trailer sealed

  last_chunk_length : last_length split.chunks ≡ (length tensor + 11) % m + 1
  last_chunk_length =
      let total = length-append tensor trailer in
      let before : length (tensor ++ trailer) - 1 ≡ length tensor + 11 =
        omega (arith, total, trailer-length) in
      rw (← before) (split.last (omega (arith, total, trailer-length)))

  settles :
      (o : ReqBuf → Future)
      → ((buf : ReqBuf)
          → IsFull buf split.chunks tensor trailer
          → outcome buf (length split.chunks) ≡ ok (o buf))
      → Done req_id s.next_future split.chunks tensor trailer o
          (arrivals cfg ds l (start node_id req_id s).1)
  settles o decides =
      arrivals_settle cfg node_id req_id s.next_future (tensor ++ trailer) m ds split tensor trailer
        refl trailer-length o decides l (start node_id req_id s).1
        (start-Waits node_id req_id split.chunks s split.some_chunk)
        (λ i lt. inr (all_arrive i (omega (arith, split.count))))

  -- A request is started and `fragment_tensor` makes datagrams of a tensor and a trailer with its
  -- CRC-32 and two times; once every datagram has arrived at the data port, in any order and with
  -- any repetitions, the future of the request holds that tensor and those times, if the last
  -- fragment has room for the whole trailer.
  pub tensor_delivered :
      12 ≤ (length tensor + 11) % m + 1
      → (r : Reassembled) × (get s.next_future
            (arrivals cfg ds l (start node_id req_id s).1).futures
          ≡ some (result r))
        × (r.body ≡ tensor)
        × (r.t_capture_us ≡ t_capture_us)
        × (r.t_edge_us ≡ t_edge_us)
        × (r.n_frags ≡ length ds)
  tensor_delivered room =
      let o : ReqBuf → Future = λ buf. verdict buf (length split.chunks) fields tensor in
      let done = settles o (λ buf f.
        outcome_full buf split.chunks tensor trailer f fields (omega (arith, last_chunk_length))
          (unpack_exact-pack_fields trailer_s fields trailer sealed)) in
      (
        record {
          body = tensor;
          t_capture_us = t_capture_us;
          t_edge_us = t_edge_us;
          t_first = done.buf.t_first;
          t_last = done.buf.t_last;
          n_frags = length split.chunks;
          n_retx = done.buf.n_retx;
          bytes_on_air = done.buf.bytes_on_air;
        },
        done.settled ∙ ap some (rw (==-refl (crc32 tensor))),
        refl,
        refl,
        refl,
        sym split.count,
      )

  -- A request is started and `fragment_tensor` makes datagrams of a tensor and a trailer with its
  -- CRC-32 and two times; once every datagram has arrived at the data port, the future of the
  -- request has failed with CRC, if fewer than 12 bytes are in the last fragment, so that the
  -- trailer is torn over the last two.
  pub torn_trailer_fails :
      (length tensor + 11) % m + 1 < 12
      → (buf : ReqBuf) × (get s.next_future (arrivals cfg ds l (start node_id req_id s).1).futures
          ≡ some (failed crc buf))
  torn_trailer_fails torn =
      let done =
        settles (λ buf. failed crc buf)
          (λ buf f.
            outcome_full_short buf split.chunks tensor trailer f
              (omega (arith, last_chunk_length))) in
      (done.buf, done.settled)
