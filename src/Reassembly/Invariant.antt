-- ===== src/Reassembly/Invariant.antt =====
-- What holds of every request's buffer after any sequence of events at a `Reassembler` of
-- orchestrator/reassembly.py: fragments of any content, timers, aborts, cancelled futures.
use split_inference.Base.{
  ℕ, suc, ◌+◌, ◌≤◌, ◌<◌, ◌≡◌, refl, ap, ◌∙◌, subst, inl, inr, Bool, true, false, Option, none, some,
  [], arith, leb, nat_eqb, Bool-cases, Option-cases, nat_eq, string_eq, pair_eq, type_error, Result,
  ok, err, length,
}
use split_inference.Base.Exec.{continue_post}
use split_inference.Base.Dict.{
  Dict, Distinct, get, put, remove, get-put, get-remove, length-put, put-Distinct,
}
use split_inference.Wire.Kind
use split_inference.Wire.Struct.{Bytes}
use split_inference.Wire.Packet.{Packet, pack}
use split_inference.Wire.Fragment.{Fragment, parse_frag}
use split_inference.Wire.Nack.{pack_nack}
use split_inference.Config.Types.{ProtocolCfg}
use split_inference.Reassembly.State.{
  Addr, ReqBuf, Future, Timer, cancelled, Reassembler, cancel_timer, is_done, settle, send, init,
}
use split_inference.Reassembly.Receive.{
  start, new_buf, notify, fail_unless_done, abort_buf, abort, arm_timer, missing, send_nack,
  on_timer, outcome, complete, received, accept, on_frag,
}
use split_inference.Reassembly.Steps.{reqs-cancel_timer}

-- Every fragment received is either stored or counted as a retransmission, and no more rounds of
-- NACKs were sent than the configuration allows.
pub record IsCounted (cfg : ProtocolCfg) (b : ReqBuf) : Type 0 where
  pub distinct : Distinct b.chunks
  pub accounted : b.n_rx ≡ length b.chunks + b.n_retx
  pub bounded : b.nack_rounds ≤ cfg.max_nack_rounds

abbrev pub AllCounted : ProtocolCfg → Dict ℕ ReqBuf → Type 0
AllCounted cfg reqs = (r : ℕ) (b : ReqBuf) → get r reqs ≡ some b → IsCounted cfg b

-- One event.
pub data Step (cfg : ProtocolCfg) : Reassembler → Reassembler → Type 0 where
  starts : (node_id req_id : ℕ) (s : Reassembler) → Step cfg s (start node_id req_id s).1
  receives :
      (pkt : Packet) (addr : Addr) (datagram_len now : ℕ) (s : Reassembler)
      → Step cfg s (on_frag cfg pkt addr datagram_len now s).1
  fires :
      (t : ℕ) (timer : Timer) (s : Reassembler)
      → get t s.timers ≡ some timer
      → Step cfg s (on_timer cfg timer.req_id (record s { timers = remove t s.timers })).1
  aborts :
      (req_id : ℕ) (notify_device : Bool) (s : Reassembler)
      → Step cfg s (abort req_id notify_device s).1
  cancels :
      (f : ℕ) (s : Reassembler) → Step cfg s (record s { futures = put f cancelled s.futures })

pub data Reach (cfg : ProtocolCfg) : Reassembler → Type 0 where
  fresh : Reach cfg init
  next : {s t : Reassembler} → Reach cfg s → Step cfg s t → Reach cfg t

module _ (cfg : ProtocolCfg) where
  AllCounted-put :
      (r : ℕ) (b : ReqBuf) (reqs : Dict ℕ ReqBuf)
      → IsCounted cfg b
      → AllCounted cfg reqs
      → AllCounted cfg (put r b reqs)
  AllCounted-put r b reqs c all j d h = elim (Bool-cases (nat_eqb r j)) [
    | inl same ↦ subst (IsCounted cfg) (ground (arith, get-put r j b reqs)) c
    | inr other ↦ all j d (ground (arith, get-put r j b reqs))
  ]

  AllCounted-remove :
      (r : ℕ) (reqs : Dict ℕ ReqBuf) → AllCounted cfg reqs → AllCounted cfg (remove r reqs)
  AllCounted-remove r reqs all j d h = all j d (ground (arith, get-remove r j reqs))

  new_buf-IsCounted : (node_id f : ℕ) → IsCounted cfg (new_buf node_id f)
  new_buf-IsCounted node_id f = record {
    distinct = tt;
    accounted = omega arith;
    bounded = omega arith;
  }

  received-IsCounted :
      (b : ReqBuf) (f : Fragment) (addr : Addr) (datagram_len now : ℕ)
      → IsCounted cfg b
      → IsCounted cfg (received b f addr datagram_len now)
  received-IsCounted b f addr datagram_len now c = record {
    distinct = put-Distinct f.idx f.chunk b.chunks c.distinct;
    accounted = ground (arith, length-put f.idx f.chunk b.chunks, c.accounted);
    bounded = c.bounded;
  }

  arm_timer-AllCounted :
      (r : ℕ) (b : ReqBuf) (s : Reassembler)
      → IsCounted cfg b
      → AllCounted cfg s.reqs
      → AllCounted cfg (arm_timer cfg r b s).1.reqs
  unfolding arm_timer
  arm_timer-AllCounted r b s c all =
      let s' = cancel_timer b.timer s in
      AllCounted-put r (record b { timer = some s'.next_timer }) s'.reqs
        (record { distinct = c.distinct; accounted = c.accounted; bounded = c.bounded })
        (rw (reqs-cancel_timer b.timer s) all)

reqs-settle : (f : ℕ) (o : Future) (s : Reassembler) → (settle f o s).1.reqs ≡ s.reqs
unfolding settle
reqs-settle f o s = ground arith

reqs-complete :
    (r : ℕ) (b : ReqBuf) (n : ℕ) (s : Reassembler) → (complete r b n s).1.reqs ≡ remove r s.reqs
unfolding complete
reqs-complete r b n s =
    let s' = cancel_timer b.timer s in
    let popped : Reassembler = record s' { reqs = remove r s'.reqs } in
    let same = ap (remove r) (reqs-cancel_timer b.timer s) in
    continue_post (λ t. t.reqs ≡ remove r s.reqs) (outcome b n) (settle b.future) popped same
      (λ o _. reqs-settle b.future o popped ∙ same)

reqs-notify :
    (b : Bool) (a : Option Addr) (d : Result Bytes) (s : Reassembler)
    → (notify b a d s).1.reqs ≡ s.reqs
unfolding notify send
reqs-notify true (some a) (ok d) s = refl
reqs-notify true (some a) (err e) s = refl
reqs-notify true none d s = refl
reqs-notify false a d s = refl

reqs-fail_unless_done : (b : ReqBuf) (s : Reassembler) → (fail_unless_done b s).1.reqs ≡ s.reqs
unfolding fail_unless_done settle
reqs-fail_unless_done b s = ground arith

reqs-abort_buf :
    (r : ℕ) (n : Bool) (b : ReqBuf) (s : Reassembler) → (abort_buf r n b s).1.reqs ≡ remove r s.reqs
unfolding abort_buf
reqs-abort_buf r n b s =
    let popped : Reassembler = cancel_timer b.timer (record s { reqs = remove r s.reqs }) in
    let told = notify n b.addr (pack Kind.abort b.node_id r []) popped in
    let same =
      reqs-notify n b.addr (pack Kind.abort b.node_id r []) popped
      ∙ reqs-cancel_timer b.timer (record s { reqs = remove r s.reqs }) in
    continue_post (λ t. t.reqs ≡ remove r s.reqs) told.0 (λ _. fail_unless_done b) told.1 same
      (λ _ _. reqs-fail_unless_done b told.1 ∙ same)

module _ (cfg : ProtocolCfg) where
  abbrev P : Reassembler → Type 0
  P s = AllCounted cfg s.reqs

  abort-AllCounted : (r : ℕ) (n : Bool) (s : Reassembler) → P s → P (abort r n s).1
  unfolding abort
  abort-AllCounted r n s all = elim (Option-cases (get r s.reqs)) [
    | inl e ↦ rw (e, abort) all
    | inr (b, e) ↦ rw (e, abort, reqs-abort_buf r n b s) (AllCounted-remove cfg r s.reqs all)
  ]

  send_nack-AllCounted :
      (r : ℕ) (b : ReqBuf) (n : ℕ) (s : Reassembler)
      → b.nack_rounds < cfg.max_nack_rounds
      → IsCounted cfg b
      → P s
      → P (send_nack cfg r b n s).1
  unfolding send_nack
  send_nack-AllCounted r b n s left c all =
      continue_post P (pack_nack b.node_id r (missing n b.chunks) n) _ s all λ nack _.
        let b' : ReqBuf = record b {
          bytes_on_air = b.bytes_on_air + length nack;
          nack_rounds = suc b.nack_rounds;
        } in
        let c' : IsCounted cfg b' = record {
          distinct = c.distinct;
          accounted = c.accounted;
          bounded = left;
        } in
        let stored : Reassembler = record s { reqs = put r b' s.reqs } in
        let told = notify true b.addr (ok nack) stored in
        let held : P told.1 =
          rw (reqs-notify true b.addr (ok nack) stored) (AllCounted-put cfg r b' s.reqs c' all) in
        continue_post P told.0 (λ _. arm_timer cfg r b') told.1 held
          (λ _ _. arm_timer-AllCounted cfg r b' told.1 c' held)

  on_timer-AllCounted : (r : ℕ) (s : Reassembler) → P s → P (on_timer cfg r s).1
  unfolding on_timer
  on_timer-AllCounted r s all = elim (Option-cases (get r s.reqs)) [
    | inl e ↦ rw (e, on_timer) all
    | inr (b, e) ↦
        rw (e, on_timer)
          (elim (Bool-cases (is_done (get b.future s.futures))) [
            | inl done ↦ rw done all
            | inr waits ↦ rw waits (elim (Bool-cases (leb cfg.max_nack_rounds b.nack_rounds)) [
              | inl over ↦ rw over (abort-AllCounted r true s all)
              | inr left ↦ rw left (nack_or_raise b b.total s e left all)
            ])
          ])
  ]
    where
      nack_or_raise :
          (b : ReqBuf) (o : Option ℕ) (s : Reassembler)
          → get r s.reqs ≡ some b
          → leb cfg.max_nack_rounds b.nack_rounds ≡ false
          → P s
          → P
              (elim o as (λ _. Result (Unit {0}) × Reassembler) [
                | none ↦ (err type_error, s)
                | some n ↦ send_nack cfg r b n s
              ]).1
      nack_or_raise b none s e left all = all
      nack_or_raise b (some n) s e left all =
          send_nack-AllCounted r b n s (ground arith) (all r b e) all

  accept-AllCounted :
      (pkt : Packet) (b : ReqBuf) (addr : Addr) (datagram_len now : ℕ) (s : Reassembler)
      → IsCounted cfg b
      → P s
      → P (accept cfg pkt b addr datagram_len now s).1
  unfolding accept
  accept-AllCounted pkt b addr datagram_len now s c all =
      continue_post P (parse_frag pkt.payload) _ s all λ f _.
        let b' : ReqBuf = received b f addr datagram_len now in
        let c' = received-IsCounted cfg b f addr datagram_len now c in
        let stored : Reassembler = record s { reqs = put pkt.req_id b' s.reqs } in
        let held = AllCounted-put cfg pkt.req_id b' s.reqs c' all in
        elim (Bool-cases (nat_eqb (length b'.chunks) f.total)) [
          | inl full ↦
              rw (full, reqs-complete pkt.req_id b' f.total stored)
                (AllCounted-remove cfg pkt.req_id stored.reqs held)
          | inr more ↦ rw more (arm_timer-AllCounted cfg pkt.req_id b' stored c' held)
        ]

  on_frag-AllCounted :
      (pkt : Packet) (addr : Addr) (datagram_len now : ℕ) (s : Reassembler)
      → P s
      → P (on_frag cfg pkt addr datagram_len now s).1
  unfolding on_frag
  on_frag-AllCounted pkt addr datagram_len now s all = elim (Option-cases (get pkt.req_id s.reqs)) [
    | inl e ↦ rw (e, on_frag) all
    | inr (b, e) ↦
        rw (e, on_frag)
          (elim (Bool-cases (nat_eqb pkt.node_id b.node_id)) [
            | inl own ↦
                rw own (accept-AllCounted pkt b addr datagram_len now s (all pkt.req_id b e) all)
            | inr other ↦ rw other all
          ])
  ]

  Step-AllCounted : {s t : Reassembler} → Step cfg s t → P s → P t
  unfolding start
  Step-AllCounted (starts node_id req_id s) all =
      AllCounted-put cfg req_id _ s.reqs (new_buf-IsCounted cfg node_id s.next_future) all
  Step-AllCounted (receives pkt addr datagram_len now s) all =
      on_frag-AllCounted pkt addr datagram_len now s all
  Step-AllCounted (fires t timer s h) all = on_timer-AllCounted timer.req_id _ all
  Step-AllCounted (aborts req_id n s) all = abort-AllCounted req_id n s all
  Step-AllCounted (cancels f s) all = all

  -- After any starts, fragments, timers, aborts and cancellations, every open request holds its
  -- fragments under distinct indices, has received as many fragments as are stored or counted as
  -- retransmissions, and is within its NACK rounds.
  pub Reach-AllCounted : {s : Reassembler} → Reach cfg s → AllCounted cfg s.reqs
  unfolding get
  Reach-AllCounted fresh = λ r b h. cc
  Reach-AllCounted (next r st) = Step-AllCounted st (Reach-AllCounted r)
