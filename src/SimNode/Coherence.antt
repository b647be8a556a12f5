-- ===== src/SimNode/Coherence.antt =====
-- The busy flag, the current request and the running task of a `SimNode` agree, scripts/sim_node.py.
use split_inference.Base.{
  ℕ, ◌≡◌, refl, Bool, true, false, not, ◌&&◌, Option, none, some, [], ◌∷◌, ◌++◌, if◌then◌else◌,
  ◌==◌, nat_eq, string_eq, pair_eq, value_error, struct_error, key_error, index_error,
  stop_iteration, assertion_error, invalid_state, type_error, not_implemented, zero_division,
  Result, ok, err,
}
use split_inference.Base.Exec.{Exec, ◌>>=◌, ◌>>◌, lift, modify, continue_post}
use split_inference.Base.Dict.{get}
use split_inference.Wire.Kind
use split_inference.Wire.Heartbeat.{pack_heartbeat}
use split_inference.Base.Int.{ℤ}
use split_inference.Wire.Struct.{Bytes, unpack_from}
use split_inference.Wire.Packet.{Packet, pack, unpack, assign_s}
use split_inference.Wire.Nack.{parse_nack}
use split_inference.Config.Types.{Config}
use split_inference.SimNode.Node.{
  Serve, Sim, idle, is_current, ack, begin_serve, cancel_serve, first_field, on_assign, on_ctrl,
  spawn_retransmit, on_data, send_frag, resume, retransmit_one, send_heartbeat, heartbeat_of,
  pass_value_error, datagram_received,
}
use split_inference.SimNode.Serving.{
  IsCoherent, idle_node, outside, begin_serve-IsCoherent, cancel_serve-IsCoherent,
  send_frag-IsCoherent, resume-IsCoherent,
}

ack-IsCoherent : (nid req_id : ℕ) (s : Sim) → IsCoherent s → IsCoherent (ack nid req_id s).1
unfolding ack
ack-IsCoherent nid req_id s c =
    continue_post IsCoherent (pack Kind.assign_ack nid req_id [])
      (λ d. modify (λ s. record s { ctrl = s.ctrl ++ d ∷ [] })) s c
      (λ d _. outside s s.result_evt s.frags s.retransmits (s.ctrl ++ d ∷ []) s.data_sent c)

on_assign-IsCoherent :
    (cfg : Config) (nid : ℕ) (pkt : Packet) (s : Sim)
    → IsCoherent s
    → IsCoherent (on_assign cfg nid pkt s).1
unfolding on_assign
on_assign-IsCoherent cfg nid pkt s c = split s.busy (is_current pkt.req_id s)
  where
    split :
        (b b' : Bool)
        → IsCoherent
            (if b
              then (if b' then ack nid pkt.req_id s else (ok tt, s))
              else (ack nid pkt.req_id >> lift (unpack_from assign_s pkt.payload) >>= λ values.
                    modify (begin_serve cfg pkt.req_id (first_field values)))
                  s).1
    split true true = ack-IsCoherent nid pkt.req_id s c
    split true false = c
    split false b' =
        let m = ack nid pkt.req_id >> lift (unpack_from assign_s pkt.payload) in
        let acked = ack-IsCoherent nid pkt.req_id s c in
        continue_post IsCoherent (m s).0
          (λ values. modify (begin_serve cfg pkt.req_id (first_field values))) (m s).1
          (continue_post IsCoherent (ack nid pkt.req_id s).0
            (λ _. lift (unpack_from assign_s pkt.payload)) (ack nid pkt.req_id s).1 acked
            (λ _ _. acked))
          (λ values _. begin_serve-IsCoherent (m s).1 cfg pkt.req_id (first_field values))

on_ctrl-IsCoherent :
    (cfg : Config) (nid : ℕ) (pkt : Packet) (s : Sim)
    → IsCoherent s
    → IsCoherent (on_ctrl cfg nid pkt s).1
unfolding on_ctrl
on_ctrl-IsCoherent cfg nid pkt s c =
    split (pkt.ptype == Kind.assign) ((pkt.ptype == Kind.result) && is_current pkt.req_id s)
      ((pkt.ptype == Kind.abort) && is_current pkt.req_id s)
  where
    split :
        (x y z : Bool)
        → IsCoherent
            (if x
              then on_assign cfg nid pkt s
              else if y
              then (ok tt, record s { result_evt = true })
              else if z
              then (ok tt, cancel_serve s)
              else (ok tt, s)).1
    split true y z = on_assign-IsCoherent cfg nid pkt s c
    split false true z = outside s true s.frags s.retransmits s.ctrl s.data_sent c
    split false false true = cancel_serve-IsCoherent s c
    split false false false = c

on_data-IsCoherent : (pkt : Packet) (s : Sim) → IsCoherent s → IsCoherent (on_data pkt s).1
unfolding on_data spawn_retransmit
on_data-IsCoherent pkt s c =
    split (not (is_current pkt.req_id s)) (pkt.ptype == Kind.nack) (pkt.ptype == Kind.abort)
  where
    split :
        (x y z : Bool)
        → IsCoherent
            (if x
              then (ok tt, s)
              else if y
              then (lift (parse_nack pkt.payload) >>= λ missing. modify (spawn_retransmit missing))
                  s
              else if z
              then (ok tt, cancel_serve s)
              else (ok tt, s)).1
    split true y z = c
    split false true z =
        continue_post IsCoherent (parse_nack pkt.payload)
          (λ missing. modify (spawn_retransmit missing)) s c
          (λ missing _.
            outside s s.result_evt s.frags (s.retransmits ++ missing ∷ []) s.ctrl s.data_sent c)
    split false false true = cancel_serve-IsCoherent s c
    split false false false = c

datagram_received-IsCoherent :
    (handler : Packet → Exec Sim Unit)
    → ((pkt : Packet) (s : Sim) → IsCoherent s → IsCoherent (handler pkt s).1)
    → (datagram : Bytes) (s : Sim) → IsCoherent s
    → IsCoherent (datagram_received handler datagram s).1
unfolding datagram_received
datagram_received-IsCoherent handler h datagram s c =
    passed _ (continue_post IsCoherent (unpack datagram) handler s c (λ pkt _. h pkt s c))
  where
    passed : (m : Result (Unit {0}) × Sim) → IsCoherent m.1 → IsCoherent (pass_value_error m).1
    passed (ok _, u) c = c
    passed (err value_error, u) c = c
    passed (err struct_error, u) c = c
    passed (err key_error, u) c = c
    passed (err index_error, u) c = c
    passed (err stop_iteration, u) c = c
    passed (err assertion_error, u) c = c
    passed (err invalid_state, u) c = c
    passed (err type_error, u) c = c
    passed (err not_implemented, u) c = c
    passed (err zero_division, u) c = c

retransmit_one-IsCoherent :
    (lost : Bool) (i : ℕ) (s : Sim) → IsCoherent s → IsCoherent (retransmit_one lost i s)
unfolding retransmit_one
retransmit_one-IsCoherent lost i s c = split (get i s.frags) s.current_req
  where
    split :
        (o : Option Bytes) (r : Option ℕ)
        → IsCoherent
            (elim o [ none ↦ s | some d ↦ elim r [ none ↦ s | some r ↦ send_frag lost d s ] ])
    split none r = c
    split (some d) none = c
    split (some d) (some r) = send_frag-IsCoherent lost d s c

send_heartbeat-IsCoherent :
    (nid : ℕ) (rssi : ℤ) (s : Sim) → IsCoherent s → IsCoherent (send_heartbeat nid rssi s).1
unfolding send_heartbeat
send_heartbeat-IsCoherent nid rssi s c =
    continue_post IsCoherent (pack_heartbeat nid (heartbeat_of rssi s))
      (λ d. modify (λ s. record s { ctrl = s.ctrl ++ d ∷ [] })) s c
      (λ d _. outside s s.result_evt s.frags s.retransmits (s.ctrl ++ d ∷ []) s.data_sent c)

-- What happens to a node: a datagram at either socket, the end of an await of `_serve`, a heartbeat, and one
-- fragment of a retransmission. What they take from outside is arbitrary.
pub data Step (cfg : Config) (nid : ℕ) (s : Sim) : Sim → Type 0 where
  controlled :
      (datagram : Bytes) → Step cfg nid s (datagram_received (on_ctrl cfg nid) datagram s).1
  informed : (datagram : Bytes) → Step cfg nid s (datagram_received on_data datagram s).1
  resumed :
      (payload : Bytes) (cap_us edge_us : ℕ) (lost : Bool) (t : Serve)
      → s.serve_task ≡ some t
      → Step cfg nid s (resume cfg nid payload cap_us edge_us lost t s)
  beaten : (rssi : ℤ) → Step cfg nid s (send_heartbeat nid rssi s).1
  retransmitted : (lost : Bool) (i : ℕ) → Step cfg nid s (retransmit_one lost i s)

pub data Reach (cfg : Config) (nid : ℕ) : Sim → Type 0 where
  booted : Reach cfg nid idle
  next : {s s' : Sim} → Reach cfg nid s → Step cfg nid s s' → Reach cfg nid s'

-- Whatever datagrams reach a simulated node and however its awaits end, it is busy exactly when a
-- `_serve` runs, and its current request is the one that the task serves.
pub Reach-IsCoherent : (cfg : Config) (nid : ℕ) (s : Sim) → Reach cfg nid s → IsCoherent s
Reach-IsCoherent cfg nid s booted = idle_node refl refl refl
Reach-IsCoherent cfg nid s (next {s = u} r (controlled d)) =
    datagram_received-IsCoherent (on_ctrl cfg nid) (on_ctrl-IsCoherent cfg nid) d u
      (Reach-IsCoherent cfg nid u r)
Reach-IsCoherent cfg nid s (next {s = u} r (informed d)) =
    datagram_received-IsCoherent on_data on_data-IsCoherent d u (Reach-IsCoherent cfg nid u r)
Reach-IsCoherent cfg nid s (next {s = u} r (resumed payload cap_us edge_us lost t h)) =
    resume-IsCoherent cfg nid payload cap_us edge_us lost t u h (Reach-IsCoherent cfg nid u r)
Reach-IsCoherent cfg nid s (next {s = u} r (retransmitted lost i)) =
    retransmit_one-IsCoherent lost i u (Reach-IsCoherent cfg nid u r)
Reach-IsCoherent cfg nid s (next {s = u} r (beaten rssi)) =
    send_heartbeat-IsCoherent nid rssi u (Reach-IsCoherent cfg nid u r)
