-- ===== src/Reassembly/State.antt =====
-- The state of a `Reassembler`, orchestrator/reassembly.py. Futures and timer handles are objects
-- that others share, so each has an identity: `futures` and `timers` are asyncio's side of them.
use split_inference.Base.{
  ℕ, String, Bool, true, false, Option, none, some, List, [], ◌∷◌, ◌++◌, if◌then◌else◌, nat_eq,
  string_eq, pair_eq, invalid_state, ok, err,
}
use split_inference.Base.Exec.{Exec}
use split_inference.Base.Dict.{Dict, get, put, remove}
use split_inference.Wire.Struct.{Bytes}

abbrev pub Addr : Type 0
Addr = String × ℕ

pub data Status : Type 0 where
  timeout crc : Status

pub record Reassembled : Type 0 where
  pub body : Bytes
  pub t_capture_us : ℕ
  pub t_edge_us : ℕ
  pub t_first : Option ℕ
  pub t_last : Option ℕ
  pub n_frags : ℕ
  pub n_retx : ℕ
  pub bytes_on_air : ℕ

-- `timer` and `future` are handles into the reassembler's `timers` and `futures`.
pub record ReqBuf : Type 0 where
  pub node_id : ℕ
  pub addr : Option Addr
  pub chunks : Dict ℕ Bytes
  pub total : Option ℕ
  pub t_first : Option ℕ
  pub t_last : Option ℕ
  pub n_rx : ℕ
  pub n_retx : ℕ
  pub bytes_on_air : ℕ
  pub nack_rounds : ℕ
  pub timer : Option ℕ
  pub future : ℕ

-- An asyncio.Future: `failed` holds a `ReassemblyError` with its partial buffer.
pub data Future : Type 0 where
  pending : Future
  result : Reassembled → Future
  failed : Status → ReqBuf → Future
  cancelled : Future

-- A pending `call_later(delay, self._on_timer, req_id)`.
pub record Timer : Type 0 where
  pub delay_ms : ℕ
  pub req_id : ℕ

pub record Reassembler : Type 0 where
  pub reqs : Dict ℕ ReqBuf
  pub futures : Dict ℕ Future
  pub next_future : ℕ
  pub timers : Dict ℕ Timer
  pub next_timer : ℕ
  pub sent : List (Addr × Bytes)

abbrev pub init : Reassembler
init = record { reqs = []; futures = []; next_future = 0; timers = []; next_timer = 0; sent = [] }

-- timer.cancel()
unfoldable pub cancel_timer : Option ℕ → Reassembler → Reassembler
cancel_timer none s = s
cancel_timer (some t) s = record s { timers = remove t s.timers }

-- future.done()
abbrev pub is_done : Option Future → Bool
is_done (some pending) = false
is_done _ = true

-- future.set_result and future.set_exception raise InvalidStateError on a future that is done.
unfoldable pub settle : ℕ → Future → Exec Reassembler Unit
settle f outcome s =
    if is_done (get f s.futures)
    then (err invalid_state, s)
    else (ok tt, record s { futures = put f outcome s.futures })

-- self.send(addr, datagram)
unfoldable pub send : Addr → Bytes → Exec Reassembler Unit
send addr datagram s = (ok tt, record s { sent = s.sent ++ (addr, datagram) ∷ [] })
