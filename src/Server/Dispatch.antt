-- ===== src/Server/Dispatch.antt =====
-- `_Proto.datagram_received` and `FleetServer._on_data`, orchestrator/server.py.
use split_inference.Base.{
  ℕ, Bool, true, ◌&&◌, if◌then◌else◌, ◌==◌, nat_eq, string_eq, pair_eq, value_error, Result, ok,
  err, length,
}
use split_inference.Base.Exec.{Exec, ◌>>=◌, lift, pure}
use split_inference.Wire.Kind
use split_inference.Wire.Struct.{Bytes}
use split_inference.Wire.Packet.{Packet, unpack}
use split_inference.Config.Types.{ProtocolCfg}
use split_inference.Reassembly.State.{Addr, Reassembler}
use split_inference.Reassembly.Receive.{on_frag}

-- except ValueError: print(…)
abbrev pub drop_value_error : {S : Type 0} → Result (Unit {0}) × S → Result (Unit {0}) × S
drop_value_error (err value_error, s) = (ok tt, s)
drop_value_error (r, s) = (r, s)

-- self.handler(P.unpack(data), addr, len(data))
unfoldable pub datagram_received :
    {S : Type 0} → (Packet → Addr → ℕ → Exec S Unit) → Bytes → Addr → Exec S Unit
datagram_received handler datagram addr s =
    drop_value_error ((lift (unpack datagram) >>= λ pkt. handler pkt addr (length datagram)) s)

-- Before `wired`, the server has no reassembler and drops fragments.
unfoldable pub on_data : ProtocolCfg → Bool → ℕ → Packet → Addr → ℕ → Exec Reassembler Unit
on_data cfg wired now pkt addr datagram_len =
    if (pkt.ptype == Kind.data_frag) && wired
    then on_frag cfg pkt addr datagram_len now
    else pure tt

-- A datagram that arrives at the data port of a running server at the time `now`.
unfoldable pub arrive : ProtocolCfg → ℕ → Bytes → Addr → Exec Reassembler Unit
arrive cfg now datagram addr = datagram_received (on_data cfg true now) datagram addr
