-- ===== src/Examples/NodeRuns.antt =====
-- The theorems on scripts/sim_node.py after an ASSIGN and after a NACK.
use split_inference.Base.{
  true, false, ok, inl, inr, ◌⊎◌, ◌<◌, ℕ, zero, suc, elem, replicate, arith, ◌≡◌, refl, some, List,
  [], ◌∷◌, nat_eqb, nat_eq, string_eq, pair_eq,
}
use split_inference.Wire.Struct.{Bytes}
use split_inference.SimNode.Node.{
  Sim, idle, capturing, datagrams_of, datagram_received, on_ctrl, enumerate, retransmit,
}
use split_inference.SimNode.Resend.{Holds, retransmit-pick}
use split_inference.SimNode.Serving.{IsCoherent}
use split_inference.SimNode.Coherence.{Reach, booted, next, controlled, Reach-IsCoherent}
use split_inference.Base.Dict.{get}
use split_inference.Wire.Struct.{pack_fields}
use split_inference.Wire.Packet.{pack}
use split_inference.Wire.Crc.{crc32}
use split_inference.Wire.Fragment.{fragment_tensor, slices, pack_frags, pack_frag}
use split_inference.Reassembly.State.{Reassembled, result, init}
use split_inference.Reassembly.Receive.{start}
use split_inference.SimNode.Stream.{task, serve_all}
use split_inference.SimNode.Delivered.{deliver, serve_delivers}
use split_inference.Examples.Setup.{cfg, address}

abbrev assign : Bytes
assign = 245 ∷ 2 ∷ 11 ∷ 0 ∷ 7 ∷ 0 ∷ 0 ∷ 0 ∷ 1 ∷ []

abbrev assigned : Sim
assigned = (datagram_received (on_ctrl cfg 11) assign idle).1

assigned-Reach : Reach cfg 11 assigned
assigned-Reach = next booted (controlled assign)

Reach-IsCoherent_example : IsCoherent assigned
Reach-IsCoherent_example = Reach-IsCoherent cfg 11 assigned assigned-Reach

abbrev datagrams : List Bytes
datagrams = (1 ∷ []) ∷ (2 ∷ []) ∷ (3 ∷ []) ∷ []

abbrev sent_all : Sim
sent_all = record idle { current_req = some 7; frags = enumerate 0 datagrams }

sent_all-Holds : Holds datagrams sent_all
sent_all-Holds = record { frags = refl; req_id = 7; current = refl }

-- The NACK asks for 0, 2 and an index that there is not; 2 is lost again.
retransmit-pick_example :
    (retransmit (λ i. nat_eqb i 2) (0 ∷ 2 ∷ 9 ∷ []) sent_all).data_sent ≡ (1 ∷ []) ∷ []
retransmit-pick_example =
    retransmit-pick datagrams (λ i. nat_eqb i 2) (0 ∷ 2 ∷ 9 ∷ []) sent_all sent_all-Holds

-- A tensor of 22 bytes goes in two fragments.
abbrev tensor_datagrams : List Bytes
tensor_datagrams =
    (245 ∷ 4 ∷ 11 ∷ 0 ∷ 7 ∷ 0 ∷ 0 ∷ 0 ∷ 0 ∷ 0 ∷ 2 ∷ 0 ∷ 1 ∷ 1 ∷ 1 ∷ 1 ∷ 1 ∷ 1 ∷ 1 ∷ 1 ∷ 1 ∷ 1 ∷ 1
      ∷ 1 ∷ 1 ∷ 1 ∷ 1 ∷ 1 ∷ 1 ∷ 1 ∷ 1 ∷ 1 ∷ [])
    ∷ (245 ∷ 4 ∷ 11 ∷ 0 ∷ 7 ∷ 0 ∷ 0 ∷ 0 ∷ 1 ∷ 0 ∷ 2 ∷ 0 ∷ 1 ∷ 1 ∷ 224 ∷ 243 ∷ 177 ∷ 68 ∷ 128 ∷ 56
        ∷ 1 ∷ 0 ∷ 32 ∷ 78 ∷ 0 ∷ 0 ∷ [])
    ∷ []

cut_in_two : datagrams_of cfg 11 7 (replicate 22 1) 80000 20000 ≡ ok tensor_datagrams
unfolding datagrams_of pack_fields crc32 fragment_tensor slices pack_frags pack_frag pack
cut_in_two = refl

abbrev capturing_7 : Sim
capturing_7 = record idle {
  busy = true;
  current_req = some 7;
  serve_task = some (task 7 0 capturing);
}

-- The second fragment is lost, asked for and sent again.
each_arrives :
    (i : ℕ) → i < 2 → (nat_eqb i 1 ≡ false) ⊎ ((elem i (1 ∷ []) ≡ true) × (false ≡ false))
each_arrives zero h = inl refl
each_arrives (suc zero) h = inr (refl, refl)
each_arrives (suc (suc i)) h = absurd (omega arith)

serve_delivers_example :
    (r : Reassembled) × (get 0
        (deliver cfg.protocol address
          (λ k. k)
          0
          (retransmit
            (λ i. false)
            (1 ∷ [])
            (serve_all cfg 11 7 0
              (replicate 22 1)
              80000
              20000
              (λ i. nat_eqb i 1)
              tensor_datagrams
              capturing_7)).data_sent
          (start 11 7 init).1).futures
      ≡ some (result r))
    × (r.body ≡ replicate 22 1)
    × (r.t_capture_us ≡ 80000)
    × (r.t_edge_us ≡ 20000)
serve_delivers_example =
    serve_delivers cfg 11 7 0 (replicate 22 1) 80000 20000 tensor_datagrams capturing_7 init address
      (λ k. k) (λ i. nat_eqb i 1) (λ i. false) (1 ∷ []) refl refl cut_in_two each_arrives
      (omega arith)
