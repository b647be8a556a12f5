-- ===== src/Figures/Stages.antt =====
-- `ok_requests` of analysis/figures.py: how the latency of a request is divided into stages. Times
-- are whole microseconds, so the divisions and multiplications by 1000 disappear.
use split_inference.Base.{ℕ, ◌+◌, ◌-◌, ◌≤◌, ◌<◌, ◌≡◌, List, [], ◌∷◌, nat_eq, string_eq, pair_eq}
use split_inference.Base.Int.{ℤ, minus, positive, negative}

-- The columns of an OK row that it reads.
pub record OkRow : Type 0 where
  pub t_capture_us : ℕ
  pub t_edge_us : ℕ
  pub t_assign : ℕ
  pub t_last_frag : ℕ
  pub t_queue_in : ℕ
  pub t_queue_out : ℕ
  pub t_tail_us : ℕ
  pub t_total : ℕ

pub record Stages : Type 0 where
  pub device : ℕ
  pub uplink : ℕ
  pub queue : ℤ
  pub server : ℕ
  pub residual : ℕ

-- A clipped difference a - b - … is a truncated one: max(0, a - b).
unfoldable pub stages_of : OkRow → Stages
stages_of r =
    let device = r.t_capture_us + r.t_edge_us in
    let uplink = r.t_last_frag - (r.t_assign + device) in
    let queue = minus r.t_queue_out r.t_queue_in in
    record {
      device = device;
      uplink = uplink;
      queue = queue;
      server = r.t_tail_us;
      residual = (r.t_total + negative queue) - (device + uplink + positive queue + r.t_tail_us);
    }

unfoldable pub ok_requests : List OkRow → List Stages
ok_requests [] = []
ok_requests (r ∷ rs) = stages_of r ∷ ok_requests rs

-- The stages before the residual, and all of them; a queue time below zero counts on the other side.
abbrev pub measured : Stages → ℕ
measured s = s.device + s.uplink + positive s.queue + s.server

pub record IsDivided (r : OkRow) (s : Stages) : Type 0 where
  pub covers : r.t_total + negative s.queue ≤ measured s + s.residual
  pub exact :
      measured s ≤ r.t_total + negative s.queue
      → measured s + s.residual ≡ r.t_total + negative s.queue
  pub over : r.t_total + negative s.queue < measured s → s.residual ≡ 0
  pub received : r.t_last_frag ≤ r.t_assign + s.device + s.uplink
  pub queued : positive s.queue + r.t_queue_in ≡ negative s.queue + r.t_queue_out
