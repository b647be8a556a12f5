-- ===== src/Header/Defines.antt =====
-- The lines of scripts/gen_config_header.py as values; the text around them is left out.
use split_inference.Base.{
  ℕ, suc, ◌*◌, ◌≤◌, max, String, ◌≡◌, none, some, List, [], ◌∷◌, ◌++◌, nat_eq, string_eq, pair_eq,
  stop_iteration, Result, ok, or_raise, ◌>>=◌, length, All,
}
use split_inference.Base.Dict.{Dict, get}
use split_inference.Config.Types.{Config, CutCfg}

-- #define lines: a constant of the configuration, the number of a cut under its name in capitals,
-- and the size of the tensor of a numbered cut.
pub data Define : Type 0 where
  text : String → String → Define
  number : String → ℕ → Define
  cut_number : String → ℕ → Define
  tensor_bytes : ℕ → ℕ → Define

-- The sizes in cuts.json, by the name of the cut.
abbrev pub Sizes : Type 0
Sizes = Dict String ℕ

unfoldable pub fixed_defines : Config → List Define
fixed_defines cfg =
    text "FLEET_SSID" cfg.network.ssid
    ∷ text "FLEET_PSK" cfg.network.wpa2_psk
    ∷ text "FLEET_SERVER_IP" cfg.network.server_ip
    ∷ number "FLEET_PORT_CTRL" cfg.network.ports.control
    ∷ number "FLEET_PORT_DATA" cfg.network.ports.data_port
    ∷ number "FLEET_FRAG_PAYLOAD" cfg.network.fragment_payload_bytes
    ∷ number "FLEET_HEARTBEAT_MS" (cfg.registry.heartbeat_period_s * 1000)
    ∷ number "FLEET_JPEG_QUALITY" cfg.model.jpeg_quality
    ∷ number "FLEET_INPUT_SIZE" cfg.model.input_size
    ∷ number "FLEET_INPUT_BYTES" (cfg.model.input_size * cfg.model.input_size * 3)
    ∷ number "FLEET_FLASH_IMAGES" cfg.model.flash_image_count
    ∷ number "FLEET_N_CUTS" (length cfg.cuts)
    ∷ []

-- The loop over the cuts from number `i` on, with `max_tensor` so far.
unfoldable pub cut_defines : Sizes → ℕ → List CutCfg → ℕ → Result (List Define × ℕ)
cut_defines sizes i [] max_tensor = ok ([], max_tensor)
cut_defines sizes i (c ∷ cs) max_tensor = elim c.boundary_op [
  | none ↦
      cut_defines sizes (suc i) cs max_tensor >>= λ rest. ok (cut_number c.name i ∷ rest.0, rest.1)
  | some op ↦ or_raise stop_iteration (get c.name sizes) >>= λ bytes.
      cut_defines sizes (suc i) cs (max max_tensor bytes) >>= λ rest.
      ok (cut_number c.name i ∷ tensor_bytes i bytes ∷ rest.0, rest.1)
]

unfoldable pub header : Config → Sizes → Result (List Define)
header cfg sizes = cut_defines sizes 0 cfg.cuts 0 >>= λ cuts. ok (
    fixed_defines cfg
    ++ cuts.0
    ++ number "FLEET_MAX_TENSOR_BYTES" cuts.1 ∷ number "FLEET_T_MAX_MS" cfg.protocol.t_max_ms ∷ [])

-- The sizes among some lines.
abbrev pub sizes_of : List Define → List ℕ
sizes_of [] = []
sizes_of (tensor_bytes i v ∷ ds) = v ∷ sizes_of ds
sizes_of (text k v ∷ ds) = sizes_of ds
sizes_of (number k v ∷ ds) = sizes_of ds
sizes_of (cut_number k v ∷ ds) = sizes_of ds

-- The largest of some numbers and a first one.
abbrev pub largest : ℕ → List ℕ → ℕ
largest m [] = m
largest m (v ∷ vs) = largest (max m v) vs

-- What the firmware can rely on: no tensor size in the header is above its FLEET_MAX_TENSOR_BYTES,
-- which is the largest of them.
pub record IsHeader (cfg : Config) (ds : List Define) : Type 0 where
  pub cuts : List Define
  pub max_tensor : ℕ
  pub shape :
      ds
      ≡ fixed_defines cfg
        ++ cuts
        ++ number "FLEET_MAX_TENSOR_BYTES" max_tensor
          ∷ number "FLEET_T_MAX_MS" cfg.protocol.t_max_ms
          ∷ []
  pub tight : max_tensor ≡ largest 0 (sizes_of cuts)
  pub enough : All (λ v. v ≤ max_tensor) (sizes_of cuts)
