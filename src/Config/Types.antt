-- ===== src/Config/Types.antt =====
-- The sections of the configuration, orchestrator/config.py. The two `float` fields are held in
-- thousandths; the other numbers are not negative but the signal strengths.
use split_inference.Base.{ℕ, String, Bool, Option, List, nat_eq, string_eq, pair_eq}
use split_inference.Base.Int.{ℤ}
use split_inference.Base.Dict.{Dict}

pub record Ports : Type 0 where
  pub control : ℕ
  pub data_port : ℕ

pub record NetworkCfg : Type 0 where
  pub ssid : String
  pub wpa2_psk : String
  pub subnet : String
  pub server_ip : String
  pub wifi_channel : ℕ
  pub ap_interface : String
  pub ports : Ports
  pub fragment_payload_bytes : ℕ

pub record ModelCfg : Type 0 where
  pub input_size : ℕ
  pub width_multiplier : ℕ
  pub num_classes : ℕ
  pub jpeg_quality : ℕ
  pub calibration_images : ℕ
  pub int8_accuracy_gate : ℕ
  pub flash_image_count : ℕ
  pub artifacts_dir : String

pub record CutCfg : Type 0 where
  pub name : String
  pub boundary_op : Option ℕ
  pub tensor_name : Option String

pub record NodeCfg : Type 0 where
  pub node_id : ℕ
  pub tier : String
  pub ip : String
  pub mac : String

pub record TierCfg : Type 0 where
  pub target : String
  pub psram : Bool
  pub arena_kb : ℕ
  pub cuts : List String

pub record ProtocolCfg : Type 0 where
  pub assign_ack_timeout_ms : ℕ
  pub assign_max_retries : ℕ
  pub nack_delay_ms : ℕ
  pub max_nack_rounds : ℕ
  pub t_max_ms : ℕ

pub record RegistryCfg : Type 0 where
  pub heartbeat_period_s : ℕ
  pub lost_after_s : ℕ

pub record ExperimentCfg : Type 0 where
  pub sweep_reqs_per_cut : ℕ
  pub min_ok_per_node : ℕ
  pub node_inflight_cap : ℕ
  pub request_gap_ms : ℕ

pub record LoggingCfg : Type 0 where
  pub db_dir : String

pub record SimCfg : Type 0 where
  pub goodput_bytes_per_s : Dict String ℕ
  pub rssi_dbm : Dict String ℤ
  pub capture_ms : ℕ
  pub jpeg_read_ms : ℕ
  pub t_edge_ms : Dict String (Dict String ℕ)

pub record ProjectCfg : Type 0 where
  pub name : String
  pub phase : ℕ

pub record Config : Type 0 where
  pub project : ProjectCfg
  pub network : NetworkCfg
  pub model : ModelCfg
  pub cuts : List CutCfg
  pub nodes : List NodeCfg
  pub tiers : Dict String TierCfg
  pub protocol : ProtocolCfg
  pub registry : RegistryCfg
  pub experiment : ExperimentCfg
  pub logging : LoggingCfg
  pub sim : SimCfg
