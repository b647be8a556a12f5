-- ===== src/Examples/Setup.antt =====
-- A small configuration in the form of config.yaml.
use split_inference.Base.{false, none, some, [], ◌∷◌, nat_eq, string_eq, pair_eq}
use split_inference.Base.Int.{pos, negsuc}
use split_inference.Wire.Heartbeat.{Heartbeat}
use split_inference.Config.Types.{Config, ProtocolCfg}
use split_inference.Reassembly.State.{Addr}
use split_inference.Registry.Table.{NodeState, Nodes, unseen}

abbrev pub protocol_cfg : ProtocolCfg
protocol_cfg = record {
  assign_ack_timeout_ms = 200;
  assign_max_retries = 3;
  nack_delay_ms = 40;
  max_nack_rounds = 2;
  t_max_ms = 2000;
}

abbrev pub cfg : Config
cfg = record {
  project = record { name = "fleetsplit"; phase = 1 };
  network = record {
    ssid = "fleet";
    wpa2_psk = "secret";
    subnet = "10.0.0.0/24";
    server_ip = "10.0.0.1";
    wifi_channel = 6;
    ap_interface = "wlan0";
    ports = record { control = 5001; data_port = 5002 };
    fragment_payload_bytes = 20;
  };
  model = record {
    input_size = 96;
    width_multiplier = 350;
    num_classes = 10;
    jpeg_quality = 85;
    calibration_images = 200;
    int8_accuracy_gate = 800;
    flash_image_count = 16;
    artifacts_dir = "model/artifacts";
  };
  cuts =
      record { name = "k0"; boundary_op = none; tensor_name = none }
      ∷ record { name = "k_shallow"; boundary_op = some 3; tensor_name = none }
      ∷ record { name = "k_deep"; boundary_op = some 9; tensor_name = none }
      ∷ [];
  nodes = record { node_id = 11; tier = "A"; ip = "10.0.0.11"; mac = "" } ∷ [];
  tiers =
      (
        "A",
        record { target = "esp32"; psram = false; arena_kb = 100; cuts = "k0" ∷ "k_shallow" ∷ [] },
      )
      ∷ [];
  protocol = protocol_cfg;
  registry = record { heartbeat_period_s = 1; lost_after_s = 3 };
  experiment = record {
    sweep_reqs_per_cut = 2;
    min_ok_per_node = 3;
    node_inflight_cap = 1;
    request_gap_ms = 50;
  };
  logging = record { db_dir = "runs" };
  sim = record {
    goodput_bytes_per_s = [];
    rssi_dbm = [];
    capture_ms = 30;
    jpeg_read_ms = 5;
    t_edge_ms = [];
  };
}

abbrev pub address : Addr
address = ("10.0.0.11", 40000)

abbrev pub heartbeat : Heartbeat
heartbeat = record {
  rssi = negsuc 49;
  free_heap = 150000;
  temp = pos 30;
  fw_hash = 0x51D0DE;
  busy = 0;
  boot_count = 3;
}

abbrev pub node11 : NodeState
node11 = unseen 11 "A"

abbrev pub nodes : Nodes
nodes = (11, node11) ∷ []
