-- ===== src/Tests/Sim.antt =====
-- A platform to run the driver on: the clock stands still, every write has one and the same
-- result, and the bus answers from a script. A tag is its UID and a message is its bytes.
use esphome_pn.Driver.{
  NciState, DiscoveredEndpoint, State, Device, medium, ep_read, card_emu_idle, none_state,
  nfcc_reset,
}
use esphome_pn.Prelude.{
  List, ℕ, [], Bool, ◌∷◌, true, ◌+◌, suc, length, false, zero, ◌++◌, ◌/◌, ◌*◌, ◌%◌, if◌then◌else◌,
  ◌==◌, none,
}
use esphome_pn.Platform.{Nci, Platform}

abbrev pub nth : List ℕ → ℕ → ℕ
nth [] i = 0
nth (x ∷ xs) zero = x
nth (x ∷ xs) (suc i) = nth xs i

abbrev nci_values : Nci
nci_values = record {
  status_ok = 0;
  status_failed = 3;
  nci_pkt_mt_ctrl_command = 0x20;
  nci_pkt_mt_ctrl_response = 0x40;
  nci_pkt_mt_ctrl_notification = 0x60;
  nci_pkt_mt_data = 0;
  nci_pkt_header_size = 3;
  nci_pkt_payload_offset = 3;
  nci_proprietary_gid = 0x0F;
  nci_core_gid = 0;
  rf_gid = 1;
  nci_core_reset_oid = 0;
  nci_core_init_oid = 1;
  nci_core_set_config_oid = 2;
  nci_core_conn_credits_oid = 6;
  nci_core_generic_error_oid = 7;
  rf_discover_map_oid = 0;
  rf_set_listen_mode_routing_oid = 1;
  rf_discover_oid = 3;
  rf_discover_select_oid = 4;
  rf_intf_activated_oid = 5;
  rf_deactivate_oid = 6;
  discovery_already_started = 0xA0;
  discovery_target_activation_failed = 0xA1;
  discovery_tear_down = 0xA2;
  deactivation_type_idle = 0;
  deactivation_type_sleep = 1;
  deactivation_type_sleep_af = 2;
  deactivation_type_discovery = 3;
  rf_intf_activated_ntf_discovery_id = 3;
  rf_intf_activated_ntf_protocol = 5;
  rf_intf_activated_ntf_mode_tech = 6;
  rf_discover_ntf_discovery_id = 3;
  rf_discover_ntf_protocol = 4;
  rf_discover_ntf_mode_tech = 5;
  rf_discover_ntf_nt_more = 2;
  mode_poll = 0;
  mode_listen_mask = 0x80;
  tech_passive_nfca = 0;
  tech_passive_nfcb = 1;
  tech_passive_nfcf = 2;
  prot_t1t = 1;
  prot_t2t = 2;
  prot_t3t = 3;
  prot_isodep = 4;
  prot_mifare = 0x80;
  rf_discover_map_mode_poll = 1;
  rf_discover_map_mode_listen = 2;
  intf_frame = 1;
  intf_isodep = 2;
  intf_tagcmd = 0x80;
  tag_type_mifare_classic = 0;
  tag_type_2 = 2;
  mifare_cmd_read = 0x30;
  mifare_cmd_write = 0xA0;
  mifare_cmd_write_ultralight = 0xA2;
  mifare_cmd_auth_a = 0x60;
  mifare_cmd_auth_b = 0x61;
  mifare_cmd_halt = 0x50;
  mifare_cmd_ack = 0x0A;
  mifare_classic_block_size = 16;
  mifare_classic_blocks_per_sect_low = 4;
  mifare_classic_blocks_per_sect_high = 16;
  mifare_classic_16block_sect_start = 32;
  mifare_ultralight_page_size = 4;
  mifare_ultralight_read_size = 4;
  mifare_ultralight_data_start_page = 4;
  ndef_key = 0xD3 ∷ 0xF7 ∷ 0xD3 ∷ 0xF7 ∷ 0xD3 ∷ 0xF7 ∷ [];
  default_key = 0xFF ∷ 0xFF ∷ 0xFF ∷ 0xFF ∷ 0xFF ∷ 0xFF ∷ [];
  mifare_classic = 1 ∷ [];
  nfc_forum_type_2 = 2 ∷ [];
  tnf_external_type = 4;
  ha_tag_id_ext_record_type = [];
  ha_tag_id_ext_record_payload = [];
}

-- the answers of the bus, each with its status
abbrev pub Script : Type 0
Script = List (ℕ × List ℕ)

abbrev next_answer : List ℕ → Script → ℕ × List ℕ × Script
next_answer rx [] = (3, rx, [])
next_answer rx ((status, message) ∷ script) = (status, message, script)

-- the platform whose writes have the status `written` and whose clock shows `now`
abbrev pub sim_at : ℕ → ℕ → Platform
sim_at written now = record {
  nci = nci_values;
  new_message = [];
  ctrl_message = λ type gid oid payload. (type + gid) ∷ oid ∷ length payload ∷ payload;
  data_message = λ type payload. type ∷ 0 ∷ length payload ∷ payload;
  set_payload = λ payload message. message ++ payload;
  get_message_type = λ rx. nth rx 0 / 32 * 32;
  get_gid = λ rx. nth rx 0 % 16;
  get_oid = λ rx. nth rx 1 % 64;
  get_payload_size = λ rx. nth rx 2;
  get_simple_status_response = λ rx. nth rx 3;
  get_message_byte = nth;
  message_type_is = λ rx type. nth rx 0 / 32 * 32 == type;
  message_length_is = λ rx n. length rx == n + 3;
  gid_is = λ rx gid. nth rx 0 % 16 == gid;
  oid_is = λ rx oid. nth rx 1 % 64 == oid;
  simple_status_response_is = λ rx status. nth rx 3 == status;
  encode_message = λ rx. rx;
  NdefMessage = List ℕ;
  empty_ndef = [];
  decode_ndef = λ bytes. bytes;
  encode_ndef = λ message. message;
  add_uri_record = λ uri message. message ++ uri;
  add_record = λ tnf type payload message. message ++ payload;
  NfcTag = List ℕ;
  make_tag = λ uid type. uid;
  get_uid = λ tag. tag;
  get_tag_type = λ tag. [];
  set_ndef_message = λ message tag. tag;
  guess_tag_type = λ n. if n == 4 then 0 else 2;
  get_mifare_classic_buffer_size = λ n. n;
  get_mifare_ultralight_buffer_size = λ n. n;
  mifare_classic_is_first_block = λ n. n % 4 == 0;
  mifare_classic_is_trailer_block = λ n. n % 4 == 3;
  decode_mifare_classic_tlv = λ bytes. none;
  Env = Script;
  millis = λ e. (now, e);
  delay = λ ms e. e;
  setup_pin = λ pin e. e;
  digital_write = λ pin level e. e;
  digital_read = λ pin e. (true, e);
  emit = λ event e. e;
  read_nfcc = λ rx timeout e. next_answer rx e;
  write_nfcc = λ tx e. (written, e);
  patience = 3;
}

-- a bus that works, at ten seconds
abbrev pub sim : Platform
sim = sim_at 0 10000

-- a bus that takes no byte
abbrev pub dead_sim : Platform
dead_sim = sim_at 3 10000

-- the members after `setup`, in a given state, with a given number of errors and a given table
abbrev pub device : {p : Platform} → NciState → ℕ → List (DiscoveredEndpoint p.NfcTag) → Device p
device state errors endpoints = record {
  has_dwl_req_pin = false;
  has_wkup_req_pin = false;
  health_check_enabled = true;
  health_check_interval = 5000;
  last_health_check = 0;
  health_fail_count = 0;
  max_failed_checks = 5;
  auto_reset_on_failure = true;
  sensitivity = medium;
  proprietary_config = [];
  last_nci_state_change = 0;
  tag_ttl = 250;
  polling_enabled = true;
  listening_enabled = false;
  selecting_endpoint = true;
  write_mode = false;
  config_refresh_pending = true;
  core_config_is_solo = false;
  next_task = ep_read;
  discovered_endpoint = endpoints;
  ce_state = card_emu_idle;
  nci_state = state;
  nci_state_error = if errors == 0 then none_state else nfcc_reset;
  error_count = errors;
  card_emulation_message = none;
  next_task_message_to_write = none;
  triggers_ontag = [];
  triggers_ontagremoved = [];
  tag_listeners = [];
}

-- an endpoint by its UID, when it was seen last, and whether its triggers were called
abbrev pub endpoint : List ℕ → ℕ → Bool → DiscoveredEndpoint (List ℕ)
endpoint uid seen called = record {
  id = 1;
  protocol = 2;
  last_seen = seen;
  tag = uid;
  trig_called = called;
}

-- three endpoints: two with their triggers called, the second not seen for long
abbrev pub three_endpoints : List (DiscoveredEndpoint (List ℕ))
three_endpoints =
    endpoint (1 ∷ 2 ∷ 3 ∷ 4 ∷ []) 9900 true
    ∷ endpoint (5 ∷ 6 ∷ 7 ∷ 8 ∷ []) 100 true
    ∷ endpoint (9 ∷ 10 ∷ 11 ∷ 12 ∷ []) 9950 false
    ∷ []

abbrev pub start : NciState → Script → State sim
start state script = record { dev = device {p = sim} state 0 three_endpoints; env = script }
