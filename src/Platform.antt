-- ===== src/Platform.antt =====
-- What the driver takes from code outside this repository: the constants and classes of
-- `esphome/components/nfc`, and what it reads of the board (clock, pins, bus). All of it is a
-- parameter, the record `Platform`. An `nfc::NciMessage` is the byte vector that its
-- `get_message()` gives by reference; texts are their bytes.
use esphome_pn.Prelude.{ℕ, Bool, Option, List}

-- The constants of nci_core.h and nfc.h that the driver names.
pub record Nci : Type 0 where
  pub status_ok : ℕ
  pub status_failed : ℕ
  pub nci_pkt_mt_ctrl_command : ℕ
  pub nci_pkt_mt_ctrl_response : ℕ
  pub nci_pkt_mt_ctrl_notification : ℕ
  pub nci_pkt_mt_data : ℕ
  pub nci_pkt_header_size : ℕ
  pub nci_pkt_payload_offset : ℕ
  pub nci_proprietary_gid : ℕ
  pub nci_core_gid : ℕ
  pub rf_gid : ℕ
  pub nci_core_reset_oid : ℕ
  pub nci_core_init_oid : ℕ
  pub nci_core_set_config_oid : ℕ
  pub nci_core_conn_credits_oid : ℕ
  pub nci_core_generic_error_oid : ℕ
  pub rf_discover_map_oid : ℕ
  pub rf_set_listen_mode_routing_oid : ℕ
  pub rf_discover_oid : ℕ
  pub rf_discover_select_oid : ℕ
  pub rf_intf_activated_oid : ℕ
  pub rf_deactivate_oid : ℕ
  pub discovery_already_started : ℕ
  pub discovery_target_activation_failed : ℕ
  pub discovery_tear_down : ℕ
  pub deactivation_type_idle : ℕ
  pub deactivation_type_sleep : ℕ
  pub deactivation_type_sleep_af : ℕ
  pub deactivation_type_discovery : ℕ
  pub rf_intf_activated_ntf_discovery_id : ℕ
  pub rf_intf_activated_ntf_protocol : ℕ
  pub rf_intf_activated_ntf_mode_tech : ℕ
  pub rf_discover_ntf_discovery_id : ℕ
  pub rf_discover_ntf_protocol : ℕ
  pub rf_discover_ntf_mode_tech : ℕ
  pub rf_discover_ntf_nt_more : ℕ
  pub mode_poll : ℕ
  pub mode_listen_mask : ℕ
  pub tech_passive_nfca : ℕ
  pub tech_passive_nfcb : ℕ
  pub tech_passive_nfcf : ℕ
  pub prot_t1t : ℕ
  pub prot_t2t : ℕ
  pub prot_t3t : ℕ
  pub prot_isodep : ℕ
  pub prot_mifare : ℕ
  pub rf_discover_map_mode_poll : ℕ
  pub rf_discover_map_mode_listen : ℕ
  pub intf_frame : ℕ
  pub intf_isodep : ℕ
  pub intf_tagcmd : ℕ
  pub tag_type_mifare_classic : ℕ
  pub tag_type_2 : ℕ
  pub mifare_cmd_read : ℕ
  pub mifare_cmd_write : ℕ
  pub mifare_cmd_write_ultralight : ℕ
  pub mifare_cmd_auth_a : ℕ
  pub mifare_cmd_auth_b : ℕ
  pub mifare_cmd_halt : ℕ
  pub mifare_cmd_ack : ℕ
  pub mifare_classic_block_size : ℕ
  pub mifare_classic_blocks_per_sect_low : ℕ
  pub mifare_classic_blocks_per_sect_high : ℕ
  pub mifare_classic_16block_sect_start : ℕ
  pub mifare_ultralight_page_size : ℕ
  pub mifare_ultralight_read_size : ℕ
  pub mifare_ultralight_data_start_page : ℕ
  pub ndef_key : List ℕ
  pub default_key : List ℕ
  pub mifare_classic : List ℕ
  pub nfc_forum_type_2 : List ℕ
  pub tnf_external_type : ℕ
  pub ha_tag_id_ext_record_type : List ℕ
  pub ha_tag_id_ext_record_payload : List ℕ

pub data Pin : Type 0 where
  dwl_req_pin irq_pin ven_pin wkup_req_pin cs_pin : Pin

-- What the driver tells the rest of the firmware: the `process` of a trigger, the `tag_on` and
-- `tag_off` of a listener, each with the object it is called on, and the two callback managers.
pub data Event (Tag : Type 0) : Type 0 where
  on_tag on_tag_removed tag_on tag_off : ℕ → Tag → Event Tag
  finished_write emulated_tag_scan marked_failed : Event Tag

pub record Platform : Type 1 where
  pub nci : Nci
  pub open nci use *
  -- `NciMessage()`, `NciMessage(type, gid, oid, payload)` and `NciMessage(type, payload)`
  pub new_message : List ℕ
  pub ctrl_message : ℕ → ℕ → ℕ → List ℕ → List ℕ
  pub data_message : ℕ → List ℕ → List ℕ
  pub set_payload : List ℕ → List ℕ → List ℕ
  pub get_message_type : List ℕ → ℕ
  pub get_gid : List ℕ → ℕ
  pub get_oid : List ℕ → ℕ
  pub get_payload_size : List ℕ → ℕ
  pub get_simple_status_response : List ℕ → ℕ
  pub get_message_byte : List ℕ → ℕ → ℕ
  pub message_type_is : List ℕ → ℕ → Bool
  pub message_length_is : List ℕ → ℕ → Bool
  pub gid_is : List ℕ → ℕ → Bool
  pub oid_is : List ℕ → ℕ → Bool
  pub simple_status_response_is : List ℕ → ℕ → Bool
  pub encode_message : List ℕ → List ℕ
  -- `nfc::NdefMessage`
  pub NdefMessage : Type 0
  pub empty_ndef : NdefMessage
  pub decode_ndef : List ℕ → NdefMessage
  pub encode_ndef : NdefMessage → List ℕ
  pub add_uri_record : List ℕ → NdefMessage → NdefMessage
  pub add_record : ℕ → List ℕ → List ℕ → NdefMessage → NdefMessage
  -- `nfc::NfcTag`
  pub NfcTag : Type 0
  pub make_tag : List ℕ → List ℕ → NfcTag
  pub get_uid : NfcTag → List ℕ
  pub get_tag_type : NfcTag → List ℕ
  pub set_ndef_message : NdefMessage → NfcTag → NfcTag
  -- nfc.h
  pub guess_tag_type : ℕ → ℕ
  pub get_mifare_classic_buffer_size : ℕ → ℕ
  pub get_mifare_ultralight_buffer_size : ℕ → ℕ
  pub mifare_classic_is_first_block : ℕ → Bool
  pub mifare_classic_is_trailer_block : ℕ → Bool
  -- the message's length and start, where the function returns true
  pub decode_mifare_classic_tlv : List ℕ → Option (ℕ × ℕ)
  -- the board
  pub Env : Type 0
  pub millis : Env → ℕ × Env
  pub delay : ℕ → Env → Env
  pub setup_pin : Pin → Env → Env
  pub digital_write : Pin → Bool → Env → Env
  pub digital_read : Pin → Env → Bool × Env
  pub emit : Event NfcTag → Env → Env
  -- the virtual members of `PN7160`: the status, the message that the call leaves, the board
  pub read_nfcc : List ℕ → ℕ → Env → ℕ × List ℕ × Env
  pub write_nfcc : List ℕ → Env → ℕ × Env
  -- the rounds that the model grants a loop of the driver that no counter bounds
  pub patience : ℕ
