-- ===== src/Config.antt =====
-- The commands that bring the controller up: `reset_core_`, `init_core_`, `send_init_config_`,
-- `send_rf_config_`, `send_core_config_`, `set_discover_map_` and `set_listen_mode_routing_` of
-- components/pn7160/pn7160.cpp, and the tables of components/pn7160/pn7160.h that they send.
pub mod Quiet
pub mod Versions
pub mod Refresh
pub mod PowerUp
use esphome_pn.Transceive.{transceive, nfcc_default_timeout, nfcc_init_timeout}
use esphome_pn.Platform.{Platform, dwl_req_pin, ven_pin}
use esphome_pn.Driver.{
  Sensitivity, M, ◌>>◌, pure, ◌>>=◌, pass, element, get_dev, digital_write, high, put_dev, range,
  read_nfcc, delay,
}
use esphome_pn.Prelude.{
  Bool, List, ℕ, true, length, ◌∷◌, if◌then◌else◌, false, bit_or, [], not, ◌==◌, ◌/◌, ◌||◌, ◌+◌,
  ◌&&◌,
}

abbrev pub core_config_solo : List ℕ
core_config_solo = 0x01 ∷ 0x00 ∷ 0x02 ∷ 0x01 ∷ 0x00 ∷ []

abbrev pub core_config_rw_ce : List ℕ
core_config_rw_ce = 0x01 ∷ 0x00 ∷ 0x02 ∷ 0xF8 ∷ 0x02 ∷ []

abbrev pub pmu_cfg : List ℕ
pmu_cfg =
    0x01 ∷ 0xA0 ∷ 0x0E ∷ 11 ∷ 0x11 ∷ 0x01 ∷ 0x01 ∷ 0x01 ∷ 0x00 ∷ 0x00 ∷ 0x00 ∷ 0xFF ∷ 0x00 ∷ 0xD0
    ∷ 0x0C ∷ []

abbrev pub high_sens_cmd : List ℕ
high_sens_cmd = 0x01 ∷ 0xA0 ∷ 0x0D ∷ 0x06 ∷ 0x01 ∷ 0x01 ∷ 0x2D ∷ 0x01 ∷ 0x02 ∷ []

-- `(uint8_t) b`
abbrev pub byte_of : Bool → ℕ
byte_of true = 1
byte_of false = 0

abbrev pub is_high : Sensitivity → Bool
is_high high = true
is_high _ = false

abbrev pub is_empty : List ℕ → Bool
is_empty [] = true
is_empty (x ∷ xs) = false

module _ ⦃p : Platform⦄ where
  abbrev pub rf_discover_map_config : List ℕ
  rf_discover_map_config =
      p.prot_t1t
      ∷ p.rf_discover_map_mode_poll
      ∷ p.intf_frame
      ∷ p.prot_t2t
      ∷ p.rf_discover_map_mode_poll
      ∷ p.intf_frame
      ∷ p.prot_t3t
      ∷ p.rf_discover_map_mode_poll
      ∷ p.intf_frame
      ∷ p.prot_isodep
      ∷ bit_or p.rf_discover_map_mode_poll p.rf_discover_map_mode_listen
      ∷ p.intf_isodep
      ∷ p.prot_mifare
      ∷ p.rf_discover_map_mode_poll
      ∷ p.intf_tagcmd
      ∷ []

  abbrev pub rf_listen_mode_routing_config : List ℕ
  rf_listen_mode_routing_config =
      0x00 ∷ 2 ∷ 0x01 ∷ 3 ∷ 0 ∷ 0x07 ∷ p.prot_isodep ∷ 0x00 ∷ 3 ∷ 0 ∷ 0x07 ∷ p.tech_passive_nfca
      ∷ []

  -- `transceive_` of a control command, with `rx` new and the default arguments
  abbrev pub command : ℕ → ℕ → List ℕ → M p (ℕ × List ℕ)
  command gid oid payload =
      transceive (p.ctrl_message p.nci_pkt_mt_ctrl_command gid oid payload) p.new_message
        nfcc_default_timeout true

  -- the common end of the commands: any status but OK is a failure
  abbrev pub ok_or_failed : ℕ × List ℕ → M p ℕ
  ok_or_failed (status, rx) = pure (if status == p.status_ok then p.status_ok else p.status_failed)

  -- pulls of the pins before the reset command
  unfoldable pub power_up : Bool → Bool → M p (Unit {0})
  power_up has_dwl_req power = do
    (if has_dwl_req then (digital_write dwl_req_pin false >> delay nfcc_default_timeout) else pass)
    (if power
        then (do
          digital_write ven_pin true
          delay nfcc_default_timeout
          digital_write ven_pin false
          delay nfcc_default_timeout
          digital_write ven_pin true
          delay nfcc_init_timeout)
        else pass)
    delay nfcc_init_timeout

  -- the reset notification: its checks, then what the log line reads of it
  unfoldable pub check_reset_notification : Bool → List ℕ → M p ℕ
  check_reset_notification reset_config rx =
      if not (p.message_type_is rx p.nci_pkt_mt_ctrl_notification) || not (p.message_length_is rx 9)
      then pure p.status_failed
      else do
        reason ← element rx p.nci_pkt_payload_offset
        if not (reason == 0x02) then pure p.status_failed else do
          kept ← element rx (p.nci_pkt_payload_offset + 1)
          if not (kept == byte_of reset_config) then pure p.status_failed else do
            element rx 4
            element rx 5
            element rx 6
            range rx 8 (length rx)
            pure p.status_ok

  abbrev pub reset_request : Bool → List ℕ
  reset_request reset_config =
      p.ctrl_message p.nci_pkt_mt_ctrl_command p.nci_core_gid p.nci_core_reset_oid
        (byte_of reset_config ∷ [])

  unfoldable pub reset_core : Bool → Bool → M p ℕ
  unfolding power_up
  reset_core reset_config power = do
    d ← get_dev
    power_up d.has_dwl_req_pin power
    (status, rx) ← transceive (reset_request reset_config) p.new_message nfcc_init_timeout true
    if not (status == p.status_ok)
        then pure p.status_failed
        else if not (p.simple_status_response_is rx p.status_ok)
        then pure (p.get_simple_status_response rx)
        else do
          (status', rx') ← read_nfcc rx nfcc_init_timeout
          if not (status' == p.status_ok)
              then pure p.status_failed
              else check_reset_notification reset_config rx'

  -- The versions stand behind a table whose length is byte 8; no length is checked.
  unfoldable pub read_versions : List ℕ → M p (Unit {0})
  read_versions rx = do
    n ← element rx 8
    element rx (17 + n)
    element rx (18 + n)
    element rx (19 + n)
    element rx (20 + n)
    range rx 4 8
    pass

  unfoldable pub init_core : M p ℕ
  unfolding read_versions
  init_core = do
    (status, rx) ← command p.nci_core_gid p.nci_core_init_oid []
    if not (status == p.status_ok)
        then pure p.status_failed
        else if not (p.simple_status_response_is rx p.status_ok)
        then pure p.status_failed
        else do read_versions rx; pure (p.get_simple_status_response rx)

  -- its failure is only logged
  unfoldable pub send_sensitivity : Sensitivity → M p (Unit {0})
  send_sensitivity sensitivity =
      if is_high sensitivity
      then command p.nci_core_gid p.nci_core_set_config_oid high_sens_cmd >> pass
      else pass

  unfoldable pub send_proprietary : List ℕ → M p ℕ
  send_proprietary proprietary_config =
      if is_empty proprietary_config
      then pure p.status_ok
      else command p.nci_core_gid p.nci_core_set_config_oid proprietary_config >>= ok_or_failed

  unfoldable pub send_rf_config : M p ℕ
  unfolding send_sensitivity send_proprietary
  send_rf_config = do
    d ← get_dev
    send_sensitivity d.sensitivity
    send_proprietary d.proprietary_config

  unfoldable pub send_core_config : M p ℕ
  send_core_config = do
    d ← get_dev
    let both = d.listening_enabled && d.polling_enabled
    put_dev (record d { core_config_is_solo = not both })
    answer ←
        command p.nci_core_gid p.nci_core_set_config_oid
          (if both then core_config_rw_ce else core_config_solo)
    ok_or_failed answer

  unfoldable pub send_init_config : M p ℕ
  send_init_config = do
    (status, rx) ← command p.nci_proprietary_gid p.nci_core_set_config_oid []
    if not (status == p.status_ok) then pure p.status_failed else do
      (status', _) ←
          transceive
            (p.ctrl_message p.nci_pkt_mt_ctrl_command p.nci_core_gid p.nci_core_set_config_oid
              pmu_cfg)
            rx nfcc_default_timeout true
      if not (status' == p.status_ok) then pure p.status_failed else do
        rf ← send_rf_config
        if not (rf == p.status_ok) then pure p.status_failed else send_core_config

  unfoldable pub set_discover_map : M p ℕ
  set_discover_map =
      command p.rf_gid p.rf_discover_map_oid
        ((length rf_discover_map_config / 3) ∷ rf_discover_map_config)
      >>= ok_or_failed

  unfoldable pub set_listen_mode_routing : M p ℕ
  set_listen_mode_routing =
      command p.rf_gid p.rf_set_listen_mode_routing_oid rf_listen_mode_routing_config
      >>= ok_or_failed
