-- ===== src/Messages/Dispatch.antt =====
-- `process_message_` of components/pn7160/pn7160.cpp: one read, and the handler of what it brings.
use esphome_pn.Discovery.{stop_discovery}
use esphome_pn.Config.{byte_of}
use esphome_pn.Endpoints.{erase_tag}
use esphome_pn.CardEmulation.{process_data_message}
use esphome_pn.Messages.{
  process_rf_intf_activated_oid, process_rf_discover_oid, process_rf_deactivate_oid,
  rf_txldo_error_oid,
}
use esphome_pn.Transceive.{nfcc_default_timeout}
use esphome_pn.States.{state_eq, nci_fsm_set_state}
use esphome_pn.Prelude.{List, ℕ, if◌then◌else◌, ◌==◌, not, ltb, length}
use esphome_pn.Driver.{
  M, ◌>>=◌, read_nfcc, get_dev, ep_selecting, pass, ◌>>◌, rfst_w4_host_select, rfst_idle,
}
use esphome_pn.Platform.{Platform}

module _ ⦃p : Platform⦄ where
  -- `DISCOVERY_TARGET_ACTIVATION_FAILED`. The index is the `bool` in `selecting_endpoint_`.
  unfoldable pub activation_failed : M p (Unit {0})
  activation_failed = do
    d ← get_dev
    if state_eq d.nci_state ep_selecting
        then (do
          nci_fsm_set_state rfst_w4_host_select
          if ltb 0 (length d.discovered_endpoint)
              then erase_tag (byte_of d.selecting_endpoint)
              else pass)
        else (do stop_discovery; nci_fsm_set_state rfst_idle)

  unfoldable pub process_generic_error : List ℕ → M p (Unit {0})
  process_generic_error rx =
      let status = p.get_simple_status_response rx in
      if status == p.discovery_already_started
      then pass
      else if status == p.discovery_target_activation_failed
      then activation_failed
      else pass

  unfoldable pub process_rf_notification : List ℕ → M p (Unit {0})
  process_rf_notification rx =
      let oid = p.get_oid rx in
      if oid == p.rf_intf_activated_oid
      then process_rf_intf_activated_oid rx
      else if oid == p.rf_discover_oid
      then process_rf_discover_oid rx
      else if oid == p.rf_deactivate_oid
      then process_rf_deactivate_oid rx
      else if oid == rf_txldo_error_oid
      then pass
      else pass

  unfoldable pub process_notification : List ℕ → M p (Unit {0})
  process_notification rx =
      if p.get_gid rx == p.rf_gid
      then process_rf_notification rx
      else if p.get_gid rx == p.nci_core_gid
      then (if p.get_oid rx == p.nci_core_generic_error_oid then process_generic_error rx else pass)
      else pass

  -- the `switch` on the message's type
  unfoldable pub handle_message : List ℕ → M p (Unit {0})
  handle_message rx =
      let type = p.get_message_type rx in
      if type == p.nci_pkt_mt_ctrl_notification
      then process_notification rx
      else if type == p.nci_pkt_mt_ctrl_response
      then pass
      else if type == p.nci_pkt_mt_ctrl_command
      then pass
      else if type == p.nci_pkt_mt_data
      then process_data_message rx
      else pass

  unfoldable pub process_message : M p (Unit {0})
  process_message = do
    (status, rx) ← read_nfcc p.new_message nfcc_default_timeout
    if not (status == p.status_ok) then pass else handle_message rx
