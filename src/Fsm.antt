-- ===== src/Fsm.antt =====
-- The state machine of the controller: `nci_fsm_transition_` of components/pn7160/pn7160.cpp. Each
-- function is the part of the `switch` from one label to the end, through `[[fallthrough]]`.
pub mod DeadBus
pub mod Answering
pub mod Boot
pub mod Stays
use esphome_pn.Messages.Dispatch.{process_message}
use esphome_pn.States.{state_eq, nci_fsm_set_error_state, nci_fsm_set_state}
use esphome_pn.Prelude.{if◌then◌else◌, true, false, not, ◌==◌, ◌&&◌}
use esphome_pn.Config.{
  send_init_config, reset_core, set_listen_mode_routing, set_discover_map, init_core,
}
use esphome_pn.Discovery.{select_endpoint, start_discovery, refresh_core_config, stop_discovery}
use esphome_pn.Driver.{
  NciState, M, ◌>>◌, ◌>>=◌, pass, get_dev, digital_read, nfcc_reset, put_dev, nfcc_init,
  nfcc_config, rfst_discovery, nfcc_set_discover_map, nfcc_set_listen_mode_routing, rfst_idle,
  rfst_w4_host_select, rfst_listen_active, rfst_listen_sleep, rfst_poll_active, ep_selecting,
  ep_deactivating,
}
use esphome_pn.Platform.{Platform, irq_pin}

module _ ⦃p : Platform⦄ where
  abbrev clear_refresh : M p (Unit {0})
  clear_refresh = do d ← get_dev; put_dev (record d { config_refresh_pending = false })

  -- the call that both of the last labels make
  unfoldable pub refresh_if_pending : M p (Unit {0})
  refresh_if_pending = do
    d ← get_dev
    if d.config_refresh_pending then refresh_core_config >> pass else pass

  unfoldable pub try_discovery : M p (Unit {0})
  try_discovery = do
    status ← start_discovery
    if not (status == p.status_ok)
        then nci_fsm_set_error_state rfst_discovery >> pass
        else nci_fsm_set_state rfst_discovery

  unfoldable pub from_idle : M p (Unit {0})
  from_idle = do
    d ← get_dev
    (if state_eq d.nci_state_error rfst_discovery then stop_discovery >> pass else pass)
    refresh_if_pending
    d' ← get_dev
    if not d'.listening_enabled && not d'.polling_enabled then pass else try_discovery

  unfoldable pub from_set_listen_mode_routing : M p (Unit {0})
  from_set_listen_mode_routing = do
    status ← set_listen_mode_routing
    if not (status == p.status_ok)
        then nci_fsm_set_error_state rfst_idle >> pass
        else nci_fsm_set_state rfst_idle >> from_idle

  unfoldable pub from_set_discover_map : M p (Unit {0})
  from_set_discover_map = do
    status ← set_discover_map
    if not (status == p.status_ok)
        then nci_fsm_set_error_state nfcc_set_listen_mode_routing >> pass
        else nci_fsm_set_state nfcc_set_listen_mode_routing >> from_set_listen_mode_routing

  unfoldable pub from_config : M p (Unit {0})
  from_config = do
    status ← send_init_config
    if not (status == p.status_ok)
        then nci_fsm_set_error_state nfcc_config >> pass
        else clear_refresh >> nci_fsm_set_state nfcc_set_discover_map >> from_set_discover_map

  unfoldable pub from_init : M p (Unit {0})
  from_init = do
    status ← init_core
    if not (status == p.status_ok)
        then nci_fsm_set_error_state nfcc_init >> pass
        else nci_fsm_set_state nfcc_config >> from_config

  unfoldable pub from_reset : M p (Unit {0})
  from_reset = do
    status ← reset_core true true
    if not (status == p.status_ok)
        then nci_fsm_set_error_state nfcc_reset >> pass
        else nci_fsm_set_state nfcc_init >> from_init

  -- the states that wait for a message
  unfoldable pub wait_message : M p (Unit {0})
  wait_message = do irq ← digital_read irq_pin; if irq then process_message else pass

  unfoldable pub from_discovery : M p (Unit {0})
  from_discovery = do refresh_if_pending; wait_message

  unfoldable pub transition_from : NciState → M p (Unit {0})
  transition_from nfcc_reset = from_reset
  transition_from nfcc_init = from_init
  transition_from nfcc_config = from_config
  transition_from nfcc_set_discover_map = from_set_discover_map
  transition_from nfcc_set_listen_mode_routing = from_set_listen_mode_routing
  transition_from rfst_idle = from_idle
  transition_from rfst_w4_host_select = select_endpoint >> from_discovery
  transition_from rfst_discovery = from_discovery
  transition_from rfst_listen_active = wait_message
  transition_from rfst_listen_sleep = wait_message
  transition_from rfst_poll_active = wait_message
  transition_from ep_selecting = wait_message
  transition_from ep_deactivating = wait_message
  transition_from _ = pass

  unfoldable pub nci_fsm_transition : M p (Unit {0})
  nci_fsm_transition = do d ← get_dev; transition_from d.nci_state
