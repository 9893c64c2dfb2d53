-- ===== src/Fsm/Stays.antt =====
-- The transition keeps an invariant.
use esphome_pn.Messages.Stays.{process_message-Stays}
use esphome_pn.States.Stays.{set_state-Stays, set_error_state-Stays}
use esphome_pn.Discovery.Quiet.{start_discovery-IsQuiet, stop_discovery-IsQuiet}
use esphome_pn.Discovery.Stays.{
  refresh_core_config-Stays, send_init_config-Stays, select_endpoint-Stays,
}
use esphome_pn.Driver.Quiet.{IsQuiet-digital_read}
use esphome_pn.Config.Quiet.{
  init_core-IsQuiet, set_listen_mode_routing-IsQuiet, set_discover_map-IsQuiet, reset_core-IsQuiet,
}
use esphome_pn.Discovery.{select_endpoint}
use esphome_pn.Driver.{
  NciState, ◌>>◌, none_state, nfcc_reset, nfcc_init, nfcc_config, nfcc_set_discover_map,
  nfcc_set_listen_mode_routing, rfst_idle, rfst_discovery, rfst_w4_all_discoveries,
  rfst_w4_host_select, rfst_poll_active, rfst_listen_active, rfst_listen_sleep, ep_selecting,
  ep_deactivating, test, failed,
}
use esphome_pn.Driver.Stays.{Stays, stays_rules, Stays-pass}
use esphome_pn.Fsm.{
  from_init, transition_from, from_config, refresh_if_pending, wait_message, from_set_discover_map,
  from_set_listen_mode_routing, from_discovery, from_reset, nci_fsm_transition, from_idle,
  try_discovery,
}
use esphome_pn.Invariant.{IsInvariant}
use esphome_pn.Driver.Core.{Core}
use esphome_pn.Platform.{Platform}

module _ ⦃p : Platform⦄ {R : Core p → Type 0} ⦃inv : IsInvariant R⦄ where
  refresh_if_pending-Stays : Stays R refresh_if_pending
  unfolding refresh_if_pending
  refresh_if_pending-Stays = search (stays_rules, refresh_core_config-Stays) depth 10

  try_discovery-Stays : Stays R try_discovery
  unfolding try_discovery
  try_discovery-Stays =
      search (stays_rules, start_discovery-IsQuiet, set_state-Stays, set_error_state-Stays) depth 10

  from_idle-Stays : Stays R from_idle
  unfolding from_idle
  from_idle-Stays =
      search (stays_rules, stop_discovery-IsQuiet, refresh_if_pending-Stays, try_discovery-Stays)
        depth 12

  from_set_listen_mode_routing-Stays : Stays R from_set_listen_mode_routing
  unfolding from_set_listen_mode_routing
  from_set_listen_mode_routing-Stays =
      search
        (
          stays_rules, set_listen_mode_routing-IsQuiet, set_state-Stays, set_error_state-Stays,
          from_idle-Stays,
        )
        depth 10

  from_set_discover_map-Stays : Stays R from_set_discover_map
  unfolding from_set_discover_map
  from_set_discover_map-Stays =
      search
        (
          stays_rules, set_discover_map-IsQuiet, set_state-Stays, set_error_state-Stays,
          from_set_listen_mode_routing-Stays,
        )
        depth 10

  from_config-Stays : Stays R from_config
  unfolding from_config
  from_config-Stays =
      search
        (
          stays_rules, send_init_config-Stays, set_state-Stays, set_error_state-Stays,
          from_set_discover_map-Stays,
        )
        depth 10

  from_init-Stays : Stays R from_init
  unfolding from_init
  from_init-Stays =
      search
        (stays_rules, init_core-IsQuiet, set_state-Stays, set_error_state-Stays, from_config-Stays)
        depth 10

  from_reset-Stays : Stays R from_reset
  unfolding from_reset
  from_reset-Stays =
      search
        (stays_rules, reset_core-IsQuiet, set_state-Stays, set_error_state-Stays, from_init-Stays)
        depth 10

  wait_message-Stays : Stays R wait_message
  unfolding wait_message
  wait_message-Stays = search (stays_rules, IsQuiet-digital_read, process_message-Stays) depth 10

  from_discovery-Stays : Stays R from_discovery
  unfolding from_discovery
  from_discovery-Stays = search (stays_rules, refresh_if_pending-Stays, wait_message-Stays) depth 10

  from_host_select-Stays : Stays R (select_endpoint >> from_discovery)
  from_host_select-Stays =
      search (stays_rules, select_endpoint-Stays, from_discovery-Stays) depth 10

  transition_from-Stays : (x : NciState) → Stays R (transition_from x)
  unfolding transition_from
  transition_from-Stays none_state = Stays-pass
  transition_from-Stays nfcc_reset = from_reset-Stays
  transition_from-Stays nfcc_init = from_init-Stays
  transition_from-Stays nfcc_config = from_config-Stays
  transition_from-Stays nfcc_set_discover_map = from_set_discover_map-Stays
  transition_from-Stays nfcc_set_listen_mode_routing = from_set_listen_mode_routing-Stays
  transition_from-Stays rfst_idle = from_idle-Stays
  transition_from-Stays rfst_discovery = from_discovery-Stays
  transition_from-Stays rfst_w4_all_discoveries = Stays-pass
  transition_from-Stays rfst_w4_host_select = from_host_select-Stays
  transition_from-Stays rfst_poll_active = wait_message-Stays
  transition_from-Stays rfst_listen_active = wait_message-Stays
  transition_from-Stays rfst_listen_sleep = wait_message-Stays
  transition_from-Stays ep_selecting = wait_message-Stays
  transition_from-Stays ep_deactivating = wait_message-Stays
  transition_from-Stays test = Stays-pass
  transition_from-Stays failed = Stays-pass

  pub nci_fsm_transition-Stays : Stays R nci_fsm_transition
  unfolding nci_fsm_transition
  nci_fsm_transition-Stays = search (stays_rules, transition_from-Stays) depth 10
