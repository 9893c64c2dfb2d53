-- ===== src/Tests/Life.antt =====
-- A driver that is configured, set up, and finds one tag twice.
use esphome_pn.Messages.Dispatch.{
  activation_failed, process_generic_error, process_rf_notification, process_notification,
  handle_message, process_message,
}
use esphome_pn.Messages.{
  refresh_or_add, remember_endpoint, process_rf_intf_activated_oid, process_rf_discover_oid,
  process_rf_deactivate_oid,
}
use esphome_pn.Endpoints.{
  uid_matches, find_from, find_tag_uid, build_tag, emit_all, erase_tag, purge_round, purge_loop,
  purge_old_tags,
}
use esphome_pn.Discovery.{
  discover_payload, start_discovery, deactivate, stop_discovery, resend_core_config,
  refresh_core_config, first_untriggered, choose_endpoint, select_from, select_endpoint,
}
use esphome_pn.States.{nci_fsm_set_state, give_up, nci_fsm_set_error_state}
use esphome_pn.Transceive.{read_retry, check_response, is_credits, check_data, conclude, transceive}
use esphome_pn.Config.{
  power_up, check_reset_notification, reset_core, read_versions, init_core, send_sensitivity,
  send_proprietary, send_rf_config, send_core_config, send_init_config, set_discover_map,
  set_listen_mode_routing,
}
use esphome_pn.Fsm.{
  refresh_if_pending, try_discovery, from_idle, from_set_listen_mode_routing, from_set_discover_map,
  from_config, from_init, from_reset, wait_message, from_discovery, transition_from,
  nci_fsm_transition,
}
use esphome_pn.Run.Writing.{Reach-is_writing}
use esphome_pn.Run.Distinct.{Reach-IsDistinct}
use esphome_pn.Run.Well.{Reach-IsWell}
use esphome_pn.Modes.{write_mode}
use esphome_pn.Endpoints.Distinct.{IsDistinct}
use esphome_pn.Driver.Well.{IsWell}
use esphome_pn.Run.{Reach, play, started, looped, waited, called, write}
use esphome_pn.Health.{setup, loop, reset_via_ven, count_failure, perform_health_check, is_stuck}
use esphome_pn.Driver.{Outcome, State, ok, fault, hang}
use esphome_pn.Prelude.{◌∷◌, [], replicate, length, List, ◌≡◌, refl, false}
use esphome_pn.Settings.{configured, is_writing, Setting, ontag, ttl}
use esphome_pn.Tests.Sim.{sim, Script}

abbrev answers : Script
answers =
    (0, 0x40 ∷ 0 ∷ 1 ∷ 0 ∷ [])
    ∷ (0, 0x60 ∷ 0 ∷ 9 ∷ 2 ∷ 1 ∷ 0x20 ∷ 4 ∷ 4 ∷ 0x51 ∷ 0x12 ∷ 1 ∷ 5 ∷ [])
    ∷ (0, 0x40 ∷ 1 ∷ 18 ∷ replicate 18 0)
    ∷ (0, 0x4F ∷ 2 ∷ 1 ∷ 0 ∷ [])
    ∷ (0, 0x40 ∷ 2 ∷ 1 ∷ 0 ∷ [])
    ∷ (0, 0x40 ∷ 2 ∷ 1 ∷ 0 ∷ [])
    ∷ (0, 0x41 ∷ 0 ∷ 1 ∷ 0 ∷ [])
    ∷ (0, 0x41 ∷ 1 ∷ 1 ∷ 0 ∷ [])
    ∷ (0, 0x41 ∷ 3 ∷ 1 ∷ 0 ∷ [])
    ∷ []

-- the end of a run that returns, else its start
abbrev left : State sim → Outcome sim (Unit {0}) → State sim
left s (ok a s') = s'
left s fault = s
left s hang = s

abbrev settings : List Setting
settings = ontag 7 ∷ ttl 250 ∷ []

unfoldable off : State sim
unfolding configured
off = record { dev = configured ⦃p = sim⦄ settings; env = answers }

unfoldable booted : State sim
unfolding off setup
booted = left off (setup ⦃p = sim⦄ off)

-- the notification of a tag of type 2 whose UID is 1, 2, 3, 4, 5, 6, 7
abbrev notification : Script
notification =
    (0, 0x61 ∷ 3 ∷ 15 ∷ 1 ∷ 2 ∷ 0 ∷ 9 ∷ 0x44 ∷ 0 ∷ 7 ∷ 1 ∷ 2 ∷ 3 ∷ 4 ∷ 5 ∷ 6 ∷ 7 ∷ 2 ∷ []) ∷ []

abbrev noticed : State sim → State sim
noticed s = record s { env = notification }

unfoldable met : State sim
unfolding booted loop
met = left booted (loop ⦃p = sim⦄ (noticed booted))

unfoldable met_again : State sim
unfolding met loop
met_again = left met (loop ⦃p = sim⦄ (noticed met))

-- set up, and two rounds of the loop; the tag is in the table once
life : Reach ⦃p = sim⦄ met_again × (length met_again.discovered_endpoint ≡ 1)
unfolding met_again met booted off configured refresh_if_pending try_discovery from_idle
    from_set_listen_mode_routing from_set_discover_map from_config from_init from_reset wait_message
    from_discovery transition_from nci_fsm_transition power_up check_reset_notification reset_core
    read_versions init_core send_sensitivity send_proprietary send_rf_config send_core_config
    send_init_config set_discover_map set_listen_mode_routing read_retry check_response is_credits
    check_data conclude transceive nci_fsm_set_state give_up nci_fsm_set_error_state
    discover_payload start_discovery deactivate stop_discovery resend_core_config
    refresh_core_config first_untriggered choose_endpoint select_from select_endpoint uid_matches
    find_from find_tag_uid build_tag emit_all erase_tag purge_round purge_loop purge_old_tags
    refresh_or_add remember_endpoint process_rf_intf_activated_oid process_rf_discover_oid
    process_rf_deactivate_oid activation_failed process_generic_error process_rf_notification
    process_notification handle_message process_message reset_via_ven count_failure
    perform_health_check is_stuck loop setup
life =
    let up : Reach ⦃p = sim⦄ booted = started settings answers refl in
    let first : Reach ⦃p = sim⦄ met = looped (waited up notification) refl in
    (looped (waited first notification) refl, refl)

Reach-IsWell_example : IsWell met_again.dev
Reach-IsWell_example = Reach-IsWell ⦃p = sim⦄ life.0

Reach-IsDistinct_example : IsDistinct ⦃p = sim⦄ met_again.discovered_endpoint
Reach-IsDistinct_example = Reach-IsDistinct ⦃p = sim⦄ (λ m tag. refl) life.0

writing_run : Reach ⦃p = sim⦄ (record met_again { dev = write_mode ⦃p = sim⦄ met_again.dev })
unfolding play
writing_run = called life.0 write refl

Reach-is_writing_example : is_writing {p = sim} (write_mode ⦃p = sim⦄ met_again.dev) ≡ false
Reach-is_writing_example = Reach-is_writing ⦃p = sim⦄ writing_run
