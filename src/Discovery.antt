-- ===== src/Discovery.antt =====
-- `refresh_core_config_`, `start_discovery_`, `stop_discovery_`, `deactivate_` and
-- `select_endpoint_` of components/pn7160/pn7160.cpp.
pub mod Quiet
pub mod Stays
pub mod Payload
pub mod Select
-- `for (uint8_t i = 0; i < length; i++)`, two bytes of the vector a round; `rest` is what the
-- table holds from `i` on.
use esphome_pn.Config.{command, send_core_config}
use esphome_pn.States.{nci_fsm_set_state, state_eq}
use esphome_pn.Transceive.{nfcc_tag_write_timeout, transceive}
use esphome_pn.Driver.{
  DiscoveredEndpoint, M, ◌>>◌, ◌>>=◌, get_dev, pure, rfst_idle, put_dev, pass, ep_selecting,
  rfst_discovery, nfcc_reset,
}
use esphome_pn.Platform.{Platform}
use esphome_pn.Prelude.{
  List, Bool, ℕ, Option, if◌then◌else◌, ◌∷◌, set, ◌==◌, bit_or, ◌+◌, ◌||◌, not, replicate, none, [],
  bool_eq, ◌*◌, length, true, some, ◌&&◌, false,
}

abbrev pub fill_discover : List ℕ → ℕ → List ℕ → List ℕ
fill_discover [] i discover_config = discover_config
fill_discover (mode ∷ rest) i discover_config =
    fill_discover rest (i + 1) (set (set discover_config (i * 2 + 1) mode) (i * 2 + 2) 0x01)

module _ ⦃p : Platform⦄ where
  abbrev pub rf_discovery_poll_config : List ℕ
  rf_discovery_poll_config =
      bit_or p.mode_poll p.tech_passive_nfca
      ∷ bit_or p.mode_poll p.tech_passive_nfcb
      ∷ bit_or p.mode_poll p.tech_passive_nfcf
      ∷ []

  abbrev pub rf_discovery_listen_config : List ℕ
  rf_discovery_listen_config =
      bit_or p.mode_listen_mask p.tech_passive_nfca
      ∷ bit_or p.mode_listen_mask p.tech_passive_nfcb
      ∷ bit_or p.mode_listen_mask p.tech_passive_nfcf
      ∷ []

  abbrev pub rf_discovery_config : List ℕ
  rf_discovery_config =
      bit_or p.mode_poll p.tech_passive_nfca
      ∷ bit_or p.mode_poll p.tech_passive_nfcb
      ∷ bit_or p.mode_poll p.tech_passive_nfcf
      ∷ bit_or p.mode_listen_mask p.tech_passive_nfca
      ∷ bit_or p.mode_listen_mask p.tech_passive_nfcb
      ∷ bit_or p.mode_listen_mask p.tech_passive_nfcf
      ∷ []

  abbrev pub choose_modes : (listening polling : Bool) → List ℕ
  choose_modes listening polling =
      if not listening
      then rf_discovery_poll_config
      else if not polling
      then rf_discovery_listen_config
      else rf_discovery_config

  -- the payload of the command, from the chosen table
  unfoldable pub discover_payload : List ℕ → List ℕ
  discover_payload modes =
      fill_discover modes 0 (set (replicate (length modes * 2 + 1) 0) 0 (length modes))

  -- the `switch` on the status of a refused command
  abbrev pub is_discovering : ℕ → Bool
  is_discovering status =
      status == p.status_ok
      || status == p.discovery_already_started
      || status == p.discovery_target_activation_failed
      || status == p.discovery_tear_down

  unfoldable pub start_discovery : M p ℕ
  unfolding discover_payload
  start_discovery = do
    d ← get_dev
    (status, rx) ←
        command p.rf_gid p.rf_discover_oid
          (discover_payload (choose_modes d.listening_enabled d.polling_enabled))
    if not (status == p.status_ok)
        then pure (
            if is_discovering (p.get_simple_status_response rx)
            then p.status_ok
            else p.status_failed)
        else pure p.status_ok

  unfoldable pub deactivate : ℕ → ℕ → M p ℕ
  deactivate type timeout = do
    (status, rx) ←
        transceive
          (p.ctrl_message p.nci_pkt_mt_ctrl_command p.rf_gid p.rf_deactivate_oid (type ∷ []))
          p.new_message timeout true
    pure status

  unfoldable pub stop_discovery : M p ℕ
  unfolding deactivate
  stop_discovery = deactivate p.deactivation_type_idle nfcc_tag_write_timeout

  -- the second half of `refresh_core_config_`
  unfoldable pub resend_core_config : Bool → M p ℕ
  resend_core_config should_be_solo = do
    d ← get_dev
    if not (bool_eq d.core_config_is_solo should_be_solo)
        then (do
          status ← send_core_config
          if not (status == p.status_ok) then pure p.status_failed else do
            d' ← get_dev
            put_dev (record d' { config_refresh_pending = false })
            pure p.status_ok)
        else (do put_dev (record d { config_refresh_pending = false }); pure p.status_ok)

  unfoldable pub refresh_core_config : M p ℕ
  refresh_core_config = do
    d ← get_dev
    let should_be_solo = not (d.listening_enabled && d.polling_enabled)
    if state_eq d.nci_state rfst_discovery
        then (do
          status ← stop_discovery
          if not (status == p.status_ok)
              then (nci_fsm_set_state nfcc_reset >> pure p.status_failed)
              else (do nci_fsm_set_state rfst_idle; resend_core_config should_be_solo))
        else resend_core_config should_be_solo

  -- The first endpoint whose triggers were not called yet, with its index.
  unfoldable pub first_untriggered :
      ℕ → List (DiscoveredEndpoint p.NfcTag) → Option (ℕ × DiscoveredEndpoint p.NfcTag)
  first_untriggered i [] = none
  first_untriggered i (x ∷ xs) =
      if not x.trig_called then some (i, x) else first_untriggered (i + 1) xs

  abbrev pub endpoint_data : DiscoveredEndpoint p.NfcTag → List ℕ
  endpoint_data x = x.id ∷ x.protocol ∷ 0x01 ∷ []

  -- `selecting_endpoint_` is a `bool`: the index that is assigned to it becomes whether it is not 0.
  unfoldable pub choose_endpoint :
      DiscoveredEndpoint p.NfcTag → Option (ℕ × DiscoveredEndpoint p.NfcTag) → M p (List ℕ)
  choose_endpoint x none = pure (endpoint_data x)
  choose_endpoint x (some (i, y)) = do
    d ← get_dev
    put_dev (record d { selecting_endpoint = not (i == 0) })
    pure (endpoint_data y)

  unfoldable pub select_from : List (DiscoveredEndpoint p.NfcTag) → M p (Unit {0})
  select_from [] = stop_discovery >> nci_fsm_set_state rfst_idle
  select_from (x ∷ xs) = do
    payload ← choose_endpoint x (first_untriggered 0 (x ∷ xs))
    (status, rx) ← command p.rf_gid p.rf_discover_select_oid payload
    if not (status == p.status_ok) then pass else nci_fsm_set_state ep_selecting

  unfoldable pub select_endpoint : M p (Unit {0})
  select_endpoint = do d ← get_dev; select_from d.discovered_endpoint
