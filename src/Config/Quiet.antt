-- ===== src/Config/Quiet.antt =====
-- The commands of the set-up change no member of the driver, except `send_core_config_`.
use esphome_pn.Transceive.Laws.{transceive-Answers}
use esphome_pn.Transceive.{transceive}
use esphome_pn.Driver.Quiet.{IsQuiet, quiet_rules, keeps}
use esphome_pn.Prelude.{List, ℕ, Bool, refl}
use esphome_pn.Config.{
  set_listen_mode_routing, send_rf_config, read_versions, power_up, init_core, reset_core,
  check_reset_notification, set_discover_map,
}
use esphome_pn.Platform.{Platform}

module _ ⦃p : Platform⦄ where
  pub transceive-IsQuiet :
      (tx rx : List ℕ) (timeout : ℕ) (expect_notification : Bool)
      → IsQuiet (transceive tx rx timeout expect_notification)
  transceive-IsQuiet tx rx timeout expect_notification = record {
    at = λ s. rw (transceive-Answers tx rx timeout expect_notification s).returns (
        keeps
          {s = record s { env = (transceive-Answers tx rx timeout expect_notification s).board }}
          refl);
  }

  power_up-IsQuiet : (has_dwl_req power : Bool) → IsQuiet (power_up has_dwl_req power)
  unfolding power_up
  power_up-IsQuiet has_dwl_req power = search quiet_rules depth 12

  check_reset_notification-IsQuiet :
      (reset_config : Bool) (rx : List ℕ) → IsQuiet (check_reset_notification reset_config rx)
  unfolding check_reset_notification
  check_reset_notification-IsQuiet reset_config rx = search quiet_rules depth 12

  pub reset_core-IsQuiet : (reset_config power : Bool) → IsQuiet (reset_core reset_config power)
  unfolding reset_core
  reset_core-IsQuiet reset_config power =
      search (quiet_rules, transceive-IsQuiet, power_up-IsQuiet, check_reset_notification-IsQuiet)
        depth 12

  read_versions-IsQuiet : (rx : List ℕ) → IsQuiet (read_versions rx)
  unfolding read_versions
  read_versions-IsQuiet rx = search quiet_rules depth 12

  pub init_core-IsQuiet : IsQuiet init_core
  unfolding init_core
  init_core-IsQuiet = search (quiet_rules, transceive-IsQuiet, read_versions-IsQuiet) depth 12

  pub send_rf_config-IsQuiet : IsQuiet send_rf_config
  unfolding send_rf_config
  send_rf_config-IsQuiet = search (quiet_rules, transceive-IsQuiet) depth 12

  pub set_discover_map-IsQuiet : IsQuiet set_discover_map
  unfolding set_discover_map
  set_discover_map-IsQuiet = search (quiet_rules, transceive-IsQuiet) depth 12

  pub set_listen_mode_routing-IsQuiet : IsQuiet set_listen_mode_routing
  unfolding set_listen_mode_routing
  set_listen_mode_routing-IsQuiet = search (quiet_rules, transceive-IsQuiet) depth 12
