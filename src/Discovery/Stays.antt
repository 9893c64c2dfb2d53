-- ===== src/Discovery/Stays.antt =====
-- Refreshing the configuration and selecting an endpoint keep an invariant.
use esphome_pn.Config.Quiet.{transceive-IsQuiet, send_rf_config-IsQuiet}
use esphome_pn.States.Stays.{set_state-Stays}
use esphome_pn.Driver.Quiet.{quiet_rules}
use esphome_pn.Discovery.Quiet.{stop_discovery-IsQuiet}
use esphome_pn.Driver.Stays.{Stays, stays_rules}
use esphome_pn.Driver.{DiscoveredEndpoint}
use esphome_pn.Prelude.{Bool, List, Option, ℕ, some, none, ◌∷◌, []}
use esphome_pn.Discovery.{
  select_endpoint, choose_endpoint, resend_core_config, select_from, refresh_core_config,
}
use esphome_pn.Config.{send_init_config, send_core_config}
use esphome_pn.Invariant.{IsInvariant}
use esphome_pn.Driver.Core.{Core}
use esphome_pn.Platform.{Platform}

module _ ⦃p : Platform⦄ {R : Core p → Type 0} ⦃inv : IsInvariant R⦄ where
  send_core_config-Stays : Stays R send_core_config
  unfolding send_core_config
  send_core_config-Stays = search (stays_rules, quiet_rules, transceive-IsQuiet) depth 10

  resend_core_config-Stays : (solo : Bool) → Stays R (resend_core_config solo)
  unfolding resend_core_config
  resend_core_config-Stays solo = search (stays_rules, send_core_config-Stays) depth 10

  pub refresh_core_config-Stays : Stays R refresh_core_config
  unfolding refresh_core_config
  refresh_core_config-Stays =
      search (stays_rules, resend_core_config-Stays, stop_discovery-IsQuiet, set_state-Stays) depth
        10

  pub send_init_config-Stays : Stays R send_init_config
  unfolding send_init_config
  send_init_config-Stays =
      search
        (
          stays_rules, quiet_rules, transceive-IsQuiet, send_rf_config-IsQuiet,
          send_core_config-Stays,
        )
        depth 10

  choose_endpoint-Stays :
      (x : DiscoveredEndpoint p.NfcTag) (found : Option (ℕ × DiscoveredEndpoint p.NfcTag))
      → Stays R (choose_endpoint x found)
  unfolding choose_endpoint
  choose_endpoint-Stays x none = search stays_rules
  choose_endpoint-Stays x (some (i, y)) = search stays_rules depth 10

  select_from-Stays : (xs : List (DiscoveredEndpoint p.NfcTag)) → Stays R (select_from xs)
  unfolding select_from
  select_from-Stays [] = search (stays_rules, stop_discovery-IsQuiet, set_state-Stays) depth 10
  select_from-Stays (x ∷ xs) =
      search (stays_rules, choose_endpoint-Stays, transceive-IsQuiet, set_state-Stays) depth 10

  pub select_endpoint-Stays : Stays R select_endpoint
  unfolding select_endpoint
  select_endpoint-Stays = search (stays_rules, select_from-Stays) depth 10
