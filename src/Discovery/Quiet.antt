-- ===== src/Discovery/Quiet.antt =====
-- Starting and stopping the discovery changes no member of the driver.
use esphome_pn.Config.Quiet.{transceive-IsQuiet}
use esphome_pn.Driver.Quiet.{IsQuiet, quiet_rules}
use esphome_pn.Discovery.{start_discovery, stop_discovery}
use esphome_pn.Platform.{Platform}

module _ ⦃p : Platform⦄ where
  pub start_discovery-IsQuiet : IsQuiet start_discovery
  unfolding start_discovery
  start_discovery-IsQuiet = search (quiet_rules, transceive-IsQuiet) depth 12

  pub stop_discovery-IsQuiet : IsQuiet stop_discovery
  unfolding stop_discovery
  stop_discovery-IsQuiet = search (quiet_rules, transceive-IsQuiet) depth 12
