-- ===== src/Driver/Core.antt =====
-- The members that the invariants of the driver are about.
-- the states that the machine is ever put into
use esphome_pn.Prelude.{Bool, ℕ, List, false, true}
use esphome_pn.Driver.{NciState, Device, DiscoveredEndpoint, none_state, rfst_w4_all_discoveries}
use esphome_pn.Platform.{Platform}

abbrev pub is_live : NciState → Bool
is_live none_state = false
is_live rfst_w4_all_discoveries = false
is_live _ = true

-- the state, the state of the last error, the errors counted, the health checks failed and the limit
-- on these, the table of endpoints, and `write_mode_`
pub record Core (p : Platform) : Type 0 where
  pub state : NciState
  pub error : NciState
  pub errors : ℕ
  pub fails : ℕ
  pub most : ℕ
  pub endpoints : List (DiscoveredEndpoint p.NfcTag)
  pub writing : Bool

module _ {p : Platform} where
  abbrev pub core : Device p → Core p
  core d = record {
    state = d.nci_state;
    error = d.nci_state_error;
    errors = d.error_count;
    fails = d.health_fail_count;
    most = d.max_failed_checks;
    endpoints = d.discovered_endpoint;
    writing = d.write_mode;
  }
