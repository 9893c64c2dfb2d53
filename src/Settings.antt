-- ===== src/Settings.antt =====
-- The members as they begin, and the setters that the generated code calls before `setup`:
-- components/pn7160/pn7160.h.
pub mod Fresh
use esphome_pn.Modes.{set_tag_emulation_text, set_tag_emulation_on}
use esphome_pn.Driver.{Device, Sensitivity, medium, ep_read, card_emu_idle, nfcc_reset, none_state}
use esphome_pn.Prelude.{Bool, List, ℕ, false, ◌∷◌, ◌++◌, true, [], none}
use esphome_pn.Platform.{Platform}

module _ {p : Platform} where
  -- the initialisers of the members
  unfoldable pub initial : Device p
  initial = record {
    has_dwl_req_pin = false;
    has_wkup_req_pin = false;
    health_check_enabled = true;
    health_check_interval = 120000;
    last_health_check = 0;
    health_fail_count = 0;
    max_failed_checks = 5;
    auto_reset_on_failure = true;
    sensitivity = medium;
    proprietary_config = [];
    last_nci_state_change = 0;
    tag_ttl = 5000;
    polling_enabled = true;
    listening_enabled = false;
    selecting_endpoint = false;
    write_mode = false;
    config_refresh_pending = false;
    core_config_is_solo = true;
    next_task = ep_read;
    discovered_endpoint = [];
    ce_state = card_emu_idle;
    nci_state = nfcc_reset;
    nci_state_error = none_state;
    error_count = 0;
    card_emulation_message = none;
    next_task_message_to_write = none;
    triggers_ontag = [];
    triggers_ontagremoved = [];
    tag_listeners = [];
  }

  unfoldable pub set_health_check_enabled : Bool → Device p → Device p
  set_health_check_enabled enabled d = record d { health_check_enabled = enabled }

  unfoldable pub set_health_check_interval : ℕ → Device p → Device p
  set_health_check_interval interval d = record d { health_check_interval = interval }

  unfoldable pub set_max_failed_checks : ℕ → Device p → Device p
  set_max_failed_checks most d = record d { max_failed_checks = most }

  unfoldable pub set_auto_reset_on_failure : Bool → Device p → Device p
  set_auto_reset_on_failure reset d = record d { auto_reset_on_failure = reset }

  unfoldable pub set_sensitivity : Sensitivity → Device p → Device p
  set_sensitivity sensitivity d = record d { sensitivity = sensitivity }

  unfoldable pub set_proprietary_config : List ℕ → Device p → Device p
  set_proprietary_config config d = record d { proprietary_config = config }

  -- the pins that the driver can do without
  unfoldable pub set_dwl_req_pin : Device p → Device p
  set_dwl_req_pin d = record d { has_dwl_req_pin = true }

  unfoldable pub set_wkup_req_pin : Device p → Device p
  set_wkup_req_pin d = record d { has_wkup_req_pin = true }

  unfoldable pub set_tag_ttl : ℕ → Device p → Device p
  set_tag_ttl ttl d = record d { tag_ttl = ttl }

  unfoldable pub register_ontag_trigger : ℕ → Device p → Device p
  register_ontag_trigger trigger d = record d { triggers_ontag = d.triggers_ontag ++ trigger ∷ [] }

  unfoldable pub register_ontagremoved_trigger : ℕ → Device p → Device p
  register_ontagremoved_trigger trigger d = record d {
    triggers_ontagremoved = d.triggers_ontagremoved ++ trigger ∷ [];
  }

  unfoldable pub tag_emulation_enabled : Device p → Bool
  tag_emulation_enabled d = d.listening_enabled

  unfoldable pub is_polling_enabled : Device p → Bool
  is_polling_enabled d = d.polling_enabled

  unfoldable pub is_writing : Device p → Bool
  is_writing d = d.write_mode

-- one call of a setter
pub data Setting : Type 0 where
  health_check auto_reset : Bool → Setting
  interval most_failures ttl : ℕ → Setting
  sensitive : Sensitivity → Setting
  proprietary emulate : List ℕ → Setting
  dwl_req wkup_req : Setting
  ontag ontagremoved : ℕ → Setting

module _ ⦃p : Platform⦄ where
  -- A configured message for the emulated tag is set as a text, and the emulation switched on.
  unfoldable pub apply : Setting → Device p → Device p
  unfolding set_health_check_enabled set_auto_reset_on_failure set_health_check_interval
      set_max_failed_checks set_tag_ttl set_sensitivity set_proprietary_config
      set_tag_emulation_text set_tag_emulation_on set_dwl_req_pin set_wkup_req_pin
      register_ontag_trigger register_ontagremoved_trigger
  apply (health_check b) = set_health_check_enabled b
  apply (auto_reset b) = set_auto_reset_on_failure b
  apply (interval n) = set_health_check_interval n
  apply (most_failures n) = set_max_failed_checks n
  apply (ttl n) = set_tag_ttl n
  apply (sensitive x) = set_sensitivity x
  apply (proprietary bytes) = set_proprietary_config bytes
  apply (emulate text) = λ d. set_tag_emulation_on (set_tag_emulation_text text true d)
  apply dwl_req = set_dwl_req_pin
  apply wkup_req = set_wkup_req_pin
  apply (ontag trigger) = register_ontag_trigger trigger
  apply (ontagremoved trigger) = register_ontagremoved_trigger trigger

  -- The head of the list is the last call.
  unfoldable pub configured : List Setting → Device p
  unfolding apply initial
  configured [] = initial
  configured (x ∷ xs) = apply x (configured xs)
