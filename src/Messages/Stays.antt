-- ===== src/Messages/Stays.antt =====
-- Handling a message keeps an invariant.
use esphome_pn.Driver.Stays.{Stays, stays_rules, Stays-pass}
use esphome_pn.Endpoints.Quiet.{build_tag-IsQuiet}
use esphome_pn.Endpoints.Stays.{erase_tag-Stays}
use esphome_pn.Discovery.Quiet.{stop_discovery-IsQuiet}
use esphome_pn.Driver.Quiet.{IsQuiet-read_nfcc, IsQuiet-range, IsQuiet-element}
use esphome_pn.CardEmulation.Stays.{process_data_message-Stays}
use esphome_pn.States.Stays.{set_state-Stays}
use esphome_pn.States.{nci_fsm_set_state}
use esphome_pn.Driver.{NciState, rfst_listen_sleep, rfst_w4_host_select, rfst_idle}
use esphome_pn.Messages.Dispatch.{
  process_rf_notification, activation_failed, handle_message, process_notification, process_message,
  process_generic_error,
}
use esphome_pn.Prelude.{Bool, ℕ, List, Option, if◌then◌else◌, some, true, none, false, refl}
use esphome_pn.Messages.{
  process_rf_deactivate_oid, process_rf_intf_activated_oid, work_on_tag, process_rf_discover_oid,
  release_tag, read_mode, deactivated, set_option, remember_option,
}
use esphome_pn.Invariant.{IsInvariant}
use esphome_pn.Driver.Core.{Core}
use esphome_pn.Platform.{Platform}

module _ ⦃p : Platform⦄ {R : Core p → Type 0} ⦃inv : IsInvariant R⦄ where
  working-Stays : (i protocol : ℕ) (tag : Option p.NfcTag) → Stays R (work_on_tag i protocol tag)
  unfolding work_on_tag
  working-Stays i protocol none = Stays-pass
  working-Stays i protocol (some tag) = inv.working i protocol tag

  release_tag-Stays : Stays R release_tag
  unfolding release_tag read_mode
  release_tag-Stays = search (stays_rules, stop_discovery-IsQuiet, set_state-Stays) depth 12

  activated-Stays : (rx : List ℕ) → Stays R (process_rf_intf_activated_oid rx)
  unfolding process_rf_intf_activated_oid
  activated-Stays rx =
      search
        (
          stays_rules, set_state-Stays, IsQuiet-range, build_tag-IsQuiet, working-Stays,
          release_tag-Stays,
        )
        depth 16

  remember_option-Stays :
      (i protocol : ℕ) (tag : Option p.NfcTag) → Stays R (remember_option i protocol tag)
  remember_option-Stays i protocol none = Stays-pass
  remember_option-Stays i protocol (some tag) = search (stays_rules, inv.remembering) depth 10

  discover-Stays : (rx : List ℕ) → Stays R (process_rf_discover_oid rx)
  unfolding process_rf_discover_oid
  discover-Stays rx =
      search
        (
          stays_rules, set_state-Stays, IsQuiet-range, build_tag-IsQuiet, IsQuiet-element,
          remember_option-Stays,
        )
        depth 16

  set_option-if :
      (b : Bool) (x y : Option NciState)
      → Stays R (set_option x)
      → Stays R (set_option y)
      → Stays R (set_option (if b then x else y))
  set_option-if true x y hx hy = hx
  set_option-if false x y hx hy = hy

  slept-Stays :
      (a b : Bool)
      → Stays R (
          nci_fsm_set_state
            (if a then rfst_listen_sleep else if b then rfst_w4_host_select else rfst_idle))
  slept-Stays true b = set_state-Stays rfst_listen_sleep refl
  slept-Stays false true = set_state-Stays rfst_w4_host_select refl
  slept-Stays false false = set_state-Stays rfst_idle refl

  deactivated-Stays : (from : NciState) (type : ℕ) → Stays R (set_option (deactivated from type))
  deactivated-Stays from type =
      search (set_option-if, set_state-Stays, slept-Stays, Stays-pass) depth 10

  deactivate-Stays : (rx : List ℕ) → Stays R (process_rf_deactivate_oid rx)
  unfolding process_rf_deactivate_oid
  deactivate-Stays rx = search (stays_rules, deactivated-Stays) depth 10

  activation_failed-Stays : Stays R activation_failed
  unfolding activation_failed
  activation_failed-Stays =
      search (stays_rules, set_state-Stays, erase_tag-Stays, stop_discovery-IsQuiet) depth 12

  generic_error-Stays : (rx : List ℕ) → Stays R (process_generic_error rx)
  unfolding process_generic_error
  generic_error-Stays rx = search (stays_rules, activation_failed-Stays) depth 10

  rf_notification-Stays : (rx : List ℕ) → Stays R (process_rf_notification rx)
  unfolding process_rf_notification
  rf_notification-Stays rx =
      search (stays_rules, activated-Stays, discover-Stays, deactivate-Stays) depth 10

  notification-Stays : (rx : List ℕ) → Stays R (process_notification rx)
  unfolding process_notification
  notification-Stays rx = search (stays_rules, rf_notification-Stays, generic_error-Stays) depth 10

  handle_message-Stays : (rx : List ℕ) → Stays R (handle_message rx)
  unfolding handle_message
  handle_message-Stays rx =
      search (stays_rules, notification-Stays, process_data_message-Stays) depth 10

  pub process_message-Stays : Stays R process_message
  unfolding process_message
  process_message-Stays = search (stays_rules, IsQuiet-read_nfcc, handle_message-Stays) depth 10
