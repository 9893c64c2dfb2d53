-- ===== src/Health.antt =====
-- `setup`, `loop`, `perform_health_check_` and `reset_via_ven_` of components/pn7160/pn7160.cpp.
pub mod Checks
pub mod Recovery
pub mod Failed
pub mod Stays
pub mod Well
use esphome_pn.Transceive.{nfcc_default_timeout, nfcc_init_timeout}
use esphome_pn.Fsm.{nci_fsm_transition}
use esphome_pn.Endpoints.{sub32, purge_old_tags}
use esphome_pn.States.{state_eq, nci_fsm_set_state}
use esphome_pn.Prelude.{Bool, ℕ, ◌+◌, ◌%◌, if◌then◌else◌, leb, ltb, not, ◌||◌, false, ◌&&◌, true}
use esphome_pn.Driver.{
  Device, NciState, M, ◌>>=◌, ◌>>◌, get_dev, digital_write, setup_pin, nfcc_reset, ep_deactivating,
  millis, pure, pass, put_dev, ep_selecting, delay, nfcc_init, nfcc_config, nfcc_set_discover_map,
  nfcc_set_listen_mode_routing,
}
use esphome_pn.Platform.{Platform, irq_pin, ven_pin, dwl_req_pin, wkup_req_pin}

module _ ⦃p : Platform⦄ where
  unfoldable pub reset_via_ven : M p (Unit {0})
  reset_via_ven = do
    digital_write ven_pin false
    delay nfcc_default_timeout
    digital_write ven_pin true
    delay nfcc_init_timeout
    nci_fsm_set_state nfcc_reset

  abbrev pub is_endpoint_state : NciState → Bool
  is_endpoint_state x = state_eq x ep_deactivating || state_eq x ep_selecting

  abbrev pub in_stuck_state : NciState → Bool
  in_stuck_state x =
      state_eq x nfcc_reset
      || state_eq x nfcc_init
      || state_eq x nfcc_config
      || state_eq x nfcc_set_discover_map
      || state_eq x nfcc_set_listen_mode_routing
      || state_eq x ep_deactivating
      || state_eq x ep_selecting

  abbrev pub stuck_too_long : Device p → ℕ → Bool
  stuck_too_long d now =
      let state_age = sub32 now d.last_nci_state_change in
      if is_endpoint_state d.nci_state
      then ltb 2000 state_age
      else ltb d.health_check_interval state_age

  -- a failed check: the count, and the reset once there are enough
  unfoldable pub count_failure : Device p → M p (Unit {0})
  count_failure d =
      let fails = (d.health_fail_count + 1) % 256 in
      if leb d.max_failed_checks fails
      then (do
        put_dev (record d { health_fail_count = 0 })
        if d.auto_reset_on_failure then reset_via_ven else pass)
      else put_dev (record d { health_fail_count = fails })

  unfoldable pub perform_health_check : M p (Unit {0})
  perform_health_check = do
    d ← get_dev
    if not d.health_check_enabled then pass else do
      now ← millis
      if ltb (sub32 now d.last_health_check) d.health_check_interval
          then pass
          else let d' = record d { last_health_check = now } in
            if in_stuck_state d.nci_state && stuck_too_long d now
            then count_failure d'
            else put_dev (record d' { health_fail_count = 0 })

  -- Recovery of the endpoint states. The clock is read only in these states.
  unfoldable pub is_stuck : M p Bool
  is_stuck = do
    d ← get_dev
    if is_endpoint_state d.nci_state
        then (do now ← millis; pure (ltb 2000 (sub32 now d.last_nci_state_change)))
        else pure false

  unfoldable pub loop : M p (Unit {0})
  loop = do
    stuck ← is_stuck
    if stuck
        then nci_fsm_set_state nfcc_reset
        else do perform_health_check; nci_fsm_transition; purge_old_tags

  unfoldable pub setup : M p (Unit {0})
  setup = do
    setup_pin irq_pin
    setup_pin ven_pin
    d ← get_dev
    (if d.has_dwl_req_pin then setup_pin dwl_req_pin else pass)
    (if d.has_wkup_req_pin then setup_pin wkup_req_pin else pass)
    nci_fsm_transition
