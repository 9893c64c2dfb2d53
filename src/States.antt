-- ===== src/States.antt =====
-- `nci_fsm_set_state_` and `nci_fsm_set_error_state_` of components/pn7160/pn7160.cpp.
pub mod Errors
pub mod Stays
pub mod Well
use esphome_pn.Platform.{Platform, marked_failed}
use esphome_pn.Prelude.{ℕ, Bool, ◌==◌, if◌then◌else◌, ◌||◌, ◌+◌, ◌%◌, ltb}
use esphome_pn.Driver.{
  NciState, none_state, M, nfcc_reset, ◌>>=◌, get_dev, millis, nfcc_init, put_dev, nfcc_config,
  ◌>>◌, nfcc_set_discover_map, emit, nfcc_set_listen_mode_routing, rfst_idle, failed, pass,
  rfst_discovery, rfst_w4_all_discoveries, pure, rfst_w4_host_select, rfst_poll_active,
  rfst_listen_active, rfst_listen_sleep, ep_selecting, ep_deactivating, test,
}

abbrev pub nfcc_max_error_count : ℕ
nfcc_max_error_count = 10

-- `a == b` of two states, by their numbers in the enumeration
abbrev pub state_number : NciState → ℕ
state_number none_state = 0
state_number nfcc_reset = 1
state_number nfcc_init = 2
state_number nfcc_config = 3
state_number nfcc_set_discover_map = 4
state_number nfcc_set_listen_mode_routing = 5
state_number rfst_idle = 6
state_number rfst_discovery = 7
state_number rfst_w4_all_discoveries = 8
state_number rfst_w4_host_select = 9
state_number rfst_poll_active = 10
state_number rfst_listen_active = 11
state_number rfst_listen_sleep = 12
state_number ep_selecting = 13
state_number ep_deactivating = 14
state_number test = 15
state_number failed = 16

abbrev pub state_eq : NciState → NciState → Bool
state_eq a b = state_number a == state_number b

module _ ⦃p : Platform⦄ where
  unfoldable pub nci_fsm_set_state : NciState → M p (Unit {0})
  nci_fsm_set_state new_state = do
    now ← millis
    d ← get_dev
    put_dev (record d {
      nci_state = new_state;
      nci_state_error = none_state;
      error_count = 0;
      last_nci_state_change = now;
    })

  -- the reaction to an error past the limit
  unfoldable pub give_up : NciState → M p (Unit {0})
  unfolding nci_fsm_set_state
  give_up new_state =
      if state_eq new_state nfcc_reset
        || state_eq new_state nfcc_init
        || state_eq new_state nfcc_config
      then emit marked_failed >> nci_fsm_set_state failed
      else nci_fsm_set_state nfcc_reset

  unfoldable pub nci_fsm_set_error_state : NciState → M p Bool
  unfolding give_up
  nci_fsm_set_error_state new_state = do
    d ← get_dev
    put_dev (record d { nci_state_error = new_state; error_count = (d.error_count + 1) % 256 })
    (if ltb nfcc_max_error_count d.error_count then give_up new_state else pass)
    d' ← get_dev
    pure (ltb nfcc_max_error_count d'.error_count)
