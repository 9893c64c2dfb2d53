-- ===== src/States/Stays.antt =====
-- A change of the state keeps an invariant.
use esphome_pn.Driver.Stays.{Stays}
use esphome_pn.Driver.Quiet.{keeps}
use esphome_pn.Prelude.{◌≡◌, false, true}
use esphome_pn.States.{nci_fsm_set_state, state_eq, nci_fsm_set_error_state}
use esphome_pn.Driver.{NciState, none_state}
use esphome_pn.Invariant.{IsInvariant}
use esphome_pn.Driver.Core.{Core, is_live, core}
use esphome_pn.Platform.{Platform}

module _ ⦃p : Platform⦄ {R : Core p → Type 0} ⦃inv : IsInvariant R⦄ where
  pub set_state-Stays : (x : NciState) → is_live x ≡ true → Stays R (nci_fsm_set_state x)
  unfolding nci_fsm_set_state
  set_state-Stays x live = record { at = λ s w. keeps (inv.new_state (core s.dev) x live w) }

  pub set_error_state-Stays :
      (x : NciState) → state_eq x none_state ≡ false → Stays R (nci_fsm_set_error_state x)
  set_error_state-Stays = inv.error_state
