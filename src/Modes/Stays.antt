-- ===== src/Modes/Stays.antt =====
-- The test mode keeps an invariant.
use esphome_pn.Config.Quiet.{transceive-IsQuiet, reset_core-IsQuiet, init_core-IsQuiet}
use esphome_pn.States.Stays.{set_state-Stays, set_error_state-Stays}
use esphome_pn.Driver.Quiet.{quiet_rules, IsQuiet-range}
use esphome_pn.Driver.Stays.{Stays, stays_rules}
use esphome_pn.Prelude.{List, ℕ}
use esphome_pn.Modes.{
  set_test_mode, start_test, TestMode, test_none, test_prbs, test_antenna, test_get_register,
}
use esphome_pn.Invariant.{IsInvariant}
use esphome_pn.Driver.Core.{Core}
use esphome_pn.Platform.{Platform}

module _ ⦃p : Platform⦄ {R : Core p → Type 0} ⦃inv : IsInvariant R⦄ where
  start_test-Stays :
      (mode : TestMode) (payload result : List ℕ) → Stays R (start_test mode payload result)
  unfolding start_test
  start_test-Stays mode payload result =
      search
        (
          stays_rules, quiet_rules, IsQuiet-range, transceive-IsQuiet, reset_core-IsQuiet,
          init_core-IsQuiet, set_state-Stays, set_error_state-Stays,
        )
        depth 24

  pub set_test_mode-Stays :
      (mode : TestMode) (payload result : List ℕ) → Stays R (set_test_mode mode payload result)
  unfolding set_test_mode
  set_test_mode-Stays test_none payload result = search (stays_rules, set_state-Stays) depth 10
  set_test_mode-Stays test_prbs payload result = start_test-Stays test_prbs payload result
  set_test_mode-Stays test_antenna payload result = start_test-Stays test_antenna payload result
  set_test_mode-Stays test_get_register payload result =
      start_test-Stays test_get_register payload result
