-- ===== src/Driver/Well.antt =====
-- The invariant of the driver between two calls, and rules for the actions that keep it.
use esphome_pn.Driver.Core.{is_live, Core}
use esphome_pn.States.{state_eq}
use esphome_pn.Prelude.{ℕ, ◌≡◌, false, true, ◌≤◌, ◌⊎◌}
use esphome_pn.Platform.{Platform}
use esphome_pn.Driver.{NciState, Device, none_state}

-- in terms of the members that it is about: the state, the state of the last error, the errors
-- counted, the health checks failed, and the limit on these
pub record Well (state error : NciState) (errors fails most : ℕ) : Type 0 where
  pub live : is_live state ≡ true
  pub errors_bounded : errors ≤ 11
  pub errors_explained : (state_eq error none_state ≡ false) ⊎ (errors ≡ 0)
  pub fails_bounded : fails ≤ most

abbrev pub IsWell : {p : Platform} → Device p → Type 0
IsWell d = Well d.nci_state d.nci_state_error d.error_count d.health_fail_count d.max_failed_checks

abbrev pub WellCore : {p : Platform} → Core p → Type 0
WellCore c = Well c.state c.error c.errors c.fails c.most
